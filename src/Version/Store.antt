-- ===== src/Version/Store.antt =====
-- hosted/internal/storage/versions.go: the versions of each artifact, in SemVer order. The map is
-- a function of its key, and a key that is not in it has no versions.
use mathlib.Core.List.{
  Perm, Nodup, Mem, Nodup-nil, Nodup-cons, perm_append_singleton, mem-cons, mem-cons_self,
  mem-cons_of_mem, not-mem-nil,
}
use mathlib.Core.Logic.Or
use mathlib.Core.List.Perm
use gist.Prelude.{
  ℕ, ◌≡◌, ◌≢◌, refl, sym, List, [], ◌∷◌, ◌++◌, map, Bool, true, false, ◌||◌, Option, none, some,
  arith, if◌then◌else◌, if_cases, Bool-cases, inl, inr,
}
use gist.Text.{Bytes, codes, is_empty, bytes_eq}
use gist.Text.Laws.{bytes_eq→eq, eq→bytes_eq, bytes_eq_self}
use gist.Sort.{SliceSort, StrictWeak, IsSorted}
use gist.Compare.{is_less, is_less-StrictWeak, IsOrdering-on}
use gist.Catalog.{ArtifactRef, Digest}
use gist.Version.{compare_semver}
use gist.Version.Order.{compare_semver-IsOrdering}

pub record Version : Type 0 where
  pub ref : ArtifactRef
  pub state : Bytes
  pub digest : Digest
  pub created_at : ℕ
  pub revoked_at : ℕ

pub data AddError : Type 0 where
  incomplete_reference conflict : AddError

abbrev pub VersionStore : Type 0
VersionStore = Bytes → List Version

unfoldable pub new_version_store : VersionStore
new_version_store key = []

unfoldable pub key_of : Bytes → Bytes → Bytes → Bytes
key_of workspace kind id = workspace ++ (codes "/" ++ (kind ++ (codes "/" ++ id)))

abbrev pub version_less : Version → Version → Bool
version_less v w = is_less (compare_semver v.ref.version w.ref.version)

abbrev pub lacks_part : Version → Bool
lacks_part v = is_empty v.ref.workspace_id || is_empty v.ref.id || is_empty v.ref.version

-- The loop over the versions that are there.
unfoldable pub has_version : List Version → Bytes → Bool
has_version [] version = false
has_version (v ∷ vs) version =
    let rest = has_version vs version in if bytes_eq v.ref.version version then true else rest

unfoldable pub list_versions : VersionStore → Bytes → Bytes → Bytes → List Version
unfolding key_of
list_versions s workspace kind id = s (key_of workspace kind id)

abbrev pub key_of_version : Version → Bytes
key_of_version v = key_of v.ref.workspace_id v.ref.kind v.ref.id

abbrev pub put_versions : VersionStore → Bytes → List Version → VersionStore
put_versions s key vs k = if bytes_eq k key then vs else s k

abbrev pub versions_of : List Version → List Bytes
versions_of = map (λ (v : Version). v.ref.version)

version_less-StrictWeak : StrictWeak version_less
version_less-StrictWeak =
    is_less-StrictWeak (λ (v w : Version). compare_semver v.ref.version w.ref.version)
      (IsOrdering-on (λ (v : Version). v.ref.version) compare_semver compare_semver-IsOrdering)

Mem-has_version : (vs : List Version) (n : Bytes) → Mem n (versions_of vs) → has_version vs n ≡ true
unfolding has_version
Mem-has_version [] n m = absurd (not-mem-nil m)
Mem-has_version (v ∷ vs) n m =
    Or.elim (hlevel) (mem-cons.0 m) (λ e. rw (eq→bytes_eq v.ref.version n (sym e)) refl)
      (λ later. ground (arith, Mem-has_version vs n later))

has_version-Mem : (vs : List Version) (n : Bytes) → has_version vs n ≡ true → Mem n (versions_of vs)
unfolding has_version
has_version-Mem [] n h = absurd (cc)
has_version-Mem (v ∷ vs) n h = elim (Bool-cases (bytes_eq v.ref.version n)) [
  | inl here ↦ rw (bytes_eq→eq v.ref.version n here) mem-cons_self
  | inr other ↦ mem-cons_of_mem v.ref.version (has_version-Mem vs n (ground arith))
]

-- The versions of each artifact stand in SemVer order, and none stands there twice.
pub record IsOrdered (s : VersionStore) : Type 0 where
  pub sorted : (key : Bytes) → IsSorted version_less (s key)
  pub distinct : (key : Bytes) → Nodup (versions_of (s key))

-- What a call of `Add` comes to: the store keeps its order; a refused call changes nothing; one
-- that is not refused adds just this version, under its own key.
pub data Added (s : VersionStore) (v : Version) : VersionStore × Option AddError → Type 0 where
  incomplete : lacks_part v ≡ true → Added s v (s, some incomplete_reference)
  taken : Mem v.ref.version (versions_of (s (key_of_version v))) → Added s v (s, some conflict)
  new :
      {s' : VersionStore}
      → lacks_part v ≡ false
      → ¬ Mem v.ref.version (versions_of (s (key_of_version v)))
      → IsOrdered s'
      → Perm (s' (key_of_version v)) (v ∷ s (key_of_version v))
      → ((key : Bytes) → key ≢ key_of_version v → s' key ≡ s key)
      → Added s v (s', none)

module _ (sorter : SliceSort Version) where
  unfoldable pub add : VersionStore → Version → VersionStore × Option AddError
  unfolding has_version
  add s v =
      if lacks_part v
      then (s, some incomplete_reference)
      else if has_version (s (key_of_version v)) v.ref.version
      then (s, some conflict)
      else (
        put_versions s (key_of_version v)
            (sorter.run version_less (s (key_of_version v) ++ v ∷ [])),
        none,
      )

  abbrev sorted_with : VersionStore → Version → List Version
  sorted_with s v = sorter.run version_less (s (key_of_version v) ++ v ∷ [])

  sorted_with-perm :
      (s : VersionStore) (v : Version) → Perm (sorted_with s v) (v ∷ s (key_of_version v))
  sorted_with-perm s v =
      Perm.trans (sorter.run-perm version_less (s (key_of_version v) ++ v ∷ []))
        (perm_append_singleton v (s (key_of_version v)))

  sorted_with-Nodup :
      (s : VersionStore) (v : Version)
      → Nodup (versions_of (s (key_of_version v)))
      → has_version (s (key_of_version v)) v.ref.version ≡ false
      → Nodup (versions_of (sorted_with s v))
  sorted_with-Nodup s v d fresh =
      Perm.nodup (Perm.symm (Perm.map (λ (w : Version). w.ref.version) (sorted_with-perm s v))) (
        Nodup-cons.1
          ((λ m. absurd (cc (Mem-has_version (s (key_of_version v)) v.ref.version m))), d))

  abbrev added : VersionStore → Version → VersionStore
  added s v = put_versions s (key_of_version v) (sorted_with s v)

  added-IsOrdered :
      (s : VersionStore) (v : Version)
      → IsOrdered s
      → has_version (s (key_of_version v)) v.ref.version ≡ false
      → IsOrdered (added s v)
  added-IsOrdered s v h fresh = record {
    sorted = λ k.
        if_cases (IsSorted version_less) (bytes_eq k (key_of_version v))
          (λ _. sorter.run-IsSorted version_less version_less-StrictWeak _) (λ _. h.sorted k);
    distinct = λ k.
        if_cases (λ vs. Nodup (versions_of vs)) (bytes_eq k (key_of_version v))
          (λ _. sorted_with-Nodup s v (h.distinct (key_of_version v)) fresh) (λ _. h.distinct k);
  }

  -- A call of `Add` on a store in order refuses exactly a reference with an empty part and then a
  -- version that is there, and changes nothing; else it adds just this version, to the list of its
  -- own artifact, and the store is in order again.
  pub add-Added : (s : VersionStore) (v : Version) → IsOrdered s → Added s v (add s v)
  unfolding add
  add-Added s v h = elim (Bool-cases (lacks_part v)) [
    | inl e ↦ rw e (incomplete e)
    | inr complete ↦
        rw complete (elim (Bool-cases (has_version (s (key_of_version v)) v.ref.version)) [
          | inl e ↦ rw e (taken (has_version-Mem (s (key_of_version v)) v.ref.version e))
          | inr e ↦ rw e (
              new complete (λ m. cc (Mem-has_version (s (key_of_version v)) v.ref.version m))
                (added-IsOrdered s v h e)
                (rw (bytes_eq_self (key_of_version v)) (sorted_with-perm s v))
                (λ key other. other_key key (key_of_version v) _ _ other))
        ])
  ]
    where
      other_key :
          (key k : Bytes) (vs ws : List Version)
          → key ≢ k
          → (if bytes_eq key k then vs else ws) ≡ ws
      other_key key k vs ws other = ground (arith, bytes_eq→eq key k)

  -- A store to which versions were added, one call behind the other, refused calls included.
  pub data Reached : VersionStore → Type 0 where
    begin : Reached new_version_store
    call : (s : VersionStore) (v : Version) → Reached s → Reached (add s v).0

  -- After any sequence of calls of `Add` on a new store, refused ones included, the versions that
  -- `List` returns for an artifact stand in SemVer order, and no version stands there twice.
  pub Reached-IsOrdered : {s : VersionStore} → Reached s → IsOrdered s
  unfolding new_version_store
  Reached-IsOrdered begin = record { sorted = λ k. tt; distinct = λ k. Nodup-nil }
  Reached-IsOrdered (call s v r) =
      ordered_after (Reached-IsOrdered r) (add-Added s v (Reached-IsOrdered r))
    where
      ordered_after :
          {r : VersionStore × Option AddError} → IsOrdered s → Added s v r → IsOrdered r.0
      ordered_after h (incomplete e) = h
      ordered_after h (taken m) = h
      ordered_after h (new c m h' p o) = h'
