-- ===== src/Resolution/RoundTrip.antt =====
-- resolve.go: references as text and back.
use gist.Prelude.{
  ℕ, ◌+◌, ◌/◌, ◌≤◌, ◌≡◌, refl, [], ◌∷◌, ◌++◌, true, false, Option, none, some, ◌==◌, arith,
  Bool-cases, Option-cases, inl, inr, ℤ, pos, negsuc, pos_part, is_positive,
}
use gist.Text.{Bytes, is_empty}
use gist.Catalog.{ArtifactRef}
use gist.Resolution.References.{at_sign, cut_at, has_at, capability_ref, parse_ref}
use gist.Resolution.{lease_expiry, max_lease, second}

cut_at-append : (a b : Bytes) → has_at a ≡ false → cut_at (a ++ at_sign ∷ b) ≡ some (a, b)
unfolding cut_at has_at
cut_at-append [] b h = refl
cut_at-append (c ∷ a) b h = ground (arith, cut_at-append a b)

cut_at-whole :
    (v a b : Bytes) → cut_at v ≡ some (a, b) → (v ≡ a ++ at_sign ∷ b) × (has_at a ≡ false)
unfolding cut_at has_at
cut_at-whole [] a b h = absurd (cc)
cut_at-whole (c ∷ s) a b h = elim (Bool-cases (c == at_sign)) [
  | inl here ↦ ground arith
  | inr later ↦ elim (Option-cases (cut_at s)) [
    | inl e ↦ absurd (ground arith)
    | inr ((a', b'), e) ↦ let (whole, free) = cut_at-whole s a' b' e in ground arith
  ]
]

-- The parts of a reference that its text can hold.
pub record IsExact (r : ArtifactRef) : Type 0 where
  pub id : is_empty r.id ≡ false
  pub id_free : has_at r.id ≡ false
  pub version : is_empty r.version ≡ false
  pub version_free : has_at r.version ≡ false

-- A reference with parts that are not empty and hold no "@" is read back from its text; every text
-- that is read is the text of the reference that it gives, which has such parts.
pub parse_ref-capability_ref :
    (r : ArtifactRef) (value : Bytes)
    → (IsExact r → parse_ref r.workspace_id r.kind (capability_ref r) ≡ some r)
      × (parse_ref r.workspace_id r.kind value ≡ some r → (capability_ref r ≡ value) × IsExact r)
unfolding parse_ref capability_ref
parse_ref-capability_ref r value = (
  λ h.
      let cut = cut_at-append r.id r.version h.id_free in
      let id = h.id in let version = h.version in let free = h.version_free in ground arith,
  λ h. read (cut_at value) refl h,
)
  where
    read :
        (o : Option (Bytes × Bytes))
        → cut_at value ≡ o
        → parse_ref r.workspace_id r.kind value ≡ some r
        → (capability_ref r ≡ value) × IsExact r
    read none e h = absurd (ground arith)
    read (some (a, b)) e h =
        let (whole, free) = cut_at-whole value a b e in
        let id : r.id ≡ a = ground arith in
        let version : r.version ≡ b = ground arith in
        (
          ground arith,
          record {
            id = ground arith;
            id_free = ground arith;
            version = ground arith;
            version_free = ground arith;
          },
        )

-- A lease ends after at most 60 seconds, and not before now; one of up to 60 seconds is granted.
pub lease_expiry_bounds :
    (now : ℕ) (requested : ℤ)
    → (now / second ≤ lease_expiry now requested)
      × (lease_expiry now requested ≤ (now + max_lease) / second)
      × (is_positive requested ≡ true
          → pos_part requested ≤ max_lease
          → lease_expiry now requested ≡ (now + pos_part requested) / second)
unfolding lease_expiry
lease_expiry_bounds now (pos n) = (ground arith, ground arith, λ h k. ground arith)
lease_expiry_bounds now (negsuc n) = (ground arith, ground arith, λ h k. ground arith)
