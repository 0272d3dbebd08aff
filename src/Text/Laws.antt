-- ===== src/Text/Laws.antt =====
-- What the tests on strings decide.
use gist.Prelude.{◌≡◌, refl, ap, inl, inr, [], ◌∷◌, ◌++◌, true, arith, Bool-cases}
use gist.Text.{Bytes, bytes_eq, has_prefix, contains}

pub bytes_eq→eq : (a b : Bytes) → bytes_eq a b ≡ true → a ≡ b
unfolding bytes_eq
bytes_eq→eq [] [] h = refl
bytes_eq→eq [] (c ∷ t) h = cc
bytes_eq→eq (b ∷ s) [] h = cc
bytes_eq→eq (b ∷ s) (c ∷ t) h = ground (arith, bytes_eq→eq s t)

pub bytes_eq_self : (a : Bytes) → bytes_eq a a ≡ true
unfolding bytes_eq
bytes_eq_self [] = refl
bytes_eq_self (c ∷ s) = ground (arith, bytes_eq_self s)

pub eq→bytes_eq : (a b : Bytes) → a ≡ b → bytes_eq a b ≡ true
eq→bytes_eq a b e = rw e (bytes_eq_self b)

-- A prefix is what stands before a rest.
pub has_prefix→split : (s p : Bytes) → has_prefix s p ≡ true → (rest : Bytes) × (s ≡ p ++ rest)
unfolding has_prefix
has_prefix→split s [] h = (s, refl)
has_prefix→split [] (c ∷ p) h = absurd (cc)
has_prefix→split (b ∷ s) (c ∷ p) h =
    let (rest, e) = has_prefix→split s p (ground arith) in (rest, ground arith)

pub has_prefix-append : (p rest : Bytes) → has_prefix (p ++ rest) p ≡ true
unfolding has_prefix
has_prefix-append [] rest = prefix_nil rest
  where
    prefix_nil : (s : Bytes) → has_prefix s [] ≡ true
    prefix_nil [] = refl
    prefix_nil (c ∷ s) = refl
has_prefix-append (c ∷ p) rest = ground (arith, has_prefix-append p rest)

-- `p` stands somewhere in `s`.
pub record Occurs (p s : Bytes) : Type 0 where
  pub before : Bytes
  pub behind : Bytes
  pub whole : s ≡ before ++ (p ++ behind)

pub contains→Occurs : (s p : Bytes) → contains s p ≡ true → Occurs p s
unfolding contains
contains→Occurs [] p h =
    let (rest, e) = has_prefix→split [] p h in record { before = []; behind = rest; whole = e }
contains→Occurs (c ∷ s) p h = elim (Bool-cases (has_prefix (c ∷ s) p)) [
  | inl here ↦
      let (rest, e) = has_prefix→split (c ∷ s) p here in
      record { before = []; behind = rest; whole = e }
  | inr later ↦
      let o = contains→Occurs s p (ground arith) in
      record { before = c ∷ o.before; behind = o.behind; whole = ap (◌∷◌ c) o.whole }
]

contains-append : (before p behind : Bytes) → contains (before ++ (p ++ behind)) p ≡ true
unfolding contains
contains-append [] [] [] = unfold has_prefix in refl
contains-append [] [] (c ∷ s) = unfold has_prefix in refl
contains-append [] (c ∷ p) behind = rw (has_prefix-append (c ∷ p) behind) refl
contains-append (c ∷ before) p behind = ground (arith, contains-append before p behind)

pub Occurs→contains : (s p : Bytes) → Occurs p s → contains s p ≡ true
Occurs→contains s p o = rw o.whole (contains-append o.before p o.behind)
