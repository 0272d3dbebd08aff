-- ===== src/Sort.antt =====
-- `sort.Slice`, as the interface that its callers rely on: the result holds the same entries, and
-- where the test is a strict weak order no entry stands behind a greater one. The order of
-- equal entries is left open, as in Go. An insertion sort shows that the interface can be met.
use mathlib.Core.List.{Perm}
use mathlib.Core.List.Perm
use gist.Prelude.{◌≡◌, List, [], ◌∷◌, Bool, true, false, if◌then◌else◌, All, Bool-cases, inl, inr}

module _ {A : Type 0} where
  -- `less` is a strict weak order: "not less" is transitive, and "less" is asymmetric.
  pub record StrictWeak (less : A → A → Bool) : Type 0 where
    pub asym : (a b : A) → less a b ≡ true → less b a ≡ false
    pub not_less_trans : (a b c : A) → less a b ≡ false → less b c ≡ false → less a c ≡ false

  -- No entry is less than one before it.
  abbrev pub IsSorted : (A → A → Bool) → List A → Type 0
  IsSorted less [] = Unit {0}
  IsSorted less (x ∷ xs) = All (λ y. less y x ≡ false) xs × IsSorted less xs

  insert : (A → A → Bool) → A → List A → List A
  insert less x [] = x ∷ []
  insert less x (y ∷ ys) = if less y x then y ∷ insert less x ys else x ∷ y ∷ ys

  unfoldable pub insertion_sort : (A → A → Bool) → List A → List A
  unfolding insert
  insertion_sort less [] = []
  insertion_sort less (x ∷ xs) = insert less x (insertion_sort less xs)

  insert-perm : (less : A → A → Bool) (x : A) (xs : List A) → Perm (insert less x xs) (x ∷ xs)
  unfolding insert
  insert-perm less x [] = Perm.refl (x ∷ [])
  insert-perm less x (y ∷ ys) = elim (Bool-cases (less y x)) [
    | inl before ↦ rw before (Perm.trans (Perm.cons y (insert-perm less x ys)) (Perm.swap x y ys))
    | inr behind ↦ rw behind (Perm.refl (x ∷ y ∷ ys))
  ]

  pub insertion_sort-perm : (less : A → A → Bool) (xs : List A) → Perm (insertion_sort less xs) xs
  unfolding insertion_sort
  insertion_sort-perm less [] = Perm.nil
  insertion_sort-perm less (x ∷ xs) =
      Perm.trans (insert-perm less x (insertion_sort less xs))
        (Perm.cons x (insertion_sort-perm less xs))

  insert-All :
      (P : A → Type 0) (less : A → A → Bool) (x : A) (xs : List A)
      → P x
      → All P xs
      → All P (insert less x xs)
  unfolding insert
  insert-All P less x [] p h = (p, tt)
  insert-All P less x (y ∷ ys) p h = elim (Bool-cases (less y x)) [
    | inl before ↦ rw before (h.0, insert-All P less x ys p h.1)
    | inr behind ↦ rw behind (p, h)
  ]

  All-not_less :
      (less : A → A → Bool)
      → StrictWeak less
      → (x y : A) (ys : List A) → less y x ≡ false
      → All (λ z. less z y ≡ false) ys
      → All (λ z. less z x ≡ false) ys
  All-not_less less w x y [] e h = tt
  All-not_less less w x y (z ∷ zs) e h =
      (w.not_less_trans z y x h.0 e, All-not_less less w x y zs e h.1)

  insert-IsSorted :
      (less : A → A → Bool)
      → StrictWeak less
      → (x : A) (xs : List A) → IsSorted less xs
      → IsSorted less (insert less x xs)
  unfolding insert
  insert-IsSorted less w x [] h = (tt, tt)
  insert-IsSorted less w x (y ∷ ys) h = elim (Bool-cases (less y x)) [
    | inl before ↦
        rw before (insert-All _ less x ys (w.asym y x before) h.0, insert-IsSorted less w x ys h.1)
    | inr behind ↦ rw behind ((behind, All-not_less less w x y ys behind h.0), h)
  ]

  pub insertion_sort-IsSorted :
      (less : A → A → Bool)
      → StrictWeak less
      → (xs : List A) → IsSorted less (insertion_sort less xs)
  unfolding insertion_sort
  insertion_sort-IsSorted less w [] = tt
  insertion_sort-IsSorted less w (x ∷ xs) =
      insert-IsSorted less w x (insertion_sort less xs) (insertion_sort-IsSorted less w xs)

pub record SliceSort (A : Type 0) : Type 0 where
  pub run : (A → A → Bool) → List A → List A
  pub run-perm : (less : A → A → Bool) (xs : List A) → Perm (run less xs) xs
  pub run-IsSorted :
      (less : A → A → Bool) → StrictWeak less → (xs : List A) → IsSorted less (run less xs)

abbrev pub by_insertion : (A : Type 0) → SliceSort A
by_insertion A = record {
  run = insertion_sort;
  run-perm = insertion_sort-perm;
  run-IsSorted = insertion_sort-IsSorted;
}
