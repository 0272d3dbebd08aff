-- ===== src/Enrollment/Scopes.antt =====
-- enrollment.go: `subset` beside the sets it stands for.
use mathlib.Core.List.{
  Nodup, Mem, Nodup-nil, Nodup-cons, mem-cons, mem-cons_self, mem-cons_of_mem, not-mem-nil,
}
use mathlib.Core.Logic.Or
use gist.Prelude.{◌≡◌, subst, refl, sym, List, [], ◌∷◌, true, false, arith, Bool-cases, inl, inr}
use gist.Text.{Bytes, bytes_eq, is_empty}
use gist.Text.Laws.{bytes_eq→eq, eq→bytes_eq}
use gist.Enrollment.Checks.{has_item, subset, subset_from}

pub Mem-has_item : (xs : List Bytes) (v : Bytes) → Mem v xs → has_item xs v ≡ true
unfolding has_item
Mem-has_item [] v m = absurd (not-mem-nil m)
Mem-has_item (x ∷ xs) v m =
    Or.elim (hlevel) (mem-cons.0 m) (λ e. rw (eq→bytes_eq x v (sym e)) refl)
      (λ later. ground (arith, Mem-has_item xs v later))

pub has_item-Mem : (xs : List Bytes) (v : Bytes) → has_item xs v ≡ true → Mem v xs
unfolding has_item
has_item-Mem [] v h = absurd (cc)
has_item-Mem (x ∷ xs) v h = elim (Bool-cases (bytes_eq x v)) [
  | inl here ↦ rw (bytes_eq→eq x v here) mem-cons_self
  | inr other ↦ mem-cons_of_mem x (has_item-Mem xs v (ground arith))
]

-- Scopes without a repetition, each of them written out and allowed.
pub record AreGranted (allowed items : List Bytes) : Type 0 where
  pub distinct : Nodup items
  pub known : (v : Bytes) → Mem v items → (is_empty v ≡ false) × Mem v allowed

subset_from-AreGranted :
    (allowed seen items : List Bytes)
    → subset_from allowed seen items ≡ true
    → AreGranted allowed items × ((v : Bytes) → Mem v items → ¬ Mem v seen)
unfolding subset_from
subset_from-AreGranted allowed seen [] h = (
  record { distinct = Nodup-nil; known = λ v m. absurd (not-mem-nil m) },
  λ v m. absurd (not-mem-nil m),
)
subset_from-AreGranted allowed seen (x ∷ xs) h =
    let (later, apart) = subset_from-AreGranted allowed (x ∷ seen) xs (ground arith) in
    let filled : is_empty x ≡ false = ground arith in
    let fresh : has_item seen x ≡ false = ground arith in
    let listed : has_item allowed x ≡ true = ground arith in
    (
      record {
        distinct = Nodup-cons.1 ((λ m. apart x m mem-cons_self), later.distinct);
        known = λ v m.
            Or.elim (hlevel) (mem-cons.0 m) (λ e. rw e (filled, has_item-Mem allowed x listed))
              (λ n. later.known v n);
      },
      λ v m n.
          Or.elim (hlevel) (mem-cons.0 m)
            (λ e. cc (Mem-has_item seen x (subst (λ y. Mem y seen) e n)))
            (λ n'. apart v n' (mem-cons_of_mem x n)),
    )

pub subset-AreGranted :
    (items allowed : List Bytes) → subset items allowed ≡ true → AreGranted allowed items
unfolding subset
subset-AreGranted items allowed h = (subset_from-AreGranted allowed [] items h).0
