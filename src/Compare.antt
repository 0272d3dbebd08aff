-- ===== src/Compare.antt =====
-- Three-way comparisons: -1, 0 and 1 are `lt`, `eq` and `gt`. What makes one an ordering, and how
-- orderings are put together.
use Prim.Native.Nat.{compare, Ordering}
use mathlib.Core.Path.{fun_ext}
use gist.Prelude.{◌≡◌, refl, sym, subst, List, [], ◌∷◌, Bool, true, false, arith, if◌then◌else◌}
use gist.Sort.{StrictWeak}

abbrev pub flip : Ordering → Ordering
flip Ordering.lt = Ordering.gt
flip Ordering.eq = Ordering.eq
flip Ordering.gt = Ordering.lt

-- `if c != 0 { return c }`, then the rest.
abbrev pub or_then : Ordering → Ordering → Ordering
or_then Ordering.lt rest = Ordering.lt
or_then Ordering.eq rest = rest
or_then Ordering.gt rest = Ordering.gt

-- A comparison is a total preorder: turned round it gives the opposite answer, entries that compare
-- as equal compare alike with any other, and "less" is transitive.
pub record IsOrdering {A : Type 0} (cmp : A → A → Ordering) : Type 0 where
  pub turned : (a b : A) → cmp b a ≡ flip (cmp a b)
  pub alike : (a b c : A) → cmp a b ≡ Ordering.eq → cmp a c ≡ cmp b c
  pub less_trans :
      (a b c : A) → cmp a b ≡ Ordering.lt → cmp b c ≡ Ordering.lt → cmp a c ≡ Ordering.lt

pub compare-IsOrdering : IsOrdering compare
compare-IsOrdering = record {
  turned = λ a b. ground arith;
  alike = λ a b c h. ground arith;
  less_trans = λ a b c h k. ground arith;
}

pub IsOrdering-ext :
    {A : Type 0} (c d : A → A → Ordering)
    → ((a b : A) → c a b ≡ d a b)
    → IsOrdering d
    → IsOrdering c
IsOrdering-ext c d same w =
    subst (λ e. IsOrdering e) (sym (fun_ext (λ a. fun_ext (λ b. same a b)))) w

pub IsOrdering-on :
    {A B : Type 0} (f : A → B) (cmp : B → B → Ordering)
    → IsOrdering cmp
    → IsOrdering (λ (a b : A). cmp (f a) (f b))
IsOrdering-on f cmp w = record {
  turned = λ a b. w.turned (f a) (f b);
  alike = λ a b c h. w.alike (f a) (f b) (f c) h;
  less_trans = λ a b c h k. w.less_trans (f a) (f b) (f c) h k;
}

-- Where the second of two entries is replaced by one that compares as equal.
pub alike_right :
    {A : Type 0} (cmp : A → A → Ordering)
    → IsOrdering cmp
    → (a b c : A) → cmp b c ≡ Ordering.eq
    → cmp a b ≡ cmp a c
alike_right cmp w a b c h = ground (arith, w.turned b a, w.turned c a, w.alike b c a)

-- By one comparison, and where that gives 0 by another.
pub IsOrdering-or_then :
    {A : Type 0} (c d : A → A → Ordering)
    → IsOrdering c
    → IsOrdering d
    → IsOrdering (λ (a b : A). or_then (c a b) (d a b))
IsOrdering-or_then c d v w = record {
  turned = λ x y. ground (arith, v.turned x y, w.turned x y);
  alike = λ x y z h. ground (arith, v.alike x y z, w.alike x y z);
  less_trans = λ x y z h k.
      ground (arith, v.less_trans x y z, w.less_trans x y z, v.alike x y z, alike_right c v x y z);
}

-- All entries of one class before those of the other, each class by a comparison of its own.
abbrev pub by_class :
    {A : Type 0} → (A → Bool) → (A → A → Ordering) → (A → A → Ordering) → A → A → Ordering
by_class first c d a b =
    if first a
    then if first b then c a b else Ordering.lt
    else if first b
    then Ordering.gt
    else d a b

pub IsOrdering-by_class :
    {A : Type 0} (first : A → Bool) (c d : A → A → Ordering)
    → IsOrdering c
    → IsOrdering d
    → IsOrdering (by_class first c d)
IsOrdering-by_class first c d v w = record {
  turned = λ x y. ground (arith, v.turned x y, w.turned x y);
  alike = λ x y z h. ground (arith, v.alike x y z, w.alike x y z);
  less_trans = λ x y z h k. ground (arith, v.less_trans x y z, w.less_trans x y z);
}

-- Entry by entry; a list that is a front of another stands before it.
unfoldable pub lexicographic : {A : Type 0} → (A → A → Ordering) → List A → List A → Ordering
lexicographic cmp [] [] = Ordering.eq
lexicographic cmp [] (y ∷ ys) = Ordering.lt
lexicographic cmp (x ∷ xs) [] = Ordering.gt
lexicographic cmp (x ∷ xs) (y ∷ ys) = or_then (cmp x y) (lexicographic cmp xs ys)

module _ {A : Type 0} (cmp : A → A → Ordering) (w : IsOrdering cmp) where
  lexicographic-turned : (xs ys : List A) → lexicographic cmp ys xs ≡ flip (lexicographic cmp xs ys)
  unfolding lexicographic
  lexicographic-turned [] [] = refl
  lexicographic-turned [] (y ∷ ys) = refl
  lexicographic-turned (x ∷ xs) [] = refl
  lexicographic-turned (x ∷ xs) (y ∷ ys) = ground (arith, w.turned x y, lexicographic-turned xs ys)

  lexicographic-alike :
      (xs ys zs : List A)
      → lexicographic cmp xs ys ≡ Ordering.eq
      → lexicographic cmp xs zs ≡ lexicographic cmp ys zs
  unfolding lexicographic
  lexicographic-alike [] [] zs h = refl
  lexicographic-alike [] (y ∷ ys) zs h = absurd (cc)
  lexicographic-alike (x ∷ xs) [] zs h = absurd (cc)
  lexicographic-alike (x ∷ xs) (y ∷ ys) [] h = refl
  lexicographic-alike (x ∷ xs) (y ∷ ys) (z ∷ zs) h =
      ground (arith, w.alike x y z, lexicographic-alike xs ys zs)

  lexicographic-less_trans :
      (xs ys zs : List A)
      → lexicographic cmp xs ys ≡ Ordering.lt
      → lexicographic cmp ys zs ≡ Ordering.lt
      → lexicographic cmp xs zs ≡ Ordering.lt
  unfolding lexicographic
  lexicographic-less_trans [] ys [] h k = ground arith
  lexicographic-less_trans [] ys (z ∷ zs) h k = refl
  lexicographic-less_trans (x ∷ xs) [] zs h k = absurd (cc)
  lexicographic-less_trans (x ∷ xs) (y ∷ ys) [] h k = absurd (cc)
  lexicographic-less_trans (x ∷ xs) (y ∷ ys) (z ∷ zs) h k = ground (
    arith,
    w.less_trans x y z,
    w.alike x y z,
    alike_right cmp w x y z,
    lexicographic-less_trans xs ys zs,
  )

  pub lexicographic-IsOrdering : IsOrdering (lexicographic cmp)
  lexicographic-IsOrdering = record {
    turned = lexicographic-turned;
    alike = lexicographic-alike;
    less_trans = lexicographic-less_trans;
  }

abbrev pub is_less : Ordering → Bool
is_less Ordering.lt = true
is_less Ordering.eq = false
is_less Ordering.gt = false

-- "Less" by an ordering is a strict weak order.
pub is_less-StrictWeak :
    {A : Type 0} (cmp : A → A → Ordering)
    → IsOrdering cmp
    → StrictWeak (λ (a b : A). is_less (cmp a b))
is_less-StrictWeak cmp w = record {
  asym = λ a b h. ground (arith, w.turned a b);
  not_less_trans = λ a b c h k. ground (arith, w.alike a b c, w.turned a b, w.less_trans b a c);
}
