-- ===== src/Version/Order.antt =====
-- semver.go: the comparisons put together from simpler ones, and that they are orderings.
use Prim.Native.Nat.{compare, Ordering}
use gist.Prelude.{
  ℕ, suc, ◌≡◌, refl, sym, ap, subst, List, [], ◌∷◌, Option, none, some, arith, length, not,
}
use gist.Text.{Bytes, is_empty, trim_left_set}
use gist.Compare.{
  flip, IsOrdering, or_then, by_class, lexicographic, compare-IsOrdering, IsOrdering-ext,
  IsOrdering-on, IsOrdering-or_then, IsOrdering-by_class, lexicographic-IsOrdering,
}
use gist.Version.{
  Semver, is_zero, is_numeric, compare_bytes, compare_int, compare_numeric, compare_identifier,
  compare_identifiers, compare_prerelease, compare_parsed, compare_results, compare_semver,
  parse_semver,
}

compare_int-compare : (a b : ℕ) → compare_int a b ≡ compare a b
unfolding compare_int
compare_int-compare a b = ground arith

compare_int-suc : (a b : ℕ) → compare_int (suc a) (suc b) ≡ compare_int a b
unfolding compare_int
compare_int-suc a b = ground arith

compare_bytes-lexicographic : (s t : Bytes) → compare_bytes s t ≡ lexicographic compare s t
unfolding compare_bytes lexicographic
compare_bytes-lexicographic [] [] = refl
compare_bytes-lexicographic [] (c ∷ t) = refl
compare_bytes-lexicographic (b ∷ s) [] = refl
compare_bytes-lexicographic (b ∷ s) (c ∷ t) = ground (arith, compare_bytes-lexicographic s t)

pub compare_bytes-IsOrdering : IsOrdering compare_bytes
compare_bytes-IsOrdering =
    IsOrdering-ext compare_bytes (lexicographic compare) compare_bytes-lexicographic
      (lexicographic-IsOrdering compare compare-IsOrdering)

compare_int-IsOrdering : IsOrdering compare_int
compare_int-IsOrdering = IsOrdering-ext compare_int compare compare_int-compare compare-IsOrdering

pub compare_numeric-IsOrdering : IsOrdering compare_numeric
unfolding compare_numeric
compare_numeric-IsOrdering = IsOrdering-on (trim_left_set is_zero) _ (
    IsOrdering-or_then _ compare_bytes
      (IsOrdering-on (λ (s : Bytes). length s) compare_int compare_int-IsOrdering)
      compare_bytes-IsOrdering)

compare_identifier-IsOrdering : IsOrdering compare_identifier
compare_identifier-IsOrdering =
    IsOrdering-ext compare_identifier (by_class is_numeric compare_numeric compare_bytes) same (
      IsOrdering-by_class is_numeric compare_numeric compare_bytes compare_numeric-IsOrdering
        compare_bytes-IsOrdering)
  where
    same :
        (a b : Bytes)
        → compare_identifier a b ≡ by_class is_numeric compare_numeric compare_bytes a b
    same a b = unfold compare_identifier in ground arith

-- The loop with the comparison of the lengths behind it is the lexicographic order.
compare_identifiers-lexicographic :
    (s t : List Bytes)
    → compare_identifiers (compare_int (length s) (length t)) s t
      ≡ lexicographic compare_identifier s t
unfolding compare_identifiers lexicographic
compare_identifiers-lexicographic [] [] = unfold compare_int in refl
compare_identifiers-lexicographic [] (b ∷ t) = unfold compare_int in ground arith
compare_identifiers-lexicographic (a ∷ s) [] = unfold compare_int in ground arith
compare_identifiers-lexicographic (a ∷ s) (b ∷ t) =
    subst
      (λ last.
        or_then (compare_identifier a b) (compare_identifiers last s t)
        ≡ or_then (compare_identifier a b) (lexicographic compare_identifier s t))
      (sym (compare_int-suc (length s) (length t)))
      (ap (or_then (compare_identifier a b)) (compare_identifiers-lexicographic s t))

compare_prerelease-IsOrdering : IsOrdering compare_prerelease
compare_prerelease-IsOrdering = IsOrdering-ext compare_prerelease _ same (
    IsOrdering-by_class (λ (s : List Bytes). not (is_empty s)) (lexicographic compare_identifier)
      (λ a b. Ordering.eq)
      (lexicographic-IsOrdering compare_identifier compare_identifier-IsOrdering)
      (record {
        turned = λ a b. refl;
        alike = λ a b c h. refl;
        less_trans = λ a b c h k. absurd (cc);
      }))
  where
    same :
        (a b : List Bytes)
        → compare_prerelease a b
          ≡ by_class
              (λ (s : List Bytes). not (is_empty s))
              (lexicographic compare_identifier)
              (λ x y. Ordering.eq)
              a
              b
    same [] [] = unfold compare_prerelease in refl
    same [] (b ∷ t) = unfold compare_prerelease in refl
    same (a ∷ s) [] = unfold compare_prerelease in refl
    same (a ∷ s) (b ∷ t) =
        unfold compare_prerelease in compare_identifiers-lexicographic (a ∷ s) (b ∷ t)

compare_parsed-IsOrdering : IsOrdering compare_parsed
unfolding compare_parsed
compare_parsed-IsOrdering =
    let by =
      λ (part : Semver → Bytes). IsOrdering-on part compare_numeric compare_numeric-IsOrdering in
    IsOrdering-or_then _ _ (by (λ s. s.major)) (
      IsOrdering-or_then _ _ (by (λ s. s.minor)) (
        IsOrdering-or_then _ _ (by (λ s. s.patch))
          (IsOrdering-on (λ (s : Semver). s.pre) compare_prerelease compare_prerelease-IsOrdering)))

-- A version with the result of its parse.
abbrev Read : Type 0
Read = Option Semver × Bytes

abbrev compare_reads : Read → Read → Ordering
compare_reads x y = compare_results x.0 y.0 x.1 y.1

compare_reads-turned : (x y : Read) → compare_reads y x ≡ flip (compare_reads x y)
unfolding compare_results
compare_reads-turned (none, a) (none, b) = compare_bytes-IsOrdering.turned a b
compare_reads-turned (none, a) (some q, b) = refl
compare_reads-turned (some p, a) (none, b) = refl
compare_reads-turned (some p, a) (some q, b) = compare_parsed-IsOrdering.turned p q

compare_reads-alike :
    (x y z : Read) → compare_reads x y ≡ Ordering.eq → compare_reads x z ≡ compare_reads y z
unfolding compare_results
compare_reads-alike (none, a) (none, b) (none, c) h = compare_bytes-IsOrdering.alike a b c h
compare_reads-alike (none, a) (none, b) (some r, c) h = refl
compare_reads-alike (none, a) (some q, b) z h = absurd (cc)
compare_reads-alike (some p, a) (none, b) z h = absurd (cc)
compare_reads-alike (some p, a) (some q, b) (none, c) h = refl
compare_reads-alike (some p, a) (some q, b) (some r, c) h = compare_parsed-IsOrdering.alike p q r h

compare_reads-less_trans :
    (x y z : Read)
    → compare_reads x y ≡ Ordering.lt
    → compare_reads y z ≡ Ordering.lt
    → compare_reads x z ≡ Ordering.lt
unfolding compare_results
compare_reads-less_trans (none, a) (none, b) (none, c) h k =
    compare_bytes-IsOrdering.less_trans a b c h k
compare_reads-less_trans (none, a) (none, b) (some r, c) h k = absurd (cc)
compare_reads-less_trans (none, a) (some q, b) z h k = absurd (cc)
compare_reads-less_trans (some p, a) (none, b) (none, c) h k = refl
compare_reads-less_trans (some p, a) (none, b) (some r, c) h k = absurd (cc)
compare_reads-less_trans (some p, a) (some q, b) (none, c) h k = refl
compare_reads-less_trans (some p, a) (some q, b) (some r, c) h k =
    compare_parsed-IsOrdering.less_trans p q r h k

-- The comparison of versions is a total preorder on all texts, those that are no version included:
-- turned round it gives the opposite answer, texts that compare as equal compare alike with any
-- other, and "less" is transitive.
pub compare_semver-IsOrdering : IsOrdering compare_semver
unfolding compare_semver
compare_semver-IsOrdering =
    IsOrdering-on (λ (v : Bytes). (parse_semver v, v)) compare_reads
      (record {
        turned = compare_reads-turned;
        alike = compare_reads-alike;
        less_trans = compare_reads-less_trans;
      })
