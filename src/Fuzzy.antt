-- ===== src/Fuzzy.antt =====
-- fuzzy.go: the vocabulary and the fuzzy match. The set of terms is a list with each term once, in
-- no order that the code relies on; `distance` is the Levenshtein library's, `text_less` is `<` on
-- strings and `to_lower` is `strings.ToLower`. A query is one step, taken under the lock.
mod Tests
use mathlib.Core.List.{Perm}
use gist.Prelude.{
  ℕ, ◌≤◌, ◌≡◌, refl, ◌↔◌, ◌⊎◌, inl, inr, List, [], ◌∷◌, ◌++◌, Bool, true, false, not, ltb, leb,
  ◌==◌, arith, if◌then◌else◌, All, Any, Bool-cases, ℤ, is_positive, pos_part,
}
use gist.Text.{Bytes, bytes_eq}
use gist.Text.Laws.{bytes_eq→eq, eq→bytes_eq}
use gist.Sort.{SliceSort, StrictWeak, IsSorted}

pub record FuzzyResult : Type 0 where
  pub term : Bytes
  pub distance : ℕ

abbrev pub Vocabulary : Type 0
Vocabulary = List Bytes

unfoldable pub has_term : Vocabulary → Bytes → Bool
has_term [] t = false
has_term (s ∷ ss) t = if bytes_eq s t then true else has_term ss t

-- `FuzzyMatch` takes 2 where the distance is not positive.
abbrev pub max_distance_of : ℤ → ℕ
max_distance_of n = if is_positive n then pos_part n else 2

unfoldable pub within : (Bytes → Bytes → ℕ) → Bytes → ℕ → Vocabulary → List FuzzyResult
within distance q max_distance [] = []
within distance q max_distance (t ∷ ts) =
    let rest = within distance q max_distance ts in
    if leb (distance q t) max_distance
    then record { term = t; distance = distance q t } ∷ rest
    else rest

-- By distance, then by the term.
unfoldable pub fuzzy_less : (Bytes → Bytes → Bool) → FuzzyResult → FuzzyResult → Bool
fuzzy_less text_less a b =
    if not (a.distance == b.distance) then ltb a.distance b.distance else text_less a.term b.term

module _ (to_lower : Bytes → Bytes) where
  -- `Vocabulary.Add`.
  unfoldable pub add_terms : Vocabulary → List Bytes → Vocabulary
  unfolding has_term
  add_terms v [] = v
  add_terms v (t ∷ ts) = add_terms (if has_term v (to_lower t) then v else v ++ to_lower t ∷ []) ts

  has_term-append :
      (v : Vocabulary) (s t : Bytes)
      → has_term (v ++ s ∷ []) t ≡ (if has_term v t then true else bytes_eq s t)
  unfolding has_term
  has_term-append [] s t = ground arith
  has_term-append (u ∷ us) s t = ground (arith, has_term-append us s t)

  -- A text is among those given, in lower case.
  abbrev pub given : List Bytes → Bytes → Bool
  given [] t = false
  given (s ∷ ss) t = if bytes_eq (to_lower s) t then true else given ss t

  -- A term is in the vocabulary after `Add` exactly when it was before or is one of those added,
  -- in lower case.
  pub has_term-add_terms :
      (v : Vocabulary) (ts : List Bytes) (t : Bytes)
      → has_term (add_terms v ts) t ≡ (if has_term v t then true else given ts t)
  unfolding add_terms
  has_term-add_terms v [] t = ground arith
  has_term-add_terms v (s ∷ ss) t = elim (Bool-cases (has_term v (to_lower s))) [
    | inl old ↦
        rw old (ground (arith, has_term-add_terms v ss t, bytes_eq→eq (to_lower s) t, old_term s))
    | inr new ↦ rw new (
        ground
          (arith, has_term-add_terms (v ++ to_lower s ∷ []) ss t, has_term-append v (to_lower s) t))
  ]
    where
      old_term : (u : Bytes) → has_term v (to_lower u) ≡ true → to_lower u ≡ t → has_term v t ≡ true
      old_term u h e = rw e at h

module _ (to_lower : Bytes → Bytes) (distance : Bytes → Bytes → ℕ)
    (text_less : Bytes → Bytes → Bool) (sorter : SliceSort FuzzyResult) where
  unfoldable pub fuzzy_match : Bytes → Vocabulary → ℤ → List FuzzyResult
  unfolding within fuzzy_less
  fuzzy_match query vocab max_distance =
      sorter.run (fuzzy_less text_less)
        (within distance (to_lower query) (max_distance_of max_distance) vocab)

-- The terms within the distance, each with its distance.
pub within_iff :
    (distance : Bytes → Bytes → ℕ) (q : Bytes) (n : ℕ) (vocab : Vocabulary) (r : FuzzyResult)
    → Any (λ x. x ≡ r) (within distance q n vocab)
      ↔ Any (λ t. (distance q t ≤ n) × (record { term = t; distance = distance q t } ≡ r)) vocab
unfolding within
within_iff distance q n [] r = (λ h. h, λ h. h)
within_iff distance q n (t ∷ ts) r =
    let (sound, complete) = within_iff distance q n ts r in
    elim (Bool-cases (leb (distance q t) n)) [
      | inl near ↦ rw near (
        λ h. elim h [ inl e ↦ inl (ground arith, e) | inr a ↦ inr (sound a) ],
        λ h. elim h [ inl (_, e) ↦ inl e | inr a ↦ inr (complete a) ],
      )
      | inr far ↦ rw far (
        λ h. inr (sound h),
        λ h. elim h [ inl (k, _) ↦ absurd (ground arith) | inr a ↦ complete a ],
      )
    ]

-- An order of texts makes the order by distance and term a strict weak order.
pub fuzzy_less-StrictWeak :
    (text_less : Bytes → Bytes → Bool) → StrictWeak text_less → StrictWeak (fuzzy_less text_less)
unfolding fuzzy_less
fuzzy_less-StrictWeak text_less w = record {
  asym = λ a b h. ground (arith, w.asym a.term b.term);
  not_less_trans = λ a b c h k. ground (arith, w.not_less_trans a.term b.term c.term);
}

module _ (to_lower : Bytes → Bytes) (distance : Bytes → Bytes → ℕ)
    (text_less : Bytes → Bytes → Bool) (sorter : SliceSort FuzzyResult) where
  -- Where texts are ordered by a strict weak order, a fuzzy match returns exactly the terms of the
  -- vocabulary within the distance (2 where it is not positive), each with its distance from the
  -- query in lower case, ordered by distance and then by the term.
  pub fuzzy_match_ranks :
      StrictWeak text_less
      → (query : Bytes) (vocab : Vocabulary) (n : ℤ)
      → IsSorted
          (fuzzy_less text_less)
          (fuzzy_match to_lower distance text_less sorter query vocab n)
        × ((found : List FuzzyResult) × Perm
              (fuzzy_match to_lower distance text_less sorter query vocab n)
              found
            × ((r : FuzzyResult)
                → Any (λ x. x ≡ r) found
                  ↔ Any
                      (λ t.
                        (distance (to_lower query) t ≤ max_distance_of n)
                        × (record { term = t; distance = distance (to_lower query) t } ≡ r))
                      vocab))
  unfolding fuzzy_match
  fuzzy_match_ranks w query vocab n =
      let found = within distance (to_lower query) (max_distance_of n) vocab in
      (
        sorter.run-IsSorted _ (fuzzy_less-StrictWeak text_less w) found,
        (
          found,
          sorter.run-perm _ found,
          λ r. within_iff distance (to_lower query) (max_distance_of n) vocab r,
        ),
      )
