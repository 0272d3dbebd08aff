-- ===== src/Lexical/Scores.antt =====
-- lexical.go: which documents match a query, and how far the weight of a match can go.
use Prim.Native.Nat.{compare}
use gist.Prelude.{
  ℕ, suc, zero, ◌+◌, ◌*◌, ◌≤◌, ◌<◌, ◌≡◌, ◌↔◌, ◌⊎◌, refl, subst, false, List, [], ◌∷◌, true, arith,
  length, Any, if◌then◌else◌, Bool-cases, inl, inr, ltb,
}
use gist.Text.{Bytes}
use gist.Compare.{IsOrdering, IsOrdering-on, IsOrdering-or_then, compare-IsOrdering}
use gist.Lexical.{
  Match, Index, has_text, matched, better, weight_of, count_term, no_match, score_from, index_score,
}

-- A field of the document holds the term.
abbrev pub Holds : Index → Bytes → Type 0
Holds ix t =
    (has_text ix.names t ≡ true) ⊎ ((has_text ix.classes t ≡ true) ⊎ (has_text ix.prose t ≡ true))

Holds-weight_of : (ix : Index) (t : Bytes) → (0 < weight_of ix t) ↔ Holds ix t
unfolding weight_of
Holds-weight_of ix t = elim (Bool-cases (has_text ix.names t)) [
  | inl a ↦ rw a ((λ _. inl refl), λ _. omega arith)
  | inr a ↦ rw a (elim (Bool-cases (has_text ix.classes t)) [
    | inl b ↦ rw b ((λ _. inr (inl refl)), λ _. omega arith)
    | inr b ↦ rw b (elim (Bool-cases (has_text ix.prose t)) [
      | inl c ↦ rw c ((λ _. inr (inr refl)), λ _. omega arith)
      | inr c ↦ rw c ((λ h. absurd (omega arith)), λ h. absurd (ground arith))
    ])
  ])
]

weight_of-le : (ix : Index) (t : Bytes) → weight_of ix t ≤ 3
unfolding weight_of
weight_of-le ix t = ground arith

count_term_lem :
    (w : ℕ) (m : Match)
    → ((count_term w m).terms ≡ (if ltb 0 w then suc m.terms else m.terms))
      × ((count_term w m).weight ≡ m.weight + w)
count_term_lem zero m = (refl, omega arith)
count_term_lem (suc w) m = ground arith

score_from_bounds :
    (ix : Index) (ts : List Bytes) (m : Match)
    → m.terms ≤ m.weight
    → m.weight ≤ 3 * m.terms
    → ((score_from ix ts m).terms ≤ (score_from ix ts m).weight)
      × ((score_from ix ts m).weight ≤ 3 * (score_from ix ts m).terms)
      × ((score_from ix ts m).terms ≤ m.terms + length ts)
      × (m.terms ≤ (score_from ix ts m).terms)
unfolding score_from
score_from_bounds ix [] m h k = (h, k, omega arith, omega arith)
score_from_bounds ix (t ∷ ts) m h k =
    let c = count_term_lem (weight_of ix t) m in
    let le = weight_of-le ix t in
    let ih =
      score_from_bounds ix ts (count_term (weight_of ix t) m) (ground arith) (ground arith) in
    ground arith

score_from-matched :
    (ix : Index) (ts : List Bytes) (m : Match)
    → m.terms ≤ m.weight
    → m.weight ≤ 3 * m.terms
    → (0 < (score_from ix ts m).terms) ↔ ((0 < m.terms) ⊎ Any (Holds ix) ts)
unfolding score_from
score_from-matched ix [] m h k = (inl, λ e. elim e [ inl a ↦ a | inr b ↦ absurd b ])
score_from-matched ix (t ∷ ts) m h k =
    let c = count_term_lem (weight_of ix t) m in
    let le = weight_of-le ix t in
    let held = Holds-weight_of ix t in
    let m' = count_term (weight_of ix t) m in
    let (to, back) = score_from-matched ix ts m' (ground arith) (ground arith) in
    (
      λ p. elim (to p) [
        | inl a ↦ elim (Bool-cases (ltb 0 (weight_of ix t))) [
          | inl yes' ↦ inr (inl (held.0 (ground arith)))
          | inr no' ↦ inl (ground arith)
        ]
        | inr b ↦ inr (inr b)
      ],
      λ p. elim p [
        | inl a ↦ back (inl (ground arith))
        | inr (inl b) ↦ let w = held.1 b in back (inl (ground arith))
        | inr (inr b) ↦ back (inr b)
      ],
    )

-- What a term finds in the fields, and how much that weighs: 3 in the names, else 2 in the classes,
-- else 1 in the prose, else nothing.
pub data Weighs (ix : Index) (t : Bytes) : ℕ → Type 0 where
  in_names : has_text ix.names t ≡ true → Weighs ix t 3
  in_classes : has_text ix.names t ≡ false → has_text ix.classes t ≡ true → Weighs ix t 2
  in_prose :
      has_text ix.names t ≡ false
      → has_text ix.classes t ≡ false
      → has_text ix.prose t ≡ true
      → Weighs ix t 1
  nowhere :
      has_text ix.names t ≡ false
      → has_text ix.classes t ≡ false
      → has_text ix.prose t ≡ false
      → Weighs ix t 0

-- The weights of the terms one by one, the number of those that are not 0, and their sum.
pub data Weighed (ix : Index) : List Bytes → ℕ → ℕ → Type 0 where
  no_terms : Weighed ix [] 0 0
  found_term :
      {t : Bytes} {ts : List Bytes} {n total : ℕ} (w : ℕ)
      → Weighs ix t (suc w)
      → Weighed ix ts n total
      → Weighed ix (t ∷ ts) (suc n) (suc w + total)
  lost_term :
      {t : Bytes} {ts : List Bytes} {n total : ℕ}
      → Weighs ix t 0
      → Weighed ix ts n total
      → Weighed ix (t ∷ ts) n total

weight_of-Weighs : (ix : Index) (t : Bytes) → Weighs ix t (weight_of ix t)
unfolding weight_of
weight_of-Weighs ix t = elim (Bool-cases (has_text ix.names t)) [
  | inl a ↦ rw a (in_names a)
  | inr a ↦ rw a (elim (Bool-cases (has_text ix.classes t)) [
    | inl b ↦ rw b (in_classes a b)
    | inr b ↦ rw b (elim (Bool-cases (has_text ix.prose t)) [
      | inl c ↦ rw c (in_prose a b c)
      | inr c ↦ rw c (nowhere a b c)
    ])
  ])
]

-- What `score_from` adds to what was counted before.
score_from-Weighed :
    (ix : Index) (ts : List Bytes) (m : Match)
    → (n : ℕ) × (total : ℕ) × Weighed ix ts n total
      × ((score_from ix ts m).terms ≡ m.terms + n)
      × ((score_from ix ts m).weight ≡ m.weight + total)
unfolding score_from
score_from-Weighed ix [] m = (0, 0, no_terms, omega arith, omega arith)
score_from-Weighed ix (t ∷ ts) m =
    by_weight (weight_of ix t) (weight_of-Weighs ix t) (λ m'. score_from-Weighed ix ts m')
  where
    Adds : List Bytes → Match → Match → Type 0
    Adds us m' o =
        (n : ℕ) × (total : ℕ) × Weighed ix us n total
        × (o.terms ≡ m'.terms + n)
        × (o.weight ≡ m'.weight + total)

    by_weight :
        (w : ℕ)
        → Weighs ix t w
        → ((m' : Match) → Adds ts m' (score_from ix ts m'))
        → Adds (t ∷ ts) m (score_from ix ts (count_term w m))
    by_weight zero h rest =
        let (n, total, later, e, e') = rest m in (n, total, lost_term h later, e, e')
    by_weight (suc w) h rest =
        let (n, total, later, e, e') = rest (count_term (suc w) m) in
        (suc n, suc w + total, found_term w h later, omega (arith, e), omega (arith, e'))

-- The score of a query: the number of its terms that a field of the document holds, and the sum of
-- their weights, each 3 in the names, else 2 in the classes, else 1 in the prose. A document
-- matches a query exactly where one of its fields holds one of the terms, at most as many terms
-- match as the query has, and the weight lies between that number and three times it.
pub index_score_lem :
    (ix : Index) (ts : List Bytes)
    → ((matched (index_score ix ts) ≡ true) ↔ Any (Holds ix) ts)
      × ((index_score ix ts).terms ≤ length ts)
      × ((index_score ix ts).terms ≤ (index_score ix ts).weight)
      × ((index_score ix ts).weight ≤ 3 * (index_score ix ts).terms)
      × Weighed ix ts (index_score ix ts).terms (index_score ix ts).weight
unfolding index_score matched
index_score_lem ix ts =
    let b = score_from_bounds ix ts no_match (omega arith) (omega arith) in
    let (to, back) = score_from-matched ix ts no_match (omega arith) (omega arith) in
    (
      (
        λ p. elim (to (ground arith)) [ inl a ↦ absurd (omega arith) | inr h ↦ h ],
        λ h. let pos' = back (inr h) in ground arith,
      ),
      omega arith,
      omega arith,
      omega arith,
      let (n, total, h, e, e') = score_from-Weighed ix ts no_match in
          subst (λ x. Weighed ix ts (score_from ix ts no_match).terms x) (omega (arith, e'))
            (subst (λ x. Weighed ix ts x total) (omega (arith, e)) h),
    )

pub better-IsOrdering : IsOrdering better
unfolding better
better-IsOrdering =
    IsOrdering-or_then _ _ (IsOrdering-on (λ (m : Match). m.terms) compare compare-IsOrdering)
      (IsOrdering-on (λ (m : Match). m.weight) compare compare-IsOrdering)
