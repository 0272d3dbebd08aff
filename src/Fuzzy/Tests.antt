-- ===== src/Fuzzy/Tests.antt =====
-- The theorems about fuzzy.go at concrete inputs.
use mathlib.Core.List.{Perm}
use gist.Prelude.{ℕ, ◌+◌, ◌-◌, ◌≤◌, ◌≡◌, ◌↔◌, List, [], ◌∷◌, Bool, ltb, arith, length, Any, pos}
use gist.Text.{Bytes, codes, to_lower_ascii}
use gist.Sort.{StrictWeak, IsSorted, by_insertion}
use gist.Fuzzy.{
  FuzzyResult, Vocabulary, fuzzy_match, fuzzy_less, fuzzy_match_ranks, max_distance_of,
}

-- A distance and an order of texts by their lengths alone.
abbrev length_distance : Bytes → Bytes → ℕ
length_distance s t = (length s - length t) + (length t - length s)

abbrev shorter : Bytes → Bytes → Bool
shorter s t = ltb (length s) (length t)

shorter-StrictWeak : StrictWeak shorter
shorter-StrictWeak = record {
  asym = λ a b h. ground arith;
  not_less_trans = λ a b c h k. ground arith;
}

abbrev terms : Vocabulary
terms = codes "config" ∷ codes "pool" ∷ codes "database" ∷ []

fuzzy_match_ranks_example :
    IsSorted (fuzzy_less shorter) (
      fuzzy_match to_lower_ascii length_distance shorter
        (by_insertion FuzzyResult)
        (codes "Pools")
        terms
        (pos 1))
    × ((found : List FuzzyResult) × Perm
          (fuzzy_match to_lower_ascii length_distance shorter
            (by_insertion FuzzyResult)
            (codes "Pools")
            terms
            (pos 1))
          found
        × ((r : FuzzyResult)
            → Any (λ x. x ≡ r) found
              ↔ Any
                  (λ t.
                    (length_distance (to_lower_ascii (codes "Pools")) t ≤ max_distance_of (pos 1))
                    × (record {
                      term = t;
                      distance = length_distance (to_lower_ascii (codes "Pools")) t;
                    }
                        ≡ r))
                  terms))
fuzzy_match_ranks_example =
    fuzzy_match_ranks to_lower_ascii length_distance shorter (by_insertion FuzzyResult)
      shorter-StrictWeak (codes "Pools") terms (pos 1)
