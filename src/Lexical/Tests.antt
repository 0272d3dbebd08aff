-- ===== src/Lexical/Tests.antt =====
-- Runs of lexical.go, and the theorems about it at concrete inputs.
use gist.Prelude.{◌*◌, ◌≤◌, ◌≡◌, ◌↔◌, refl, List, [], ◌∷◌, true, Any, map}
use gist.Text.{Bytes, codes, bytes_eq}
use gist.Lexical.{Index, stem, strip, suffixes, matched, index_score}
use gist.Lexical.Scores.{Holds, Weighed, index_score_lem}

stems :
    map stem
      (codes "parse" ∷ codes "parsing" ∷ codes "parser" ∷ codes "creation" ∷ codes "status" ∷ [])
    ≡ codes "pars" ∷ codes "pars" ∷ codes "pars" ∷ codes "creat" ∷ codes "status" ∷ []
unfolding stem strip suffixes bytes_eq
stems = refl

abbrev parser_index : Index
parser_index = record {
  names = codes "pars" ∷ [];
  classes = codes "skill" ∷ [];
  prose = codes "text" ∷ [];
}

abbrev two_terms : List Bytes
two_terms = codes "pars" ∷ codes "text" ∷ codes "pdf" ∷ []

two_terms_score : index_score parser_index two_terms ≡ record { terms = 2; weight = 4 }
unfolding index_score bytes_eq
two_terms_score = refl

index_score_lem_example :
    ((matched (index_score parser_index two_terms) ≡ true) ↔ Any (Holds parser_index) two_terms)
    × ((index_score parser_index two_terms).terms ≤ 3)
    × ((index_score parser_index two_terms).terms ≤ (index_score parser_index two_terms).weight)
    × ((index_score parser_index two_terms).weight ≤ 3 * (index_score parser_index two_terms).terms)
    × Weighed parser_index two_terms
        (index_score parser_index two_terms).terms
        (index_score parser_index two_terms).weight
index_score_lem_example = index_score_lem parser_index two_terms
