-- ===== src/Discovery/Tests.antt =====
-- A run of the search of the catalog, and the theorems about it at concrete inputs.
use gist.Prelude.{
  ◌+◌, ◌*◌, ◌≡◌, refl, List, [], ◌∷◌, true, false, none, some, length, pos, pos_part, ◌≤◌, inr,
  if◌then◌else◌,
}
use gist.Text.{Bytes, codes, bytes_eq, fields, to_lower_ascii, trim_space}
use gist.Sort.{by_insertion, insertion_sort}
use gist.Outcome.{gave}
use gist.Catalog.{CatalogRecord, Cursor, Digest, kind_skill}
use gist.Lexical
use gist.Lexical.{query_of}
use gist.Discovery.{
  Candidate, Request, Response, RankedCandidate, SearchPage, Services, search_catalog, respond,
  filled, limit_of, present, is_readable, candidate_from_record, matches_filters,
}
use gist.Discovery.Visible.{Hidden, respond-Hidden}
use gist.Discovery.Fitting.{IsRanked, IsFront, shown_by, Fits, present-Fits}
use gist.Discovery.Answers.{Answers, search_catalog-Answers}

abbrev no_digest : Digest
no_digest = record { algorithm = []; value = [] }

abbrev stored : Bytes → Bytes → CatalogRecord
stored id state = record {
  ref = record { workspace_id = codes "w"; kind = kind_skill; id = id; version = codes "1.0.0" };
  state = state;
  digest = no_digest;
  manifest_digest = no_digest;
  document_digest = no_digest;
  package_digest = no_digest;
  object_key = [];
  artifact_size = 0;
  metadata = [];
}

abbrev no_cursor : Cursor
no_cursor = record { id = []; principal_hash = []; workspace_id = []; expires_at = 0 }

-- The policy shows all but one skill; a response costs ten bytes and a hundred for each candidate.
abbrev services : Services
services = record {
  find = λ q. some (record {
    records =
        stored (codes "parser") (codes "published")
        ∷ stored (codes "secret") (codes "published")
        ∷ stored (codes "parse") (codes "revoked")
        ∷ [];
    next = no_cursor;
  });
  decide = λ p r. some (record {
    allowed = if bytes_eq r.id (codes "secret") then false else true;
    status = 200;
    reason = [];
  });
  now = 100;
  principal_hash = λ p. [];
  decode = λ raw. none;
  decode_lexical = λ raw. none;
  response_size = λ r. 10 + 100 * length r.candidates;
  equal_fold = bytes_eq;
  to_lower = to_lower_ascii;
  words = fields;
  sorter = by_insertion RankedCandidate;
}

abbrev asked : Request
asked = record {
  principal = record {
    issuer = [];
    subject = codes "s";
    audience = [];
    workspace_id = codes "w";
    scopes = [];
    policy_generation = 0;
    subject_type = [];
  };
  query = codes "Parsing";
  kinds = [];
  tags = [];
  cursor = no_cursor;
  limit = pos 0;
  max_bytes = pos 500;
}

abbrev shown_parser : Candidate
shown_parser = record {
  ref = (stored (codes "parser") []).ref;
  kind = kind_skill;
  id = codes "parser";
  version = codes "1.0.0";
  logical_name = [];
  summary = [];
  trust = [];
  tags = [];
  required_capability_count = 0;
  resolution_required = false;
  estimated_bytes = pos 0;
}

abbrev answer : Response
answer = record { candidates = shown_parser ∷ []; next_cursor = none; token_estimate = 28 }

answered : search_catalog services asked ≡ gave answer
unfolding search_catalog bytes_eq is_readable candidate_from_record matches_filters trim_space
    Lexical.document_from_metadata Lexical.matched Lexical.index_score query_of fields
    to_lower_ascii Lexical.new_index Lexical.strip Lexical.suffixes insertion_sort
answered = refl

search_catalog-Answers_example : (page : SearchPage) × Answers services asked page answer
search_catalog-Answers_example = search_catalog-Answers services asked answer answered

secret-Hidden : Hidden services asked (stored (codes "secret") (codes "published"))
secret-Hidden = record {
  own_workspace = unfold bytes_eq in refl;
  denied = inr (_, refl, unfold bytes_eq in refl);
}

respond-Hidden_example :
    respond services asked (record {
      records =
          stored (codes "parser") (codes "published")
          ∷ stored (codes "secret") (codes "published")
          ∷ [];
      next = no_cursor;
    })
    ≡ respond services asked
        (record { records = stored (codes "parser") (codes "published") ∷ []; next = no_cursor })
respond-Hidden_example =
    respond-Hidden services asked (record { records = []; next = no_cursor })
      (stored (codes "parser") (codes "published") ∷ []) []
      (stored (codes "secret") (codes "published")) secret-Hidden

abbrev parser_match : RankedCandidate
parser_match = record { candidate = shown_parser; lexical_match = record { terms = 1; weight = 3 } }

present-Fits_example :
    (ranked : List RankedCandidate) × IsRanked services (parser_match ∷ parser_match ∷ []) ranked
    × IsFront (filled services asked no_cursor ranked).candidates (shown_by ranked)
    × (length (filled services asked no_cursor ranked).candidates ≤ limit_of services asked)
    × Fits services
        (pos_part asked.max_bytes)
        (filled services asked no_cursor ranked)
        (present services asked no_cursor (parser_match ∷ parser_match ∷ []))
present-Fits_example = present-Fits services asked no_cursor (parser_match ∷ parser_match ∷ [])
