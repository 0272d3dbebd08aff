-- ===== src/Store/Memory/Ranking.antt =====
-- Which chunks a search of the memory store returns, and in what order.
use mathlib.Core.List.{Perm}
use gist.Prelude.{
  ℕ, ◌≡◌, refl, ◌⊎◌, inl, inr, ◌↔◌, List, [], ◌∷◌, Bool, true, false, ◌==◌, arith, length, take,
  Any, if◌then◌else◌, Bool-cases, take-length, take_past,
}
use gist.Text.{Bytes, is_empty, contains, fields}
use gist.Text.Laws.{bytes_eq→eq, eq→bytes_eq, Occurs, contains→Occurs, Occurs→contains}
use gist.Sort.{SliceSort, StrictWeak, IsSorted}
use gist.Store.{
  Source, Chunk, SearchParams, Score, SearchMatch, porter, trigram, store_closed, ok, err,
}
use gist.Store.Memory.{
  MemoryStore, source_matches, matches_source_filter, has_word, matched_words, score_of, match_of,
  limit_to, porter_matches, trigram_matches, search_porter, search_trigram,
}

-- The chunk's source has the label that is asked for, or none is asked for.
abbrev pub InSource : MemoryStore → Bytes → Chunk → Type 0
InSource m filter c =
    (filter ≡ []) ⊎ Any (λ (s : Source). (s.id ≡ c.source_id) × (s.label ≡ filter)) m.sources

-- A query word is a content word.
abbrev pub SharesWord : List Bytes → List Bytes → Type 0
SharesWord query content = Any (λ q. Any (λ w. w ≡ q) content) query

source_matches_iff :
    (ss : List Source) (i : ℕ) (filter : Bytes)
    → (source_matches ss i filter ≡ true) ↔ Any (λ (s : Source). (s.id ≡ i) × (s.label ≡ filter)) ss
unfolding source_matches
source_matches_iff [] i filter = (λ h. absurd (cc), λ h. absurd h)
source_matches_iff (s ∷ ss) i filter =
    let (sound, complete) = source_matches_iff ss i filter in
    (
      λ h. ground (arith, bytes_eq→eq s.label filter, sound),
      λ h. ground (arith, eq→bytes_eq s.label filter, complete),
    )

matches_source_filter_iff :
    (m : MemoryStore) (c : Chunk) (filter : Bytes)
    → (matches_source_filter m c.source_id filter ≡ true) ↔ InSource m filter c
unfolding matches_source_filter
matches_source_filter_iff m c [] = (λ h. inl refl, λ h. refl)
matches_source_filter_iff m c (b ∷ f) =
    let (sound, complete) = source_matches_iff m.sources c.source_id (b ∷ f) in
    (λ h. inr (sound h), λ h. elim h [ inl e ↦ absurd (cc) | inr a ↦ complete a ])

has_word_iff : (ws : List Bytes) (q : Bytes) → (has_word ws q ≡ true) ↔ Any (λ w. w ≡ q) ws
unfolding has_word
has_word_iff [] q = (λ h. absurd (cc), λ h. absurd h)
has_word_iff (w ∷ ws) q =
    let (sound, complete) = has_word_iff ws q in
    (λ h. ground (arith, bytes_eq→eq w q, sound), λ h. ground (arith, eq→bytes_eq w q, complete))

matched_words_iff : (qs ws : List Bytes) → ((matched_words qs ws == 0) ≡ false) ↔ SharesWord qs ws
unfolding matched_words
matched_words_iff [] ws = (λ h. absurd (cc), λ h. absurd h)
matched_words_iff (q ∷ qs) ws =
    let (sound, complete) = matched_words_iff qs ws in
    let (word, found) = has_word_iff ws q in
    (
      λ h. elim (Bool-cases (has_word ws q)) [
        | inl e ↦ inl (word e)
        | inr e ↦ inr (sound (ground arith))
      ],
      λ h. elim h [ inl a ↦ ground (arith, found a) | inr a ↦ ground (arith, complete a) ],
    )

module _ (to_lower : Bytes → Bytes) where
  abbrev pub words_of : Chunk → List Bytes
  words_of c = fields (to_lower c.content)

  abbrev pub porter_match : List Bytes → Chunk → SearchMatch
  porter_match query c =
      match_of c (score_of (matched_words query (words_of c)) (length (words_of c))) porter

  abbrev pub trigram_match : Bytes → Chunk → SearchMatch
  trigram_match query c = match_of c (score_of (length query) (length (to_lower c.content))) trigram

  -- The word search finds exactly the matches of the chunks that pass the source filter and share a
  -- word with the query, in lower case, each under the score that the share of its words gives.
  pub porter_matches_iff :
      (m : MemoryStore) (query : List Bytes) (filter : Bytes) (cs : List Chunk) (r : SearchMatch)
      → Any (λ x. x ≡ r) (porter_matches to_lower m query filter cs)
        ↔ Any
            (λ c. InSource m filter c × SharesWord query (words_of c) × (porter_match query c ≡ r))
            cs
  unfolding porter_matches
  porter_matches_iff m query filter [] r = (λ h. h, λ h. h)
  porter_matches_iff m query filter (c ∷ cs) r =
      let (sound, complete) = porter_matches_iff m query filter cs r in
      let (inside, inside') = matches_source_filter_iff m c filter in
      let (shares, shares') = matched_words_iff query (words_of c) in
      elim (Bool-cases (matches_source_filter m c.source_id filter)) [
        | inl s ↦ elim (Bool-cases (matched_words query (words_of c) == 0)) [
          | inl w ↦
              rw (s, w)
                (
                  λ h. inr (sound h),
                  λ h. elim h [ inl (_, v, _) ↦ absurd (cc (shares' v)) | inr a ↦ complete a ],
                )
          | inr w ↦
              rw (s, w)
                (
                  λ h. elim h [ inl e ↦ inl (inside s, shares w, e) | inr a ↦ inr (sound a) ],
                  λ h. elim h [ inl (_, _, e) ↦ inl e | inr a ↦ inr (complete a) ],
                )
        ]
        | inr s ↦ rw s (
          λ h. inr (sound h),
          λ h. elim h [ inl (v, _, _) ↦ absurd (cc (inside' v)) | inr a ↦ complete a ],
        )
      ]

  -- The substring search finds exactly the matches of the chunks that pass the source filter and in
  -- whose content, in lower case, the query occurs.
  pub trigram_matches_iff :
      (m : MemoryStore) (query filter : Bytes) (cs : List Chunk) (r : SearchMatch)
      → Any (λ x. x ≡ r) (trigram_matches to_lower m query filter cs)
        ↔ Any
            (λ c.
              InSource m filter c × Occurs query (to_lower c.content) × (trigram_match query c ≡ r))
            cs
  unfolding trigram_matches
  trigram_matches_iff m query filter [] r = (λ h. h, λ h. h)
  trigram_matches_iff m query filter (c ∷ cs) r =
      let (sound, complete) = trigram_matches_iff m query filter cs r in
      let (inside, inside') = matches_source_filter_iff m c filter in
      let text = to_lower c.content in
      elim (Bool-cases (matches_source_filter m c.source_id filter)) [
        | inl s ↦ elim (Bool-cases (contains text query)) [
          | inl w ↦
              rw (s, w)
                (
                  λ h. elim h [
                    | inl e ↦ inl (inside s, contains→Occurs text query w, e)
                    | inr a ↦ inr (sound a)
                  ],
                  λ h. elim h [ inl (_, _, e) ↦ inl e | inr a ↦ inr (complete a) ],
                )
          | inr w ↦
              rw (s, w)
                (
                  λ h. inr (sound h),
                  λ h. elim h [
                    | inl (_, v, _) ↦ absurd (cc (Occurs→contains text query v))
                    | inr a ↦ complete a
                  ],
                )
        ]
        | inr s ↦ rw s (
          λ h. inr (sound h),
          λ h. elim h [ inl (v, _, _) ↦ absurd (cc (inside' v)) | inr a ↦ complete a ],
        )
      ]

-- The first `limit` of the candidates in descending order of their scores, or all of them.
pub record Ranks (greater : Score → Score → Bool) (limit : ℕ)
    (candidates results : List SearchMatch) : Type 0 where
  pub order : List SearchMatch
  pub same : Perm order candidates
  pub descending : IsSorted (λ a b. greater a.score b.score) order
  pub first : results ≡ (if limit == 0 then order else take limit order)

limit_to_lem :
    (limit : ℕ) (xs : List SearchMatch)
    → limit_to limit xs ≡ (if limit == 0 then xs else take limit xs)
unfolding limit_to
limit_to_lem limit xs = ground (arith, take-length xs, take_past limit xs)

rank :
    (greater : Score → Score → Bool) (sorter : SliceSort SearchMatch)
    → StrictWeak (λ (a : SearchMatch) b. greater a.score b.score)
    → (limit : ℕ) (candidates : List SearchMatch)
    → Ranks greater limit candidates
        (limit_to limit (sorter.run (λ a b. greater a.score b.score) candidates))
rank greater sorter w limit candidates = record {
  order = sorter.run (λ a b. greater a.score b.score) candidates;
  same = sorter.run-perm _ candidates;
  descending = sorter.run-IsSorted _ w candidates;
  first = limit_to_lem limit _;
}

-- A search that is not refused finds nothing or what its ranking gives.
searched :
    (P : List SearchMatch → Type 0) (shut nothing : Bool) (xs : List SearchMatch)
    → shut ≡ false
    → P xs
    → (results : List SearchMatch) × ((if shut
          then err store_closed
          else if nothing
          then ok []
          else ok xs)
        ≡ ok results)
      × (if nothing then results ≡ [] else P results)
searched P true nothing xs e p = absurd (cc)
searched P false true xs e p = ([], refl, refl)
searched P false false xs e p = (xs, refl, p)

module _ (to_lower : Bytes → Bytes) (greater : Score → Score → Bool)
    (sorter : SliceSort SearchMatch) where
  -- Where the order of scores is a strict weak order, both searches of an open store succeed: a
  -- query with no words (or no bytes) finds nothing, and any other gives the first `limit` matches
  -- in descending order of their scores, all of them where the limit is 0.
  pub search-Ranks :
      StrictWeak (λ (a : SearchMatch) b. greater a.score b.score)
      → (m : MemoryStore) (params : SearchParams) → m.closed ≡ false
      → let words = fields (to_lower params.query) in
        let text = to_lower params.query in
        ((results : List SearchMatch) × (search_porter to_lower greater sorter m params
            ≡ ok results)
          × (if is_empty words
              then results ≡ []
              else Ranks greater params.limit
                  (porter_matches to_lower m words params.source_filter m.chunks)
                  results))
        × ((results : List SearchMatch) × (search_trigram to_lower greater sorter m params
              ≡ ok results)
            × (if is_empty text
                then results ≡ []
                else Ranks greater params.limit
                    (trigram_matches to_lower m text params.source_filter m.chunks)
                    results))
  unfolding search_porter search_trigram
  search-Ranks w m params open_store =
      let words = fields (to_lower params.query) in
      let text = to_lower params.query in
      (
        searched (Ranks greater params.limit _) m.closed (is_empty words) _ open_store (
            rank greater sorter w params.limit
              (porter_matches to_lower m words params.source_filter m.chunks)),
        searched (Ranks greater params.limit _) m.closed (is_empty text) _ open_store (
            rank greater sorter w params.limit
              (trigram_matches to_lower m text params.source_filter m.chunks)),
      )
