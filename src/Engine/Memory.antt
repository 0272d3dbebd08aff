-- ===== src/Engine/Memory.antt =====
-- gist.go over the memory store: an index call, and its counters beside those of the store.
use gist.Prelude.{
  ℕ, suc, ◌+◌, ◌≤◌, ◌<◌, ◌≡◌, refl, sym, ap, List, [], ◌∷◌, Bool, false, arith, length, if_cases,
  if◌then◌else◌, pos, Option, some,
}
use gist.Text.{Bytes, fields}
use gist.Sort.{SliceSort}
use gist.Store.{Format, Source, Chunk, Result, ok, err, Score, SearchMatch}
use gist.Store.Memory.{MemoryStore, memory_store, save_source, save_chunk}
use gist.Store.Memory.Invariant.{Inv, Refers, save_source-Inv, save_chunk-Inv}
use gist.Chunk.Pieces.{ContentChunk}
use gist.Chunk.Sections.{Heading}
use gist.Chunk.Sections.Limits.{IsCuttable}
use gist.Chunk.Structured.{Parsers}
use gist.Chunk.{chunk_content, chunk_content-Numbers, with_max_chunk_bytes, with_chunk_format}
use gist.Search.{Matcher}
use gist.Fuzzy.{add_terms}
use gist.Engine.{
  Gist, Saved, IndexConfig, IndexOption, IndexResult, stored_chunk, save_chunks, index_saved,
  finish_index, index_chunks, index, is_code, index_options, default_index_config,
}

-- The store is open and keeps its invariant, and the instance has counted all of it.
pub record Agrees (g : Gist MemoryStore) : Type 0 where
  pub inv : Inv g.store
  pub is_open : g.store.closed ≡ false
  pub sources : g.source_count ≡ g.store.next_src
  pub chunks : g.chunk_count ≡ g.store.next_chk

-- What an index call ends with.
abbrev pub Indexes :
    Gist MemoryStore → List ContentChunk → Gist MemoryStore × Result IndexResult → Type 0
Indexes g chunks (g', r) =
    Agrees g'
    × ((res : IndexResult) × (r ≡ ok res)
        × (res.source_id ≡ suc g.source_count)
        × (res.total_chunks ≡ length chunks))

-- What an index call that does not panic ends with, and into which chunks it cut the content.
abbrev pub IndexesCut :
    Gist MemoryStore
    → Option (List ContentChunk)
    → Gist MemoryStore × Option (Result IndexResult)
    → Type 0
IndexesCut g found (g', answer) =
    (chunks : List ContentChunk) × (r : Result IndexResult) × (found ≡ some chunks)
    × (answer ≡ some r)
    × Indexes g chunks (g', r)

-- What `ChunkContent` makes of a content in an index call with these options.
abbrev pub cut_chunks :
    (Bytes → List Heading) → Parsers → Bytes → List IndexOption → Option (List ContentChunk)
cut_chunks parse parsers content options =
    let c = index_options options default_index_config in
    chunk_content parse parsers content
      (with_max_chunk_bytes (pos c.max_chunk_bytes) ∷ with_chunk_format c.format ∷ [])

module _ (to_lower : Bytes → Bytes) (greater : Score → Score → Bool)
    (sorter : SliceSort SearchMatch) (matcher : Matcher) where
  -- An open store with its invariant, and how many sources and chunks it has numbered.
  record Holds (m : MemoryStore) (n k : ℕ) : Type 0 where
    inv : Inv m
    is_open : m.closed ≡ false
    sources : m.next_src ≡ n
    chunks : m.next_chk ≡ k

  -- What the loop leaves where it succeeds.
  abbrev Done : ℕ → ℕ → Saved MemoryStore × Result (Unit {0}) → Type 0
  Done n k (v, err e) = ⊥
  Done n k (v, ok _) = Holds v.store n k

  save_chunk-Holds :
      (m : MemoryStore) (c : Chunk) (n k : ℕ)
      → Holds m n k
      → Refers n c
      → Holds (save_chunk m c).0 n (suc k) × ((saved : Chunk) × ((save_chunk m c).1 ≡ ok saved))
  unfolding save_chunk
  save_chunk-Holds m c n k h r =
      let kept = save_chunk-Inv m c h.inv (rw h.sources r) in
      let step =
        if_cases
          (λ (p : MemoryStore × Result Chunk).
            (p.0.closed ≡ false)
            × (p.0.next_src ≡ n)
            × (p.0.next_chk ≡ suc k)
            × ((saved : Chunk) × (p.1 ≡ ok saved)))
          m.closed (λ e. absurd (cc (h.is_open)))
          (λ e.
            (h.is_open, h.sources, ap suc h.chunks, (record c { id = suc m.next_chk }, refl))) in
      (record { inv = kept; is_open = step.0; sources = step.1; chunks = step.2 }, step.3)

  save_chunks-Done :
      (i n k l : ℕ) (format : Format) (cs : List ContentChunk) (v : Saved MemoryStore)
      → Holds v.store n k
      → 0 < i
      → i ≤ n
      → k + length cs ≡ l
      → Done n l (save_chunks (memory_store to_lower greater sorter) matcher i format cs v)
  unfolding save_chunks memory_store
  save_chunks-Done i n k l format [] v h p q e = let same : k ≡ l = omega arith in rw (← same) h
  save_chunks-Done i n k l format (c ∷ cs) v h p q e =
      let (kept, (saved, done)) =
        save_chunk-Holds v.store (stored_chunk i format c) n k h (unfold stored_chunk in (p, q)) in
      rw (done, save_chunks)
        (save_chunks-Done i n (suc k) l format cs
          (record {
            store = (save_chunk v.store (stored_chunk i format c)).0;
            vocab = add_terms matcher.to_lower v.vocab (fields c.content);
            code_chunks = if is_code c.content_type then suc v.code_chunks else v.code_chunks;
          })
          kept p q (omega arith))

  finish_index-Indexes :
      (g : Gist MemoryStore) (content : Bytes) (c : IndexConfig) (src : Source)
      (chunks : List ContentChunk) (done : Saved MemoryStore × Result (Unit {0}))
      → src.id ≡ suc g.source_count
      → Done (suc g.source_count) (g.chunk_count + length chunks) done
      → Indexes g chunks
          (finish_index (memory_store to_lower greater sorter) matcher g content c src chunks done)
  unfolding finish_index
  finish_index-Indexes g content c src chunks (v, err e) i h = absurd h
  finish_index-Indexes g content c src chunks (v, ok u) i h = (
    record { inv = h.inv; is_open = h.is_open; sources = sym h.sources; chunks = sym h.chunks },
    (_, refl, i, refl),
  )

  save_source-Holds :
      (g : Gist MemoryStore) (label : Bytes) (format : Format)
      → Agrees g
      → Holds (save_source g.store label format).0 (suc g.source_count) g.chunk_count
        × ((src : Source) × ((save_source g.store label format).1 ≡ ok src)
            × (src.id ≡ suc g.source_count))
  unfolding save_source
  save_source-Holds g label format a =
      let kept = save_source-Inv g.store label format a.inv in
      let step =
        if_cases
          (λ (p : MemoryStore × Result Source).
            (p.0.closed ≡ false)
            × (p.0.next_src ≡ suc g.source_count)
            × (p.0.next_chk ≡ g.chunk_count)
            × ((src : Source) × (p.1 ≡ ok src) × (src.id ≡ suc g.source_count)))
          g.store.closed (λ e. absurd (cc (a.is_open)))
          (λ e.
            (a.is_open, ap suc (sym a.sources), sym a.chunks, (_, refl, ap suc (sym a.sources)))) in
      (record { inv = kept; is_open = step.0; sources = step.1; chunks = step.2 }, step.3)

  index_chunks-Indexes :
      (g : Gist MemoryStore) (content : Bytes) (c : IndexConfig) (chunks : List ContentChunk)
      → Agrees g
      → Indexes g chunks
          (index_chunks (memory_store to_lower greater sorter) matcher g content c chunks)
  unfolding index_chunks index_saved memory_store
  index_chunks-Indexes g content c chunks a =
      let (kept, (src, saved, numbered)) = save_source-Holds g c.source c.format a in
      rw (saved, index_saved)
        (finish_index-Indexes g content c src chunks _ numbered (
          save_chunks-Done src.id (suc g.source_count) g.chunk_count (g.chunk_count + length chunks)
            c.format chunks
            (record {
              store = (save_source g.store c.source c.format).0;
              vocab = g.vocab;
              code_chunks = 0;
            })
            kept (omega arith) (omega arith) refl))

  -- Over an open memory store that keeps its invariant and whose sources and chunks the instance
  -- has all counted, an index call succeeds, if the headings that the Markdown parser finds lie in
  -- the content and their positions do not fall: it reports the next source and the number of the
  -- chunks of the content, and store and counters agree again.
  pub index-IndexesCut :
      (parse : Bytes → List Heading) (parsers : Parsers) (g : Gist MemoryStore) (content : Bytes)
      (options : List IndexOption)
      → Agrees g
      → IsCuttable parse content
      → IndexesCut g
          (cut_chunks parse parsers content options)
          (index (memory_store to_lower greater sorter) matcher parse parsers g content options)
  unfolding index
  index-IndexesCut parse parsers g content options a h =
      let c = index_options options default_index_config in
      let (chunks, e, numbered) =
        chunk_content-Numbers parse parsers content
          (with_max_chunk_bytes (pos c.max_chunk_bytes) ∷ with_chunk_format c.format ∷ []) h in
      rw e (chunks, _, refl, refl, index_chunks-Indexes g content c chunks a)
