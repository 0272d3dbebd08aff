-- ===== src/Store/Memory/Closed.antt =====
-- store_memory.go: the calls on a store after `Close`.
use gist.Prelude.{◌≡◌, refl}
use gist.Text.{Bytes}
use gist.Sort.{SliceSort}
use gist.Store.{Format, Chunk, SearchParams, Score, SearchMatch, store_closed, err}
use gist.Store.Memory.{
  MemoryStore, close, save_source, save_chunk, search_porter, search_trigram, vocabulary_terms,
  sources, stats,
}
use gist.Prelude.{Bool}

module _ (to_lower : Bytes → Bytes) (greater : Score → Score → Bool)
    (sorter : SliceSort SearchMatch) where
  -- On a store that was closed every call returns `errStoreClosed`, the calls that save change
  -- nothing, and to close again changes nothing.
  pub close_refuses :
      (m : MemoryStore) (label : Bytes) (format : Format) (c : Chunk) (params : SearchParams)
      → let shut = close m in
        (save_source shut label format ≡ (shut, err store_closed))
        × (save_chunk shut c ≡ (shut, err store_closed))
        × (search_porter to_lower greater sorter shut params ≡ err store_closed)
        × (search_trigram to_lower greater sorter shut params ≡ err store_closed)
        × (vocabulary_terms to_lower shut ≡ err store_closed)
        × (sources shut ≡ err store_closed)
        × (stats shut ≡ err store_closed)
        × (close shut ≡ shut)
  unfolding close save_source save_chunk search_porter search_trigram vocabulary_terms sources stats
  close_refuses m label format c params = (refl, refl, refl, refl, refl, refl, refl, refl)
