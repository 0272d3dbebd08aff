-- ===== src/Store/Memory/Invariant.antt =====
-- store_memory.go: the invariant of the memory store under its calls, and `Stats`.
use gist.Prelude.{
  ℕ, suc, ◌+◌, ◌≤◌, ◌<◌, ◌≡◌, refl, sym, List, [], ◌∷◌, ◌++◌, false, ◌==◌, arith, if◌then◌else◌,
  length, All, All-append, Bool-cases, if_cases, ltb, leb, ◌&&◌, inl, inr,
}
use gist.Text.{Bytes}
use gist.Store.{Format, Source, Chunk, Result, ok}
use gist.Store.Memory.{
  MemoryStore, new_memory_store, save_source, count_chunk, save_chunk, sum_bytes, stats, close,
}

-- The identifiers count up from `k + 1` to `n`.
abbrev pub Numbered {ℓ} : {A : Type ℓ} → (A → ℕ) → ℕ → List A → ℕ → Type 0
Numbered id k [] n = n ≡ k
Numbered id k (x ∷ xs) n = (id x ≡ suc k) × Numbered id (suc k) xs n

-- The chunks of a source, and their bytes.
abbrev pub chunks_of : ℕ → List Chunk → ℕ
chunks_of i [] = 0
chunks_of i (c ∷ cs) = (if i == c.source_id then 1 else 0) + chunks_of i cs

abbrev pub bytes_of : ℕ → List Chunk → ℕ
bytes_of i [] = 0
bytes_of i (c ∷ cs) = (if i == c.source_id then length c.content else 0) + bytes_of i cs

abbrev pub total_bytes : List Chunk → ℕ
total_bytes [] = 0
total_bytes (c ∷ cs) = length c.content + total_bytes cs

-- The counters of a source are those of its chunks.
abbrev pub Counts : List Chunk → Source → Type 0
Counts cs s = (s.chunk_count ≡ chunks_of s.id cs) × (s.bytes_indexed ≡ bytes_of s.id cs)

-- A chunk refers to a source of the store.
abbrev pub Refers : ℕ → Chunk → Type 0
Refers n c = (0 < c.source_id) × (c.source_id ≤ n)

pub record Inv (m : MemoryStore) : Type 0 where
  pub source_ids : Numbered (λ (s : Source). s.id) 0 m.sources m.next_src
  pub chunk_ids : Numbered (λ (c : Chunk). c.id) 0 m.chunks m.next_chk
  pub counters : All (Counts m.chunks) m.sources
  pub refers : All (Refers m.next_src) m.chunks

Numbered-append {ℓ} :
    {A : Type ℓ} (id : A → ℕ) (k n : ℕ) (xs : List A) (x : A)
    → Numbered id k xs n
    → id x ≡ suc n
    → Numbered id k (xs ++ x ∷ []) (suc n)
Numbered-append id k n [] x h e = (omega arith, omega arith)
Numbered-append id k n (y ∷ ys) x h e = (h.0, Numbered-append id (suc k) n ys x h.1 e)

Refers-grow : (n : ℕ) (cs : List Chunk) → All (Refers n) cs → All (Refers (suc n)) cs
Refers-grow n [] h = tt
Refers-grow n (c ∷ cs) h = ((h.0.0, omega arith), Refers-grow n cs h.1)

-- No chunk belongs to a source that is still to come.
no_chunks :
    (n : ℕ) (cs : List Chunk)
    → All (Refers n) cs
    → (chunks_of (suc n) cs ≡ 0) × (bytes_of (suc n) cs ≡ 0)
no_chunks n [] h = (refl, refl)
no_chunks n (c ∷ cs) h = ground (arith, no_chunks n cs h.1, h.0.1)

new-Inv : Inv new_memory_store
unfolding new_memory_store
new-Inv = record { source_ids = refl; chunk_ids = refl; counters = tt; refers = tt }

-- `SaveSource` keeps the invariant, on an open store and on a closed one.
pub save_source-Inv :
    (m : MemoryStore) (label : Bytes) (format : Format) → Inv m → Inv (save_source m label format).0
unfolding save_source
save_source-Inv m label format v =
    if_cases (λ (r : MemoryStore × Result Source). Inv r.0) m.closed (λ _. v)
      λ _. record {
        source_ids = Numbered-append _ 0 m.next_src m.sources _ v.source_ids refl;
        chunk_ids = v.chunk_ids;
        counters =
            All-append (Counts m.chunks) m.sources _ v.counters
              ((sym (no_chunks _ m.chunks v.refers).0, sym (no_chunks _ m.chunks v.refers).1), tt);
        refers = Refers-grow m.next_src m.chunks v.refers;
      }

chunks_of-append :
    (i : ℕ) (cs : List Chunk) (c : Chunk)
    → (chunks_of i (cs ++ c ∷ []) ≡ chunks_of i cs + (if i == c.source_id then 1 else 0))
      × (bytes_of i (cs ++ c ∷ [])
          ≡ bytes_of i cs + (if i == c.source_id then length c.content else 0))
chunks_of-append i [] c = (omega arith, omega arith)
chunks_of-append i (d ∷ ds) c = ground (arith, chunks_of-append i ds c)

-- Sources whose identifiers lie above the chunk's keep their counters.
above_unchanged :
    (c : Chunk) (cs : List Chunk) (k n : ℕ) (ss : List Source)
    → Numbered (λ (s : Source). s.id) k ss n
    → c.source_id ≤ k
    → All (Counts cs) ss
    → All (Counts (cs ++ c ∷ [])) ss
above_unchanged c cs k n [] ids h v = tt
above_unchanged c cs k n (s ∷ ss) ids h v = (
  ground (arith, chunks_of-append s.id cs c, ids.0, v.0),
  above_unchanged c cs (suc k) n ss ids.1 (omega arith) v.1,
)

count_chunk-Counts :
    (c : Chunk) (cs : List Chunk) (k n : ℕ) (ss : List Source)
    → Numbered (λ (s : Source). s.id) k ss n
    → All (Counts cs) ss
    → All (Counts (cs ++ c ∷ [])) (count_chunk c ss)
      × Numbered (λ (s : Source). s.id) k (count_chunk c ss) n
unfolding count_chunk
count_chunk-Counts c cs k n [] ids v = (tt, ids)
count_chunk-Counts c cs k n (s ∷ ss) ids v = elim (Bool-cases (s.id == c.source_id)) [
  | inl own ↦
      rw (own, count_chunk)
        (
          (
            ground (arith, chunks_of-append s.id cs c),
            above_unchanged c cs (suc k) n ss ids.1 (ground arith) v.1,
          ),
          ids,
        )
  | inr other ↦
      let rest = count_chunk-Counts c cs (suc k) n ss ids.1 v.1 in
      rw (other, count_chunk)
        ((ground (arith, chunks_of-append s.id cs c), rest.0), (ids.0, rest.1))
]

abbrev numbered : MemoryStore → Chunk → Chunk
numbered m c = record c { id = suc m.next_chk }

-- `SaveChunk` keeps the invariant where the chunk refers to a source of the store.
pub save_chunk-Inv :
    (m : MemoryStore) (c : Chunk) → Inv m → Refers m.next_src c → Inv (save_chunk m c).0
unfolding save_chunk
save_chunk-Inv m c v h =
    let counted =
      count_chunk-Counts (numbered m c) m.chunks 0 m.next_src m.sources v.source_ids v.counters in
    if_cases (λ (r : MemoryStore × Result Chunk). Inv r.0) m.closed (λ _. v)
      λ _. record {
        source_ids = counted.1;
        chunk_ids = Numbered-append _ 0 m.next_chk m.chunks _ v.chunk_ids refl;
        counters = counted.0;
        refers = All-append (Refers m.next_src) m.chunks _ v.refers (h, tt);
      }

-- What the sources count together is what the chunks hold.
sum_over : List Source → List Chunk → ℕ
sum_over [] cs = 0
sum_over (s ∷ ss) cs = bytes_of s.id cs + sum_over ss cs

sum_bytes-Counts :
    (cs : List Chunk) (ss : List Source) → All (Counts cs) ss → sum_bytes ss ≡ sum_over ss cs
unfolding sum_bytes sum_over
sum_bytes-Counts cs [] h = refl
sum_bytes-Counts cs (s ∷ ss) h = omega (arith, h.0.1, sum_bytes-Counts cs ss h.1)

sum_over-nil : (ss : List Source) → sum_over ss [] ≡ 0
unfolding sum_over
sum_over-nil [] = refl
sum_over-nil (s ∷ ss) = omega (arith, sum_over-nil ss)

Numbered-le : (k n : ℕ) (ss : List Source) → Numbered (λ (s : Source). s.id) k ss n → k ≤ n
Numbered-le k n [] h = omega arith
Numbered-le k n (s ∷ ss) h = omega (arith, Numbered-le (suc k) n ss h.1)

-- A chunk is counted once among numbered sources, and not at all below its source.
sum_over-cons :
    (c : Chunk) (cs : List Chunk) (k n : ℕ) (ss : List Source)
    → Numbered (λ (s : Source). s.id) k ss n
    → sum_over ss (c ∷ cs)
      ≡ sum_over ss cs + (if ltb k c.source_id && leb c.source_id n then length c.content else 0)
unfolding sum_over
sum_over-cons c cs k n [] ids = ground arith
sum_over-cons c cs k n (s ∷ ss) ids =
    ground (arith, sum_over-cons c cs (suc k) n ss ids.1, Numbered-le (suc k) n ss ids.1, ids.0)

sum_over-total :
    (cs : List Chunk) (n : ℕ) (ss : List Source)
    → Numbered (λ (s : Source). s.id) 0 ss n
    → All (Refers n) cs
    → sum_over ss cs ≡ total_bytes cs
sum_over-total [] n ss ids h = sum_over-nil ss
sum_over-total (c ∷ cs) n ss ids h =
    ground (arith, sum_over-cons c cs 0 n ss ids, sum_over-total cs n ss ids h.1, h.0)

length-Numbered {ℓ} :
    {A : Type ℓ} (id : A → ℕ) (k n : ℕ) (xs : List A) → Numbered id k xs n → length xs + k ≡ n
length-Numbered id k n [] h = omega arith
length-Numbered id k n (x ∷ xs) h = omega (arith, length-Numbered id (suc k) n xs h.1)

-- On an open store that keeps the invariant, `Stats` reports the number of chunks and of sources
-- ever saved, and the bytes of all chunks together.
pub stats_lem :
    (m : MemoryStore)
    → Inv m
    → m.closed ≡ false
    → stats m
      ≡ ok (record {
        chunk_count = m.next_chk;
        source_count = m.next_src;
        bytes_indexed = total_bytes m.chunks;
      })
unfolding stats
stats_lem m v open_store = ground (
  arith,
  length-Numbered {0} (λ (c : Chunk). c.id) 0 m.next_chk m.chunks v.chunk_ids,
  length-Numbered {0} (λ (s : Source). s.id) 0 m.next_src m.sources v.source_ids,
  sum_bytes-Counts m.chunks m.sources v.counters,
  sum_over-total m.chunks m.next_src m.sources v.source_ids v.refers,
)

-- A call that changes the store.
pub data Call : Type 0 where
  saves_source : Bytes → Format → Call
  saves_chunk : Chunk → Call
  closes : Call

abbrev pub IsAllowed : MemoryStore → Call → Type 0
IsAllowed m (saves_source label format) = Unit {0}
IsAllowed m (saves_chunk c) = Refers m.next_src c
IsAllowed m closes = Unit {0}

unfoldable pub apply : MemoryStore → Call → MemoryStore
apply m (saves_source label format) = (save_source m label format).0
apply m (saves_chunk c) = (save_chunk m c).0
apply m closes = close m

-- A history in which every chunk refers to a source that was saved before.
pub data History : MemoryStore → Type 0 where
  begin : History new_memory_store
  call : (m : MemoryStore) (c : Call) → History m → IsAllowed m c → History (apply m c)

-- After any sequence of saves and closings of a new store, in which a chunk is saved only under a
-- source that was saved, the identifiers of sources and chunks count up from 1 with no gap, every
-- chunk refers to a source, and the counters of each source are those of its chunks.
pub History-Inv : {m : MemoryStore} → History m → Inv m
unfolding apply close
History-Inv begin = new-Inv
History-Inv (call m (saves_source label format) h _) =
    save_source-Inv m label format (History-Inv h)
History-Inv (call m (saves_chunk c) h a) = save_chunk-Inv m c (History-Inv h) a
History-Inv (call m closes h _) =
    let v = History-Inv h in
    record {
      source_ids = v.source_ids;
      chunk_ids = v.chunk_ids;
      counters = v.counters;
      refers = v.refers;
    }
