-- ===== src/Chunk/Paragraphs/Limits.antt =====
-- The sizes and the text of the pieces of a section that is too long.
use mathlib.Core.List.{Mem, mem-cons_self, mem-cons_of_mem}
use gist.Prelude.{
  ℕ, ◌+◌, ◌≤◌, ◌<◌, ◌≡◌, refl, sym, ap, ◌∙◌, ◌⊎◌, inl, inr, List, [], ◌∷◌, ◌++◌, append_assoc,
  append-nil, true, ltb, not, ◌&&◌, arith, length, length-append, All, All-append, All-mono,
  Bool-cases, if_cases,
}
use gist.Text.{Bytes, is_empty, contains}
use gist.Chunk.Pieces.{SubChunk, force_split-bounded, force_split-keeps, texts}
use gist.Chunk.Plain.{newlines}
use gist.Chunk.Plain.Content.{solid, solid-append, is_empty→nil}
use gist.Chunk.Paragraphs.{
  fence, Pack, begin_pack, flush_pack, pack, pack_all, finish_pack, nothing_packed,
  split_preserving_code_blocks, split_on_paragraphs,
}

-- The text fits, or it is one whole paragraph that holds a fence.
abbrev pub FitsOrCode : List Bytes → ℕ → Bytes → Type 0
FitsOrCode paragraphs max_bytes t =
    (length t ≤ max_bytes) ⊎ (Mem t paragraphs × (contains t fence ≡ true))

record Bounded (paragraphs : List Bytes) (max_bytes : ℕ) (k : Pack) : Type 0 where
  result : All (λ (s : SubChunk). FitsOrCode paragraphs max_bytes s.text) k.result
  current : FitsOrCode paragraphs max_bytes k.current

module _ (paragraphs : List Bytes) (max_bytes : ℕ) where
  begin_pack-Bounded :
      (p : Bytes) (k : Pack)
      → Mem p paragraphs
      → Bounded paragraphs max_bytes k
      → Bounded paragraphs max_bytes (begin_pack max_bytes p k)
  unfolding begin_pack
  begin_pack-Bounded p k m b =
      if_cases (Bounded paragraphs max_bytes) (ltb max_bytes (length p) && not (contains p fence))
        (λ _. record {
          result = All-append _ k.result _ b.result (
              All-mono (λ s h. inl h) _
                (force_split-bounded (length p) max_bytes k.current_offset p));
          current = b.current;
        })
        (λ e. record {
          result = b.result;
          current = elim (Bool-cases (contains p fence)) [
            | inl c ↦ inr (m, c)
            | inr c ↦ inl (ground arith)
          ];
        })

  flush_pack-Bounded :
      (k : Pack) → Bounded paragraphs max_bytes k → Bounded paragraphs max_bytes (flush_pack k)
  unfolding flush_pack
  flush_pack-Bounded k b = record {
    result = All-append _ k.result _ b.result (b.current, tt);
    current = inl (omega arith);
  }

  pack-Bounded :
      (p : Bytes) (k : Pack)
      → Mem p paragraphs
      → Bounded paragraphs max_bytes k
      → Bounded paragraphs max_bytes (pack max_bytes p k)
  unfolding pack
  pack-Bounded p k m b =
      if_cases (Bounded paragraphs max_bytes) (is_empty k.current) (λ _. begin_pack-Bounded p k m b)
        λ _.
          if_cases (Bounded paragraphs max_bytes) (ltb max_bytes (length k.current + 2 + length p))
            (λ _. begin_pack-Bounded p (flush_pack k) m (flush_pack-Bounded k b))
            λ fits. record {
              result = b.result;
              current = inl (
                  ground
                    (arith, length-append k.current (newlines ++ p), length-append newlines p));
            }

  pack_all-Bounded :
      (ps : List Bytes) (k : Pack)
      → All (λ p. Mem p paragraphs) ps
      → Bounded paragraphs max_bytes k
      → Bounded paragraphs max_bytes (pack_all max_bytes ps k)
  unfolding pack_all
  pack_all-Bounded [] k m b = b
  pack_all-Bounded (p ∷ ps) k m b = pack_all-Bounded ps _ m.1 (pack-Bounded p k m.0 b)

  finish_pack-Bounded :
      (k : Pack)
      → Bounded paragraphs max_bytes k
      → All (λ (s : SubChunk). FitsOrCode paragraphs max_bytes s.text) (finish_pack k)
  unfolding finish_pack
  finish_pack-Bounded k b =
      if_cases (All (λ (s : SubChunk). FitsOrCode paragraphs max_bytes s.text)) (is_empty k.current)
        (λ _. b.result) (λ _. (flush_pack-Bounded k b).result)

All-Mem : (ps : List Bytes) → All (λ p. Mem p ps) ps
All-Mem [] = tt
All-Mem (p ∷ ps) = (mem-cons_self, All-mono (λ q m. mem-cons_of_mem p m) ps (All-Mem ps))

-- Every piece of a section that is split has at most `maxBytes` bytes, but for a paragraph that
-- holds a fence: such a one may be longer, and is then a piece of its own.
pub split_on_paragraphs_fits :
    (content : Bytes) (max_bytes : ℕ)
    → All
        (λ (s : SubChunk). FitsOrCode (split_preserving_code_blocks content) max_bytes s.text)
        (split_on_paragraphs content max_bytes)
unfolding split_on_paragraphs
split_on_paragraphs_fits content max_bytes =
    let ps = split_preserving_code_blocks content in
    finish_pack-Bounded ps max_bytes _ (
      pack_all-Bounded ps max_bytes ps nothing_packed (All-Mem ps)
        (record { result = tt; current = inl (omega arith) }))

abbrev pub joined : List Bytes → Bytes
joined [] = []
joined (p ∷ ps) = p ++ joined ps

texts-append : (ps qs : List SubChunk) → texts (ps ++ qs) ≡ texts ps ++ texts qs
texts-append [] qs = refl
texts-append (p ∷ ps) qs = rw (texts-append ps qs) (sym (append_assoc p.text _ _))

abbrev held : Pack → Bytes
held k = texts k.result ++ k.current

flush_pack-held : (k : Pack) → texts (flush_pack k).result ≡ held k
unfolding flush_pack
flush_pack-held k = texts-append k.result _ ∙ ap (◌++◌ (texts k.result)) (append-nil k.current)

begin_pack-held :
    (max_bytes : ℕ) (p : Bytes) (k : Pack)
    → 0 < max_bytes
    → k.current ≡ []
    → held (begin_pack max_bytes p k) ≡ texts k.result ++ p
unfolding begin_pack
begin_pack-held max_bytes p k h e =
    if_cases (λ (x : Pack). held x ≡ texts k.result ++ p)
      (ltb max_bytes (length p) && not (contains p fence))
      (λ _.
        rw (e, texts-append k.result _, force_split-keeps max_bytes k.current_offset p h)
          (append-nil _))
      (λ _. refl)

pack-held :
    (max_bytes : ℕ) (p : Bytes) (k : Pack)
    → 0 < max_bytes
    → solid (held (pack max_bytes p k)) ≡ solid (held k) ++ solid p
unfolding pack
pack-held max_bytes p k h =
    let Kept = λ (x : Pack). solid (held x) ≡ solid (held k) ++ solid p in
    if_cases Kept (is_empty k.current)
      (λ e.
        let nil = is_empty→nil k.current e in
        rw (begin_pack-held max_bytes p k h nil, nil, append-nil) (solid-append (texts k.result) p))
      λ _.
        if_cases Kept (ltb max_bytes (length k.current + 2 + length p))
          (λ _.
            rw
              (
                begin_pack-held max_bytes p (flush_pack k) h (unfold flush_pack in refl),
                flush_pack-held k,
              )
              (solid-append (held k) p))
          (λ _.
            rw
              (
                ← append_assoc (texts k.result) k.current (newlines ++ p),
                solid-append (held k) (newlines ++ p),
              )
              refl)

pack_all-held :
    (max_bytes : ℕ) (ps : List Bytes) (k : Pack)
    → 0 < max_bytes
    → solid (held (pack_all max_bytes ps k)) ≡ solid (held k) ++ solid (joined ps)
unfolding pack_all
pack_all-held max_bytes [] k h = sym (append-nil _)
pack_all-held max_bytes (p ∷ ps) k h =
    rw
      (
        pack_all-held max_bytes ps _ h,
        pack-held max_bytes p k h,
        append_assoc,
        ← solid-append p (joined ps),
      )
      refl

finish_pack-held : (k : Pack) → texts (finish_pack k) ≡ held k
unfolding finish_pack
finish_pack-held k =
    if_cases (λ (ps : List SubChunk). texts ps ≡ held k) (is_empty k.current)
      (λ e. rw (is_empty→nil k.current e) (sym (append-nil _))) (λ _. flush_pack-held k)

-- For a positive `maxBytes` the pieces hold, one behind the other, the text of the paragraphs:
-- apart from newlines nothing is lost, added or moved.
pub split_on_paragraphs_keeps :
    (content : Bytes) (max_bytes : ℕ)
    → 0 < max_bytes
    → solid (texts (split_on_paragraphs content max_bytes))
      ≡ solid (joined (split_preserving_code_blocks content))
unfolding split_on_paragraphs
split_on_paragraphs_keeps content max_bytes h =
    rw finish_pack-held
      (pack_all-held max_bytes (split_preserving_code_blocks content) nothing_packed h)
