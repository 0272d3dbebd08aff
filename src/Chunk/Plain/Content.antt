-- ===== src/Chunk/Plain/Content.antt =====
-- `chunkPlainText`: the text of the paragraphs beside that of the chunks.
use gist.Prelude.{
  ℕ, ◌+◌, ◌<◌, ◌≡◌, refl, sym, ap, ◌∙◌, List, [], ◌∷◌, ◌++◌, append_assoc, append-nil, true, ltb,
  not, ◌==◌, arith, length, keep, map, if_cases,
}
use gist.Text.{Bytes, is_empty, trim_space, split}
use gist.Chunk.Pieces.{
  ContentChunk, SubChunk, force_split-keeps, texts, contents, contents-assign_indices,
}
use gist.Chunk.Plain.{
  Gather, newlines, plain_chunk, gap, begin_segment, flush, gather, gather_all, finish,
  nothing_gathered, plain_paragraphs, chunk_plain_text,
}

-- A text without its newlines.
abbrev pub solid : Bytes → Bytes
solid = keep λ c. not (c == 10)

pub solid-append : (s t : Bytes) → solid (s ++ t) ≡ solid s ++ solid t
solid-append [] t = refl
solid-append (c ∷ s) t = ground (arith, solid-append s t)

-- The paragraphs one behind the other, each trimmed.
abbrev pub trimmed : List Bytes → Bytes
trimmed [] = []
trimmed (p ∷ ps) = trim_space p ++ trimmed ps

contents-append : (cs ds : List ContentChunk) → contents (cs ++ ds) ≡ contents cs ++ contents ds
contents-append [] ds = refl
contents-append (c ∷ cs) ds = rw (contents-append cs ds) (sym (append_assoc c.content _ _))

contents-pieces :
    (offset : ℕ) (ps : List SubChunk)
    → contents (map (λ s. plain_chunk s.text (offset + s.offset)) ps) ≡ texts ps
unfolding plain_chunk
contents-pieces offset [] = refl
contents-pieces offset (p ∷ ps) = ap (◌++◌ p.text) (contents-pieces offset ps)

-- The text that the loop holds.
abbrev held : Gather → Bytes
held g = contents g.chunks ++ g.current

flush-held : (g : Gather) → contents (flush g).chunks ≡ held g
unfolding flush plain_chunk
flush-held g = contents-append g.chunks _ ∙ ap (◌++◌ (contents g.chunks)) (append-nil g.current)

pub is_empty→nil : (s : Bytes) → is_empty s ≡ true → s ≡ []
is_empty→nil [] h = refl
is_empty→nil (c ∷ s) h = cc

begin_segment-held :
    (max_bytes between : ℕ) (p : Bytes) (g : Gather)
    → 0 < max_bytes
    → g.current ≡ []
    → held (begin_segment max_bytes between p g) ≡ contents g.chunks ++ p
unfolding begin_segment
begin_segment-held max_bytes between p g h e =
    if_cases (λ (x : Gather). held x ≡ contents g.chunks ++ p) (ltb max_bytes (length p))
      (λ _.
        rw
          (
            e,
            contents-append g.chunks _,
            contents-pieces g.offset _,
            force_split-keeps max_bytes 0 p h,
          )
          (append-nil _))
      (λ _. refl)

-- A round adds the paragraph, but for newlines.
gather-held :
    (max_bytes between : ℕ) (p : Bytes) (g : Gather)
    → 0 < max_bytes
    → solid (held (gather max_bytes between p g)) ≡ solid (held g) ++ solid p
unfolding gather
gather-held max_bytes between p g h =
    let Kept = λ (x : Gather). solid (held x) ≡ solid (held g) ++ solid p in
    if_cases Kept (is_empty p) (λ e. rw (is_empty→nil p e) (sym (append-nil _)))
      λ _.
        if_cases Kept (is_empty g.current)
          (λ e.
            let nil = is_empty→nil g.current e in
            rw (begin_segment-held max_bytes between p g h nil, nil, append-nil)
              (solid-append (contents g.chunks) p))
          λ _.
            if_cases Kept (ltb max_bytes (length g.current + 2 + length p))
              (λ _.
                rw
                  (
                    begin_segment-held max_bytes between p (flush g) h (unfold flush in refl),
                    flush-held g,
                  )
                  (solid-append (held g) p))
              (λ _.
                rw
                  (
                    ← append_assoc (contents g.chunks) g.current (newlines ++ p),
                    solid-append (held g) (newlines ++ p),
                  )
                  refl)

gather_all-held :
    (max_bytes : ℕ) (ps : List Bytes) (g : Gather)
    → 0 < max_bytes
    → solid (held (gather_all max_bytes ps g)) ≡ solid (held g) ++ solid (trimmed ps)
unfolding gather_all
gather_all-held max_bytes [] g h = sym (append-nil _)
gather_all-held max_bytes (p ∷ ps) g h =
    rw
      (
        gather_all-held max_bytes ps _ h,
        gather-held max_bytes (gap ps) (trim_space p) g h,
        append_assoc,
        ← solid-append (trim_space p) (trimmed ps),
      )
      refl

finish-held : (g : Gather) → contents (finish g) ≡ held g
unfolding finish
finish-held g =
    if_cases (λ (cs : List ContentChunk). contents cs ≡ held g) (is_empty g.current)
      (λ e. rw (is_empty→nil g.current e) (sym (append-nil _))) (λ _. flush-held g)

-- For a positive `maxBytes` the chunks of a plain text hold, one behind the other, the text of its
-- trimmed paragraphs: apart from newlines nothing is lost, added or moved.
pub chunk_plain_text-keeps :
    (content : Bytes) (max_bytes : ℕ)
    → 0 < max_bytes
    → solid (contents (chunk_plain_text content max_bytes))
      ≡ solid (trimmed (split content newlines))
unfolding chunk_plain_text plain_paragraphs
chunk_plain_text-keeps content max_bytes h =
    rw (contents-assign_indices, finish-held)
      (gather_all-held max_bytes (split content newlines) nothing_gathered h)
