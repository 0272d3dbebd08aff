-- ===== src/Chunk/Pieces.antt =====
-- The chunks, the forced split of a paragraph that is too long, and the numbering of chunks.
-- A text is cut by bytes, so `maxBytes` bounds bytes and may cut a character in UTF-8 apart.
use gist.Prelude.{
  ℕ, zero, suc, ◌+◌, ◌≤◌, ◌<◌, ◌≡◌, refl, List, [], ◌∷◌, ◌++◌, arith, length, length-take,
  length-drop, take, drop, take-append-drop, All, ap, if◌then◌else◌,
}
use gist.Text.{Bytes, is_empty}
use gist.Store.{ContentType}

pub record ContentChunk : Type 0 where
  pub content : Bytes
  pub heading_path : Bytes
  pub content_type : ContentType
  pub start_byte : ℕ
  pub end_byte : ℕ
  pub index : ℕ

-- `subChunk`.
pub record SubChunk : Type 0 where
  pub text : Bytes
  pub offset : ℕ

abbrev pub default_max_chunk_bytes : ℕ
default_max_chunk_bytes = 4096

-- `for off := 0; off < len(p); off += maxBytes`, on fuel: the length of the text is enough.
unfoldable pub force_split : ℕ → ℕ → ℕ → Bytes → List SubChunk
force_split zero max_bytes off p = []
force_split (suc fuel) max_bytes off p =
    let rest = force_split fuel max_bytes (off + max_bytes) (drop max_bytes p) in
    if is_empty p then [] else record { text = take max_bytes p; offset = off } ∷ rest

-- `for i := range chunks { chunks[i].Index = i }`.
unfoldable pub assign_indices : ℕ → List ContentChunk → List ContentChunk
assign_indices i [] = []
assign_indices i (c ∷ cs) = record c { index = i } ∷ assign_indices (i + 1) cs

abbrev pub texts : List SubChunk → Bytes
texts [] = []
texts (p ∷ ps) = p.text ++ texts ps

-- The pieces are in the order of the text, and each begins where the one before it ends.
abbrev pub Follow : ℕ → List SubChunk → Type 0
Follow off [] = Unit {0}
Follow off (p ∷ ps) = (p.offset ≡ off) × Follow (off + length p.text) ps

force_split-texts :
    (fuel max_bytes off : ℕ) (p : Bytes)
    → 0 < max_bytes
    → length p ≤ fuel
    → texts (force_split fuel max_bytes off p) ≡ p
unfolding force_split
force_split-texts zero max_bytes off [] h k = refl
force_split-texts zero max_bytes off (c ∷ p) h k = absurd (omega arith)
force_split-texts (suc fuel) max_bytes off [] h k = refl
force_split-texts (suc fuel) max_bytes off (c ∷ p) h k =
    rw
      (force_split-texts fuel max_bytes (off + max_bytes) (drop max_bytes (c ∷ p)) h
        (omega (arith, length-drop max_bytes (c ∷ p))))
      (take-append-drop max_bytes (c ∷ p))

-- With as much fuel as bytes the forced split keeps the whole text.
pub force_split-keeps :
    (max_bytes off : ℕ) (p : Bytes)
    → 0 < max_bytes
    → texts (force_split (length p) max_bytes off p) ≡ p
force_split-keeps max_bytes off p h = force_split-texts (length p) max_bytes off p h (omega arith)

pub force_split-bounded :
    (fuel max_bytes off : ℕ) (p : Bytes)
    → All (λ (s : SubChunk). length s.text ≤ max_bytes) (force_split fuel max_bytes off p)
unfolding force_split
force_split-bounded zero max_bytes off p = tt
force_split-bounded (suc fuel) max_bytes off [] = tt
force_split-bounded (suc fuel) max_bytes off (c ∷ p) = (
  omega (arith, length-take max_bytes (c ∷ p)),
  force_split-bounded fuel max_bytes (off + max_bytes) (drop max_bytes (c ∷ p)),
)

-- The indices count from `i`.
abbrev pub Indexed : ℕ → List ContentChunk → Type 0
Indexed i [] = Unit {0}
Indexed i (c ∷ cs) = (c.index ≡ i) × Indexed (i + 1) cs

pub assign_indices-Indexed : (i : ℕ) (cs : List ContentChunk) → Indexed i (assign_indices i cs)
unfolding assign_indices
assign_indices-Indexed i [] = tt
assign_indices-Indexed i (c ∷ cs) = (refl, assign_indices-Indexed (i + 1) cs)

-- A property that does not look at the index is kept by the numbering.
pub assign_indices-All :
    (P : ContentChunk → Type 0)
    → ((c : ContentChunk) (i : ℕ) → P c → P (record c { index = i }))
    → (i : ℕ) (cs : List ContentChunk) → All P cs
    → All P (assign_indices i cs)
unfolding assign_indices
assign_indices-All P keep i [] h = tt
assign_indices-All P keep i (c ∷ cs) h = (keep c i h.0, assign_indices-All P keep (i + 1) cs h.1)

abbrev pub contents : List ContentChunk → Bytes
contents [] = []
contents (c ∷ cs) = c.content ++ contents cs

pub contents-assign_indices :
    (i : ℕ) (cs : List ContentChunk) → contents (assign_indices i cs) ≡ contents cs
unfolding assign_indices
contents-assign_indices i [] = refl
contents-assign_indices i (c ∷ cs) = ap (◌++◌ c.content) (contents-assign_indices (i + 1) cs)
