-- ===== src/Chunk/Sections/Ancestors.antt =====
-- `extractSections`: the stacks of open headings, and the heading path of a section.
use mathlib.Core.List.{reverse}
use gist.Prelude.{
  ℕ, ◌≤◌, ◌≡◌, refl, List, [], ◌∷◌, true, false, leb, ltb, arith, map, if◌then◌else◌, Bool-cases,
  inl, inr,
}
use gist.Text.{codes, join}
use gist.Chunk.Sections.{HeadingInfo, pop_to, push_heading, path_of}

-- The headings among those before, latest first, that are still open for a heading of the given
-- level: the latest of a lower level, the latest before it of a still lower level, and so on.
pub open_above : ℕ → List HeadingInfo → List HeadingInfo
open_above level [] = []
open_above level (h ∷ before) =
    if ltb h.level level then h ∷ open_above h.level before else open_above level before

-- The stack after the headings so far, latest first.
pub stack_after : List HeadingInfo → List HeadingInfo
stack_after [] = []
stack_after (h ∷ before) = push_heading h (stack_after before)

pop_to-pop_to : (a b : ℕ) (hs : List HeadingInfo) → a ≤ b → pop_to a (pop_to b hs) ≡ pop_to a hs
unfolding pop_to
pop_to-pop_to a b [] h = refl
pop_to-pop_to a b (x ∷ hs) h = ground (arith, pop_to-pop_to a b hs h)

pop_to-stack_after :
    (level : ℕ) (before : List HeadingInfo)
    → pop_to level (stack_after before) ≡ open_above level before
unfolding stack_after open_above push_heading
pop_to-stack_after level [] = unfold pop_to in refl
pop_to-stack_after level (h ∷ before) = elim (Bool-cases (leb level h.level)) [
  | inl closed ↦
      let still : ltb h.level level ≡ false = ground arith in
      rw (closed, still, pop_to-pop_to level h.level (stack_after before) (ground arith))
        (pop_to-stack_after level before)
  | inr kept ↦
      let still : ltb h.level level ≡ true = ground arith in
      rw (kept, still, pop_to-stack_after h.level before) refl
]

-- After any headings the path of the next one joins, outermost first, the texts of the headings
-- that are open for its level and its own.
pub path_of-ancestors :
    (h : HeadingInfo) (before : List HeadingInfo)
    → path_of (push_heading h (stack_after before))
      ≡ join (reverse (map (λ x. x.text) (h ∷ open_above h.level before))) (codes " > ")
unfolding path_of push_heading
path_of-ancestors h before = rw (pop_to-stack_after h.level before) refl
