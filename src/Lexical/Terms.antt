-- ===== src/Lexical/Terms.antt =====
-- lexical.go: the lengths of stems, and the terms of a query.
use mathlib.Core.List.{
  Nodup, Mem, Nodup-nil, Nodup-cons, perm_append_singleton, mem-cons, not-mem-nil,
}
use mathlib.Core.List.Perm
use mathlib.Core.Logic.Or
use gist.Prelude.{
  ◌-◌, ◌≤◌, ◌<◌, ◌≡◌, refl, sym, List, [], ◌∷◌, ◌++◌, true, false, arith, length, take, All,
  length-append, length-take, if◌then◌else◌, Bool-cases, inl, inr,
}
use gist.Text.{Bytes, bytes_eq}
use gist.Text.Laws.{bytes_eq→eq, eq→bytes_eq}
use gist.Lexical.{
  Suffix, has_text, has_suffix, strip, stem, suffixes, distinct_terms, query_of, terms_of,
}

-- No replacement is longer than its suffix.
abbrev Shortens : List Suffix → Type 0
Shortens = All (λ (s : Suffix). length s.replacement ≤ length s.suffix)

suffixes-Shortens : Shortens suffixes
unfolding suffixes
suffixes-Shortens = omega arith

length-base :
    (w : Bytes) (s : Suffix)
    → has_suffix w s.suffix ≡ true
    → length s.replacement ≤ length s.suffix
    → length (take (length w - length s.suffix) w ++ s.replacement) ≤ length w
unfolding has_suffix
length-base w s h k = ground (
  arith,
  length-append (take (length w - length s.suffix) w) s.replacement,
  length-take (length w - length s.suffix) w,
)

strip_bounds :
    (w : Bytes) (ss : List Suffix)
    → Shortens ss
    → 3 < length w
    → (3 ≤ length (strip w ss)) × (length (strip w ss) ≤ length w)
unfolding strip
strip_bounds w [] h k = omega arith
strip_bounds w (s ∷ ss) h k =
    let shorter = h.0 in ground (arith, strip_bounds w ss h.1, length-base w s)

-- `Stem` leaves a word of at most three bytes as it is; of a longer one it keeps at least three
-- bytes, and it lengthens none.
pub stem_bounds :
    (w : Bytes)
    → (length w ≤ 3 → stem w ≡ w)
      × (3 < length w → 3 ≤ length (stem w))
      × (length (stem w) ≤ length w)
unfolding stem
stem_bounds w =
    let v = strip w suffixes in
    (
      λ short. ground arith,
      λ long.
          ground (arith, strip_bounds w suffixes suffixes-Shortens, length-take (length v - 1) v),
      ground (arith, strip_bounds w suffixes suffixes-Shortens, length-take (length v - 1) v),
    )

Mem-has_text : (us : List Bytes) (t : Bytes) → Mem t us → has_text us t ≡ true
unfolding has_text
Mem-has_text [] t m = absurd (not-mem-nil m)
Mem-has_text (u ∷ us) t m =
    Or.elim (hlevel) (mem-cons.0 m) (λ e. rw (eq→bytes_eq u t (sym e)) refl)
      (λ later. ground (arith, Mem-has_text us t later))

has_text-append :
    (us : List Bytes) (u t : Bytes)
    → has_text (us ++ u ∷ []) t ≡ (if has_text us t then true else bytes_eq u t)
unfolding has_text
has_text-append [] u t = ground arith
has_text-append (v ∷ vs) u t = ground (arith, has_text-append vs u t)

append-Nodup :
    (out : List Bytes) (t : Bytes) → Nodup out → has_text out t ≡ false → Nodup (out ++ t ∷ [])
append-Nodup out t d new =
    Perm.nodup (Perm.symm (perm_append_singleton t out))
      (Nodup-cons.1 ((λ m. absurd (cc (Mem-has_text out t m))), d))

distinct_terms-Nodup : (ts out : List Bytes) → Nodup out → Nodup (distinct_terms ts out)
unfolding distinct_terms
distinct_terms-Nodup [] out d = d
distinct_terms-Nodup (t ∷ ts) out d = elim (Bool-cases (has_text out t)) [
  | inl old ↦ rw old (distinct_terms-Nodup ts out d)
  | inr new ↦ rw new (distinct_terms-Nodup ts (out ++ t ∷ []) (append-Nodup out t d new))
]

has_text-distinct_terms :
    (ts out : List Bytes) (u : Bytes)
    → has_text (distinct_terms ts out) u ≡ (if has_text out u then true else has_text ts u)
unfolding distinct_terms has_text
has_text-distinct_terms [] out u = ground arith
has_text-distinct_terms (t ∷ ts) out u = elim (Bool-cases (has_text out t)) [
  | inl old ↦ rw old (ground (arith, has_text-distinct_terms ts out u, same_text, bytes_eq→eq t u))
  | inr new ↦
      rw new (ground (arith, has_text-distinct_terms ts (out ++ t ∷ []) u, has_text-append out t u))
]
  where
    same_text : has_text out t ≡ true → t ≡ u → has_text out u ≡ true
    same_text h e = rw (← e) h

-- The terms of a query are those of its text, and none of them stands there twice.
pub query_of-distinct :
    (to_lower : Bytes → Bytes) (words : Bytes → List Bytes) (text : Bytes)
    → Nodup (query_of to_lower words text)
      × ((t : Bytes)
          → has_text (query_of to_lower words text) t ≡ has_text (terms_of to_lower words text) t)
unfolding query_of
query_of-distinct to_lower words text = (
  distinct_terms-Nodup (terms_of to_lower words text) [] Nodup-nil,
  λ t. has_text-distinct_terms (terms_of to_lower words text) [] t,
)
