-- ===== src/Discovery/Fitting.antt =====
-- catalog/discovery/index.go: the order of the candidates, and how many of them a response holds.
use Prim.Native.Nat.{Ordering}
use mathlib.Core.List.{Perm}
use mathlib.Core.Path.{fun_ext}
use gist.Prelude.{
  if_cases, ℕ, suc, zero, ◌-◌, ◌≤◌, ◌<◌, ◌≡◌, ◌∙◌, refl, sym, ap, subst, List, [], ◌∷◌, ◌++◌, map,
  true, false, ◌==◌, arith, All, length, take, drop, pos_part, append_assoc, take-append-drop,
  length-take, length-append, append-nil, ltb, leb,
}
use gist.Text.{Bytes, bytes_eq, is_empty}
use gist.Text.Laws.{bytes_eq→eq}
use gist.Sort.{StrictWeak, IsSorted}
use gist.Compare.{
  IsOrdering, IsOrdering-on, IsOrdering-or_then, or_then, is_less, is_less-StrictWeak,
}
use gist.Version.{compare_bytes}
use gist.Version.Order.{compare_bytes-IsOrdering}
use gist.Outcome.{Outcome, gave, failed}
use gist.Catalog.{Cursor}
use gist.Lexical.{better}
use gist.Lexical.Scores.{better-IsOrdering}
use gist.Discovery.{
  Candidate, Request, Response, RankedCandidate, Services, DiscoveryError, budget_exceeded, fill,
  estimated, drop_last, shrink, filled, present, plain_response, ranks_before, ref_less, limit_of,
}

compare_bytes-eq : (s t : Bytes) → bytes_eq s t ≡ true → compare_bytes s t ≡ Ordering.eq
compare_bytes-eq s t h = rw (bytes_eq→eq s t h) (self t)
  where
    self : (t : Bytes) → compare_bytes t t ≡ Ordering.eq
    self t = ground (arith, compare_bytes-IsOrdering.turned t t)

compare_bytes-ne : (s t : Bytes) → bytes_eq s t ≡ false → compare_bytes s t ≡ Ordering.eq → ⊥
unfolding compare_bytes bytes_eq
compare_bytes-ne [] [] h k = cc
compare_bytes-ne [] (c ∷ t) h k = cc
compare_bytes-ne (b ∷ s) [] h k = cc
compare_bytes-ne (b ∷ s) (c ∷ t) h k = ground (arith, compare_bytes-ne s t)

-- The order of the candidates as a comparison: the better match first, then by reference.
abbrev compare_refs : Candidate → Candidate → Ordering
compare_refs a b =
    or_then (compare_bytes a.kind b.kind)
      (or_then (compare_bytes a.id b.id) (compare_bytes a.version b.version))

compare_ranks : RankedCandidate → RankedCandidate → Ordering
compare_ranks a b =
    or_then (better b.lexical_match a.lexical_match) (compare_refs a.candidate b.candidate)

IsOrdering-turned :
    {A : Type 0} (cmp : A → A → Ordering) → IsOrdering cmp → IsOrdering (λ (a b : A). cmp b a)
IsOrdering-turned cmp w = record {
  turned = λ a b. w.turned b a;
  alike = λ a b c h. ground (arith, w.turned b a, w.turned c a, w.turned c b, w.alike b a c);
  less_trans = λ a b c h k. w.less_trans c b a k h;
}

compare_ranks-IsOrdering : IsOrdering compare_ranks
unfolding compare_ranks
compare_ranks-IsOrdering =
    let text = λ (part : Candidate → Bytes).
      IsOrdering-on (λ (r : RankedCandidate). part r.candidate) compare_bytes
        compare_bytes-IsOrdering in
    IsOrdering-or_then _ _
      (IsOrdering-on (λ (r : RankedCandidate). r.lexical_match) (λ m o. better o m)
        (IsOrdering-turned better better-IsOrdering))
      (IsOrdering-or_then _ _ (text (λ c. c.kind))
        (IsOrdering-or_then _ _ (text (λ c. c.id)) (text (λ c. c.version))))

ref_less-compare : (a b : Candidate) → ref_less a b ≡ is_less (compare_refs a b)
unfolding ref_less
ref_less-compare a b = ground (
  arith,
  compare_bytes-eq a.kind b.kind,
  compare_bytes-ne a.kind b.kind,
  compare_bytes-eq a.id b.id,
  compare_bytes-ne a.id b.id,
)

ranks_before-compare : (a b : RankedCandidate) → ranks_before a b ≡ is_less (compare_ranks a b)
unfolding ranks_before compare_ranks
ranks_before-compare a b = ground (
  arith,
  ref_less-compare a.candidate b.candidate,
  better-IsOrdering.turned b.lexical_match a.lexical_match,
)

pub ranks_before-StrictWeak : StrictWeak ranks_before
ranks_before-StrictWeak =
    subst (λ less. StrictWeak less) (sym (fun_ext (λ a. fun_ext (λ b. ranks_before-compare a b))))
      (is_less-StrictWeak compare_ranks compare_ranks-IsOrdering)

-- A list is the front of another.
pub record IsFront {A : Type 0} (xs ys : List A) : Type 0 where
  pub behind : List A
  pub whole : ys ≡ xs ++ behind

IsFront-self : {A : Type 0} (xs : List A) → IsFront xs xs
IsFront-self xs = record { behind = []; whole = sym (append-nil xs) }

pub IsFront-trans : {A : Type 0} (xs ys zs : List A) → IsFront xs ys → IsFront ys zs → IsFront xs zs
IsFront-trans xs ys zs f g = record {
  behind = f.behind ++ g.behind;
  whole = g.whole ∙ ap (λ l. l ++ g.behind) f.whole ∙ append_assoc xs f.behind g.behind;
}

IsFront-take : {A : Type 0} (n : ℕ) (xs : List A) → IsFront (take n xs) xs
IsFront-take n xs = record { behind = drop n xs; whole = sym (take-append-drop n xs) }

pub IsFront-All :
    {A : Type 0} (P : A → Type 0) (xs ys : List A) → IsFront xs ys → All P ys → All P xs
IsFront-All {A} P xs ys f h = front_All xs (subst (All P) f.whole h)
  where
    front_All : (xs : List A) → All P (xs ++ f.behind) → All P xs
    front_All [] h = tt
    front_All (x ∷ xs) h = (h.0, front_All xs h.1)

pub IsFront-length : {A : Type 0} (xs ys : List A) → IsFront xs ys → length xs ≤ length ys
IsFront-length xs ys f = omega (arith, ap (λ l. length l) f.whole, length-append {0} xs f.behind)

abbrev pub shown_by : List RankedCandidate → List Candidate
shown_by = map (λ (r : RankedCandidate). r.candidate)

module _ (w : Services) where
  fill-IsFront :
      (limit max_bytes : ℕ) (rs : List RankedCandidate) (shown : List Candidate)
      → IsFront (fill w limit max_bytes rs shown) (shown ++ shown_by rs)
  unfolding fill
  fill-IsFront limit max_bytes [] shown = rw (append-nil shown) (IsFront-self shown)
  fill-IsFront limit max_bytes (r ∷ rs) shown =
      let here : IsFront shown (shown ++ (r.candidate ∷ shown_by rs)) = record {
        behind = r.candidate ∷ shown_by rs;
        whole = refl;
      } in
      let later =
        subst (IsFront (fill w limit max_bytes rs (shown ++ r.candidate ∷ [])))
          (append_assoc shown (r.candidate ∷ []) (shown_by rs))
          (fill-IsFront limit max_bytes rs (shown ++ r.candidate ∷ [])) in
      if_cases (λ l. IsFront l (shown ++ (r.candidate ∷ shown_by rs))) (length shown == limit)
        (λ _. here)
        (λ _.
          if_cases (λ l. IsFront l (shown ++ (r.candidate ∷ shown_by rs)))
            (ltb max_bytes (w.response_size (plain_response (shown ++ r.candidate ∷ []))))
            (λ _. here) (λ _. later))

  fill-le-limit :
      (limit max_bytes : ℕ) (rs : List RankedCandidate) (shown : List Candidate)
      → length shown ≤ limit
      → length (fill w limit max_bytes rs shown) ≤ limit
  unfolding fill
  fill-le-limit limit max_bytes [] shown h = h
  fill-le-limit limit max_bytes (r ∷ rs) shown h = ground (
    arith,
    fill-le-limit limit max_bytes rs (shown ++ r.candidate ∷ []),
    length-append shown (r.candidate ∷ []),
  )

  -- A response that was taken from a larger one: its candidates are a front of the others, in the
  -- same order, and it has the same cursor.
  pub record Shrunk (r r' : Response) : Type 0 where
    pub front : IsFront r'.candidates r.candidates
    pub cursor : r'.next_cursor ≡ r.next_cursor

  -- What the last loop returns: a response that fits, or an error where not even the response with
  -- no candidate fits.
  pub data Fits (max_bytes : ℕ) (r : Response) : Outcome DiscoveryError Response → Type 0 where
    fits :
        (r' : Response) → Shrunk r r' → w.response_size r' ≤ max_bytes → Fits max_bytes r (gave r')
    never :
        (r' : Response)
        → Shrunk r r'
        → r'.candidates ≡ []
        → max_bytes < w.response_size r'
        → Fits max_bytes r (failed budget_exceeded)

  estimated-Shrunk : (r : Response) → Shrunk r (estimated w r)
  unfolding estimated
  estimated-Shrunk r = record { front = IsFront-self r.candidates; cursor = refl }

  drop_last-Shrunk : (r : Response) → Shrunk r (drop_last w r)
  drop_last-Shrunk r = record {
    front = IsFront-take (length r.candidates - 1) r.candidates;
    cursor = refl;
  }

  Shrunk-trans : {r s t : Response} → Shrunk r s → Shrunk s t → Shrunk r t
  Shrunk-trans {r} {s} {t} f g = record {
    front = IsFront-trans t.candidates s.candidates r.candidates g.front f.front;
    cursor = g.cursor ∙ f.cursor;
  }

  Fits-Shrunk :
      {max_bytes : ℕ} {r s : Response} {o : Outcome DiscoveryError Response}
      → Shrunk r s
      → Fits max_bytes s o
      → Fits max_bytes r o
  Fits-Shrunk f (fits r' g le) = fits r' (Shrunk-trans f g) le
  Fits-Shrunk f (never r' g none_left lt) = never r' (Shrunk-trans f g) none_left lt

  is_empty→nil : (cs : List Candidate) → is_empty cs ≡ true → cs ≡ []
  is_empty→nil [] h = refl
  is_empty→nil (c ∷ cs) h = cc

  length-drop_last : (r : Response) → length (drop_last w r).candidates ≡ length r.candidates - 1
  length-drop_last r = omega (arith, length-take {0} (length r.candidates - 1) r.candidates)

  -- With more rounds than candidates the last loop ends as `Fits` says.
  shrink-Fits :
      (rounds max_bytes : ℕ) (r : Response)
      → length r.candidates < rounds
      → Fits max_bytes r (shrink w rounds max_bytes r)
  unfolding shrink
  shrink-Fits zero max_bytes r h = absurd (omega arith)
  shrink-Fits (suc rounds) max_bytes r h =
      let next = estimated w r in
      let same : length next.candidates ≡ length r.candidates = unfold estimated in refl in
      if_cases (Fits max_bytes r) (leb (w.response_size next) max_bytes)
        (λ e. fits next (estimated-Shrunk r) (ground arith))
        (λ e.
          if_cases (Fits max_bytes r) (is_empty next.candidates)
            (λ e'. never next (estimated-Shrunk r) (is_empty→nil next.candidates e') (ground arith))
            (λ e'. Fits-Shrunk (Shrunk-trans (estimated-Shrunk r) (drop_last-Shrunk next)) (
              shrink-Fits rounds max_bytes (drop_last w next)
                (omega (arith, length-drop_last next, not_empty next.candidates e')))))
    where
      not_empty : (cs : List Candidate) → is_empty cs ≡ false → 0 < length cs
      not_empty [] e = absurd (cc)
      not_empty (c ∷ cs) e = omega arith

  -- A list of visible candidates in the order of their ranks.
  pub record IsRanked (visible ranked : List RankedCandidate) : Type 0 where
    pub same : Perm ranked visible
    pub sorted : IsSorted ranks_before ranked

  -- What follows the loop over the records returns a front of the ranked candidates, as many as the
  -- limit allows at most, in a response that fits, or an error where none fits.
  pub present-Fits :
      (req : Request) (next : Cursor) (visible : List RankedCandidate)
      → (ranked : List RankedCandidate) × IsRanked visible ranked
        × IsFront (filled w req next ranked).candidates (shown_by ranked)
        × (length (filled w req next ranked).candidates ≤ limit_of w req)
        × Fits (pos_part req.max_bytes) (filled w req next ranked) (present w req next visible)
  unfolding present
  present-Fits req next visible =
      let ranked = w.sorter.run ranks_before visible in
      let r = filled w req next ranked in
      (
        ranked,
        record {
          same = w.sorter.run-perm ranks_before visible;
          sorted = w.sorter.run-IsSorted ranks_before ranks_before-StrictWeak visible;
        },
        fill-IsFront (limit_of w req) (pos_part req.max_bytes) ranked [],
        fill-le-limit (limit_of w req) (pos_part req.max_bytes) ranked [] (omega arith),
        shrink-Fits (suc (length r.candidates)) (pos_part req.max_bytes) r (omega arith),
      )
