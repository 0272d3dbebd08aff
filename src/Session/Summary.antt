-- ===== src/Session/Summary.antt =====
-- The counts of a session's summary beside its events.
use gist.Prelude.{
  ℕ, suc, ◌+◌, ◌≤◌, ◌<◌, ◌≡◌, refl, List, [], ◌∷◌, ◌++◌, arith, length, if◌then◌else◌, All,
  Bool-cases, inl, inr, true,
}
use gist.Text.{Bytes, bytes_eq}
use gist.Text.Laws.{bytes_eq→eq, eq→bytes_eq}
use gist.Session.{
  Event, Session, event_type, timestamp, of_type, events_by_type, later_than, since, count_of,
  increment, count_events, summary,
}

-- All counts together.
unfoldable pub total : List (Bytes × ℕ) → ℕ
total [] = 0
total ((key, n) ∷ counts) = n + total counts

count_of-increment :
    (name other : Bytes) (counts : List (Bytes × ℕ))
    → count_of (increment name counts) other
      ≡ (if bytes_eq name other then suc (count_of counts other) else count_of counts other)
unfolding count_of increment
count_of-increment name other [] = ground arith
count_of-increment name other ((key, n) ∷ counts) = elim (Bool-cases (bytes_eq key name)) [
  | inl same ↦ rw same (rw (← bytes_eq→eq key name same) (ground arith))
  | inr differs ↦ rw differs (
      ground (
        arith,
        count_of-increment name other counts,
        bytes_eq→eq key other,
        bytes_eq→eq name other,
        key_name,
      ))
]
  where
    key_name : key ≡ other → name ≡ other → bytes_eq key name ≡ true
    key_name e e' = eq→bytes_eq key name cc

total-increment :
    (name : Bytes) (counts : List (Bytes × ℕ)) → total (increment name counts) ≡ suc (total counts)
unfolding total increment
total-increment name [] = refl
total-increment name ((key, n) ∷ counts) = ground (arith, total-increment name counts)

count_of-count_events :
    (es : List Event) (counts : List (Bytes × ℕ)) (name : Bytes)
    → count_of (count_events es counts) name ≡ count_of counts name + length (of_type name es)
unfolding count_events of_type
count_of-count_events [] counts name = omega arith
count_of-count_events (e ∷ es) counts name = ground (
  arith,
  count_of-count_events es (increment (event_type e) counts) name,
  count_of-increment (event_type e) name counts,
)

total-count_events :
    (es : List Event) (counts : List (Bytes × ℕ))
    → total (count_events es counts) ≡ total counts + length es
unfolding count_events
total-count_events [] counts = omega arith
total-count_events (e ∷ es) counts = ground (
  arith,
  total-count_events es (increment (event_type e) counts),
  total-increment (event_type e) counts,
)

-- The count that a summary gives for a type is the number of the events of that type which
-- `EventsByType` returns, 0 for a type with none, and all counts together are the number of the
-- session's events.
pub summary_counts :
    (s : Session) (name : Bytes)
    → (count_of (summary s).event_counts name ≡ length (events_by_type s name))
      × (total (summary s).event_counts ≡ length s.events)
unfolding summary events_by_type count_of total
summary_counts s name =
    let counted = count_of-count_events s.events [] name in
    let summed = total-count_events s.events [] in (omega arith, omega arith)

later_than-append :
    (t : ℕ) (es new : List Event) → later_than t (es ++ new) ≡ later_than t es ++ later_than t new
unfolding later_than
later_than-append t [] new = refl
later_than-append t (e ∷ es) new = ground (arith, later_than-append t es new)

-- Of events none of which is after `t`, none is left.
none_later : (t : ℕ) (es : List Event) → All (λ e. timestamp e ≤ t) es → later_than t es ≡ []
unfolding later_than
none_later t [] h = refl
none_later t (e ∷ es) h = let first = h.0 in ground (arith, none_later t es h.1)

only_later : (t : ℕ) (es : List Event) → All (λ e. t < timestamp e) es → later_than t es ≡ es
unfolding later_than
only_later t [] h = refl
only_later t (e ∷ es) h = let first = h.0 in ground (arith, only_later t es h.1)

-- Where the events up to some point are not after `t` and those added from there on are, `Since`
-- returns just the latter, in their order.
pub since_point :
    (s : Session) (t : ℕ) (old new : List Event)
    → s.events ≡ old ++ new
    → All (λ e. timestamp e ≤ t) old
    → All (λ e. t < timestamp e) new
    → since s t ≡ new
unfolding since
since_point s t old new h before after =
    rw (h, later_than-append t old new, none_later t old before, only_later t new after) refl
