-- ===== src/Session.antt =====
-- session.go: the events of a session and their summary. A call under the lock is one step; a time
-- is a number of nanoseconds on one clock, and a duration an integer that does not saturate.
mod Summary
mod Tests
use gist.Prelude.{
  ℕ, suc, ◌+◌, ◌<◌, ◌≡◌, refl, List, [], ◌∷◌, ◌++◌, Bool, arith, length, if◌then◌else◌, pos, ℤ,
  sub_ℕ, ltb,
}
use gist.Text.{Bytes, codes, bytes_eq}

pub record IndexEvent : Type 0 where
  pub source : Bytes
  pub chunk_count : ℕ
  pub time : ℕ

pub record SearchEvent : Type 0 where
  pub query : Bytes
  pub result_count : ℕ
  pub match_layer : Bytes
  pub time : ℕ

pub record ErrorEvent : Type 0 where
  pub message : Bytes
  pub context : Bytes
  pub time : ℕ

-- The interface `Event`: the three types of this package, or a type of another one, of which only
-- what its two methods return is known.
pub data Event : Type 0 where
  of_index : IndexEvent → Event
  of_search : SearchEvent → Event
  of_error : ErrorEvent → Event
  of_other : Bytes → ℕ → Event

unfoldable pub event_type : Event → Bytes
event_type (of_index e) = codes "index"
event_type (of_search e) = codes "search"
event_type (of_error e) = codes "error"
event_type (of_other name time) = name

unfoldable pub timestamp : Event → ℕ
timestamp (of_index e) = e.time
timestamp (of_search e) = e.time
timestamp (of_error e) = e.time
timestamp (of_other name time) = time

pub record Session : Type 0 where
  pub id : Bytes
  pub events : List Event

unfoldable pub new_session : Bytes → Session
new_session id = record { id = id; events = [] }

unfoldable pub add_event : Session → Event → Session
add_event s e = record s { events = s.events ++ e ∷ [] }

unfoldable pub of_type : Bytes → List Event → List Event
unfolding event_type
of_type name [] = []
of_type name (e ∷ es) =
    let rest = of_type name es in if bytes_eq (event_type e) name then e ∷ rest else rest

unfoldable pub events_by_type : Session → Bytes → List Event
unfolding of_type
events_by_type s name = of_type name s.events

unfoldable pub later_than : ℕ → List Event → List Event
unfolding timestamp
later_than t [] = []
later_than t (e ∷ es) = let rest = later_than t es in if ltb t (timestamp e) then e ∷ rest else rest

unfoldable pub since : Session → ℕ → List Event
unfolding later_than
since s t = later_than t s.events

-- The last of some events.
last_event : Event → List Event → Event
last_event e [] = e
last_event e (f ∷ fs) = last_event f fs

unfoldable pub duration_of : List Event → ℤ
unfolding last_event timestamp
duration_of [] = pos 0
duration_of (e ∷ []) = pos 0
duration_of (e ∷ f ∷ fs) = sub_ℕ (timestamp (last_event f fs)) (timestamp e)

unfoldable pub duration : Session → ℤ
unfolding duration_of
duration s = duration_of s.events

-- The map from types to counts; a type that is not in it has the count 0.
unfoldable pub count_of : List (Bytes × ℕ) → Bytes → ℕ
count_of [] name = 0
count_of ((key, n) ∷ counts) name =
    let rest = count_of counts name in if bytes_eq key name then n else rest

-- `counts[name]++`.
unfoldable pub increment : Bytes → List (Bytes × ℕ) → List (Bytes × ℕ)
increment name [] = (name, 1) ∷ []
increment name ((key, n) ∷ counts) =
    let rest = increment name counts in
    if bytes_eq key name then (key, suc n) ∷ counts else (key, n) ∷ rest

unfoldable pub count_events : List Event → List (Bytes × ℕ) → List (Bytes × ℕ)
unfolding event_type increment
count_events [] counts = counts
count_events (e ∷ es) counts = count_events es (increment (event_type e) counts)

pub record SessionSummary : Type 0 where
  pub event_counts : List (Bytes × ℕ)
  pub total_duration : ℤ

unfoldable pub summary : Session → SessionSummary
unfolding count_events duration_of
summary s = record {
  event_counts = count_events s.events [];
  total_duration = duration_of s.events;
}
