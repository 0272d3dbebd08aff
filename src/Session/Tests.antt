-- ===== src/Session/Tests.antt =====
-- The theorems about session.go at concrete inputs.
use gist.Prelude.{◌≡◌, refl, [], ◌∷◌, pos}
use gist.Text.{codes}
use gist.Session.{Event, Session, of_index, of_search, of_other, new_session, add_event, duration}

abbrev indexed : Event
indexed = of_index (record { source = codes "notes"; chunk_count = 3; time = 10 })

abbrev searched : Event
searched =
    of_search
      (record { query = codes "pool"; result_count = 1; match_layer = codes "porter"; time = 25 })

abbrev saved : Event
saved = of_other (codes "snapshot") 40

abbrev afternoon : Session
afternoon = record { id = codes "afternoon"; events = indexed ∷ searched ∷ saved ∷ [] }

grown :
    add_event (add_event (add_event (new_session (codes "afternoon")) indexed) searched) saved
    ≡ afternoon
unfolding add_event new_session
grown = refl

thirty_long : duration afternoon ≡ pos 30
unfolding duration
thirty_long = refl
