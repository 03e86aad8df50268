-- ===== src/Examples/Writing.antt =====
-- A batch of one event, which is written at the second attempt; and one whose consumer is gone.
use open_ai_lb.Prelude.{none, List, [], ◌∷◌, ◌≡◌, refl, not, eqb}
use open_ai_lb.Prelude.Int.{pos}
use open_ai_lb.Writer.{Message, event, Tables}
use open_ai_lb.Writer.Looping.{Outside, write_batch, retry_initial_delay}
use open_ai_lb.Writer.Persisting.{event_ids}
use open_ai_lb.Writer.Retrying.{WritesAfter, write_batch-ends, write_batch-stuck}
use open_ai_lb.Examples.Auditing
use open_ai_lb.Audit.Tracker.{first_event}

abbrev batch : List Message
batch = event Auditing.event ∷ []

abbrev stored : Tables
stored = record {
  users = "ann" ∷ [];
  providers = "alpha" ∷ [];
  consumers = record { id = "key"; last_used_at = none } ∷ [];
  api_calls = [];
  request_archives = [];
}

abbrev deleted : Tables
deleted = record stored { consumers = [] }

abbrev outside : Outside
outside = record { reachable = λ n. not (eqb n 0); clock = λ n. pos 100; others = λ n t. t }

write_batch-ends_example :
    WritesAfter stored
      (event_ids batch)
      2
      (100 ∷ [])
      (write_batch outside 2 batch 0 retry_initial_delay [] stored)
unfolding first_event
write_batch-ends_example =
    write_batch-ends outside batch 1 stored (λ n t. refl) (refl, refl, refl, tt) (refl, refl)

write_batch-stuck_example : write_batch outside 9 batch 0 retry_initial_delay [] deleted ≡ none
unfolding first_event
write_batch-stuck_example =
    write_batch-stuck outside batch 9 0 retry_initial_delay [] deleted (λ n t h. h) refl
