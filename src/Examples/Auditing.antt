-- ===== src/Examples/Auditing.antt =====
-- The lives of two calls: one with a place in the queue, whose client leaves a stream, and one without.
use open_ai_lb.Prelude.{true, false, none, some, List, [], ◌∷◌, ◌≡◌, refl}
use open_ai_lb.Prelude.Int.{pos}
use open_ai_lb.Errors.{ok}
use open_ai_lb.Audit.{AuditEvent, reservation, semaphore_permit}
use open_ai_lb.Audit.Tracker.{
  AuditTracker, ApiIdentity, Surroundings, Setter, provider, request, first_byte, begin,
  first_event,
}
use open_ai_lb.Audit.Completion.{cancels, streams, life}
use open_ai_lb.Audit.Lifecycle.{SendsOnce, life_once, begin-IsPrivate}
use open_ai_lb.Audit.Unreserved.{life_unreserved}
use open_ai_lb.Audit.Privacy.{IsPrivate}
use open_ai_lb.Examples.{toy}

abbrev ann : ApiIdentity
ann = record { consumer_id = "key"; user_id = "ann"; request_archive = true }

abbrev roomy : Surroundings
roomy = record {
  reserved = some reservation;
  reserved_archive = some semaphore_permit;
  uuid = "event";
  now = 5;
  timestamp = pos 100;
}

abbrev full : Surroundings
full = record roomy { reserved = none }

abbrev pub event : AuditEvent
event = first_event roomy ann true "audit" none "POST" "/v1/responses" "127.0.0.1"

abbrev setters : List Setter
setters = provider "alpha" ∷ request [] (1 ∷ 2 ∷ []) false ∷ first_byte 9 ∷ []

abbrev tracked : AuditTracker
tracked = begin roomy ann "audit" none "POST" "/v1/responses" "127.0.0.1"

abbrev untracked : AuditTracker
untracked = begin full ann "audit" none "POST" "/v1/responses" "127.0.0.1"

life_once_example :
    SendsOnce
      (life toy tracked setters (streams (pos 200) (some "gpt-5.4") ((1 ∷ 10 ∷ []) ∷ []) none) 20)
      event
      tracked.archive_budget
      (pos 499, some "client_cancelled")
unfolding begin
life_once_example =
    life_once toy tracked reservation event setters
      (streams (pos 200) (some "gpt-5.4") ((1 ∷ 10 ∷ []) ∷ []) none) 20 refl refl tt

life_unreserved_example : life toy untracked setters cancels 20 ≡ ok []
life_unreserved_example =
    life_unreserved toy full ann "audit" none "POST" "/v1/responses" "127.0.0.1" setters cancels 20
      refl

begin-IsPrivate_example :
    (e : AuditEvent) × (life toy
        (begin roomy
          (record ann { request_archive = false })
          "audit"
          none
          "POST"
          "/v1/responses"
          "127.0.0.1")
        setters
        cancels
        20
      ≡ ok (record { event = e; archive_budget = none } ∷ []))
    × IsPrivate e
    × (e.id ≡ "event")
begin-IsPrivate_example =
    begin-IsPrivate toy roomy reservation (record ann { request_archive = false }) "audit" none
      "POST" "/v1/responses" "127.0.0.1" setters cancels 20 refl refl tt
