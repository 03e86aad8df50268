-- ===== src/Audit/Unreserved.antt =====
-- src/proxy.rs: a call that found no place in the audit queue.
use open_ai_lb.Prelude.{
  ℕ, String, Bool, Option, none, some, List, [], ◌∷◌, ◌≡◌, refl, sym, ap, ◌∙◌, arith, map_option,
}
use open_ai_lb.Errors.{ok}
use open_ai_lb.External.{External}
use open_ai_lb.Audit.{AuditEvent}
use open_ai_lb.Audit.Tracker.{
  Surroundings, ApiIdentity, begin, AuditTracker, Setter, set, sets, set_event, finish,
  drop_tracker,
}
use open_ai_lb.Audit.Completion.{
  StreamCompletion, Ending, finishes, cancels, streams, life, conclude, captures_sse, take_stream,
  finish_stream, drop_stream, complete,
}
use open_ai_lb.Audit.Endings.{captures_sse-Keeps}

module _ (x : External) where
  sets-none : (t : AuditTracker) (ss : List Setter) → t.event ≡ none → sets x t ss ≡ t
  unfolding sets set
  sets-none t [] h = refl
  sets-none t (s ∷ ss) h =
      let same =
        ap (λ (o : Option AuditEvent). record t { event = o })
          (ap (map_option (set_event x s t.started)) h ∙ sym h) in
      ap (λ (u : AuditTracker). sets x u ss) same ∙ sets-none t ss h

  complete-none :
      (s : StreamCompletion) (completed : Option Bool) (now : ℕ)
      → s.event ≡ none
      → complete s completed now ≡ ok []
  unfolding finish_stream drop_stream
  complete-none s none now h = rw h
  complete-none s (some failed) now h = rw h

  conclude-none :
      (t : AuditTracker) (ending : Ending) (now : ℕ)
      → t.event ≡ none
      → conclude x t ending now ≡ ok []
  unfolding conclude finish drop_tracker take_stream
  conclude-none t (finishes status model usage error) now h = rw h
  conclude-none t cancels now h = rw h
  conclude-none t (streams status model chunks completed) now h =
      let taken = (take_stream t status model).1 in
      let kept = captures_sse-Keeps x taken [] chunks (0, refl, omega arith) in
      rw (
        complete-none (captures_sse x taken [] chunks) completed now
          (kept.event_kept ∙ ap (map_option _) h))

  life-none :
      (t : AuditTracker) (setters : List Setter) (ending : Ending) (now : ℕ)
      → t.event ≡ none
      → life x t setters ending now ≡ ok []
  life-none t setters ending now h = rw (sets-none t setters h) (conclude-none t ending now h)

  -- A call that finds no place in the queue when it begins makes no event, so it sends nothing, whatever
  -- the setters and the ending are, and does not panic for want of a permit.
  pub life_unreserved :
      (s : Surroundings) (identity : ApiIdentity) (audit_id : String) (thread_id : Option String)
      (method path client_ip : String) (setters : List Setter) (ending : Ending) (now : ℕ)
      → s.reserved ≡ none
      → life x (begin s identity audit_id thread_id method path client_ip) setters ending now
        ≡ ok []
  unfolding begin
  life_unreserved s identity audit_id thread_id method path client_ip setters ending now h =
      life-none (begin s identity audit_id thread_id method path client_ip) setters ending now
        (rw h refl)
