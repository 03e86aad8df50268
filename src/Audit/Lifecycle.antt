-- ===== src/Audit/Lifecycle.antt =====
-- src/proxy.rs: what a call leaves in the audit queue, however it ends.
use open_ai_lb.Prelude.{
  ℕ, String, Bool, true, false, ◌||◌, Option, none, some, List, [], ◌∷◌, ◌≡◌, refl, sym, ap, ◌∙◌,
  inl, map_option, is_some, if◌then◌else◌, length,
}
use open_ai_lb.Prelude.Int.{ℤ, pos}
use open_ai_lb.Errors.{Result, ok}
use open_ai_lb.External.{External}
use open_ai_lb.Sse.{body_preview}
use open_ai_lb.Audit.{
  AuditEvent, AuditReservation, OwnedSemaphorePermit, QueuedAudit, archive_headers,
}
use open_ai_lb.Audit.Tracker.{
  begin, first_event, archive_of, Surroundings, ApiIdentity, AuditTracker, Setter, provider,
  affinity, reasoning_effort, request, compression_headers, upstream_accept_encoding,
  response_headers, upstream_http_version, upstream_request_headers, first_byte, request_size,
  response_size, response_body, error_response, set, sets, set_event, error_body,
  with_response_headers,
}
use open_ai_lb.Audit.Privacy.{IsPrivate, set_event-IsPrivate}
use open_ai_lb.Audit.Completion.{Ending, life, conclude}
use open_ai_lb.Audit.Endings.{SendsKeeping, outcome, ReportsPlausible, conclude_once}

-- Exactly one message, with the event of the call.
abbrev pub SendsOnce :
    Result (List QueuedAudit)
    → AuditEvent
    → Option OwnedSemaphorePermit
    → ℤ × Option String
    → Type 0
SendsOnce sent event budget out =
    (e : AuditEvent) × (sent ≡ ok (record { event = e; archive_budget = budget } ∷ []))
    × (e.id ≡ event.id)
    × (e.request_archive ≡ event.request_archive)
    × ((e.status, e.error) ≡ out)

abbrev Same : AuditEvent → AuditEvent → Type 0
Same e f = (f.id ≡ e.id) × (f.request_archive ≡ e.request_archive)

gated : (t : Bool) (e f : AuditEvent) → Same e f → Same e (if t then f else e)
gated true e f h = h
gated false e f h = (refl, refl)

module _ (x : External) where
  -- The setters change neither the name of an event nor what it may archive.
  set_event-Same : (s : Setter) (started : ℕ) (e : AuditEvent) → Same e (set_event x s started e)
  unfolding set_event
  set_event-Same (provider id) started e = (refl, refl)
  set_event-Same (affinity key source) started e = (refl, refl)
  set_event-Same (reasoning_effort effort) started e = (refl, refl)
  set_event-Same (request headers body truncated) started e =
      gated e.request_archive e _ (refl, refl)
  set_event-Same (compression_headers [] none) started e = (refl, refl)
  set_event-Same (compression_headers [] (some upstream)) started e = (refl, refl)
  set_event-Same (compression_headers (h ∷ hs) none) started e = (refl, refl)
  set_event-Same (compression_headers (h ∷ hs) (some upstream)) started e = (refl, refl)
  set_event-Same (upstream_accept_encoding headers) started e = (refl, refl)
  set_event-Same (response_headers headers) started e = gated e.request_archive e _ (refl, refl)
  set_event-Same (upstream_http_version version) started e = (refl, refl)
  set_event-Same (upstream_request_headers headers) started e =
      gated e.request_archive e _ (refl, refl)
  set_event-Same (first_byte now) started e = (refl, refl)
  set_event-Same (request_size bytes) started e = (refl, refl)
  set_event-Same (response_size bytes) started e = (refl, refl)
  set_event-Same (response_body body truncated) started e = gated e.request_archive e _ (refl, refl)
  set_event-Same (error_response error) started e =
      let sized = record e {
        response_bytes = pos (length (error_body x error));
        response_transport_bytes = pos (length (error_body x error));
      } in
      let headed = with_response_headers x (("content-type", some "application/json") ∷ []) sized in
      let (a, b) =
        gated e.request_archive sized
          (record sized {
            response_headers_json =
                some (archive_headers x (("content-type", some "application/json") ∷ []));
          })
          (refl, refl) in
      let (c, d) =
        gated headed.request_archive headed
          (record headed {
            response_body = some (body_preview (error_body x error)).0;
            response_body_truncated = false || (body_preview (error_body x error)).1;
          })
          (refl, refl) in
      (c ∙ a, d ∙ b)

  sets-Same :
      (t : AuditTracker) (ss : List Setter) (e : AuditEvent)
      → t.event ≡ some e
      → (e' : AuditEvent) × (sets x t ss ≡ record t { event = some e' })
        × Same e e'
        × (IsPrivate e → IsPrivate e')
  unfolding sets set
  sets-Same t [] e h = (e, rw (sym h), (refl, refl), λ k. k)
  sets-Same t (s ∷ ss) e h =
      let (e', same, (a, b), private) =
        sets-Same (set x t s) ss (set_event x s t.started e)
          (ap (map_option (set_event x s t.started)) h) in
      let (c, d) = set_event-Same s t.started e in
      (e', same, (a ∙ c, b ∙ d), λ k. private (set_event-IsPrivate x s t.started e k))

  -- The event of a call, from its beginning to its only message.
  life_keeps :
      (t : AuditTracker) (r : AuditReservation) (event : AuditEvent) (setters : List Setter)
      (ending : Ending) (now : ℕ)
      → t.permit ≡ some r
      → t.event ≡ some event
      → ReportsPlausible ending
      → SendsKeeping (life x t setters ending now) event t.archive_budget (outcome ending)
  life_keeps t r event setters ending now p q h =
      let (e, same, (a, b), kept) = sets-Same t setters event q in
      let (f, sent, c, d, out, private) =
        conclude_once x r t.archive_budget e t.started ending now h in
      let held =
        same
        ∙ ap (λ (permit : Option AuditReservation). record t { permit = permit; event = some e })
            p in
      (
        f,
        ap (λ (s : AuditTracker). conclude x s ending now) held ∙ sent,
        c ∙ a,
        d ∙ b,
        out,
        λ k. private (kept k),
      )

  -- A call that has a place in the queue sends exactly one event, on every ending: finished, left
  -- by the client, or streamed to the end or part of the way. The event has the status and the
  -- error of the ending, and the name and the archive permit it began with. Nothing panics, where
  -- the usage that a handler reports is a count; a stream's always is.
  pub life_once :
      (t : AuditTracker) (r : AuditReservation) (event : AuditEvent) (setters : List Setter)
      (ending : Ending) (now : ℕ)
      → t.permit ≡ some r
      → t.event ≡ some event
      → ReportsPlausible ending
      → SendsOnce (life x t setters ending now) event t.archive_budget (outcome ending)
  life_once t r event setters ending now p q h =
      let (e, sent, a, b, out, _) = life_keeps t r event setters ending now p q h in
      (e, sent, a, b, out)

  -- A call that begins with a place in the queue, for a key that does not archive, sends exactly one
  -- event on every ending, and the archive's fields of it are empty: no list of headers of the request,
  -- of the upstream request or of the response, and no body of the request or of the response; where
  -- reported usage is a count.
  pub begin-IsPrivate :
      (s : Surroundings) (r : AuditReservation) (identity : ApiIdentity) (audit_id : String)
      (thread_id : Option String) (method path client_ip : String) (setters : List Setter)
      (ending : Ending) (now : ℕ)
      → s.reserved ≡ some r
      → identity.request_archive ≡ false
      → ReportsPlausible ending
      → (e : AuditEvent) × (life x
            (begin s identity audit_id thread_id method path client_ip)
            setters
            ending
            now
          ≡ ok (record { event = e; archive_budget = none } ∷ []))
        × IsPrivate e
        × (e.id ≡ s.uuid)
  unfolding begin
  begin-IsPrivate s r identity audit_id thread_id method path client_ip setters ending now p q h =
      let (e, sent, same, _, _, private) =
        life_keeps (begin s identity audit_id thread_id method path client_ip) r
          (first_event s identity false audit_id thread_id method path client_ip) setters ending now
          p begun h in
      (e, sent ∙ ap (one_of e) unbudgeted, private first_event-IsPrivate, same ∙ id-first_event)
    where
      unbudgeted : archive_of s.reserved identity.request_archive s.reserved_archive ≡ none
      unbudgeted = rw (p, q)

      one_of : AuditEvent → Option OwnedSemaphorePermit → Result (List QueuedAudit)
      one_of e budget = ok (record { event = e; archive_budget = budget } ∷ [])

      begun :
          map_option
            (λ (permit : AuditReservation).
              first_event s identity
                (is_some (archive_of s.reserved identity.request_archive s.reserved_archive))
                audit_id
                thread_id
                method
                path
                client_ip)
            s.reserved
          ≡ some (first_event s identity false audit_id thread_id method path client_ip)
      begun = rw (unbudgeted, p)

      first_event-IsPrivate :
          IsPrivate (first_event s identity false audit_id thread_id method path client_ip)
      first_event-IsPrivate = unfold first_event in (refl, refl, refl, refl, refl, inl refl)

      id-first_event :
          (first_event s identity false audit_id thread_id method path client_ip).id ≡ s.uuid
      id-first_event = unfold first_event in refl
