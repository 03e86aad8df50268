-- ===== src/Audit/Endings.antt =====
-- src/proxy.rs: what the end of a call sends to the audit queue.
use open_ai_lb.Prelude.{
  ℕ, String, Bool, true, false, ◌||◌, Option, none, some, List, [], ◌∷◌, ◌≡◌, refl, sym, ap, ◌∙◌,
  arith, Option-cases, inl, inr, unwrap_or,
}
use open_ai_lb.Prelude.Int.{ℤ, pos}
use open_ai_lb.Errors.{Result, ok}
use open_ai_lb.External.{External}
use open_ai_lb.Usage.{Usage}
use open_ai_lb.Usage
use open_ai_lb.Sse.{StreamingPreview}
use open_ai_lb.Sse.Counting.{IsPlausible, update_sse_usage-IsPlausible}
use open_ai_lb.Pricing.{cost_usd_nanos, find_pricing, token_pricing}
use open_ai_lb.Pricing.Charge.{cost_usd_nanos-charge}
use open_ai_lb.Audit.{
  AuditEvent, AuditReservation, OwnedSemaphorePermit, QueuedAudit, settle, elapsed, cost_of,
}
use open_ai_lb.Audit.Tracker.{AuditTracker, finish, drop_tracker}
use open_ai_lb.Audit.Privacy.{IsPrivate}
use open_ai_lb.Audit.Completion.{
  StreamCompletion, Ending, finishes, cancels, streams, conclude, captures_sse, take_stream,
  capture_sse, finish_stream, drop_stream, complete, streamed, capture_event,
}

cost_usd_nanos-found :
    (model : String) (u : Usage) → IsPlausible u → (c : Option ℤ) × (cost_usd_nanos model u ≡ ok c)
cost_usd_nanos-found model u (input, e, h) =
    elim (Option-cases (find_pricing model token_pricing)) [
      | inl unknown ↦ (none, unfold cost_usd_nanos in rw unknown)
      | inr (p, known) ↦ (_, cost_usd_nanos-charge model p u input known e h)
    ]

cost_of-found :
    (model : Option String) (u : Usage) → IsPlausible u → (c : Option ℤ) × (cost_of model u ≡ ok c)
cost_of-found none u h = (none, refl)
cost_of-found (some model) u h = cost_usd_nanos-found model u h

-- The settled event, with the cost that was found.
abbrev settled_with :
    Option ℤ → AuditEvent → ℤ → Option String → Usage → Option String → ℕ → ℕ → AuditEvent
settled_with cost event status model usage error started now = record event {
  status = status;
  model = model;
  latency_ms = elapsed now started;
  input_tokens = usage.input_tokens;
  output_tokens = usage.output_tokens;
  cached_tokens = usage.cached_tokens;
  cost_usd_nanos = cost;
  error = error;
}

settle_lem :
    (event : AuditEvent) (status : ℤ) (model : Option String) (usage : Usage)
    (error : Option String) (started now : ℕ)
    → IsPlausible usage
    → (c : Option ℤ) × (settle event status model usage error started now
        ≡ ok (settled_with c event status model usage error started now))
unfolding settle
settle_lem event status model usage error started now h =
    let (c, e) = cost_of-found model usage h in (c, rw e)

-- The status and the error that an ending gives the event.
abbrev pub outcome : Ending → ℤ × Option String
outcome (finishes status model usage error) = (status, error)
outcome cancels = (pos 499, some "client_cancelled")
outcome (streams status model chunks none) = (pos 499, some "client_cancelled")
outcome (streams status model chunks (some true)) = (pos 502, some "upstream_stream_error")
outcome (streams status model chunks (some false)) = (status, none)

abbrev pub ReportsPlausible : Ending → Type 0
ReportsPlausible (finishes status model usage error) = IsPlausible usage
ReportsPlausible cancels = Unit
ReportsPlausible (streams status model chunks completed) = Unit

-- A tracker that has its event and its permit.
abbrev pub tracking : AuditReservation → Option OwnedSemaphorePermit → AuditEvent → ℕ → AuditTracker
tracking permit budget event started = record {
  permit = some permit;
  archive_budget = budget;
  event = some event;
  started = started;
}

-- Exactly one message, with the event of the call, whose archive fields are empty if they were.
abbrev pub SendsKeeping :
    Result (List QueuedAudit)
    → AuditEvent
    → Option OwnedSemaphorePermit
    → ℤ × Option String
    → Type 0
SendsKeeping sent event budget out =
    (e : AuditEvent) × (sent ≡ ok (record { event = e; archive_budget = budget } ∷ []))
    × (e.id ≡ event.id)
    × (e.request_archive ≡ event.request_archive)
    × ((e.status, e.error) ≡ out)
    × (IsPrivate event → IsPrivate e)

abbrev cancelled : AuditEvent → AuditEvent
cancelled event = record event { response_body_truncated = true }

-- What the chunks of a stream leave as it was.
pub record Keeps (s s' : StreamCompletion) : Type 0 where
  pub permit_kept : s'.permit ≡ s.permit
  pub budget_kept : s'.archive_budget ≡ s.archive_budget
  pub event_kept : s'.event ≡ s.event
  pub counts : IsPlausible s'.usage
  pub unarchived :
      (event : AuditEvent)
      → s.event ≡ some event
      → event.request_archive ≡ false
      → s'.response_preview ≡ s.response_preview

some-eq : {a b : AuditEvent} → some a ≡ some b → a ≡ b
some-eq {a} h = ap (λ (o : Option AuditEvent). unwrap_or o a) h

module _ (x : External) where
  capture_sse-Keeps :
      (s : StreamCompletion) (pending chunk : List ℕ)
      → IsPlausible s.usage
      → Keeps s (capture_sse x s pending chunk).0
  unfolding capture_sse
  capture_sse-Keeps s pending chunk h = captured s.event refl
    where
      captured :
          (event : Option AuditEvent)
          → s.event ≡ event
          → Keeps s (capture_event x s event pending chunk).0
      captured none e = record {
        permit_kept = refl;
        budget_kept = refl;
        event_kept = refl;
        counts = h;
        unarchived = λ event k l. refl;
      }
      captured (some event) e = record {
        permit_kept = refl;
        budget_kept = refl;
        event_kept = refl;
        counts = update_sse_usage-IsPlausible x pending chunk s.usage h;
        unarchived =
            λ same k l. rw (ap (λ (e : AuditEvent). e.request_archive) (some-eq (sym e ∙ k)) ∙ l);
      }

  pub captures_sse-Keeps :
      (s : StreamCompletion) (pending : List ℕ) (chunks : List (List ℕ))
      → IsPlausible s.usage
      → Keeps s (captures_sse x s pending chunks)
  unfolding captures_sse
  captures_sse-Keeps s pending [] h = record {
    permit_kept = refl;
    budget_kept = refl;
    event_kept = refl;
    counts = h;
    unarchived = λ event k l. refl;
  }
  captures_sse-Keeps s pending (c ∷ cs) h =
      let first = capture_sse-Keeps s pending c h in
      let rest =
        captures_sse-Keeps (capture_sse x s pending c).0 (capture_sse x s pending c).1 cs
          first.counts in
      record {
        permit_kept = rest.permit_kept ∙ first.permit_kept;
        budget_kept = rest.budget_kept ∙ first.budget_kept;
        event_kept = rest.event_kept ∙ first.event_kept;
        counts = rest.counts;
        unarchived = λ event k l.
            rest.unarchived event (first.event_kept ∙ k) l ∙ first.unarchived event k l;
      }

  complete_once :
      (s : StreamCompletion) (r : AuditReservation) (event : AuditEvent) (status : ℤ)
      (model : Option String) (chunks : List (List ℕ)) (completed : Option Bool) (now : ℕ)
      → s.permit ≡ some r
      → s.event ≡ some event
      → event.status ≡ status
      → IsPlausible s.usage
      → (event.request_archive ≡ false → s.response_preview.body ≡ [])
      → SendsKeeping
          (complete s completed now)
          event
          s.archive_budget
          (outcome (streams status model chunks completed))
  unfolding finish_stream drop_stream
  complete_once s r event status model chunks none now p q t h empty =
      let (c, e) =
        settle_lem (streamed s event true) (pos 499) event.model s.usage (some "client_cancelled")
          s.started now h in
      (
        settled_with c (streamed s event true) (pos 499) event.model s.usage
            (some "client_cancelled") s.started now,
        rw (q, p, e),
        refl,
        refl,
        refl,
        λ k. (k.0, k.1, k.2, k.3, k.4, inr (ap some (empty k.0))),
      )
  complete_once s r event status model chunks (some true) now p q t h empty =
      let (c, e) =
        settle_lem (streamed s event (s.response_preview.truncated || true)) (pos 502) event.model
          s.usage (some "upstream_stream_error") s.started now h in
      (
        settled_with c (streamed s event (s.response_preview.truncated || true)) (pos 502)
            event.model s.usage (some "upstream_stream_error") s.started now,
        rw (q, p, e),
        refl,
        refl,
        refl,
        λ k. (k.0, k.1, k.2, k.3, k.4, inr (ap some (empty k.0))),
      )
  complete_once s r event status model chunks (some false) now p q t h empty =
      let (c, e) =
        settle_lem (streamed s event (s.response_preview.truncated || false)) event.status
          event.model s.usage none s.started now h in
      (
        settled_with c (streamed s event (s.response_preview.truncated || false)) event.status
            event.model s.usage none s.started now,
        rw (q, p, e),
        refl,
        refl,
        rw t,
        λ k. (k.0, k.1, k.2, k.3, k.4, inr (ap some (empty k.0))),
      )

  pub conclude_once :
      (r : AuditReservation) (b : Option OwnedSemaphorePermit) (event : AuditEvent) (started : ℕ)
      (ending : Ending) (now : ℕ)
      → ReportsPlausible ending
      → SendsKeeping (conclude x (tracking r b event started) ending now) event b (outcome ending)
  unfolding conclude finish drop_tracker take_stream
  conclude_once r b event started (finishes status model usage error) now h =
      let (c, e) = settle_lem event status model usage error started now h in
      (settled_with c event status model usage error started now, rw e, refl, refl, refl, λ k. k)
  conclude_once r b event started cancels now h =
      let (c, e) =
        settle_lem (cancelled event) (pos 499) none Usage.default (some "client_cancelled") started
          now (0, refl, omega arith) in
      (
        settled_with c (cancelled event) (pos 499) none Usage.default (some "client_cancelled")
            started now,
        rw e,
        refl,
        refl,
        refl,
        λ k. k,
      )
  conclude_once r b event started (streams status model chunks completed) now h =
      let taken = (take_stream (tracking r b event started) status model).1 in
      let kept = captures_sse-Keeps taken [] chunks (0, refl, omega arith) in
      let (e, sent, same, archived, out, private) =
        complete_once (captures_sse x taken [] chunks) r
          (record event { status = status; model = model }) status model chunks completed now
          kept.permit_kept kept.event_kept refl kept.counts
          (λ k. ap (λ (v : StreamingPreview). v.body) (kept.unarchived _ refl k)) in
      (e, rw (sent, kept.budget_kept), same, archived, out, private)
