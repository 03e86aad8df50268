-- ===== src/Audit/Completion.antt =====
-- src/proxy.rs: `StreamCompletion`, which has the event of a streamed call until the stream ends, and
-- the life of an event from `AuditTracker::begin` on.
use open_ai_lb.Prelude.{
  ℕ, String, Bool, true, ◌||◌, Option, none, some, List, [], ◌∷◌, ◌++◌, if◌then◌else◌, map_option,
  length,
}
use open_ai_lb.Prelude.Int.{ℤ, pos, wrap, ◌+ℤ◌}
use open_ai_lb.Errors.{Result, ok, ◌>>=◌}
use open_ai_lb.External.{External}
use open_ai_lb.Usage.{Usage}
use open_ai_lb.Usage
use open_ai_lb.Sse.{StreamingPreview, empty_preview, capture, update_sse_usage}
use open_ai_lb.Audit.{AuditEvent, AuditReservation, OwnedSemaphorePermit, QueuedAudit, send, settle}
use open_ai_lb.Audit.Tracker.{AuditTracker, Setter, sets, finish, drop_tracker}

pub record StreamCompletion : Type 0 where
  pub permit : Option AuditReservation
  pub archive_budget : Option OwnedSemaphorePermit
  pub event : Option AuditEvent
  pub started : ℕ
  pub usage : Usage
  pub response_preview : StreamingPreview
  pub response_bytes : ℤ

-- `AuditTracker::take_stream` and `StreamCompletion::new`: the tracker that is left, and the completion.
unfoldable pub take_stream : AuditTracker → ℤ → Option String → AuditTracker × StreamCompletion
take_stream self status model = (
  record self { permit = none; archive_budget = none; event = none },
  record {
    permit = self.permit;
    archive_budget = self.archive_budget;
    event = map_option (λ (e : AuditEvent). record e { status = status; model = model }) self.event;
    started = self.started;
    usage = Usage.default;
    response_preview = empty_preview;
    response_bytes = pos 0;
  },
)

abbrev pub capture_event :
    External → StreamCompletion → Option AuditEvent → List ℕ → List ℕ → StreamCompletion × List ℕ
capture_event x self none pending bytes = (self, pending)
capture_event x self (some event) pending bytes =
    let next = update_sse_usage x (pending, self.usage) bytes in
    (
      record self {
        response_bytes = wrap (self.response_bytes +ℤ pos (length bytes));
        usage = next.1;
        response_preview =
            if event.request_archive
            then capture self.response_preview bytes
            else self.response_preview;
      },
      next.0,
    )

-- `StreamCompletion::capture_sse`.
unfoldable pub capture_sse :
    External → StreamCompletion → List ℕ → List ℕ → StreamCompletion × List ℕ
capture_sse x self pending bytes = capture_event x self self.event pending bytes

unfoldable pub captures_sse :
    External → StreamCompletion → List ℕ → List (List ℕ) → StreamCompletion
captures_sse x self pending [] = self
captures_sse x self pending (chunk ∷ chunks) =
    let next = capture_sse x self pending chunk in captures_sse x next.0 next.1 chunks

-- The event as the stream leaves it, before it is settled.
abbrev pub streamed : StreamCompletion → AuditEvent → Bool → AuditEvent
streamed self event truncated = record event {
  response_body = some self.response_preview.body;
  response_body_truncated = truncated;
  response_bytes = self.response_bytes;
}

-- `StreamCompletion::finish`.
abbrev finish_event :
    StreamCompletion → Option AuditEvent → Bool → ℕ → Result (StreamCompletion × List QueuedAudit)
finish_event self none failed now = ok (self, [])
finish_event self (some event) failed now = do
  settled ←
      settle (streamed self event (self.response_preview.truncated || failed))
        (if failed then pos 502 else event.status) event.model self.usage
        (if failed then some "upstream_stream_error" else none) self.started now
  sent ← send self.permit settled self.archive_budget
  ok (record self { permit = none; archive_budget = none; event = none }, sent)

unfoldable pub finish_stream :
    StreamCompletion → Bool → ℕ → Result (StreamCompletion × List QueuedAudit)
finish_stream self failed now = finish_event self self.event failed now

-- `Drop for StreamCompletion`: what it sends.
abbrev drop_event : StreamCompletion → Option AuditEvent → ℕ → Result (List QueuedAudit)
drop_event self none now = ok []
drop_event self (some event) now = do
  settled ←
      settle (streamed self event true) (pos 499) event.model self.usage (some "client_cancelled")
        self.started now
  send self.permit settled self.archive_budget

unfoldable pub drop_stream : StreamCompletion → ℕ → Result (List QueuedAudit)
drop_stream self now = drop_event self self.event now

-- How a call ends: its handler finishes the tracker; the tracker is dropped unfinished, for the
-- client went away; or the response is a stream, which is read to its end, with or without a
-- failure, or is dropped after some chunks.
pub data Ending : Type 0 where
  finishes : ℤ → Option String → Usage → Option String → Ending
  cancels : Ending
  streams : ℤ → Option String → List (List ℕ) → Option Bool → Ending

abbrev pub complete : StreamCompletion → Option Bool → ℕ → Result (List QueuedAudit)
complete self none now = drop_stream self now
complete self (some failed) now = do
  finished ← finish_stream self failed now
  dropped ← drop_stream finished.0 now
  ok (finished.1 ++ dropped)

-- All that a call sends to the queue, the drops at the ends of scopes included.
unfoldable pub conclude : External → AuditTracker → Ending → ℕ → Result (List QueuedAudit)
conclude x self (finishes status model usage error) now = do
  finished ← finish self status model usage error now
  dropped ← drop_tracker finished.0 now
  ok (finished.2 ++ dropped)
conclude x self cancels now = drop_tracker self now
conclude x self (streams status model chunks completed) now = do
  let taken = take_stream self status model
  dropped ← drop_tracker taken.0 now
  sent ← complete (captures_sse x taken.1 [] chunks) completed now
  ok (dropped ++ sent)

abbrev pub life : External → AuditTracker → List Setter → Ending → ℕ → Result (List QueuedAudit)
life x self setters ending now = conclude x (sets x self setters) ending now
