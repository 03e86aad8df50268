-- ===== src/Audit.antt =====
-- src/audit.rs: the events of the audit queue. src/proxy.rs: headers as they are archived, and the
-- end of a call's event.
pub mod Tracker
pub mod Completion
pub mod Endings
pub mod Lifecycle
pub mod Unreserved
pub mod Privacy
use open_ai_lb.Prelude.{
  ℕ, ◌-◌, max, String, Bool, Option, none, some, List, [], ◌∷◌, ◌==◌, if◌then◌else◌, unwrap_or,
}
use open_ai_lb.Prelude.Int.{ℤ, pos}
use open_ai_lb.Errors.{Result, ok, err, panic, ◌>>=◌}
use open_ai_lb.External.{External}
use open_ai_lb.Json.{Value, Items, nil, cons, array, string}
use open_ai_lb.Usage.{Usage}
use open_ai_lb.Pricing.{cost_usd_nanos}

-- The headers of a message in their order, with the names in lower case, as HTTP keeps them; a
-- value that is not UTF-8 is `none`.
abbrev pub HeaderMap : Type 0
HeaderMap = List (String × Option String)

pub record AuditEvent : Type 0 where
  pub id : String
  pub request_id : String
  pub thread_id : Option String
  pub consumer_id : String
  pub user_id : String
  pub request_archive : Bool
  pub provider_id : Option String
  pub affinity_hash : Option String
  pub affinity_source : Option String
  pub method : String
  pub path : String
  pub model : Option String
  pub reasoning_effort : Option String
  pub status : ℤ
  pub upstream_http_version : Option String
  pub first_byte_latency_ms : Option ℤ
  pub request_bytes : ℤ
  pub response_bytes : ℤ
  pub request_transport_bytes : ℤ
  pub response_transport_bytes : ℤ
  pub downstream_accept_encoding : Option String
  pub downstream_content_encoding : Option String
  pub upstream_accept_encoding : Option String
  pub upstream_content_encoding : Option String
  pub latency_ms : ℤ
  pub input_tokens : ℤ
  pub output_tokens : ℤ
  pub cached_tokens : ℤ
  pub cost_usd_nanos : Option ℤ
  pub error : Option String
  pub client_ip : String
  pub created_at : ℤ
  pub request_headers_json : String
  pub request_body : List ℕ
  pub request_body_truncated : Bool
  pub upstream_request_headers_json : Option String
  pub response_headers_json : Option String
  pub response_body : Option (List ℕ)
  pub response_body_truncated : Bool

-- The permits of the queue and of the archive's byte budget.
pub data AuditReservation : Type 0 where
  reservation : AuditReservation

pub data OwnedSemaphorePermit : Type 0 where
  semaphore_permit : OwnedSemaphorePermit

-- The message of a finished event.
pub record QueuedAudit : Type 0 where
  pub event : AuditEvent
  pub archive_budget : Option OwnedSemaphorePermit

-- `AuditReservation::send`, of a permit that is `expect`ed.
abbrev pub send :
    Option AuditReservation → AuditEvent → Option OwnedSemaphorePermit → Result (List QueuedAudit)
send none event budget = panic
send (some permit) event budget = ok (record { event = event; archive_budget = budget } ∷ [])

abbrev header_items : HeaderMap → Items
header_items [] = nil
header_items ((name, value) ∷ headers) =
    cons
      (array (cons (string name) (cons (string (unwrap_or value "<non-UTF-8 header value>")) nil)))
      (header_items headers)

unfoldable pub archive_headers : External → HeaderMap → String
archive_headers x headers = x.to_string (array (header_items headers))

abbrev pub header_value : HeaderMap → String → Option String
header_value [] name = none
header_value ((n, value) ∷ headers) name = if n == name then value else header_value headers name

-- `started.elapsed().as_millis().max(1) as i64`.
abbrev pub elapsed : ℕ → ℕ → ℤ
elapsed now started = pos (max (now - started) 1)

abbrev pub cost_of : Option String → Usage → Result (Option ℤ)
cost_of none usage = ok none
cost_of (some model) usage = cost_usd_nanos model usage

-- `settle` of src/proxy.rs.
unfoldable pub settle :
    AuditEvent → ℤ → Option String → Usage → Option String → ℕ → ℕ → Result AuditEvent
settle event status model usage error started now = do
  cost ← cost_of model usage
  ok (record event {
    status = status;
    model = model;
    latency_ms = elapsed now started;
    input_tokens = usage.input_tokens;
    output_tokens = usage.output_tokens;
    cached_tokens = usage.cached_tokens;
    cost_usd_nanos = cost;
    error = error;
  })
