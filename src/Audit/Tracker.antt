-- ===== src/Audit/Tracker.antt =====
-- src/proxy.rs: `AuditTracker`, the event of a call while the call is served.
use open_ai_lb.Prelude.{
  ℕ, String, Bool, true, false, ◌||◌, Option, none, some, List, [], ◌∷◌, if◌then◌else◌, is_some,
  map_option, length, ◌or_else◌,
}
use open_ai_lb.Prelude.Int.{ℤ, pos}
use open_ai_lb.Errors.{AppError, Result, ok, ◌>>=◌}
use open_ai_lb.External.{External}
use open_ai_lb.Json.{object, field, end, string, integer}
use open_ai_lb.Usage.{Usage}
use open_ai_lb.Usage
use open_ai_lb.Balancer.{affinity_hash}
use open_ai_lb.Sse.{body_preview}
use open_ai_lb.Audit.{
  HeaderMap, AuditEvent, AuditReservation, OwnedSemaphorePermit, QueuedAudit, send, archive_headers,
  header_value, elapsed, settle,
}

-- `ApiIdentity`, in what an event records of it.
pub record ApiIdentity : Type 0 where
  pub consumer_id : String
  pub user_id : String
  pub request_archive : Bool

pub record AuditTracker : Type 0 where
  pub permit : Option AuditReservation
  pub archive_budget : Option OwnedSemaphorePermit
  pub event : Option AuditEvent
  pub started : ℕ

-- What the queue, the budget, the clocks and `Uuid::new_v4` answer when a call begins.
pub record Surroundings : Type 0 where
  pub reserved : Option AuditReservation
  pub reserved_archive : Option OwnedSemaphorePermit
  pub uuid : String
  pub now : ℕ
  pub timestamp : ℤ

unfoldable pub first_event :
    Surroundings
    → ApiIdentity
    → Bool
    → String
    → Option String
    → String
    → String
    → String
    → AuditEvent
first_event s identity request_archive audit_id thread_id method path client_ip = record {
  id = s.uuid;
  request_id = audit_id;
  thread_id = thread_id;
  consumer_id = identity.consumer_id;
  user_id = identity.user_id;
  request_archive = request_archive;
  provider_id = none;
  affinity_hash = none;
  affinity_source = none;
  method = method;
  path = path;
  model = none;
  reasoning_effort = none;
  status = pos 0;
  upstream_http_version = none;
  first_byte_latency_ms = none;
  request_bytes = pos 0;
  response_bytes = pos 0;
  request_transport_bytes = pos 0;
  response_transport_bytes = pos 0;
  downstream_accept_encoding = none;
  downstream_content_encoding = none;
  upstream_accept_encoding = none;
  upstream_content_encoding = none;
  latency_ms = pos 0;
  input_tokens = pos 0;
  output_tokens = pos 0;
  cached_tokens = pos 0;
  cost_usd_nanos = none;
  error = none;
  client_ip = client_ip;
  created_at = s.timestamp;
  request_headers_json = "[]";
  request_body = [];
  request_body_truncated = false;
  upstream_request_headers_json = none;
  response_headers_json = none;
  response_body = none;
  response_body_truncated = false;
}

abbrev pub archive_of :
    Option AuditReservation → Bool → Option OwnedSemaphorePermit → Option OwnedSemaphorePermit
archive_of none wanted reserved = none
archive_of (some permit) true reserved = reserved
archive_of (some permit) false reserved = none

-- `AuditTracker::begin`.
unfoldable pub begin :
    Surroundings → ApiIdentity → String → Option String → String → String → String → AuditTracker
begin s identity audit_id thread_id method path client_ip =
    let archive_budget = archive_of s.reserved identity.request_archive s.reserved_archive in
    record {
      permit = s.reserved;
      archive_budget = archive_budget;
      event =
          map_option
            (λ permit.
              first_event s identity (is_some archive_budget) audit_id thread_id method path
                client_ip)
            s.reserved;
      started = s.now;
    }

pub data Version : Type 0 where
  http_09 : Version
  http_10 : Version
  http_11 : Version
  http_2 : Version
  http_3 : Version
  unknown : Version

abbrev version_text : Version → String
version_text http_09 = "HTTP/0.9"
version_text http_10 = "HTTP/1.0"
version_text http_11 = "HTTP/1.1"
version_text http_2 = "HTTP/2"
version_text http_3 = "HTTP/3"
version_text unknown = "unknown"

-- The setters of `AuditTracker`, each with its arguments; `first_byte` is `mark_first_byte` at a
-- time.
pub data Setter : Type 0 where
  provider : String → Setter
  affinity : Option String → Option String → Setter
  reasoning_effort : Option String → Setter
  request : HeaderMap → List ℕ → Bool → Setter
  compression_headers : HeaderMap → Option HeaderMap → Setter
  upstream_accept_encoding : HeaderMap → Setter
  response_headers : HeaderMap → Setter
  upstream_http_version : Version → Setter
  upstream_request_headers : HeaderMap → Setter
  first_byte : ℕ → Setter
  request_size : ℤ → Setter
  response_size : ℤ → Setter
  response_body : List ℕ → Bool → Setter
  error_response : AppError → Setter

-- `serde_json::to_vec(&json!({"error":{…}}))` of `set_error_response`.
abbrev pub error_body : External → AppError → List ℕ
error_body x error = x.to_vec (
    object (
      field "error"
        (object (
          field "message" (string error.message)
            (field "type" (string "proxy_error") (field "code" (integer (pos error.status)) end))))
        end))

module _ (x : External) where
  abbrev pub with_response_headers : HeaderMap → AuditEvent → AuditEvent
  with_response_headers headers e =
      if e.request_archive
      then record e { response_headers_json = some (archive_headers x headers) }
      else e

  abbrev with_response_size : ℤ → AuditEvent → AuditEvent
  with_response_size bytes e = record e { response_bytes = bytes; response_transport_bytes = bytes }

  abbrev with_response_body : List ℕ → Bool → AuditEvent → AuditEvent
  with_response_body body truncated e =
      if e.request_archive
      then record e {
        response_body = some (body_preview body).0;
        response_body_truncated = truncated || (body_preview body).1;
      }
      else e

  unfoldable pub set_event : Setter → ℕ → AuditEvent → AuditEvent
  set_event (provider id) started e = record e { provider_id = some id }
  set_event (affinity key source) started e = record e {
    affinity_hash = map_option (affinity_hash x) key;
    affinity_source = source;
  }
  set_event (reasoning_effort effort) started e = record e { reasoning_effort = effort }
  set_event (request headers body truncated) started e =
      if e.request_archive
      then record e {
        request_headers_json = archive_headers x headers;
        request_body = (body_preview body).0;
        request_body_truncated = truncated || (body_preview body).1;
      }
      else e
  set_event (compression_headers [] none) started e = e
  set_event (compression_headers [] (some upstream)) started e = record e {
    upstream_content_encoding = header_value upstream "content-encoding";
  }
  set_event (compression_headers (h ∷ hs) none) started e = record e {
    downstream_accept_encoding = header_value (h ∷ hs) "accept-encoding";
  }
  set_event (compression_headers (h ∷ hs) (some upstream)) started e = record e {
    downstream_accept_encoding = header_value (h ∷ hs) "accept-encoding";
    upstream_content_encoding = header_value upstream "content-encoding";
  }
  set_event (upstream_accept_encoding headers) started e = record e {
    upstream_accept_encoding =
        header_value headers "accept-encoding" or_else some "auto (gzip, br, zstd, deflate)";
  }
  set_event (response_headers headers) started e = with_response_headers headers e
  set_event (upstream_http_version version) started e = record e {
    upstream_http_version = some (version_text version);
  }
  set_event (upstream_request_headers headers) started e =
      if e.request_archive
      then record e { upstream_request_headers_json = some (archive_headers x headers) }
      else e
  set_event (first_byte now) started e = record e {
    first_byte_latency_ms = e.first_byte_latency_ms or_else some (elapsed now started);
  }
  set_event (request_size bytes) started e = record e {
    request_bytes = bytes;
    request_transport_bytes = bytes;
  }
  set_event (response_size bytes) started e = with_response_size bytes e
  set_event (response_body body truncated) started e = with_response_body body truncated e
  set_event (error_response error) started e = with_response_body (error_body x error) false (
      with_response_headers (("content-type", some "application/json") ∷ [])
        (with_response_size (pos (length (error_body x error))) e))

  -- `if let Some(event) = &mut self.event` around each of them.
  unfoldable pub set : AuditTracker → Setter → AuditTracker
  set self setter = record self { event = map_option (set_event setter self.started) self.event }

  unfoldable pub sets : AuditTracker → List Setter → AuditTracker
  sets self [] = self
  sets self (s ∷ ss) = sets (set self s) ss

pub record AuditTransportId : Type 0 where
  pub id : String
  pub diagnostics_enabled : Bool

-- `AuditTracker::finish`: the tracker that is left, what it answers and the messages it sends.
abbrev finish_event :
    AuditTracker
    → Option AuditEvent
    → ℤ
    → Option String
    → Usage
    → Option String
    → ℕ
    → Result (AuditTracker × Option AuditTransportId × List QueuedAudit)
finish_event self none status model usage error now = ok (self, none, [])
finish_event self (some event) status model usage error now = do
  settled ← settle event status model usage error self.started now
  sent ← send self.permit settled self.archive_budget
  ok (
    record self { permit = none; archive_budget = none; event = none },
    some (record { id = settled.id; diagnostics_enabled = settled.request_archive }),
    sent,
  )

unfoldable pub finish :
    AuditTracker
    → ℤ
    → Option String
    → Usage
    → Option String
    → ℕ
    → Result (AuditTracker × Option AuditTransportId × List QueuedAudit)
finish self status model usage error now = finish_event self self.event status model usage error now

-- `Drop for AuditTracker`: what it sends.
abbrev drop_event : AuditTracker → Option AuditEvent → ℕ → Result (List QueuedAudit)
drop_event self none now = ok []
drop_event self (some event) now = do
  settled ←
      settle (record event { response_body_truncated = true }) (pos 499) none Usage.default
        (some "client_cancelled") self.started now
  send self.permit settled self.archive_budget

unfoldable pub drop_tracker : AuditTracker → ℕ → Result (List QueuedAudit)
drop_tracker self now = drop_event self self.event now
