-- ===== src/Writer.antt =====
-- src/audit.rs: the writer of the audit queue and the clean-up of the archive. The tables are those of
-- migrations/, with the foreign keys of `api_calls` on; a transaction that fails changes nothing.
pub mod Looping
pub mod Expiry
pub mod Persisting
pub mod Retrying
use open_ai_lb.Prelude.{
  ℕ, zero, suc, ◌+◌, ◌-◌, ◌*◌, min, String, Bool, true, false, not, ◌&&◌, ◌||◌, Option, none, some,
  List, [], ◌∷◌, ◌++◌, map, ◌==◌, if◌then◌else◌, contains, filter_by, take, drop, length,
}
use open_ai_lb.Prelude.Int.{ℤ, pos, ◌-ℤ◌, times, wrap, ltb_ℤ}
use open_ai_lb.Audit.{AuditEvent}

-- The messages of the queue.
pub data Message : Type 0 where
  event : AuditEvent → Message
  response_transport : String → ℤ → Option String → Option String → Message

-- The columns that `insert` writes.
pub record ApiCall : Type 0 where
  pub id : String
  pub request_id : String
  pub thread_id : Option String
  pub consumer_id : String
  pub user_id : String
  pub provider_id : Option String
  pub affinity_hash : Option String
  pub affinity_source : Option String
  pub method : String
  pub path : String
  pub model : Option String
  pub reasoning_effort : Option String
  pub status : ℤ
  pub first_byte_latency_ms : Option ℤ
  pub request_bytes : ℤ
  pub response_bytes : ℤ
  pub request_transport_bytes : ℤ
  pub response_transport_bytes : ℤ
  pub downstream_accept_encoding : Option String
  pub downstream_content_encoding : Option String
  pub upstream_accept_encoding : Option String
  pub upstream_content_encoding : Option String
  pub latency_ms : ℤ
  pub input_tokens : ℤ
  pub output_tokens : ℤ
  pub cached_tokens : ℤ
  pub cost_usd_nanos : Option ℤ
  pub error : Option String
  pub client_ip : String
  pub created_at : ℤ
  pub upstream_http_version : Option String

pub record RequestArchive : Type 0 where
  pub api_call_id : String
  pub request_headers_json : String
  pub upstream_request_headers_json : Option String
  pub request_body : List ℕ
  pub request_body_truncated : Bool
  pub response_headers_json : Option String
  pub downstream_response_headers_json : Option String
  pub response_body : Option (List ℕ)
  pub response_body_truncated : Bool
  pub created_at : ℤ

pub record ConsumerUse : Type 0 where
  pub id : String
  pub last_used_at : Option ℤ

-- The tables, of which only the keys of the users and the providers are read.
pub record Tables : Type 0 where
  pub users : List String
  pub providers : List String
  pub consumers : List ConsumerUse
  pub api_calls : List ApiCall
  pub request_archives : List RequestArchive

abbrev pub consumer_ids : List ConsumerUse → List String
consumer_ids [] = []
consumer_ids (c ∷ cs) = c.id ∷ consumer_ids cs

abbrev pub call_ids : List ApiCall → List String
call_ids [] = []
call_ids (c ∷ cs) = c.id ∷ call_ids cs

-- (SELECT id FROM providers WHERE id=?)
abbrev known_provider : List String → Option String → Option String
known_provider providers none = none
known_provider providers (some id) = if contains providers id then some id else none

unfoldable pub call_of : List String → AuditEvent → ApiCall
call_of providers e = record {
  id = e.id;
  request_id = e.request_id;
  thread_id = e.thread_id;
  consumer_id = e.consumer_id;
  user_id = e.user_id;
  provider_id = known_provider providers e.provider_id;
  affinity_hash = e.affinity_hash;
  affinity_source = e.affinity_source;
  method = e.method;
  path = e.path;
  model = e.model;
  reasoning_effort = e.reasoning_effort;
  status = e.status;
  first_byte_latency_ms = e.first_byte_latency_ms;
  request_bytes = e.request_bytes;
  response_bytes = e.response_bytes;
  request_transport_bytes = e.request_transport_bytes;
  response_transport_bytes = e.response_transport_bytes;
  downstream_accept_encoding = e.downstream_accept_encoding;
  downstream_content_encoding = e.downstream_content_encoding;
  upstream_accept_encoding = e.upstream_accept_encoding;
  upstream_content_encoding = e.upstream_content_encoding;
  latency_ms = e.latency_ms;
  input_tokens = e.input_tokens;
  output_tokens = e.output_tokens;
  cached_tokens = e.cached_tokens;
  cost_usd_nanos = e.cost_usd_nanos;
  error = e.error;
  client_ip = e.client_ip;
  created_at = e.created_at;
  upstream_http_version = e.upstream_http_version;
}

abbrev archive_of : AuditEvent → RequestArchive
archive_of e = record {
  api_call_id = e.id;
  request_headers_json = e.request_headers_json;
  upstream_request_headers_json = e.upstream_request_headers_json;
  request_body = e.request_body;
  request_body_truncated = e.request_body_truncated;
  response_headers_json = e.response_headers_json;
  downstream_response_headers_json = none;
  response_body = e.response_body;
  response_body_truncated = e.response_body_truncated;
  created_at = e.created_at;
}

-- `insert`: the key of the call is new, and those of its consumer and its user are there. The archive's
-- key is that of the call; an archive goes with its call, so its key is new too.
abbrev pub accepts : Tables → AuditEvent → Bool
accepts t e =
    not (contains (call_ids t.api_calls) e.id)
    && (contains (consumer_ids t.consumers) e.consumer_id && contains t.users e.user_id)

abbrev pub inserted : Tables → AuditEvent → Tables
inserted t e = record t {
  api_calls = t.api_calls ++ (call_of t.providers e ∷ []);
  request_archives =
      if e.request_archive then t.request_archives ++ (archive_of e ∷ []) else t.request_archives;
}

unfoldable pub insert : Tables → AuditEvent → Option Tables
insert t e = if accepts t e then some (inserted t e) else none

-- The two UPDATEs of a `ResponseTransport`, row by row.
unfoldable pub set_transport : String → ℤ → Option String → List ApiCall → List ApiCall
set_transport id bytes encoding [] = []
set_transport id bytes encoding (c ∷ cs) =
    record c {
      response_transport_bytes = if c.id == id then bytes else c.response_transport_bytes;
      downstream_content_encoding = if c.id == id then encoding else c.downstream_content_encoding;
    }
    ∷ set_transport id bytes encoding cs

unfoldable pub set_downstream : String → Option String → List RequestArchive → List RequestArchive
set_downstream id none archives = archives
set_downstream id (some headers) [] = []
set_downstream id (some headers) (a ∷ archives) =
    record a {
      downstream_response_headers_json =
          if a.api_call_id == id then some headers else a.downstream_response_headers_json;
    }
    ∷ set_downstream id (some headers) archives

-- UPDATE consumers SET last_used_at=? for each of the touched keys.
unfoldable pub touch : List String → ℤ → List ConsumerUse → List ConsumerUse
touch keys used_at [] = []
touch keys used_at (c ∷ cs) =
    record c { last_used_at = if contains keys c.id then some used_at else c.last_used_at }
    ∷ touch keys used_at cs

-- The loop of `persist` over the batch, with the touched keys. A statement that fails ends it.
unfoldable pub apply_messages : List Message → Tables → List String → Option (Tables × List String)
unfolding insert set_transport set_downstream
apply_messages [] t keys = some (t, keys)
apply_messages (event e ∷ batch) t keys =
    let rest = apply_messages batch (inserted t e) (e.consumer_id ∷ keys) in
    if accepts t e then rest else none
apply_messages (response_transport id bytes encoding headers ∷ batch) t keys =
    apply_messages batch
      (record t {
        api_calls = set_transport id bytes encoding t.api_calls;
        request_archives = set_downstream id headers t.request_archives;
      })
      keys

abbrev touched : ℤ → Option (Tables × List String) → Option Tables
touched used_at none = none
touched used_at (some (t, keys)) = some (record t { consumers = touch keys used_at t.consumers })

-- `persist`, when the database can be reached.
unfoldable pub persist : List Message → ℤ → Tables → Option Tables
unfolding apply_messages touch
persist batch used_at t = touched used_at (apply_messages batch t [])
