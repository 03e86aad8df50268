-- ===== src/Examples/Dispatching.antt =====
-- A call that a first provider answers with 503 and a second one with 200, and an upload.
use open_ai_lb.Prelude.{ℕ, true, false, none, some, List, [], ◌∷◌, eqb, if◌then◌else◌}
use open_ai_lb.Prelude.Int.{pos}
use open_ai_lb.Oauth.{OauthConfig, unreachable}
use open_ai_lb.Audit.{HeaderMap, AuditEvent, reservation, semaphore_permit}
use open_ai_lb.Audit.Tracker
use open_ai_lb.Audit.Tracker.{AuditTracker, ApiIdentity, http_11, begin, first_event}
use open_ai_lb.Serving.{Reply, Shared, ProxyConfig, Surroundings, World}
use open_ai_lb.Serving.Dispatch.{Identity, Upload, handle_json, handle_audio}
use open_ai_lb.Serving.Dispatch
use open_ai_lb.Serving.Ledger.{Settles}
use open_ai_lb.Serving.Handling.{left, handlers-Settles}
use open_ai_lb.Serving.Leases.{of_response}
use open_ai_lb.Serving.Providers.{sends}
use open_ai_lb.Serving.Retries.{AtMostTwo}
use open_ai_lb.Serving.Reach.{handlers-AtMostTwo}
use open_ai_lb.Prelude.Map
use open_ai_lb.Keys
use open_ai_lb.Json
use open_ai_lb.Balancer
use open_ai_lb.Examples.{toy, two, tables}

abbrev oauth : OauthConfig
oauth = record { authorize_url = "authorize"; redirect_uri = "redirect"; client_id = "client" }

abbrev config : ProxyConfig
config = record {
  upstream_base = "https://example.com/codex";
  upstream_openai_beta = none;
  image_host_model = "gpt-5.4";
  affinity_ttl_seconds = pos 3600;
  oauth = oauth;
}

abbrev reply_with : ℕ → Reply
reply_with status = record {
  status = status;
  version = http_11;
  headers = ("content-type", some "application/json") ∷ [];
  chunks = (1 ∷ 2 ∷ []) ∷ (3 ∷ []) ∷ [];
  broken = false;
}

abbrev around : Surroundings
around = record {
  external = toy;
  config = λ n. config;
  clock = λ n. pos 1000;
  millis = λ n. 20;
  uuids = λ n. "uuid";
  meanwhile = λ n shared. shared;
  builds = λ request. true;
  answers = λ status headers. true;
  database = λ n. true;
  disk = λ n. true;
  leaves = λ n. none;
  upstream = λ n request. some (reply_with (if eqb n 0 then 503 else 200));
  tokens = λ n form. unreachable;
}

abbrev shared : Shared
shared = record { balancer = two; db = tables; grants = [] }

abbrev start : World
start = record { shared = shared; waits = 0; events = []; setters = []; ending = none }

abbrev api : ApiIdentity
api = record { consumer_id = "key"; user_id = "ann"; request_archive = false }

abbrev identity : Identity
identity = record { api = api; all_providers = false }

abbrev no_headers : HeaderMap
no_headers = []

abbrev payload : List ℕ
payload = 1 ∷ []

abbrev upload : Upload
upload = record { chunks = (1 ∷ []) ∷ []; broken = false }

handlers-AtMostTwo_example :
    AtMostTwo []
      (sends (handle_json around "/v1/responses" no_headers identity payload start).world.events)
    × AtMostTwo []
        (sends (handle_audio around "/v1/responses" no_headers identity upload start).world.events)
handlers-AtMostTwo_example =
    handlers-AtMostTwo around "/v1/responses" no_headers identity payload upload start

handlers-Settles_example :
    Settles "alpha"
      (of_response "alpha")
      0
      start
      (left (handle_json around "/v1/responses" no_headers identity payload start))
    × Settles "alpha"
        (of_response "alpha")
        0
        start
        (left (handle_audio around "/v1/responses" no_headers identity upload start))
handlers-Settles_example =
    handlers-Settles around "alpha" "/v1/responses" no_headers identity payload upload start

abbrev roomy : Tracker.Surroundings
roomy = record {
  reserved = some reservation;
  reserved_archive = some semaphore_permit;
  uuid = "event";
  now = 5;
  timestamp = pos 100;
}

abbrev event : AuditEvent
event = first_event roomy api false "audit" none "POST" "/v1/responses" "127.0.0.1"

abbrev tracked : AuditTracker
tracked = begin roomy api "audit" none "POST" "/v1/responses" "127.0.0.1"

abbrev handled : Dispatch.Handled
handled = handle_json around "/v1/responses" no_headers identity payload start
