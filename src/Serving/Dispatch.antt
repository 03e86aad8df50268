-- ===== src/Serving/Dispatch.antt =====
-- src/proxy.rs: `dispatch` and `dispatch_audio`, and the handlers around them once the caller is known.
use open_ai_lb.Prelude.{
  ℕ, String, Bool, true, false, Option, none, some, List, [], ◌==◌, if◌then◌else◌, and_then,
  map_option, unwrap_or, length,
}
use open_ai_lb.Prelude.Int.{pos}
use open_ai_lb.Errors.{AppError, Result, ok, err, panic, bad_request}
use open_ai_lb.External.{External}
use open_ai_lb.Json.{Value, member, as_str, as_bool}
use open_ai_lb.Keys
use open_ai_lb.Keys.{AffinityKey, affinity_key, scoped}
use open_ai_lb.Usage
use open_ai_lb.Oauth.{internal_error}
use open_ai_lb.Sse.{AudioSpool, spool_chunks, empty_spool, archive_body_limit}
use open_ai_lb.Transform.{transform_request}
use open_ai_lb.Balancer.{Lease}
use open_ai_lb.Audit.{HeaderMap, QueuedAudit}
use open_ai_lb.Audit.Tracker.{
  AuditTracker, ApiIdentity, affinity, reasoning_effort, request, compression_headers, request_size,
  error_response,
}
use open_ai_lb.Audit.Completion.{Ending, finishes, cancels, life}
use open_ai_lb.Serving.{Reply, Surroundings, World, Action, set, wait, ◌>>=◌, ◌>>◌}
use open_ai_lb.Serving.Upstream.{UpstreamResponse, send_upstream}
use open_ai_lb.Serving.Attempts.{Caller, forward}
use open_ai_lb.Serving.Relay.{CallContext, Response, relay_response, image_response}

-- The identity of a key, with what its user may use.
pub record Identity : Type 0 where
  pub api : ApiIdentity
  pub all_providers : Bool

-- The body of an upload: its chunks, and whether reading failed after them.
pub record Upload : Type 0 where
  pub chunks : List (List ℕ)
  pub broken : Bool

abbrev pub model_of : Option Value → Option String
model_of parsed = and_then (and_then parsed (λ value. member value "model")) as_str

abbrev is_stream : Option Value → Bool
is_stream parsed =
    unwrap_or (and_then (and_then parsed (λ value. member value "stream")) as_bool) false

abbrev pub affinity_of : Identity → Option AffinityKey → Option String
affinity_of identity key = map_option (scoped identity.api.consumer_id) key

abbrev pub caller : Identity → Option AffinityKey → Caller
caller identity key = record {
  user_id = identity.api.user_id;
  all_providers = identity.all_providers;
  affinity = affinity_of identity key;
}

abbrev pub source_of : Option AffinityKey → Option String
source_of key = map_option (λ (k : AffinityKey). k.source) key

abbrev pub context_of : Option Value → CallContext
context_of parsed = record { model = model_of parsed; stream = is_stream parsed }

abbrev pub no_context : CallContext
no_context = record { model = none; stream = false }

-- `AudioSpool::create` and `body`, on a disk that may fail.
abbrev spooled : Bool → Upload → Result AudioSpool
spooled false upload = err internal_error
spooled true upload =
    if upload.broken
    then err (bad_request "failed to read audio request body")
    else ok (spool_chunks archive_body_limit empty_spool upload.chunks)

module _ (s : Surroundings) where
  abbrev pub create_spool : Upload → Action AudioSpool
  create_spool upload w = (spooled (s.disk w.waits) upload, wait s w)

  abbrev pub spool_body : AudioSpool → Action (List ℕ)
  spool_body spool w = (if s.disk w.waits then ok spool.file else err internal_error, wait s w)

  module _ (path : String) (headers : HeaderMap) where
    abbrev pub send_body : List ℕ → Lease → Action Reply
    send_body payload lease = send_upstream s lease path headers payload

    -- `transform_request`, with the configuration of the moment.
    abbrev pub make : Option Value → Action (List ℕ)
    make parsed w =
        (transform_request s.external path parsed (s.config w.waits).image_host_model, w)

    -- The payload is made again for a second provider.
    abbrev pub send_again : Option Value → Lease → Action Reply
    send_again parsed lease = make parsed >>= λ payload. send_body payload lease

    abbrev pub answer : CallContext → Lease × UpstreamResponse → Action Response
    answer context (lease, upstream) w =
        if path == "/v1/images/generations"
        then image_response s context lease upstream w
        else relay_response s context lease upstream w

    abbrev pub dispatch_parsed : Identity → Option Value → Option AffinityKey → Action Response
    dispatch_parsed identity parsed key =
        set (reasoning_effort (and_then parsed Keys.reasoning_effort))
        >> (set (affinity (affinity_of identity key) (source_of key))
            >> (make parsed >>= λ payload.
                forward s (caller identity key) (send_body payload) (send_again parsed)
                >>= answer (context_of parsed)))

    unfoldable pub dispatch : Identity → List ℕ → Action Response
    dispatch identity body =
        let parsed = s.external.from_slice body in
        dispatch_parsed identity parsed (affinity_key headers parsed)

    abbrev pub send_spool : AudioSpool → Lease → Action Reply
    send_spool spool lease = spool_body spool >>= λ body. send_body body lease

    abbrev pub send_twice : Caller → AudioSpool → Action (Lease × UpstreamResponse)
    send_twice who spool = forward s who (send_spool spool) (send_spool spool)

    abbrev pub relay_audio : Lease × UpstreamResponse → Action Response
    relay_audio (lease, upstream) = relay_response s no_context lease upstream

    abbrev pub dispatch_spool : Caller → AudioSpool → Action Response
    dispatch_spool who spool =
        set (request headers spool.preview spool.preview_truncated)
        >> (set (request_size spool.bytes) >> (send_twice who spool >>= relay_audio))

    unfoldable pub dispatch_audio : Identity → Upload → Action Response
    dispatch_audio identity upload =
        let key = affinity_key headers none in
        set (affinity (affinity_of identity key) (source_of key))
        >> (create_spool upload >>= dispatch_spool (caller identity key))

    -- The handlers up to their error branch.
    unfoldable pub begin_json : Identity → List ℕ → Action Response
    unfolding dispatch
    begin_json identity body =
        set (request headers body false)
        >> (set (compression_headers headers none)
            >> (set (request_size (pos (length body))) >> dispatch identity body))

    unfoldable pub begin_audio : Identity → Upload → Action Response
    unfolding dispatch_audio
    begin_audio identity upload =
        set (request headers [] true)
        >> (set (compression_headers headers none) >> dispatch_audio identity upload)

-- What a handler answers, the world that it leaves and how the event of the call ends.
pub record Handled : Type 0 where
  pub result : Result Response
  pub world : World
  pub ending : Ending

-- `if let Err(error) = &result && audit.event.is_some()`: the tracker has its event until it ends.
abbrev pub conclude_error : AppError → World → Option Ending → Handled
conclude_error error w none = record {
  result = err error;
  world = (set (error_response error) w).1;
  ending = finishes (pos error.status) none Usage.default (some error.message);
}
conclude_error error w (some ending) = record { result = err error; world = w; ending = ending }

-- The end of `handle_json` and of `handle_audio`: an error that was not audited yet is. A tracker that
-- never ended is dropped.
unfoldable pub conclude_call : Result Response × World → Handled
conclude_call (ok response, w) = record {
  result = ok response;
  world = w;
  ending = unwrap_or w.ending cancels;
}
conclude_call (err error, w) = conclude_error error w w.ending
conclude_call (panic, w) = record { result = panic; world = w; ending = unwrap_or w.ending cancels }

abbrev pub handle_json : Surroundings → String → HeaderMap → Identity → List ℕ → World → Handled
handle_json s path headers identity body w =
    conclude_call (begin_json s path headers identity body w)

abbrev pub handle_audio : Surroundings → String → HeaderMap → Identity → Upload → World → Handled
handle_audio s path headers identity upload w =
    conclude_call (begin_audio s path headers identity upload w)

-- What the call of a handler sends to the queue.
abbrev pub sends : External → AuditTracker → Handled → ℕ → Result (List QueuedAudit)
sends x tracker handled now = life x tracker handled.world.setters handled.ending now
