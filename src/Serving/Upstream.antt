-- ===== src/Serving/Upstream.antt =====
-- src/proxy.rs: a request to an upstream, its answer, and what the balancer learns of the answer.
use Prim.Native.String
use open_ai_lb.Prelude.{
  ℕ, String, Bool, ◌&&◌, ◌||◌, Option, none, some, List, [], ◌∷◌, ◌++◌, ◌==◌, if◌then◌else◌, eqb,
  leb, ltb,
}
use open_ai_lb.Text.{trim_end_matches}
use open_ai_lb.Errors.{Result, ok, err}
use open_ai_lb.Headers.{forwarded_headers, header}
use open_ai_lb.Oauth.{internal_error, or_internal}
use open_ai_lb.Balancer.{Lease}
use open_ai_lb.Upkeep.{track_response}
use open_ai_lb.Audit.{HeaderMap}
use open_ai_lb.Audit.Tracker.{Version, upstream_accept_encoding, upstream_request_headers}
use open_ai_lb.Serving.{
  Outbound, Reply, ProxyConfig, Surroundings, World, Action, sent, set, log, with_balancer, wait,
  now, ◌>>=◌, ◌>>◌,
}

pub record BufferedUpstream : Type 0 where
  pub status : ℕ
  pub version : Version
  pub headers : HeaderMap
  pub body : List ℕ

pub data UpstreamResponse : Type 0 where
  live : Reply → UpstreamResponse
  buffered : BufferedUpstream → UpstreamResponse

-- The methods of `UpstreamResponse`.
abbrev pub status_of : UpstreamResponse → ℕ
status_of (live response) = response.status
status_of (buffered response) = response.status

abbrev pub version_of : UpstreamResponse → Version
version_of (live response) = response.version
version_of (buffered response) = response.version

abbrev pub headers_of : UpstreamResponse → HeaderMap
headers_of (live response) = response.headers
headers_of (buffered response) = response.headers

abbrev pub concat : List (List ℕ) → List ℕ
concat [] = []
concat (chunk ∷ chunks) = chunk ++ concat chunks

abbrev whole : Reply → Result (List ℕ)
whole response = if response.broken then err internal_error else ok (concat response.chunks)

-- `is_server_error` is a status from 500 to 599.
unfoldable pub retryable : ℕ → Bool
retryable status =
    eqb status 401 || eqb status 403 || eqb status 429 || (leb 500 status && ltb status 600)

abbrev with_beta : Option String → HeaderMap → HeaderMap
with_beta none headers = headers
with_beta (some beta) headers = header "openai-beta" beta headers

abbrev authorized : Lease → HeaderMap → HeaderMap
authorized lease headers =
    header "chatgpt-account-id" lease.provider.account_id
      (header "authorization" (String.◌++◌ "Bearer " lease.access_token) headers)

-- The end of the upstream's address, after its base.
abbrev suffix_of : String → String
suffix_of path =
    if path == "/v1/responses/compact" || path == "/backend-api/codex/responses/compact"
    then "/responses/compact"
    else "/responses"

abbrev with_body : UpstreamResponse → List ℕ → BufferedUpstream
with_body upstream body = record {
  status = status_of upstream;
  version = version_of upstream;
  headers = headers_of upstream;
  body = body;
}

module _ (config : ProxyConfig) where
  abbrev transcription_url : String
  transcription_url = String.◌++◌ (trim_end_matches config.upstream_base "/codex") "/transcribe"

  abbrev pub transcription_request : Lease → HeaderMap → List ℕ → Outbound
  transcription_request lease inbound body = record {
    url = transcription_url;
    headers = header "user-agent" "Codex Desktop/26.519.81530 (macos; aarch64)" (
        header "originator" "Codex Desktop"
          (authorized lease (forwarded_headers "/v1/audio/transcriptions" inbound)));
    body = body;
  }

  abbrev pub json_request : Lease → String → HeaderMap → List ℕ → Outbound
  json_request lease path inbound body = record {
    url = String.◌++◌ config.upstream_base (suffix_of path);
    headers = with_beta config.upstream_openai_beta (
        header "content-type" "application/json"
          (authorized lease (forwarded_headers path inbound)));
    body = body;
  }

module _ (s : Surroundings) where
  -- `build`, the setter of the headers, and `execute`.
  unfoldable pub execute : String → Outbound → Action Reply
  execute id request w =
      let asked = log (sent id) (set (upstream_request_headers request.headers) w).1 in
      if s.builds request
      then (or_internal (s.upstream w.waits request), wait s asked)
      else (err internal_error, w)

  unfoldable pub send_upstream : Lease → String → HeaderMap → List ℕ → Action Reply
  unfolding execute
  send_upstream lease path inbound body w =
      if path == "/v1/audio/transcriptions"
      then execute lease.provider.id (transcription_request (s.config w.waits) lease inbound body) w
      else (set (upstream_accept_encoding inbound)
            >> execute lease.provider.id (json_request (s.config w.waits) lease path inbound body))
          w

  -- `into_bytes`: only a live answer is waited for.
  unfoldable pub into_bytes : UpstreamResponse → Action (List ℕ)
  into_bytes (live response) w = (whole response, wait s w)
  into_bytes (buffered response) w = (ok response.body, w)

  abbrev track : String → ℕ → List ℕ → World → World
  track id status body w =
      with_balancer
        (track_response s.external w.shared.balancer id status body (s.uuids w.waits) (now s w)) w

  abbrev buffer : String → UpstreamResponse → List ℕ → Action UpstreamResponse
  buffer id upstream body w =
      (ok (buffered (with_body upstream body)), track id (status_of upstream) body w)

  unfoldable pub track_upstream : String → UpstreamResponse → Action UpstreamResponse
  unfolding into_bytes
  track_upstream id upstream w =
      if eqb (status_of upstream) 429
      then (into_bytes upstream >>= buffer id upstream) w
      else (ok upstream, track id (status_of upstream) [] w)
