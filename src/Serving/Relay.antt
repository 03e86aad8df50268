-- ===== src/Serving/Relay.antt =====
-- src/proxy.rs: `relay_response` and `image_response`, which answer the client.
use open_ai_lb.Prelude.{
  ℕ, String, Bool, true, false, ◌&&◌, Option, none, some, List, [], ◌∷◌, ◌==◌, if◌then◌else◌,
  length, take,
}
use open_ai_lb.Prelude.Int.{pos}
use open_ai_lb.Errors.{AppError, Result, ok, err, panic, internal}
use open_ai_lb.Json.{Items}
use open_ai_lb.Headers.{filtered_response_headers, header}
use open_ai_lb.Keys.{is_success, error_from}
use open_ai_lb.Usage.{Usage, usage_from_bytes}
use open_ai_lb.Balancer.{Lease}
use open_ai_lb.Audit.{HeaderMap}
use open_ai_lb.Audit.Tracker.{
  first_byte, upstream_http_version, compression_headers, response_headers, response_size,
  response_body,
}
use open_ai_lb.Audit.Completion.{Ending, finishes, streams}
use open_ai_lb.Serving.{
  Reply, Surroundings, Action, lift, set, now, concluded, drop_held, guarded, ◌>>=◌, ◌>>◌,
}
use open_ai_lb.Serving.Upstream.{
  UpstreamResponse, live, buffered, status_of, version_of, headers_of, concat, into_bytes,
}
use open_ai_lb.Serving.Images.{images_from_sse, envelope}

pub record CallContext : Type 0 where
  pub model : Option String
  pub stream : Bool

-- What the client gets: its status, headers and body, and, if the body is a stream, the lease that it
-- holds and how its reading ends (`none`: the client leaves; else whether the upstream broke off).
pub record Response : Type 0 where
  pub status : ℕ
  pub headers : HeaderMap
  pub body : List ℕ
  pub held : Option Lease
  pub completed : Option Bool

abbrev is_live : UpstreamResponse → Bool
is_live (live response) = true
is_live (buffered response) = false

abbrev names : HeaderMap → String → Bool
names [] name = false
names ((n, value) ∷ headers) name = if n == name then true else names headers name

abbrev pub with_content_type : HeaderMap → HeaderMap
with_content_type headers =
    if names headers "content-type"
    then headers
    else header "content-type" "text/event-stream" headers

-- What the client reads of a stream: all of it, or the chunks up to where it leaves.
abbrev pub heard : Option ℕ → Reply → List (List ℕ) × Option Bool
heard none reply = (reply.chunks, some reply.broken)
heard (some n) reply = (take n reply.chunks, none)

abbrev json_headers : HeaderMap
json_headers = ("content-type", some "application/json") ∷ []

abbrev pub build_failed : AppError
build_failed = internal "failed to build response"

module _ (s : Surroundings) where
  -- The answer as a stream.
  abbrev streamed : CallContext → Lease → UpstreamResponse → Action Response
  streamed context lease (live reply) w =
      let read = heard (s.leaves w.waits) reply in
      let headers = with_content_type (filtered_response_headers reply.headers) in
      if s.answers reply.status headers
      then (
        ok (record {
          status = reply.status;
          headers = headers;
          body = concat read.0;
          held = some lease;
          completed = read.1;
        }),
        concluded (streams (pos reply.status) context.model read.0 read.1) w,
      )
      else (
        err build_failed,
        drop_held lease (concluded (streams (pos reply.status) context.model [] none) w),
      )
  streamed context lease (buffered response) w =
      (panic, drop_held lease (concluded (streams (pos response.status) context.model [] none) w))

  abbrev pub answer_ending : CallContext → UpstreamResponse → List ℕ → Ending
  answer_ending context upstream bytes =
      finishes (pos (status_of upstream)) context.model (usage_from_bytes s.external bytes)
        (error_from s.external (status_of upstream) bytes)

  -- A response of a whole body, built after the tracker was finished.
  abbrev pub built : ℕ → HeaderMap → List ℕ → Result Response
  built status headers body =
      if s.answers status headers
      then ok (record {
        status = status;
        headers = headers;
        body = body;
        held = none;
        completed = some false;
      })
      else err build_failed

  abbrev pub build : Lease → Ending → ℕ → HeaderMap → List ℕ → Action Response
  build lease ending status headers body w =
      (built status headers body, drop_held lease (concluded ending w))

  -- The answer as a whole. The lease ends with the function.
  unfoldable pub relay_whole : CallContext → Lease → UpstreamResponse → Action Response
  relay_whole context lease upstream = guarded lease (into_bytes s upstream) >>= λ bytes.
      set (response_size (pos (length bytes)))
      >> (set (response_body bytes false)
          >> build lease (answer_ending context upstream bytes) (status_of upstream)
              (filtered_response_headers (headers_of upstream)) bytes)

  unfoldable pub relay_as : Bool → CallContext → Lease → UpstreamResponse → Action Response
  unfolding relay_whole
  relay_as true context lease upstream = streamed context lease upstream
  relay_as false context lease upstream = relay_whole context lease upstream

  unfoldable pub relay_response : CallContext → Lease → UpstreamResponse → Action Response
  unfolding relay_as
  relay_response context lease upstream w =
      (set (first_byte (s.millis w.waits))
          >> (set (upstream_http_version (version_of upstream))
              >> (set (compression_headers [] (some (headers_of upstream)))
                  >> (set (response_headers (headers_of upstream))
                      >> relay_as
                          (context.stream && (is_success (status_of upstream) && is_live upstream))
                          context lease upstream))))
        w

  abbrev answer_images : CallContext → Lease → ℕ → Items × Usage → Action Response
  answer_images context lease status (images, usage) w =
      let body = envelope s.external (now s w) images usage in
      (set (response_size (pos (length body)))
          >> (set (response_headers json_headers)
              >> (set (response_body body false)
                  >> build lease (finishes (pos status) context.model usage none) 200 json_headers
                      body)))
        w

  unfoldable pub image_as : Bool → CallContext → Lease → UpstreamResponse → Action Response
  unfolding relay_response
  image_as false context lease upstream = relay_response context lease upstream
  image_as true context lease upstream =
      set (response_headers (headers_of upstream))
      >> (guarded lease (into_bytes s upstream >>= λ bytes. lift (images_from_sse s.external bytes))
          >>= answer_images context lease (status_of upstream))

  unfoldable pub image_response : CallContext → Lease → UpstreamResponse → Action Response
  unfolding image_as
  image_response context lease upstream w =
      (set (first_byte (s.millis w.waits))
          >> (set (upstream_http_version (version_of upstream))
              >> image_as (is_success (status_of upstream)) context lease upstream))
        w
