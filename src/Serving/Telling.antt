-- ===== src/Serving/Telling.antt =====
-- src/proxy.rs: what the ending of a call's tracker tells of the answer that the client gets.
use open_ai_lb.Prelude.{
  ℕ, String, Bool, true, false, Option, none, some, List, ◌≡◌, refl, sym, ◌∙◌, ◌⊎◌, inl, inr,
  Bool-cases, subst, unwrap_or,
}
use open_ai_lb.Prelude.Int.{ℤ, pos}
use open_ai_lb.Errors.{Result, ok, err, panic}
use open_ai_lb.External.{External}
use open_ai_lb.Json.{Items}
use open_ai_lb.Usage.{Usage}
use open_ai_lb.Keys.{is_success, error_from}
use open_ai_lb.Headers.{filtered_response_headers}
use open_ai_lb.Balancer.{Lease}
use open_ai_lb.Audit.{HeaderMap}
use open_ai_lb.Audit.Tracker.{response_headers}
use open_ai_lb.Audit.Completion.{Ending, cancels, streams}
use open_ai_lb.Audit.Endings.{outcome}
use open_ai_lb.Serving.{
  Surroundings, World, Action, continue, concluded, drop_held, guarded, noted, lift, ◌>>=◌,
}
use open_ai_lb.Serving.Upstream.{
  UpstreamResponse, live, buffered, status_of, headers_of, into_bytes,
}
use open_ai_lb.Serving.Images.{images_from_sse}
use open_ai_lb.Serving.Relay.{
  CallContext, Response, with_content_type, heard, build, relay_whole, relay_as, relay_response,
  image_as, image_response,
}
use open_ai_lb.Serving.Dispatch.{conclude_call}
use open_ai_lb.Serving.Unended.{ended_of, ended-continue, ended-settle_held, into_bytes-Unended}

-- The status and the error of a stream's event, by how its reading ended.
abbrev pub read_as : Option Bool → ℕ → ℤ × Option String
read_as none status = (pos 499, some "client_cancelled")
read_as (some true) status = (pos 502, some "upstream_stream_error")
read_as (some false) status = (pos status, none)

-- The status and the error of an event tell of a response that the client gets: for a stream, how its
-- reading ended; for a whole body, the response's status and the error that the body names, or, for
-- images, which are always answered with 200, the success of the upstream.
abbrev pub TellsBody : External → Response → Option Lease → ℤ × Option String → Type 0
TellsBody x response (some lease) out = out ≡ read_as response.completed response.status
TellsBody x response none out =
    (out ≡ (pos response.status, error_from x response.status response.body))
    ⊎ ((response.status ≡ 200) × (u : ℕ) × (is_success u ≡ true) × (out ≡ (pos u, none)))

-- They tell of what the client gets: a response, or an error with its status and message. A panic
-- drops the tracker.
abbrev pub Tells : External → Result Response → ℤ × Option String → Type 0
Tells x (ok response) out = TellsBody x response response.held out
Tells x (err error) out = out ≡ (pos error.status, some error.message)
Tells x panic out = out ≡ (pos 499, some "client_cancelled")

-- An answer ended the tracker in a way that tells of it; an error did not end it.
abbrev pub Ends : External → Result Response × World → Type 0
Ends x (ok response, w) =
    (ending : Ending) × (w.ending ≡ some ending) × Tells x (ok response) (outcome ending)
Ends x (err error, w) = w.ending ≡ none
Ends x (panic, w) = outcome (unwrap_or w.ending cancels) ≡ (pos 499, some "client_cancelled")

pub Ends-continue :
    {A : Type 0} (x : External) (r : Result A × World) (f : A → Action Response)
    → ended_of r ≡ none
    → ((a : A) (v : World) → v.ending ≡ none → Ends x (f a v))
    → Ends x (continue r f)
Ends-continue x (ok a, v) f h k = k a v h
Ends-continue x (err e, v) f h k = h
Ends-continue x (panic, v) f h k = rw h refl

pub Tells-conclude_call :
    (x : External) (r : Result Response × World)
    → Ends x r
    → Tells x (conclude_call r).result (outcome (conclude_call r).ending)
unfolding conclude_call
Tells-conclude_call x (ok response, w) (ending, e, tells) =
    subst (λ o. Tells x (ok response) (outcome (unwrap_or o cancels))) (sym e) tells
Tells-conclude_call x (err error, w) h = rw (h, conclude_call) refl
Tells-conclude_call x (panic, w) h = h

ending-concluded :
    (ending : Ending) (w : World) → w.ending ≡ none → (concluded ending w).ending ≡ some ending
ending-concluded ending w h = rw h refl

module _ (s : Surroundings)
    (answers : (status : ℕ) (headers : HeaderMap) → s.answers status headers ≡ true) where
  -- What a response of a whole body tells.
  build-Ends :
      (lease : Lease) (ending : Ending) (status : ℕ) (headers : HeaderMap) (body : List ℕ)
      (w : World)
      → w.ending ≡ none
      → (outcome ending ≡ (pos status, error_from s.external status body))
        ⊎ ((status ≡ 200) × (u : ℕ) × (is_success u ≡ true) × (outcome ending ≡ (pos u, none)))
      → Ends s.external (build s lease ending status headers body w)
  unfolding drop_held
  build-Ends lease ending status headers body w h tells =
      rw (answers status headers) (ending, ending-concluded ending w h, tells)

  read_as-streams :
      (status : ℕ) (model : Option String) (chunks : List (List ℕ)) (completed : Option Bool)
      → outcome (streams (pos status) model chunks completed) ≡ read_as completed status
  read_as-streams status model chunks none = refl
  read_as-streams status model chunks (some true) = refl
  read_as-streams status model chunks (some false) = refl

  relay_whole-Ends :
      (context : CallContext) (lease : Lease) (upstream : UpstreamResponse) (w : World)
      → w.ending ≡ none
      → Ends s.external (relay_whole s context lease upstream w)
  unfolding relay_whole
  relay_whole-Ends context lease upstream w h =
      Ends-continue s.external (guarded lease (into_bytes s upstream) w) _
        (ended-settle_held lease (into_bytes s upstream w) ∙ into_bytes-Unended s upstream w ∙ h)
        (λ bytes v k. build-Ends lease _ _ _ bytes _ k (inl refl))

  relay_as-Ends :
      (t : Bool) (context : CallContext) (lease : Lease) (upstream : UpstreamResponse) (w : World)
      → w.ending ≡ none
      → Ends s.external (relay_as s t context lease upstream w)
  unfolding relay_as drop_held
  relay_as-Ends true context lease (live reply) w h =
      rw (answers reply.status (with_content_type (filtered_response_headers reply.headers))) (
        _,
        ending-concluded _ w h,
        read_as-streams reply.status context.model (heard (s.leaves w.waits) reply).0 _,
      )
  relay_as-Ends true context lease (buffered response) w h = rw h refl
  relay_as-Ends false context lease upstream w h = relay_whole-Ends context lease upstream w h

  pub relay_response-Ends :
      (context : CallContext) (lease : Lease) (upstream : UpstreamResponse) (w : World)
      → w.ending ≡ none
      → Ends s.external (relay_response s context lease upstream w)
  unfolding relay_response
  relay_response-Ends context lease upstream w h = relay_as-Ends _ context lease upstream _ h

  image_as-Ends :
      (context : CallContext) (lease : Lease) (upstream : UpstreamResponse) (w : World)
      → w.ending ≡ none
      → is_success (status_of upstream) ≡ true
      → Ends s.external (image_as s true context lease upstream w)
  unfolding image_as
  image_as-Ends context lease upstream w h success =
      Ends-continue s.external (guarded lease asked (noted (response_headers headers) w)) _
        (ended-settle_held lease (asked (noted (response_headers headers) w))
          ∙ ended-continue w.ending (into_bytes s upstream (noted (response_headers headers) w)) _
              (into_bytes-Unended s upstream (noted (response_headers headers) w)) (λ bytes v. refl)
          ∙ h)
        (λ (images, usage) v k.
          build-Ends lease _ 200 _ _ _ k (inr (refl, status_of upstream, success, refl)))
    where
      headers : HeaderMap
      headers = headers_of upstream

      asked : Action (Items × Usage)
      asked = into_bytes s upstream >>= λ bytes. lift (images_from_sse s.external bytes)

  pub image_response-Ends :
      (context : CallContext) (lease : Lease) (upstream : UpstreamResponse) (w : World)
      → w.ending ≡ none
      → Ends s.external (image_response s context lease upstream w)
  unfolding image_response image_as
  image_response-Ends context lease upstream w h =
      elim (Bool-cases (is_success (status_of upstream))) [
        | inl e ↦ rw e (image_as-Ends context lease upstream _ h e)
        | inr e ↦ rw e (relay_response-Ends context lease upstream _ h)
      ]
