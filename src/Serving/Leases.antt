-- ===== src/Serving/Leases.antt =====
-- src/proxy.rs: what a request to an upstream and the answer to the client do with a lease.
use open_ai_lb.Prelude.{
  ℕ, String, Bool, true, false, List, refl, ap, inl, inr, arith, ◌==◌, Bool-cases,
}
use open_ai_lb.Headers.{filtered_response_headers}
use open_ai_lb.Balancer.{Lease}
use open_ai_lb.Audit.{HeaderMap}
use open_ai_lb.Audit.Tracker.{response_headers}
use open_ai_lb.Audit.Completion.{Ending}
use open_ai_lb.Serving.{Outbound, Surroundings, World, guarded, drop_held, noted, lift, wait, ◌>>=◌}
use open_ai_lb.Serving.Upstream.{
  UpstreamResponse, live, buffered, headers_of, into_bytes, execute, send_upstream,
}
use open_ai_lb.Serving.Images.{images_from_sse}
use open_ai_lb.Serving.Relay.{
  CallContext, Response, with_content_type, build, relay_whole, relay_as, relay_response, image_as,
  image_response,
}
use open_ai_lb.Serving.Dispatch.{answer}
use open_ai_lb.Serving.Ledger.{
  takes, drops, Settles, Settles-after, Settles-continue, Settles-quiet, Settles-lift,
  Settles-settle_held, into_bytes-quiet,
}
use open_ai_lb.Serving.Accounting.{of_lease, of_pair, of_option}

abbrev pub of_response : String → Response → ℕ
of_response j response = of_option j response.held

module _ (s : Surroundings) (j : String) where
  read-Settles :
      (lease : Lease) (upstream : UpstreamResponse) (w : World)
      → Settles j
          (λ _. of_lease j lease)
          (of_lease j lease)
          w
          (guarded lease (into_bytes s upstream) w)
  read-Settles lease upstream w = Settles-settle_held j lease w _ (
      Settles-quiet j w (into_bytes s upstream w) (ap (takes j) (into_bytes-quiet s upstream w))
        (ap (drops j) (into_bytes-quiet s upstream w)))

  build-Settles :
      (lease : Lease) (ending : Ending) (status : ℕ) (headers : HeaderMap) (body : List ℕ)
      (w : World)
      → Settles j (of_response j) (of_lease j lease) w (build s lease ending status headers body w)
  unfolding drop_held
  build-Settles lease ending status headers body w = elim (Bool-cases (s.answers status headers)) [
    | inl e ↦ rw e (omega arith)
    | inr e ↦ rw e (omega arith)
  ]

  relay_whole-Settles :
      (context : CallContext) (lease : Lease) (upstream : UpstreamResponse) (w : World)
      → Settles j (of_response j) (of_lease j lease) w (relay_whole s context lease upstream w)
  unfolding relay_whole
  relay_whole-Settles context lease upstream w =
      Settles-continue j (λ _. of_lease j lease) (of_response j) (of_lease j lease) w
        (guarded lease (into_bytes s upstream) w) _ (read-Settles lease upstream w)
        (λ bytes v _. search build-Settles)

  relay_as-Settles :
      (t : Bool) (context : CallContext) (lease : Lease) (upstream : UpstreamResponse) (w : World)
      → Settles j (of_response j) (of_lease j lease) w (relay_as s t context lease upstream w)
  unfolding relay_as drop_held
  relay_as-Settles true context lease (live reply) w =
      elim (Bool-cases
        (s.answers reply.status (with_content_type (filtered_response_headers reply.headers)))) [
          | inl e ↦ rw e (omega arith)
          | inr e ↦ rw e (omega arith)
        ]
  relay_as-Settles true context lease (buffered response) w = omega arith
  relay_as-Settles false context lease upstream w = relay_whole-Settles context lease upstream w

  pub relay_response-Settles :
      (context : CallContext) (lease : Lease) (upstream : UpstreamResponse) (w : World)
      → Settles j (of_response j) (of_lease j lease) w (relay_response s context lease upstream w)
  unfolding relay_response
  relay_response-Settles context lease upstream w = search relay_as-Settles

  execute-Settles :
      (id : String) (outbound : Outbound) (w : World)
      → Settles j (λ _. 0) 0 w (execute s id outbound w)
  unfolding execute wait
  execute-Settles id outbound w = elim (Bool-cases (s.builds outbound)) [
    | inl e ↦ rw e (Settles-quiet j w _ refl refl)
    | inr e ↦ rw e (omega arith)
  ]

  pub send_upstream-Settles :
      (lease : Lease) (path : String) (inbound : HeaderMap) (body : List ℕ) (w : World)
      → Settles j (λ _. 0) 0 w (send_upstream s lease path inbound body w)
  unfolding send_upstream
  send_upstream-Settles lease path inbound body w =
      elim (Bool-cases (path == "/v1/audio/transcriptions")) [
        | inl e ↦ rw e (search execute-Settles)
        | inr e ↦ rw e (search execute-Settles)
      ]

  read_images-Settles :
      (context : CallContext) (lease : Lease) (upstream : UpstreamResponse) (w : World)
      → Settles j
          (λ _. of_lease j lease)
          (of_lease j lease)
          w
          (guarded lease
            (into_bytes s upstream >>= λ bytes. lift (images_from_sse s.external bytes))
            w)
  read_images-Settles context lease upstream w = Settles-settle_held j lease w _ (
      Settles-continue j (λ _. 0) (λ _. 0) 0 w (into_bytes s upstream w) _
        (Settles-quiet j w (into_bytes s upstream w) (ap (takes j) (into_bytes-quiet s upstream w))
          (ap (drops j) (into_bytes-quiet s upstream w)))
        (λ bytes v _. Settles-lift j v (images_from_sse s.external bytes)))

  image_as-Settles :
      (t : Bool) (context : CallContext) (lease : Lease) (upstream : UpstreamResponse) (w : World)
      → Settles j (of_response j) (of_lease j lease) w (image_as s t context lease upstream w)
  unfolding image_as
  image_as-Settles false context lease upstream w = relay_response-Settles context lease upstream w
  image_as-Settles true context lease upstream w =
      Settles-continue j (λ _. of_lease j lease) (of_response j) (of_lease j lease) w
        (guarded lease (into_bytes s upstream >>= λ bytes. lift (images_from_sse s.external bytes))
          (noted (response_headers (headers_of upstream)) w))
        _
        (Settles-after j (λ _. of_lease j lease) (of_lease j lease) (of_lease j lease) w
          (noted (response_headers (headers_of upstream)) w) _ (omega arith)
          (read_images-Settles context lease upstream
            (noted (response_headers (headers_of upstream)) w)))
        (λ (images, usage) v _. search build-Settles)

  image_response-Settles :
      (context : CallContext) (lease : Lease) (upstream : UpstreamResponse) (w : World)
      → Settles j (of_response j) (of_lease j lease) w (image_response s context lease upstream w)
  unfolding image_response
  image_response-Settles context lease upstream w = search image_as-Settles

  -- A step that is run after some calls of setters.
  pub answer-Settles :
      (path : String) (headers : HeaderMap) (context : CallContext) (p : Lease × UpstreamResponse)
      (w : World)
      → Settles j (of_response j) (of_pair j p) w (answer s path headers context p w)
  answer-Settles path headers context (lease, upstream) w =
      elim (Bool-cases (path == "/v1/images/generations")) [
        | inl e ↦ rw e (image_response-Settles context lease upstream w)
        | inr e ↦ rw e (relay_response-Settles context lease upstream w)
      ]
