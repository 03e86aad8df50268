-- ===== src/Serving/Sending.antt =====
-- src/proxy.rs: what a request to an upstream and the answer to the client send.
use open_ai_lb.Prelude.{
  ℕ, String, Bool, true, false, Option, none, some, List, ◌≡◌, refl, sym, ap, ◌∙◌, inl, inr, ◌==◌,
  Bool-cases, subst,
}
use open_ai_lb.Errors.{Result, ok, err, panic}
use open_ai_lb.Headers.{filtered_response_headers}
use open_ai_lb.Balancer.{Lease}
use open_ai_lb.Audit.{HeaderMap}
use open_ai_lb.Serving.{
  Outbound, Reply, Surroundings, World, Action, continue, guarded, drop_held, lift, wait, ◌>>=◌,
}
use open_ai_lb.Serving.Upstream.{
  UpstreamResponse, live, buffered, into_bytes, execute, send_upstream,
}
use open_ai_lb.Serving.Images.{images_from_sse}
use open_ai_lb.Serving.Relay.{
  CallContext, Response, with_content_type, relay_whole, relay_as, relay_response, image_as,
  image_response,
}
use open_ai_lb.Audit.Completion.{Ending}
use open_ai_lb.Serving.Dispatch.{conclude_error, conclude_call}
use open_ai_lb.Serving.Ledger.{into_bytes-quiet}
use open_ai_lb.Serving.Providers.{sends, sends_of, sends-continue, sends-settle_held}
use open_ai_lb.Serving.Retries.{AtMostOne, AtMostTwo}

-- An operation that sends nothing.
abbrev pub Silent : {A : Type 0} → Action A → Type 0
Silent f = (w : World) → sends_of (f w) ≡ sends w.events

pub lift-Silent : {A : Type 0} (r : Result A) → Silent (lift r)
lift-Silent (ok a) w = refl
lift-Silent (err e) w = refl
lift-Silent panic w = refl

pub sends-conclude_call :
    (r : Result Response × World) → sends (conclude_call r).world.events ≡ sends_of r
unfolding conclude_call
sends-conclude_call (ok response, v) = refl
sends-conclude_call (err e, v) = failed v.ending
  where
    failed :
        (ending : Option Ending) → sends (conclude_error e v ending).world.events ≡ sends v.events
    failed none = refl
    failed (some ending) = refl
sends-conclude_call (panic, v) = refl

-- What is sent after an operation that sends nothing.
pub prepared-AtMostOne :
    {A : Type 0} (id : String) (old : List String) (r : Result A × World) (f : A → Action Reply)
    → sends_of r ≡ old
    → ((a : A) (v : World) → AtMostOne id (sends v.events) (sends_of (f a v)))
    → AtMostOne id old (sends_of (continue r f))
prepared-AtMostOne id old (ok a, v) f h k = subst (λ l. AtMostOne id l (sends_of (f a v))) h (k a v)
prepared-AtMostOne id old (err e, v) f h k = inl h
prepared-AtMostOne id old (panic, v) f h k = inl h

pub prepared-AtMostTwo :
    {A : Type 0} (old : List String) (r : Result A × World) (f : A → Action Response)
    → sends_of r ≡ old
    → ((a : A) (v : World) → AtMostTwo (sends v.events) (sends_of (f a v)))
    → AtMostTwo old (sends_of (continue r f))
prepared-AtMostTwo old (ok a, v) f h k = subst (λ l. AtMostTwo l (sends_of (f a v))) h (k a v)
prepared-AtMostTwo old (err e, v) f h k = inl h
prepared-AtMostTwo old (panic, v) f h k = inl h

pub concluded-AtMostTwo :
    (old : List String) (r : Result (Lease × UpstreamResponse) × World)
    (f : Lease × UpstreamResponse → Action Response)
    → AtMostTwo old (sends_of r)
    → ((p : Lease × UpstreamResponse) → Silent (f p))
    → AtMostTwo old (sends_of (continue r f))
concluded-AtMostTwo old (ok p, v) f h k = subst (AtMostTwo old) (sym (k p v)) h
concluded-AtMostTwo old (err e, v) f h k = h
concluded-AtMostTwo old (panic, v) f h k = h

module _ (s : Surroundings) where
  read-Silent :
      (lease : Lease) (upstream : UpstreamResponse) → Silent (guarded lease (into_bytes s upstream))
  read-Silent lease upstream w =
      sends-settle_held lease (into_bytes s upstream w) ∙ ap sends (into_bytes-quiet s upstream w)

  relay_as-Silent :
      (t : Bool) (context : CallContext) (lease : Lease) (upstream : UpstreamResponse)
      → Silent (relay_as s t context lease upstream)
  unfolding relay_as relay_whole drop_held
  relay_as-Silent true context lease (live reply) w =
      elim (Bool-cases
        (s.answers reply.status (with_content_type (filtered_response_headers reply.headers)))) [
          | inl e ↦ rw e refl
          | inr e ↦ rw e refl
        ]
  relay_as-Silent true context lease (buffered response) w = refl
  relay_as-Silent false context lease upstream w =
      sends-continue (sends w.events) (guarded lease (into_bytes s upstream) w) _
        (read-Silent lease upstream w) (λ bytes v _. refl)

  pub relay_response-Silent :
      (context : CallContext) (lease : Lease) (upstream : UpstreamResponse)
      → Silent (relay_response s context lease upstream)
  unfolding relay_response
  relay_response-Silent context lease upstream w = search relay_as-Silent

  images-Silent :
      (lease : Lease) (upstream : UpstreamResponse)
      → Silent (
          guarded lease
            (into_bytes s upstream >>= λ bytes. lift (images_from_sse s.external bytes)))
  images-Silent lease upstream w =
      sends-settle_held lease
        ((into_bytes s upstream >>= λ bytes. lift (images_from_sse s.external bytes)) w)
      ∙ sends-continue (sends w.events) (into_bytes s upstream w)
          (λ bytes. lift (images_from_sse s.external bytes))
          (ap sends (into_bytes-quiet s upstream w))
          (λ bytes v _. lift-Silent (images_from_sse s.external bytes) v)

  image_as-Silent :
      (t : Bool) (context : CallContext) (lease : Lease) (upstream : UpstreamResponse)
      → Silent (image_as s t context lease upstream)
  unfolding image_as drop_held
  image_as-Silent false context lease upstream w = relay_response-Silent context lease upstream w
  image_as-Silent true context lease upstream w =
      sends-continue (sends w.events)
        (guarded lease (into_bytes s upstream >>= λ bytes. lift (images_from_sse s.external bytes))
          _)
        _ (images-Silent lease upstream _) (λ (images, usage) v _. refl)

  pub image_response-Silent :
      (context : CallContext) (lease : Lease) (upstream : UpstreamResponse)
      → Silent (image_response s context lease upstream)
  unfolding image_response
  image_response-Silent context lease upstream w = search image_as-Silent

  execute-AtMostOne :
      (id : String) (outbound : Outbound) (w : World)
      → AtMostOne id (sends w.events) (sends_of (execute s id outbound w))
  unfolding execute wait
  execute-AtMostOne id outbound w = elim (Bool-cases (s.builds outbound)) [
    | inl e ↦ rw e (inr refl)
    | inr e ↦ rw e (inl refl)
  ]

  pub send_upstream-AtMostOne :
      (lease : Lease) (path : String) (inbound : HeaderMap) (body : List ℕ) (w : World)
      → AtMostOne lease.provider.id
          (sends w.events)
          (sends_of (send_upstream s lease path inbound body w))
  unfolding send_upstream
  send_upstream-AtMostOne lease path inbound body w =
      elim (Bool-cases (path == "/v1/audio/transcriptions")) [
        | inl e ↦ rw e (search execute-AtMostOne)
        | inr e ↦ rw e (search execute-AtMostOne)
      ]
