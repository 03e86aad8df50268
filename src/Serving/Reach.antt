-- ===== src/Serving/Reach.antt =====
-- src/proxy.rs: the providers that the calls of the handlers reach.
use open_ai_lb.Prelude.{
  ℕ, String, true, false, Option, none, List, [], refl, sym, inl, inr, ◌==◌, Bool-cases, subst,
  and_then, length,
}
use open_ai_lb.Prelude.Int.{pos}
use open_ai_lb.Json.{Value}
use open_ai_lb.Keys
use open_ai_lb.Audit.Tracker.{
  compression_headers, affinity, reasoning_effort, request, request_size,
}
use open_ai_lb.Keys.{AffinityKey, affinity_key}
use open_ai_lb.Sse.{AudioSpool}
use open_ai_lb.Balancer.{Lease}
use open_ai_lb.Audit.{HeaderMap}
use open_ai_lb.Serving.{Surroundings, World, Action, noted, wait, ◌>>=◌}
use open_ai_lb.Serving.Upstream.{UpstreamResponse}
use open_ai_lb.Serving.Attempts.{Caller, forward}
use open_ai_lb.Serving.Relay.{CallContext, Response}
use open_ai_lb.Serving.Dispatch.{
  Identity, Upload, context_of, no_context, affinity_of, source_of, send_twice, answer, send_body,
  send_again, dispatch_parsed, send_spool, relay_audio, dispatch_spool, caller, create_spool,
  spool_body, make, dispatch, dispatch_audio, begin_json, begin_audio, handle_json, handle_audio,
}
use open_ai_lb.Serving.Providers.{sends, sends_of}
use open_ai_lb.Serving.Retries.{AtMostTwo, SendsOne, forward-AtMostTwo}
use open_ai_lb.Serving.Sending.{
  Silent, sends-conclude_call, relay_response-Silent, image_response-Silent,
  send_upstream-AtMostOne, prepared-AtMostOne, prepared-AtMostTwo, concluded-AtMostTwo,
}

module _ (s : Surroundings) where
  module _ (path : String) (headers : HeaderMap) where
    answer-Silent :
        (context : CallContext) (p : Lease × UpstreamResponse)
        → Silent (answer s path headers context p)
    answer-Silent context (lease, upstream) w =
        elim (Bool-cases (path == "/v1/images/generations")) [
          | inl e ↦ rw e (image_response-Silent s context lease upstream w)
          | inr e ↦ rw e (relay_response-Silent s context lease upstream w)
        ]

    send_body-SendsOne : (payload : List ℕ) → SendsOne (send_body s path headers payload)
    send_body-SendsOne payload lease w = send_upstream-AtMostOne s lease path headers payload w

    send_again-SendsOne : (parsed : Option Value) → SendsOne (send_again s path headers parsed)
    send_again-SendsOne parsed lease w =
        prepared-AtMostOne lease.provider.id (sends w.events) (make s path headers parsed w)
          (λ payload. send_body s path headers payload lease) refl
          (λ payload v. send_body-SendsOne payload lease v)

    send_spool-SendsOne : (spool : AudioSpool) → SendsOne (send_spool s path headers spool)
    unfolding wait
    send_spool-SendsOne spool lease w =
        prepared-AtMostOne lease.provider.id (sends w.events) (spool_body s spool w)
          (λ body. send_body s path headers body lease) refl
          (λ payload v. send_body-SendsOne payload lease v)

    dispatch_parsed-AtMostTwo :
        (identity : Identity) (parsed : Option Value) (key : Option AffinityKey) (w : World)
        → AtMostTwo
            (sends w.events)
            (sends_of (dispatch_parsed s path headers identity parsed key w))
    dispatch_parsed-AtMostTwo identity parsed key w =
        prepared-AtMostTwo (sends w.events) (make s path headers parsed (started w)) forwarded refl
          (λ payload v.
            concluded-AtMostTwo (sends v.events)
              (forward s (caller identity key) (send_body s path headers payload)
                (send_again s path headers parsed) v)
              (answer s path headers (context_of parsed))
              (forward-AtMostTwo s (caller identity key) (send_body s path headers payload)
                (send_again s path headers parsed) (send_body-SendsOne payload)
                (send_again-SendsOne parsed) v)
              (answer-Silent (context_of parsed)))
      where
        started : World → World
        started w =
            noted (affinity (affinity_of identity key) (source_of key))
              (noted (reasoning_effort (and_then parsed Keys.reasoning_effort)) w)

        forwarded : List ℕ → Action Response
        forwarded payload =
            forward s (caller identity key) (send_body s path headers payload)
              (send_again s path headers parsed)
            >>= answer s path headers (context_of parsed)

    dispatch_spool-AtMostTwo :
        (who : Caller) (spool : AudioSpool) (w : World)
        → AtMostTwo (sends w.events) (sends_of (dispatch_spool s path headers who spool w))
    dispatch_spool-AtMostTwo who spool w =
        concluded-AtMostTwo (sends w.events) (send_twice s path headers who spool (started w))
          (relay_audio s path headers)
          (forward-AtMostTwo s who (send_spool s path headers spool)
            (send_spool s path headers spool) (send_spool-SendsOne spool)
            (send_spool-SendsOne spool) (started w))
          (λ (lease, upstream). relay_response-Silent s no_context lease upstream)
      where
        started : World → World
        started w =
            noted (request_size spool.bytes)
              (noted (request headers spool.preview spool.preview_truncated) w)

    dispatch_audio-AtMostTwo :
        (identity : Identity) (upload : Upload) (w : World)
        → AtMostTwo (sends w.events) (sends_of (dispatch_audio s path headers identity upload w))
    unfolding dispatch_audio wait
    dispatch_audio-AtMostTwo identity upload w =
        prepared-AtMostTwo (sends w.events) (create_spool s upload (started w))
          (dispatch_spool s path headers (caller identity (affinity_key headers none))) refl
          (λ spool v.
            dispatch_spool-AtMostTwo (caller identity (affinity_key headers none)) spool v)
      where
        started : World → World
        started w =
            noted
              (affinity (affinity_of identity (affinity_key headers none))
                (source_of (affinity_key headers none)))
              w

    begin_json-AtMostTwo :
        (identity : Identity) (body : List ℕ) (w : World)
        → AtMostTwo (sends w.events) (sends_of (begin_json s path headers identity body w))
    unfolding begin_json dispatch
    begin_json-AtMostTwo identity body w =
        dispatch_parsed-AtMostTwo identity (s.external.from_slice body)
          (affinity_key headers (s.external.from_slice body))
          (noted (request_size (pos (length body)))
            (noted (compression_headers headers none) (noted (request headers body false) w)))

    begin_audio-AtMostTwo :
        (identity : Identity) (upload : Upload) (w : World)
        → AtMostTwo (sends w.events) (sends_of (begin_audio s path headers identity upload w))
    unfolding begin_audio
    begin_audio-AtMostTwo identity upload w =
        dispatch_audio-AtMostTwo identity upload
          (noted (compression_headers headers none) (noted (request headers [] true) w))

    -- A JSON call and an audio call each send at most two requests to upstreams, and if two, then to
    -- different providers, whatever else goes on meanwhile.
    pub handlers-AtMostTwo :
        (identity : Identity) (body : List ℕ) (upload : Upload) (w : World)
        → AtMostTwo
            (sends w.events)
            (sends (handle_json s path headers identity body w).world.events)
          × AtMostTwo
              (sends w.events)
              (sends (handle_audio s path headers identity upload w).world.events)
    handlers-AtMostTwo identity body upload w = (
      subst (AtMostTwo (sends w.events))
          (sym (sends-conclude_call (begin_json s path headers identity body w)))
          (begin_json-AtMostTwo identity body w),
      subst (AtMostTwo (sends w.events))
          (sym (sends-conclude_call (begin_audio s path headers identity upload w)))
          (begin_audio-AtMostTwo identity upload w),
    )
