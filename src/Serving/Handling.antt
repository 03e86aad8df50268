-- ===== src/Serving/Handling.antt =====
-- src/proxy.rs: what `handle_json` and `handle_audio` do with the leases that they take.
use open_ai_lb.Prelude.{
  ℕ, String, true, false, Option, none, some, List, [], refl, arith, length, and_then,
}
use open_ai_lb.Prelude.Int.{pos}
use open_ai_lb.Errors.{Result, ok, err, panic}
use open_ai_lb.Json.{Value}
use open_ai_lb.Keys
use open_ai_lb.Keys.{AffinityKey, affinity_key, is_success}
use open_ai_lb.Sse.{AudioSpool}
use open_ai_lb.Balancer.{Lease}
use open_ai_lb.Audit.{HeaderMap}
use open_ai_lb.Audit.Tracker.{
  compression_headers, reasoning_effort, affinity, request, request_size,
}
use open_ai_lb.Serving.{Reply, Surroundings, World, Action, noted, wait, ◌>>=◌}
use open_ai_lb.Audit.Completion.{Ending}
use open_ai_lb.Serving.Attempts.{Caller, forward}
use open_ai_lb.Serving.Relay.{CallContext, Response}
use open_ai_lb.Serving.Dispatch.{
  Identity, Upload, context_of, affinity_of, source_of, answer, send_body, send_again,
  dispatch_parsed, send_spool, send_twice, dispatch_spool, caller, create_spool, spool_body, make,
  dispatch, dispatch_audio, begin_json, begin_audio, Handled, conclude_error, conclude_call,
  handle_json, handle_audio,
}
use open_ai_lb.Serving.Ledger.{
  Settles, Settles-after, Settles-continue, Settles-quiet, Settles-lift,
}
use open_ai_lb.Serving.Accounting.{of_pair, Spares, forward-Settles}
use open_ai_lb.Serving.Leases.{
  of_response, relay_response-Settles, send_upstream-Settles, answer-Settles,
}

module _ (s : Surroundings) (j : String) where
  spool_body-Settles :
      (spool : AudioSpool) (w : World) → Settles j (λ _. 0) 0 w (spool_body s spool w)
  unfolding wait
  spool_body-Settles spool w = Settles-quiet j w _ refl refl

  create_spool-Settles :
      (upload : Upload) (w : World) → Settles j (λ _. 0) 0 w (create_spool s upload w)
  unfolding wait
  create_spool-Settles upload w = Settles-quiet j w _ refl refl

  module _ (path : String) (headers : HeaderMap) where
    send_body-Spares : (payload : List ℕ) → Spares j (send_body s path headers payload)
    send_body-Spares payload lease w = send_upstream-Settles s j lease path headers payload w

    send_again-Spares : (parsed : Option Value) → Spares j (send_again s path headers parsed)
    send_again-Spares parsed lease w =
        Settles-continue j (λ _. 0) (λ _. 0) 0 w (make s path headers parsed w) _
          (Settles-lift j w (make s path headers parsed w).0)
          (λ payload v _. send_body-Spares payload lease v)

    send_spool-Spares : (spool : AudioSpool) → Spares j (send_spool s path headers spool)
    send_spool-Spares spool lease w =
        Settles-continue j (λ _. 0) (λ _. 0) 0 w (spool_body s spool w) _
          (spool_body-Settles spool w) (λ body v _. send_body-Spares body lease v)

    answered-Settles :
        (who : Caller) (context : CallContext) (send resend : Lease → Action Reply) (w : World)
        → Spares j send
        → Spares j resend
        → Settles j
            (of_response j)
            0
            w
            ((forward s who send resend >>= answer s path headers context) w)
    answered-Settles who context send resend w h k =
        Settles-continue j (of_pair j) (of_response j) 0 w (forward s who send resend w) _
          (forward-Settles s who j send resend h k w)
          (λ p v _. answer-Settles s j path headers context p v)

    dispatch_parsed-Settles :
        (identity : Identity) (parsed : Option Value) (key : Option AffinityKey) (w : World)
        → Settles j (of_response j) 0 w (dispatch_parsed s path headers identity parsed key w)
    dispatch_parsed-Settles identity parsed key w =
        Settles-continue j (λ _. 0) (of_response j) 0 w (make s path headers parsed (started w)) _
          (Settles-after j (λ _. 0) 0 0 w (started w) (make s path headers parsed (started w))
            (omega arith) (Settles-lift j (started w) (make s path headers parsed (started w)).0))
          (λ payload v _.
            answered-Settles (caller identity key) (context_of parsed)
              (send_body s path headers payload) (send_again s path headers parsed) v
              (send_body-Spares payload) (send_again-Spares parsed))
      where
        started : World → World
        started w =
            noted (affinity (affinity_of identity key) (source_of key))
              (noted (reasoning_effort (and_then parsed Keys.reasoning_effort)) w)

    dispatch-Settles :
        (identity : Identity) (body : List ℕ) (w : World)
        → Settles j (of_response j) 0 w (dispatch s path headers identity body w)
    unfolding dispatch
    dispatch-Settles identity body w = dispatch_parsed-Settles identity _ _ w

    dispatch_spool-Settles :
        (who : Caller) (spool : AudioSpool) (w : World)
        → Settles j (of_response j) 0 w (dispatch_spool s path headers who spool w)
    dispatch_spool-Settles who spool w =
        Settles-continue j (of_pair j) (of_response j) 0 w
          (send_twice s path headers who spool (started w)) _
          (Settles-after j (of_pair j) 0 0 w (started w) _ (omega arith) (
            forward-Settles s who j (send_spool s path headers spool)
              (send_spool s path headers spool) (send_spool-Spares spool) (send_spool-Spares spool)
              (started w)))
          (λ (lease, upstream) v _. relay_response-Settles s j _ lease upstream v)
      where
        started : World → World
        started w =
            noted (request_size spool.bytes)
              (noted (request headers spool.preview spool.preview_truncated) w)

    dispatch_audio-Settles :
        (identity : Identity) (upload : Upload) (w : World)
        → Settles j (of_response j) 0 w (dispatch_audio s path headers identity upload w)
    unfolding dispatch_audio
    dispatch_audio-Settles identity upload w =
        Settles-continue j (λ _. 0) (of_response j) 0 w (create_spool s upload (started w)) _
          (Settles-after j (λ _. 0) 0 0 w (started w) _ (omega arith)
            (create_spool-Settles upload (started w)))
          (λ spool v _.
            dispatch_spool-Settles (caller identity (affinity_key headers none)) spool v)
      where
        started : World → World
        started w =
            noted
              (affinity (affinity_of identity (affinity_key headers none))
                (source_of (affinity_key headers none)))
              w

-- The world and the answer that a handler leaves.
abbrev pub left : Handled → Result Response × World
left handled = (handled.result, handled.world)

module _ (s : Surroundings) (j : String) (path : String) (headers : HeaderMap) where
  conclude_call-Settles :
      (w : World) (r : Result Response × World)
      → Settles j (of_response j) 0 w r
      → Settles j (of_response j) 0 w (left (conclude_call r))
  unfolding conclude_call
  conclude_call-Settles w (ok response, v) h = h
  conclude_call-Settles w (err e, v) h = failed v.ending
    where
      failed :
          (ending : Option Ending)
          → Settles j (of_response j) 0 w (left (conclude_error e v ending))
      failed none = h
      failed (some ending) = h
  conclude_call-Settles w (panic, v) h = h

  begin_json-Settles :
      (identity : Identity) (body : List ℕ) (w : World)
      → Settles j (of_response j) 0 w (begin_json s path headers identity body w)
  unfolding begin_json
  begin_json-Settles identity body w =
      Settles-after j (of_response j) 0 0 w (started w)
        (dispatch s path headers identity body (started w)) (omega arith)
        (dispatch-Settles s j path headers identity body (started w))
    where
      started : World → World
      started w =
          noted (request_size (pos (length body)))
            (noted (compression_headers headers none) (noted (request headers body false) w))

  begin_audio-Settles :
      (identity : Identity) (upload : Upload) (w : World)
      → Settles j (of_response j) 0 w (begin_audio s path headers identity upload w)
  unfolding begin_audio
  begin_audio-Settles identity upload w =
      Settles-after j (of_response j) 0 0 w (started w)
        (dispatch_audio s path headers identity upload (started w)) (omega arith)
        (dispatch_audio-Settles s j path headers identity upload (started w))
    where
      started : World → World
      started w = noted (compression_headers headers none) (noted (request headers [] true) w)

  -- No lease leaks and none is dropped twice, whatever else goes on meanwhile and on every path: for
  -- each provider, the leases of it that a JSON call and an audio call take are as many as those that
  -- they drop, and one more if a streamed response holds one.
  pub handlers-Settles :
      (identity : Identity) (body : List ℕ) (upload : Upload) (w : World)
      → Settles j (of_response j) 0 w (left (handle_json s path headers identity body w))
        × Settles j (of_response j) 0 w (left (handle_audio s path headers identity upload w))
  handlers-Settles identity body upload w = (
    conclude_call-Settles w (begin_json s path headers identity body w)
        (begin_json-Settles identity body w),
    conclude_call-Settles w (begin_audio s path headers identity upload w)
        (begin_audio-Settles identity upload w),
  )
