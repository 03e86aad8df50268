-- ===== src/Serving/Attempts.antt =====
-- src/proxy.rs: which providers a request is sent to. The first is one whose credential can be used;
-- a second, other one is tried when the first answers with a failure that another may not have.
use open_ai_lb.Prelude.{String, Bool, Option, none, some, if◌then◌else◌}
use open_ai_lb.Errors.{Result, ok, err, panic}
use open_ai_lb.Balancer.{Balancer, Lease, select}
use open_ai_lb.Audit.Tracker.{provider}
use open_ai_lb.Serving.{
  Reply, Surroundings, World, Action, took, pure, modify, set, log, with_balancer, now, drop_held,
  guarded, ◌>>=◌, ◌>>◌,
}
use open_ai_lb.Serving.Upstream.{UpstreamResponse, live, status_of, retryable, track_upstream}
use open_ai_lb.Serving.Refresh.{refresh_if_needed}

-- Who asks, and for which conversation.
pub record Caller : Type 0 where
  pub user_id : String
  pub all_providers : Bool
  pub affinity : Option String

abbrev pub selected : World → Result Lease × Balancer → Result Lease × World
selected w (ok lease, b) = (ok lease, log (took lease.provider.id) (with_balancer b w))
selected w (err e, b) = (err e, with_balancer b w)
selected w (panic, b) = (panic, with_balancer b w)

abbrev pub optional : Result Lease × World → Result (Option Lease) × World
optional (ok lease, w) = (ok (some lease), w)
optional (err e, w) = (ok none, w)
optional (panic, w) = (panic, w)

-- A request to the provider of a lease, and what the balancer learns of the answer.
unfoldable pub attempt :
    Surroundings → (Lease → Action Reply) → Lease → Action (Lease × UpstreamResponse)
attempt s send lease =
    guarded lease (send lease >>= λ response. track_upstream s lease.provider.id (live response))
    >>= λ tracked. pure (lease, tracked)

module _ (s : Surroundings) (c : Caller) where
  -- The call of `Balancer::select`.
  unfoldable pub select_provider : Option String → Action Lease
  select_provider excluded w = selected w (
      select s.external w.shared.balancer (s.config w.waits).affinity_ttl_seconds (now s w)
        c.user_id c.all_providers c.affinity excluded)

  -- `select`, and `refresh_if_needed` on the lease.
  unfoldable pub select_fresh : Option String → Action Lease
  unfolding select_provider
  select_fresh excluded =
      select_provider excluded >>= λ lease. guarded lease (refresh_if_needed s lease)

  abbrev pub or_another : Lease → Result Lease × World → Result Lease × World
  or_another first (ok lease, w) = (ok lease, w)
  or_another first (err e, w) = select_fresh (some first.provider.id) (drop_held first w)
  or_another first (panic, w) = (panic, drop_held first w)

  unfoldable pub select_ready_provider : Action Lease
  unfolding select_fresh
  select_ready_provider =
      select_provider none >>= λ first w. or_another first (refresh_if_needed s first w)

  unfoldable pub retry_provider : String → Action (Option Lease)
  unfolding select_fresh
  retry_provider first_id w = optional (select_fresh (some first_id) w)

  -- The requests to the first provider and to a second one.
  module _ (send resend : Lease → Action Reply) where
    abbrev pub try_second :
        Lease → UpstreamResponse → Option Lease → Action (Lease × UpstreamResponse)
    try_second first response none = pure (first, response)
    try_second first response (some second) =
        modify (drop_held first) >> (set (provider second.provider.id) >> attempt s resend second)

    unfoldable pub try_again : Lease × UpstreamResponse → Action (Lease × UpstreamResponse)
    unfolding attempt retry_provider
    try_again (first, response) w =
        if retryable (status_of response)
        then (guarded first (retry_provider first.provider.id) >>= try_second first response) w
        else (ok (first, response), w)

    -- The part that `dispatch` and `dispatch_audio` have in common: the providers, the requests to
    -- them, and the lease and the answer that are kept.
    unfoldable pub forward : Action (Lease × UpstreamResponse)
    unfolding try_again select_ready_provider
    forward = select_ready_provider >>= λ first.
        set (provider first.provider.id) >> (attempt s send first >>= try_again)
