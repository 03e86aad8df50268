-- ===== src/Serving/Accounting.antt =====
-- src/proxy.rs: `forward` keeps one lease of those that it takes, or none if it fails.
use open_ai_lb.Prelude.{ℕ, ◌+◌, String, Option, none, some, ap, inl, inr, arith, Bool-cases}
use open_ai_lb.Errors.{Result, ok, err, panic}
use open_ai_lb.Balancer.{Balancer, Lease}
use open_ai_lb.Audit.Tracker.{provider}
use open_ai_lb.Serving.{
  ◌>>=◌, noted, Reply, Surroundings, World, Action, continue, settle_held, guarded, drop_held,
}
use open_ai_lb.Serving.Upstream.{UpstreamResponse, live, status_of, retryable, track_upstream}
use open_ai_lb.Serving.Attempts.{
  Caller, selected, select_provider, select_fresh, or_another, select_ready_provider, optional,
  retry_provider, attempt, try_second, try_again, forward,
}
use open_ai_lb.Serving.Ledger.{
  one, takes, drops, Settles, Settles-after, Settles-continue, Settles-quiet, Settles-settle_held,
  Renews, refresh_if_needed-Renews, track_upstream-quiet,
}

-- The leases of results.
abbrev pub of_lease : String → Lease → ℕ
of_lease j lease = one lease.provider.id j

abbrev pub of_pair : String → Lease × UpstreamResponse → ℕ
of_pair j (lease, response) = one lease.provider.id j

abbrev pub of_option : String → Option Lease → ℕ
of_option j none = 0
of_option j (some lease) = one lease.provider.id j

-- A send that leaves the leases as they are.
abbrev pub Spares : String → (Lease → Action Reply) → Type 0
Spares j send = (lease : Lease) (w : World) → Settles j (λ _. 0) 0 w (send lease w)

module _ (s : Surroundings) (c : Caller) (j : String) where
  selected-Settles :
      (w : World) (r : Result Lease × Balancer) → Settles j (of_lease j) 0 w (selected w r)
  selected-Settles w (ok lease, b) = omega arith
  selected-Settles w (err e, b) = omega arith
  selected-Settles w (panic, b) = omega arith

  select_provider-Settles :
      (excluded : Option String) (w : World)
      → Settles j (of_lease j) 0 w (select_provider s c excluded w)
  unfolding select_provider
  select_provider-Settles excluded w = selected-Settles w _

  renewed-Settles :
      (lease : Lease) (w : World) (r : Result Lease × World)
      → Renews s lease.provider.id w r
      → Settles j (of_lease j) (of_lease j lease) w (settle_held lease r)
  unfolding drop_held
  renewed-Settles lease w (ok l, v) (i, e) =
      omega (arith, ap (λ id. one id j) i, ap (takes j) e, ap (drops j) e)
  renewed-Settles lease w (err e, v) h = omega (arith, ap (takes j) h, ap (drops j) h)
  renewed-Settles lease w (panic, v) h = omega (arith, ap (takes j) h, ap (drops j) h)

  select_fresh-Settles :
      (excluded : Option String) (w : World)
      → Settles j (of_lease j) 0 w (select_fresh s c excluded w)
  unfolding select_fresh
  select_fresh-Settles excluded w =
      Settles-continue j (of_lease j) (of_lease j) 0 w (select_provider s c excluded w) _
        (select_provider-Settles excluded w)
        (λ lease v _. renewed-Settles lease v _ (refresh_if_needed-Renews s lease v))

  or_another-Settles :
      (first : Lease) (w : World) (r : Result Lease × World)
      → Renews s first.provider.id w r
      → Settles j (of_lease j) (of_lease j first) w (or_another s c first r)
  unfolding drop_held
  or_another-Settles first w (ok l, v) h = renewed-Settles first w (ok l, v) h
  or_another-Settles first w (err e, v) h =
      Settles-after j (of_lease j) (of_lease j first) 0 w (drop_held first v)
        (select_fresh s c (some first.provider.id) (drop_held first v))
        (omega (arith, ap (takes j) h, ap (drops j) h)) (select_fresh-Settles _ _)
  or_another-Settles first w (panic, v) h = renewed-Settles first w (panic, v) h

  select_ready_provider-Settles :
      (w : World) → Settles j (of_lease j) 0 w (select_ready_provider s c w)
  unfolding select_ready_provider
  select_ready_provider-Settles w =
      Settles-continue j (of_lease j) (of_lease j) 0 w (select_provider s c none w) _
        (select_provider-Settles none w)
        (λ lease v _. or_another-Settles lease v _ (refresh_if_needed-Renews s lease v))

  optional-Settles :
      (w : World) (r : Result Lease × World)
      → Settles j (of_lease j) 0 w r
      → Settles j (of_option j) 0 w (optional r)
  optional-Settles w (ok l, v) h = h
  optional-Settles w (err e, v) h = h
  optional-Settles w (panic, v) h = h

  -- The lease that an operation runs under, beside what the operation itself takes.
  guarded-option :
      (first : Lease) (w : World) (r : Result (Option Lease) × World)
      → Settles j (of_option j) 0 w r
      → Settles j (λ o. of_option j o + of_lease j first) (of_lease j first) w (settle_held first r)
  unfolding drop_held
  guarded-option first w (ok o, v) h = omega (arith, h)
  guarded-option first w (err e, v) h = omega (arith, h)
  guarded-option first w (panic, v) h = omega (arith, h)

  attempt-Settles :
      (send : Lease → Action Reply) (lease : Lease) (w : World)
      → Spares j send
      → Settles j (of_pair j) (of_lease j lease) w (attempt s send lease w)
  unfolding attempt
  attempt-Settles send lease w h =
      Settles-continue j (λ _. of_lease j lease) (of_pair j) (of_lease j lease) w
        (guarded lease
          (λ v. continue (send lease v) (λ r. track_upstream s lease.provider.id (live r))) w)
        _
        (Settles-settle_held j lease w _ (
          Settles-continue j (λ _. 0) (λ _. 0) 0 w (send lease w) _ (h lease w)
            (λ r v _.
              Settles-quiet j v (track_upstream s lease.provider.id (live r) v)
                (ap (takes j) (track_upstream-quiet s lease.provider.id (live r) v))
                (ap (drops j) (track_upstream-quiet s lease.provider.id (live r) v)))))
        (λ tracked v _. omega arith)

  module _ (send resend : Lease → Action Reply) (send_spares : Spares j send)
      (resend_spares : Spares j resend) where
    try_second-Settles :
        (first : Lease) (response : UpstreamResponse) (o : Option Lease) (w : World)
        → Settles j
            (of_pair j)
            (of_option j o + of_lease j first)
            w
            (try_second s c send resend first response o w)
    unfolding drop_held
    try_second-Settles first response none w = omega arith
    try_second-Settles first response (some second) w =
        Settles-after j (of_pair j) (of_option j (some second) + of_lease j first)
          (of_lease j second) w (noted (provider second.provider.id) (drop_held first w)) _
          (omega arith) (attempt-Settles resend second _ resend_spares)

    try_again-Settles :
        (p : Lease × UpstreamResponse) (w : World)
        → Settles j (of_pair j) (of_pair j p) w (try_again s c send resend p w)
    unfolding try_again retry_provider
    try_again-Settles (first, response) w = elim (Bool-cases (retryable (status_of response))) [
      | inl e ↦ rw e (
          Settles-continue j (λ o. of_option j o + of_lease j first) (of_pair j) (of_lease j first)
            w (guarded first (retry_provider s c first.provider.id) w) _
            (guarded-option first w (retry_provider s c first.provider.id w)
              (optional-Settles w _ (select_fresh-Settles (some first.provider.id) w)))
            (λ o v _. try_second-Settles first response o v))
      | inr e ↦ rw e (omega arith)
    ]

    sent-Settles :
        (first : Lease) (w : World)
        → Settles j
            (of_pair j)
            (of_lease j first)
            w
            ((attempt s send first >>= try_again s c send resend) w)
    sent-Settles first w =
        Settles-continue j (of_pair j) (of_pair j) (of_lease j first) w (attempt s send first w) _
          (attempt-Settles send first w send_spares) (λ p v _. try_again-Settles p v)

    pub forward-Settles : (w : World) → Settles j (of_pair j) 0 w (forward s c send resend w)
    unfolding forward
    forward-Settles w =
        Settles-continue j (of_lease j) (of_pair j) 0 w (select_ready_provider s c w) _
          (select_ready_provider-Settles w)
          (λ first v _.
            Settles-after j (of_pair j) (of_lease j first) (of_lease j first) v
              (noted (provider first.provider.id) v) _ (omega arith)
              (sent-Settles first (noted (provider first.provider.id) v)))
