-- ===== src/Serving/Unended.antt =====
-- src/proxy.rs: `forward` and what it calls leave the tracker's event alone: neither `finish` nor
-- `take_stream` is called before the answer.
use open_ai_lb.Prelude.{
  ℕ, String, Option, none, some, List, ◌≡◌, refl, ◌∙◌, inl, inr, ◌==◌, Bool-cases, eqb, is_some,
  find,
}
use open_ai_lb.Prelude.Int.{ℤ}
use open_ai_lb.Errors.{Result, ok, err, panic}
use open_ai_lb.Provider.{Provider, find_id}
use open_ai_lb.Oauth.{TokenResponse, refresh}
use open_ai_lb.Balancer.{Balancer, Lease}
use open_ai_lb.Audit.{HeaderMap}
use open_ai_lb.Audit.Tracker.{provider}
use open_ai_lb.Audit.Completion.{Ending}
use open_ai_lb.Serving.{
  Outbound, Reply, Surroundings, World, Action, continue, settle_held, guarded, drop_held, noted,
  wait, now, ◌>>=◌,
}
use open_ai_lb.Serving.Upstream.{
  UpstreamResponse, live, buffered, status_of, retryable, into_bytes, track_upstream, execute,
  send_upstream,
}
use open_ai_lb.Serving.Refresh.{
  is_row, known_fresh, never_or_fresh, reloaded, conclude_refresh, refresh_row, refresh_if_needed,
}
use open_ai_lb.Serving.Attempts.{
  Caller, selected, select_provider, select_fresh, or_another, select_ready_provider, optional,
  retry_provider, attempt, try_second, try_again, forward,
}

-- How the tracker ended, if it did.
abbrev pub ended_of : {A : Type 0} → Result A × World → Option Ending
ended_of r = r.1.ending

-- An operation that does not end it.
abbrev pub Unended : {A : Type 0} → Action A → Type 0
Unended f = (w : World) → ended_of (f w) ≡ w.ending

module _ {A : Type 0} where
  pub ended-continue :
      {B : Type 0} (old : Option Ending) (r : Result A × World) (f : A → Action B)
      → ended_of r ≡ old
      → ((a : A) → Unended (f a))
      → ended_of (continue r f) ≡ old
  ended-continue old (ok a, v) f h k = k a v ∙ h
  ended-continue old (err e, v) f h k = h
  ended-continue old (panic, v) f h k = h

  pub ended-settle_held :
      (lease : Lease) (r : Result A × World) → ended_of (settle_held lease r) ≡ ended_of r
  unfolding drop_held
  ended-settle_held lease (ok a, v) = refl
  ended-settle_held lease (err e, v) = refl
  ended-settle_held lease (panic, v) = refl

ended-optional : (r : Result Lease × World) → ended_of (optional r) ≡ ended_of r
ended-optional (ok lease, w) = refl
ended-optional (err e, w) = refl
ended-optional (panic, w) = refl

ended-selected : (w : World) (r : Result Lease × Balancer) → ended_of (selected w r) ≡ w.ending
ended-selected w (ok lease, b) = refl
ended-selected w (err e, b) = refl
ended-selected w (panic, b) = refl

module _ (s : Surroundings) where
  pub into_bytes-Unended : (u : UpstreamResponse) → Unended (into_bytes s u)
  unfolding into_bytes wait
  into_bytes-Unended (live r) w = refl
  into_bytes-Unended (buffered r) w = refl

  track_upstream-Unended : (id : String) (u : UpstreamResponse) → Unended (track_upstream s id u)
  unfolding track_upstream into_bytes wait
  track_upstream-Unended id (live r) w = elim (Bool-cases (eqb r.status 429)) [
    | inl e ↦ rw e (elim (Bool-cases r.broken) [ inl f ↦ rw f | inr f ↦ rw f ])
    | inr e ↦ rw e
  ]
  track_upstream-Unended id (buffered r) w = elim (Bool-cases (eqb r.status 429)) [
    | inl e ↦ rw e
    | inr e ↦ rw e
  ]

  execute-Unended : (id : String) (outbound : Outbound) → Unended (execute s id outbound)
  unfolding execute wait
  execute-Unended id outbound w = elim (Bool-cases (s.builds outbound)) [
    | inl e ↦ rw e refl
    | inr e ↦ rw e refl
  ]

  pub send_upstream-Unended :
      (lease : Lease) (path : String) (inbound : HeaderMap) (body : List ℕ)
      → Unended (send_upstream s lease path inbound body)
  unfolding send_upstream
  send_upstream-Unended lease path inbound body w =
      elim (Bool-cases (path == "/v1/audio/transcriptions")) [
        | inl e ↦ rw e (execute-Unended _ _ _)
        | inr e ↦ rw e (execute-Unended _ _ _)
      ]

  reloaded-Unended : (r : Result Lease) → Unended (reloaded s r)
  unfolding wait
  reloaded-Unended r w = elim (Bool-cases (s.database (wait s w).waits)) [
    | inl e ↦ rw e refl
    | inr e ↦ rw e refl
  ]

  conclude_refresh-Unended :
      (lease : Lease) (old : String) (at : ℤ) (r : Result TokenResponse)
      → Unended (conclude_refresh s lease old at r)
  unfolding conclude_refresh
  conclude_refresh-Unended lease old at (err e) w = elim (Bool-cases (s.database w.waits)) [
    | inl d ↦ rw d (reloaded-Unended (err e) _)
    | inr d ↦ rw d
  ]
  conclude_refresh-Unended lease old at panic w = refl
  conclude_refresh-Unended lease old at (ok token) w = elim (Bool-cases (s.database w.waits)) [
    | inl d ↦
        rw d
          (elim (Bool-cases (is_some (find (is_row lease.provider.id old) w.shared.db.providers))) [
            | inl e ↦ rw e (reloaded-Unended (ok _) _)
            | inr e ↦ rw e
          ])
    | inr d ↦ rw d
  ]

  refresh_row-Unended : (lease : Lease) (row : Option Provider) → Unended (refresh_row s lease row)
  unfolding refresh_row wait
  refresh_row-Unended lease none w = refl
  refresh_row-Unended lease (some row) w =
      elim (Bool-cases (known_fresh row.expires_at (now s w))) [
        | inl e ↦ rw e refl
        | inr e ↦ rw e (
            conclude_refresh-Unended lease row.refresh_token (now s w)
              (refresh s.external (s.config w.waits).oauth (s.tokens w.waits) row.refresh_token)
              (wait s w))
      ]

  refresh_if_needed-Unended : (lease : Lease) → Unended (refresh_if_needed s lease)
  unfolding refresh_if_needed wait
  refresh_if_needed-Unended lease w =
      elim (Bool-cases (never_or_fresh lease.provider.expires_at (now s w))) [
        | inl e ↦ rw e refl
        | inr e ↦ rw e (elim (Bool-cases (s.database (wait s w).waits)) [
          | inl d ↦ rw d (
              refresh_row-Unended lease (find_id (wait s w).shared.db.providers lease.provider.id)
                (wait s w))
          | inr d ↦ rw d
        ])
      ]

  module _ (c : Caller) where
    select_provider-Unended : (excluded : Option String) → Unended (select_provider s c excluded)
    unfolding select_provider
    select_provider-Unended excluded w = ended-selected w _

    select_fresh-Unended : (excluded : Option String) → Unended (select_fresh s c excluded)
    unfolding select_fresh
    select_fresh-Unended excluded w =
        ended-continue w.ending (select_provider s c excluded w) _
          (select_provider-Unended excluded w)
          (λ lease v.
            ended-settle_held lease (refresh_if_needed s lease v)
            ∙ refresh_if_needed-Unended lease v)

    or_another-Unended :
        (first : Lease) (r : Result Lease × World) → ended_of (or_another s c first r) ≡ ended_of r
    unfolding drop_held
    or_another-Unended first (ok lease, w) = refl
    or_another-Unended first (err e, w) =
        select_fresh-Unended (some first.provider.id) (drop_held first w)
    or_another-Unended first (panic, w) = refl

    select_ready_provider-Unended : Unended (select_ready_provider s c)
    unfolding select_ready_provider
    select_ready_provider-Unended w =
        ended-continue w.ending (select_provider s c none w) _ (select_provider-Unended none w)
          (λ first v.
            or_another-Unended first (refresh_if_needed s first v)
            ∙ refresh_if_needed-Unended first v)

    attempt-Unended :
        (send : Lease → Action Reply) (lease : Lease)
        → Unended (send lease)
        → Unended (attempt s send lease)
    unfolding attempt
    attempt-Unended send lease h w =
        ended-continue w.ending
          (guarded lease (send lease >>= λ r. track_upstream s lease.provider.id (live r)) w) _
          (ended-settle_held lease _
            ∙ ended-continue w.ending (send lease w) _ (h w)
                (λ r. track_upstream-Unended lease.provider.id (live r)))
          (λ tracked v. refl)

    module _ (send resend : Lease → Action Reply)
        (send_quiet : (lease : Lease) → Unended (send lease))
        (resend_quiet : (lease : Lease) → Unended (resend lease)) where
      try_second-Unended :
          (first : Lease) (response : UpstreamResponse) (second : Option Lease)
          → Unended (try_second s c send resend first response second)
      unfolding drop_held
      try_second-Unended first response none w = refl
      try_second-Unended first response (some second) w =
          attempt-Unended resend second (resend_quiet second)
            (noted (provider second.provider.id) (drop_held first w))

      try_again-Unended : (p : Lease × UpstreamResponse) → Unended (try_again s c send resend p)
      unfolding try_again retry_provider
      try_again-Unended (first, response) w = elim (Bool-cases (retryable (status_of response))) [
        | inl e ↦ rw e (
            ended-continue w.ending (guarded first (retry_provider s c first.provider.id) w) _
              (ended-settle_held first (retry_provider s c first.provider.id w)
                ∙ ended-optional (select_fresh s c (some first.provider.id) w)
                ∙ select_fresh-Unended (some first.provider.id) w)
              (try_second-Unended first response))
        | inr e ↦ rw e refl
      ]

      pub forward-Unended : Unended (forward s c send resend)
      unfolding forward
      forward-Unended w =
          ended-continue w.ending (select_ready_provider s c w) _ (select_ready_provider-Unended w)
            (λ first v.
              ended-continue v.ending (attempt s send first (noted (provider first.provider.id) v))
                _
                (attempt-Unended send first (send_quiet first)
                  (noted (provider first.provider.id) v))
                try_again-Unended)
