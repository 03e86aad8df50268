-- ===== src/Serving/Retries.antt =====
-- src/proxy.rs: `forward` sends a request to at most two providers, which are different.
use open_ai_lb.Prelude.{
  String, Option, none, some, List, ◌∷◌, ◌≡◌, ◌≢◌, refl, sym, ap, ◌∙◌, ◌⊎◌, inl, inr, Bool-cases,
  subst,
}
use open_ai_lb.Errors.{Result, ok, err, panic}
use open_ai_lb.Audit.Tracker.{provider}
use open_ai_lb.Balancer.{Lease}
use open_ai_lb.Serving.{
  Reply, Surroundings, World, Action, continue, settle_held, guarded, drop_held, noted, ◌>>=◌,
}
use open_ai_lb.Serving.Upstream.{UpstreamResponse, live, status_of, retryable, track_upstream}
use open_ai_lb.Serving.Attempts.{
  Caller, select_fresh, select_ready_provider, optional, retry_provider, attempt, try_second,
  try_again, forward,
}
use open_ai_lb.Serving.Ledger.{track_upstream-quiet}
use open_ai_lb.Serving.Providers.{
  sends, sends_of, sends-continue, sends-settle_held, Avoids, select_fresh-Avoids,
  sends-select_fresh, sends-select_ready_provider,
}

-- At most one request, to this provider; at most one, to another provider; at most two, to different
-- providers.
abbrev pub AtMostOne : String → List String → List String → Type 0
AtMostOne id old new = (new ≡ old) ⊎ (new ≡ id ∷ old)

abbrev pub AtMostAnother : String → List String → List String → Type 0
AtMostAnother first old new = (new ≡ old) ⊎ ((b : String) × (new ≡ b ∷ old) × (first ≢ b))

abbrev pub AtMostTwo : List String → List String → Type 0
AtMostTwo old new =
    (new ≡ old)
    ⊎ (((a : String) × (new ≡ a ∷ old))
        ⊎ ((a : String) × (b : String) × (new ≡ b ∷ a ∷ old) × (a ≢ b)))

abbrev pub SendsOne : (Lease → Action Reply) → Type 0
SendsOne send =
    (lease : Lease) (w : World)
    → AtMostOne lease.provider.id (sends w.events) (sends_of (send lease w))

-- An attempt gives its lease back.
abbrev Returns : Lease → Result (Lease × UpstreamResponse) × World → Type 0
Returns lease (ok (l, response), w) = l ≡ lease
Returns lease (err e, w) = Unit
Returns lease (panic, w) = Unit

returned :
    (lease : Lease) (r : Result UpstreamResponse × World)
    → Returns lease (continue r (λ tracked w. (ok (lease, tracked), w)))
returned lease (ok tracked, w) = refl
returned lease (err e, w) = tt
returned lease (panic, w) = tt

abbrev AvoidsOption : String → Result (Option Lease) × World → Type 0
AvoidsOption first (ok none, w) = Unit
AvoidsOption first (ok (some lease), w) = first ≢ lease.provider.id
AvoidsOption first (err e, w) = Unit
AvoidsOption first (panic, w) = Unit

optional-AvoidsOption :
    (first : String) (r : Result Lease × World)
    → Avoids (some first) r
    → AvoidsOption first (optional r)
optional-AvoidsOption first (ok lease, w) h = λ e. h (ap some e)
optional-AvoidsOption first (err e, w) h = tt
optional-AvoidsOption first (panic, w) h = tt

sends-optional : (r : Result Lease × World) → sends_of (optional r) ≡ sends_of r
sends-optional (ok lease, w) = refl
sends-optional (err e, w) = refl
sends-optional (panic, w) = refl

guarded-AvoidsOption :
    (first : String) (lease : Lease) (r : Result (Option Lease) × World)
    → AvoidsOption first r
    → AvoidsOption first (settle_held lease r)
guarded-AvoidsOption first lease (ok none, w) h = tt
guarded-AvoidsOption first lease (ok (some l), w) h = h
guarded-AvoidsOption first lease (err e, w) h = tt
guarded-AvoidsOption first lease (panic, w) h = tt

module _ (s : Surroundings) where
  attempt-Returns :
      (send : Lease → Action Reply) (lease : Lease) (w : World)
      → Returns lease (attempt s send lease w)
  unfolding attempt
  attempt-Returns send lease w = returned lease _

  sends-attempt :
      (send : Lease → Action Reply) (lease : Lease) (w : World)
      → sends_of (attempt s send lease w) ≡ sends_of (send lease w)
  unfolding attempt
  sends-attempt send lease w =
      sends-continue (sends_of (send lease w)) (guarded lease asked w)
        (λ tracked v. (ok (lease, tracked), v))
        (sends-settle_held lease (asked w)
          ∙ sends-continue (sends_of (send lease w)) (send lease w)
              (λ r. track_upstream s lease.provider.id (live r)) refl
              (λ r v _. ap sends (track_upstream-quiet s lease.provider.id (live r) v)))
        (λ tracked v _. refl)
    where
      asked : Action UpstreamResponse
      asked = send lease >>= λ r. track_upstream s lease.provider.id (live r)

  module _ (c : Caller) (send resend : Lease → Action Reply) (send_one : SendsOne send)
      (resend_one : SendsOne resend) where
    second-AtMostAnother :
        (first : Lease) (response : UpstreamResponse) (old : List String)
        (r : Result (Option Lease) × World)
        → sends_of r ≡ old
        → AvoidsOption first.provider.id r
        → AtMostAnother first.provider.id old
            (sends_of (continue r (try_second s c send resend first response)))
    unfolding drop_held
    second-AtMostAnother first response old (ok none, v) h k = inl h
    second-AtMostAnother first response old (ok (some second), v) h k =
        elim (resend_one second (noted (provider second.provider.id) (drop_held first v))) [
          | inl e ↦ inl (sends-attempt resend second _ ∙ e ∙ h)
          | inr e ↦ inr (
            second.provider.id,
            sends-attempt resend second _ ∙ e ∙ ap (λ l. second.provider.id ∷ l) h,
            k,
          )
        ]
    second-AtMostAnother first response old (err e, v) h k = inl h
    second-AtMostAnother first response old (panic, v) h k = inl h

    try_again-AtMostAnother :
        (first : Lease) (response : UpstreamResponse) (w : World)
        → AtMostAnother first.provider.id
            (sends w.events)
            (sends_of (try_again s c send resend (first, response) w))
    unfolding try_again retry_provider
    try_again-AtMostAnother first response w = elim (Bool-cases (retryable (status_of response))) [
      | inl e ↦ rw e (
          second-AtMostAnother first response (sends w.events)
            (guarded first (retry_provider s c first.provider.id) w)
            (sends-settle_held first (retry_provider s c first.provider.id w)
              ∙ sends-optional (select_fresh s c (some first.provider.id) w)
              ∙ sends-select_fresh s c (some first.provider.id) w)
            (guarded-AvoidsOption first.provider.id first (retry_provider s c first.provider.id w) (
              optional-AvoidsOption first.provider.id _
                (select_fresh-Avoids s c (some first.provider.id) w))))
      | inr e ↦ rw e (inl refl)
    ]

    attempted-AtMostTwo :
        (first : Lease) (old : List String) (r : Result (Lease × UpstreamResponse) × World)
        → AtMostOne first.provider.id old (sends_of r)
        → Returns first r
        → AtMostTwo old (sends_of (continue r (try_again s c send resend)))
    attempted-AtMostTwo first old (ok (l, response), v) h k =
        join h (try_again-AtMostAnother l response v)
      where
        join :
            AtMostOne first.provider.id old (sends v.events)
            → AtMostAnother l.provider.id
                (sends v.events)
                (sends_of (try_again s c send resend (l, response) v))
            → AtMostTwo old (sends_of (try_again s c send resend (l, response) v))
        join (inl e) (inl f) = inl (f ∙ e)
        join (inl e) (inr (b, f, _)) = inr (inl (b, f ∙ ap (λ l. b ∷ l) e))
        join (inr e) (inl f) = inr (inl (first.provider.id, f ∙ e))
        join (inr e) (inr (b, f, n)) = inr (
            inr (
              first.provider.id,
              b,
              f ∙ ap (λ l. b ∷ l) e,
              λ g. n (ap (λ (z : Lease). z.provider.id) k ∙ g),
            ))
    attempted-AtMostTwo first old (err e, v) (inl h) k = inl h
    attempted-AtMostTwo first old (err e, v) (inr h) k = inr (inl (first.provider.id, h))
    attempted-AtMostTwo first old (panic, v) (inl h) k = inl h
    attempted-AtMostTwo first old (panic, v) (inr h) k = inr (inl (first.provider.id, h))

    ready-AtMostTwo :
        (old : List String) (r : Result Lease × World)
        → sends_of r ≡ old
        → AtMostTwo old (
            sends_of (
              continue r (λ first w.
                continue
                  (attempt s send first (noted (provider first.provider.id) w))
                  (try_again s c send resend))))
    ready-AtMostTwo old (ok first, v) h =
        attempted-AtMostTwo first old (attempt s send first (noted (provider first.provider.id) v))
          (subst
            (λ l.
              AtMostOne first.provider.id l
                (sends_of (attempt s send first (noted (provider first.provider.id) v))))
            h
            (subst (AtMostOne first.provider.id (sends v.events))
              (sym (sends-attempt send first (noted (provider first.provider.id) v)))
              (send_one first (noted (provider first.provider.id) v))))
          (attempt-Returns send first (noted (provider first.provider.id) v))
    ready-AtMostTwo old (err e, v) h = inl h
    ready-AtMostTwo old (panic, v) h = inl h

    pub forward-AtMostTwo :
        (w : World) → AtMostTwo (sends w.events) (sends_of (forward s c send resend w))
    unfolding forward
    forward-AtMostTwo w =
        ready-AtMostTwo (sends w.events) (select_ready_provider s c w)
          (sends-select_ready_provider s c w)
