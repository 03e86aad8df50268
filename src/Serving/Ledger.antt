-- ===== src/Serving/Ledger.antt =====
-- src/proxy.rs: what the steps of a request do to the log of its leases.
use open_ai_lb.Prelude.{
  ℕ, ◌+◌, String, Option, none, some, List, [], ◌∷◌, ◌≡◌, refl, inl, inr, arith, ◌==◌,
  if◌then◌else◌, Bool-cases, eqb, is_some, find,
}
use open_ai_lb.Prelude.Int.{ℤ}
use open_ai_lb.Errors.{Result, ok, err, panic}
use open_ai_lb.Provider.{Provider, find_id}
use open_ai_lb.Balancer.{Lease}
use open_ai_lb.Oauth.{TokenResponse, refresh}
use open_ai_lb.Serving.{
  lift, Surroundings, World, Event, took, dropped, sent, Action, continue, settle_held, drop_held,
  wait, now,
}
use open_ai_lb.Serving.Upstream.{UpstreamResponse, live, buffered, into_bytes, track_upstream}
use open_ai_lb.Serving.Refresh.{
  refresh_if_needed, refresh_row, conclude_refresh, reloaded, is_row, known_fresh, never_or_fresh,
}

abbrev pub one : String → String → ℕ
one i j = if i == j then 1 else 0

abbrev pub takes : String → List Event → ℕ
takes j [] = 0
takes j (took i ∷ events) = one i j + takes j events
takes j (dropped i ∷ events) = takes j events
takes j (sent i ∷ events) = takes j events

abbrev pub drops : String → List Event → ℕ
drops j [] = 0
drops j (took i ∷ events) = drops j events
drops j (dropped i ∷ events) = one i j + drops j events
drops j (sent i ∷ events) = drops j events

-- Of the leases of a provider, `before` are held at first and `after` in the end, and each other one
-- that is taken between is dropped once.
abbrev pub Net : String → ℕ → World → World → ℕ → Type 0
Net j before w w' after =
    after + drops j w'.events + takes j w.events ≡ before + takes j w'.events + drops j w.events

-- The same of an operation: it holds the leases of its result, and none if it fails.
abbrev pub Settles : {A : Type 0} → String → (A → ℕ) → ℕ → World → Result A × World → Type 0
Settles j held before w (ok a, w') = Net j before w w' (held a)
Settles j held before w (err e, w') = Net j before w w' 0
Settles j held before w (panic, w') = Net j before w w' 0

module _ (j : String) {A : Type 0} where
  pub Settles-after :
      (held : A → ℕ) (m n : ℕ) (w w' : World) (r : Result A × World)
      → Net j m w w' n
      → Settles j held n w' r
      → Settles j held m w r
  Settles-after held m n w w' (ok a, v) h k = omega (arith, h, k)
  Settles-after held m n w w' (err e, v) h k = omega (arith, h, k)
  Settles-after held m n w w' (panic, v) h k = omega (arith, h, k)

  pub Settles-continue :
      {B : Type 0} (mid : A → ℕ) (held : B → ℕ) (m : ℕ) (w : World) (r : Result A × World)
      (f : A → Action B)
      → Settles j mid m w r
      → ((a : A) (v : World) → r ≡ (ok a, v) → Settles j held (mid a) v (f a v))
      → Settles j held m w (continue r f)
  Settles-continue {B = B} mid held m w (ok a, v) f h k = continued (f a v) (k a v refl)
    where
      continued : (r : Result B × World) → Settles j held (mid a) v r → Settles j held m w r
      continued (ok b, u) c = omega (arith, h, c)
      continued (err e, u) c = omega (arith, h, c)
      continued (panic, u) c = omega (arith, h, c)
  Settles-continue mid held m w (err e, v) f h k = h
  Settles-continue mid held m w (panic, v) f h k = h

  pub Settles-lift : (w : World) (r : Result A) → Settles j (λ _. 0) 0 w (lift r w)
  Settles-lift w (ok a) = omega arith
  Settles-lift w (err e) = omega arith
  Settles-lift w panic = omega arith

  -- An operation that logs nothing of leases.
  pub Settles-quiet :
      (w : World) (r : Result A × World)
      → takes j r.1.events ≡ takes j w.events
      → drops j r.1.events ≡ drops j w.events
      → Settles j (λ _. 0) 0 w r
  Settles-quiet w (ok a, v) h k = omega (arith, h, k)
  Settles-quiet w (err e, v) h k = omega (arith, h, k)
  Settles-quiet w (panic, v) h k = omega (arith, h, k)

  -- A lease that an operation is run under.
  pub Settles-settle_held :
      (lease : Lease) (w : World) (r : Result A × World)
      → Settles j (λ _. 0) 0 w r
      → Settles j (λ _. one lease.provider.id j) (one lease.provider.id j) w (settle_held lease r)
  unfolding drop_held
  Settles-settle_held lease w (ok a, v) h = omega (arith, h)
  Settles-settle_held lease w (err e, v) h = omega (arith, h)
  Settles-settle_held lease w (panic, v) h = omega (arith, h)

module _ (s : Surroundings) where
  -- The events of a log that an operation leaves as they are.
  abbrev pub Quiet : {A : Type 0} → World → Result A × World → Type 0
  Quiet w r = r.1.events ≡ w.events

  pub into_bytes-quiet : (u : UpstreamResponse) (w : World) → (into_bytes s u w).1.events ≡ w.events
  unfolding into_bytes wait
  into_bytes-quiet (live r) w = refl
  into_bytes-quiet (buffered r) w = refl

  pub track_upstream-quiet :
      (id : String) (u : UpstreamResponse) (w : World)
      → (track_upstream s id u w).1.events ≡ w.events
  unfolding track_upstream into_bytes wait
  track_upstream-quiet id (live r) w = elim (Bool-cases (eqb r.status 429)) [
    | inl e ↦ rw e (elim (Bool-cases r.broken) [ inl f ↦ rw f | inr f ↦ rw f ])
    | inr e ↦ rw e
  ]
  track_upstream-quiet id (buffered r) w = elim (Bool-cases (eqb r.status 429)) [
    | inl e ↦ rw e
    | inr e ↦ rw e
  ]

  -- A lease of the same provider comes back, and nothing of leases is logged.
  abbrev pub Renews : String → World → Result Lease × World → Type 0
  Renews id w (ok lease, v) = (lease.provider.id ≡ id) × (v.events ≡ w.events)
  Renews id w (err e, v) = v.events ≡ w.events
  Renews id w (panic, v) = v.events ≡ w.events

  pub Renews-quiet :
      (id : String) (w : World) (r : Result Lease × World) → Renews id w r → r.1.events ≡ w.events
  Renews-quiet id w (ok lease, v) h = h.1
  Renews-quiet id w (err e, v) h = h
  Renews-quiet id w (panic, v) h = h

  reloaded-Renews :
      (id : String) (w v : World) (r : Result Lease)
      → Renews id w (r, v)
      → Renews id w (reloaded s r v)
  unfolding wait
  reloaded-Renews id w v (ok lease) h = elim (Bool-cases (s.database (wait s v).waits)) [
    | inl e ↦ rw e h
    | inr e ↦ rw e (h.1)
  ]
  reloaded-Renews id w v (err f) h = elim (Bool-cases (s.database (wait s v).waits)) [
    | inl e ↦ rw e h
    | inr e ↦ rw e h
  ]
  reloaded-Renews id w v panic h = elim (Bool-cases (s.database (wait s v).waits)) [
    | inl e ↦ rw e h
    | inr e ↦ rw e h
  ]

  conclude_refresh-Renews :
      (lease : Lease) (old : String) (at : ℤ) (r : Result TokenResponse) (w : World)
      → Renews lease.provider.id w (conclude_refresh s lease old at r w)
  unfolding conclude_refresh wait
  conclude_refresh-Renews lease old at (err e) w = elim (Bool-cases (s.database w.waits)) [
    | inl d ↦ rw d (reloaded-Renews lease.provider.id w _ (err e) refl)
    | inr d ↦ rw d
  ]
  conclude_refresh-Renews lease old at panic w = refl
  conclude_refresh-Renews lease old at (ok token) w = elim (Bool-cases (s.database w.waits)) [
    | inl d ↦
        rw d
          (elim (Bool-cases (is_some (find (is_row lease.provider.id old) w.shared.db.providers))) [
            | inl e ↦ rw e (reloaded-Renews lease.provider.id w _ (ok _) (refl, refl))
            | inr e ↦ rw e
          ])
    | inr d ↦ rw d
  ]

  refresh_row-Renews :
      (lease : Lease) (row : Option Provider) (w : World)
      → Renews lease.provider.id w (refresh_row s lease row w)
  unfolding refresh_row wait
  refresh_row-Renews lease none w = refl
  refresh_row-Renews lease (some row) w = elim (Bool-cases (known_fresh row.expires_at (now s w))) [
    | inl e ↦ rw e (refl, refl)
    | inr e ↦ rw e (
        conclude_refresh-Renews lease row.refresh_token (now s w)
          (refresh s.external (s.config w.waits).oauth (s.tokens w.waits) row.refresh_token)
          (wait s w))
  ]

  pub refresh_if_needed-Renews :
      (lease : Lease) (w : World) → Renews lease.provider.id w (refresh_if_needed s lease w)
  unfolding refresh_if_needed wait
  refresh_if_needed-Renews lease w =
      elim (Bool-cases (never_or_fresh lease.provider.expires_at (now s w))) [
        | inl e ↦ rw e (refl, refl)
        | inr e ↦ rw e (elim (Bool-cases (s.database (wait s w).waits)) [
          | inl d ↦ rw d (
              refresh_row-Renews lease (find_id (wait s w).shared.db.providers lease.provider.id)
                (wait s w))
          | inr d ↦ rw d
        ])
      ]
