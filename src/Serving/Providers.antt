-- ===== src/Serving/Providers.antt =====
-- src/proxy.rs: which providers the requests of `forward` go to.
use open_ai_lb.Prelude.{
  String, Option, none, some, List, [], ◌∷◌, ◌≡◌, ◌≢◌, refl, ap, ◌∙◌, inl, inr,
}
use open_ai_lb.Errors.{Result, ok, err, panic}
use open_ai_lb.Balancer.{Balancer, Lease}
use open_ai_lb.Balancer.Selecting.{select_cases}
use open_ai_lb.Serving.{
  Surroundings, World, Event, took, dropped, sent, Action, continue, settle_held, guarded,
  drop_held, now,
}
use open_ai_lb.Serving.Refresh.{refresh_if_needed}
use open_ai_lb.Serving.Attempts.{
  Caller, selected, select_provider, select_fresh, or_another, select_ready_provider,
}
use open_ai_lb.Serving.Ledger.{Renews, Renews-quiet, refresh_if_needed-Renews}

-- The providers that requests were sent to, the last one first.
abbrev pub sends : List Event → List String
sends [] = []
sends (took i ∷ events) = sends events
sends (dropped i ∷ events) = sends events
sends (sent i ∷ events) = i ∷ sends events

abbrev pub sends_of : {A : Type 0} → Result A × World → List String
sends_of r = sends r.1.events

module _ {A : Type 0} where
  pub sends-continue :
      {B : Type 0} (old : List String) (r : Result A × World) (f : A → Action B)
      → sends_of r ≡ old
      → ((a : A) (v : World) → r ≡ (ok a, v) → sends_of (f a v) ≡ sends v.events)
      → sends_of (continue r f) ≡ old
  sends-continue old (ok a, v) f h k = k a v refl ∙ h
  sends-continue old (err e, v) f h k = h
  sends-continue old (panic, v) f h k = h

  pub sends-settle_held :
      (lease : Lease) (r : Result A × World) → sends_of (settle_held lease r) ≡ sends_of r
  unfolding drop_held
  sends-settle_held lease (ok a, v) = refl
  sends-settle_held lease (err e, v) = refl
  sends-settle_held lease (panic, v) = refl

-- A lease of a provider other than the excluded one.
abbrev pub Avoids : Option String → Result Lease × World → Type 0
Avoids excluded (ok lease, w) = excluded ≢ some lease.provider.id
Avoids excluded (err e, w) = Unit
Avoids excluded (panic, w) = Unit

module _ (s : Surroundings) (c : Caller) where
  sends-selected :
      (w : World) (r : Result Lease × Balancer) → sends_of (selected w r) ≡ sends w.events
  sends-selected w (ok lease, b) = refl
  sends-selected w (err e, b) = refl
  sends-selected w (panic, b) = refl

  sends-select_provider :
      (excluded : Option String) (w : World)
      → sends_of (select_provider s c excluded w) ≡ sends w.events
  unfolding select_provider
  sends-select_provider excluded w = sends-selected w _

  select_provider-Avoids :
      (excluded : Option String) (w : World) → Avoids excluded (select_provider s c excluded w)
  unfolding select_provider
  select_provider-Avoids excluded w =
      elim (select_cases s.external w.shared.balancer (s.config w.waits).affinity_ttl_seconds
        (now s w) c.user_id c.all_providers c.affinity excluded) [
          | inl (q, cursor, e, fits) ↦ rw e fits.kept
          | inr (_, e) ↦ rw e tt
        ]

  settled-Avoids :
      (excluded : Option String) (lease : Lease) (w : World) (r : Result Lease × World)
      → excluded ≢ some lease.provider.id
      → Renews s lease.provider.id w r
      → Avoids excluded (settle_held lease r)
  settled-Avoids excluded lease w (ok l, v) h (i, _) = λ e. h (e ∙ ap some i)
  settled-Avoids excluded lease w (err e, v) h k = tt
  settled-Avoids excluded lease w (panic, v) h k = tt

  fresh-Avoids :
      (excluded : Option String) (r : Result Lease × World)
      → Avoids excluded r
      → Avoids excluded (continue r (λ lease. guarded lease (refresh_if_needed s lease)))
  fresh-Avoids excluded (ok lease, v) h =
      settled-Avoids excluded lease v _ h (refresh_if_needed-Renews s lease v)
  fresh-Avoids excluded (err e, v) h = tt
  fresh-Avoids excluded (panic, v) h = tt

  pub select_fresh-Avoids :
      (excluded : Option String) (w : World) → Avoids excluded (select_fresh s c excluded w)
  unfolding select_fresh
  select_fresh-Avoids excluded w =
      fresh-Avoids excluded (select_provider s c excluded w) (select_provider-Avoids excluded w)

  sends-refresh :
      (lease : Lease) (w : World) → sends_of (refresh_if_needed s lease w) ≡ sends w.events
  sends-refresh lease w =
      ap sends (Renews-quiet s lease.provider.id w _ (refresh_if_needed-Renews s lease w))

  pub sends-select_fresh :
      (excluded : Option String) (w : World)
      → sends_of (select_fresh s c excluded w) ≡ sends w.events
  unfolding select_fresh
  sends-select_fresh excluded w =
      sends-continue (sends w.events) (select_provider s c excluded w) _
        (sends-select_provider excluded w)
        (λ lease v _. sends-settle_held lease (refresh_if_needed s lease v) ∙ sends-refresh lease v)

  sends-or_another :
      (first : Lease) (old : List String) (r : Result Lease × World)
      → sends_of r ≡ old
      → sends_of (or_another s c first r) ≡ old
  unfolding drop_held
  sends-or_another first old (ok l, v) h = h
  sends-or_another first old (err e, v) h = sends-select_fresh _ (drop_held first v) ∙ h
  sends-or_another first old (panic, v) h = h

  pub sends-select_ready_provider :
      (w : World) → sends_of (select_ready_provider s c w) ≡ sends w.events
  unfolding select_ready_provider
  sends-select_ready_provider w =
      sends-continue (sends w.events) (select_provider s c none w) _ (sends-select_provider none w)
        (λ lease v _.
          sends-or_another lease (sends v.events) (refresh_if_needed s lease v)
            (sends-refresh lease v))
