-- ===== src/Balancer/Selecting.antt =====
-- src/balancer.rs: `select` as a whole.
use open_ai_lb.Prelude.{
  ℕ, ◌-◌, ◌^◌, ◌≤◌, ◌<◌, String, Bool, Option, none, some, List, [], ◌∷◌, ◌≡◌, refl, sym, ap, ◌∙◌,
  subst, ◌⊎◌, inl, inr, ◌==◌, eq_iff, eq_refl, arith, In, Option-cases, unwrap_or, if◌then◌else◌,
}
use open_ai_lb.Prelude.Int.{ℤ, ◌+ℤ◌, ◌<ℤ◌, wrap}
use open_ai_lb.Prelude.Map
use open_ai_lb.Prelude.Map.{get-put}
use open_ai_lb.Errors.{Result, ok, err, unavailable}
use open_ai_lb.External.{External}
use open_ai_lb.Provider.{Provider}
use open_ai_lb.Balancer.{
  Balancer, Lease, AffinityEntry, load, fetch_add, fetch_sub, drop_lease, eligible, affinity_hash,
  affinity_provider, remember_affinity, remember, sticky, choose, lease_of, count_lease,
  select_among, select,
}
use open_ai_lb.Balancer.Eligible.{IsEligible, eligible_iff}
use open_ai_lb.Balancer.Choice.{least_inflight-least, live_provider-In, live_provider-named}

module _ (x : External) where
  sticky-In :
      (b : Balancer) (affinity : Option String) (candidates : List Provider) (now : ℤ)
      (q : Provider)
      → sticky x b affinity candidates now ≡ some q
      → In q candidates
  unfolding affinity_provider
  sticky-In b none candidates now q e = cc
  sticky-In b (some key) candidates now q e =
      live_provider-In (Map.get b.affinities (affinity_hash x key)) candidates now e

  -- A choice is made among the candidates, and moves at most the cursor.
  choose_lem :
      (b : Balancer) (affinity : Option String) (p : Provider) (ps : List Provider) (now : ℤ)
      → (q : Provider) × (c : ℕ) × (choose x b affinity (p ∷ ps) now
          ≡ (ok q, record b { cursor = c }))
        × In q (p ∷ ps)
  unfolding choose
  choose_lem b affinity p ps now = elim (Option-cases (sticky x b affinity (p ∷ ps) now)) [
    | inl e ↦
        let (q, found, member, _) = least_inflight-least b p ps in
        (q, fetch_add b.cursor, rw (e, choose) found, member)
    | inr (q, e) ↦ (q, b.cursor, rw (e, choose), sticky-In b affinity (p ∷ ps) now q e)
  ]

  module _ (b : Balancer) (ttl now : ℤ) (user_id : String) (all_providers : Bool)
      (affinity excluded : Option String) where
    abbrev pub outcome : Result Lease × Balancer
    outcome = select x b ttl now user_id all_providers affinity excluded

    abbrev pub Fits : Provider → Type 0
    Fits = IsEligible b now user_id all_providers excluded

    -- The state after a lease of `q` was taken with the cursor at `c`.
    abbrev pub after : Provider → ℕ → Balancer
    after q c = count_lease (remember x (record b { cursor = c }) affinity q.id now ttl) q.id

    abbrev pub Served : Type 0
    Served = (q : Provider) × (c : ℕ) × (outcome ≡ (ok (lease_of q), after q c)) × Fits q

    abbrev pub Refused : Type 0
    Refused =
        ((q : Provider) → ¬ Fits q)
        × (outcome ≡ (err (unavailable "no available CodeX provider"), b))

    select_among_cases :
        (candidates : List Provider)
        → eligible b now user_id all_providers excluded ≡ candidates
        → Served ⊎ Refused
    unfolding select
    select_among_cases [] e = inr (
      (λ q fits. subst (In q) e ((eligible_iff b now user_id all_providers excluded q).1 fits)),
      rw e,
    )
    select_among_cases (p ∷ ps) e =
        let (q, c, chosen, member) = choose_lem b affinity p ps now in
        inl (
          q,
          c,
          rw (e, chosen),
          (eligible_iff b now user_id all_providers excluded q).0 (subst (In q) (sym e) member),
        )

    -- `select` leases an eligible provider, or finds that there is none, answers 503 and changes
    -- nothing. It never panics.
    pub select_cases : Served ⊎ Refused
    select_cases = select_among_cases (eligible b now user_id all_providers excluded) refl

  select_among-least :
      (b : Balancer) (ttl now : ℤ) (candidates : List Provider) (r : Provider) {l : Lease}
      {b' : Balancer}
      → select_among x candidates b ttl now none ≡ (ok l, b')
      → In r candidates
      → load b l.provider.id ≤ load b r.id
  unfolding select_among choose
  select_among-least b ttl now [] r e member = elim member [ ]
  select_among-least b ttl now (p ∷ ps) r {l} {b'} e member =
      let (q, found, _, least) = least_inflight-least b p ps in
      let both : (select_among x (p ∷ ps) b ttl now none).0 ≡ ok (lease_of q) = rw found in
      let same : ok l ≡ ok (lease_of q) = sym (ap (λ s. s.0) e) ∙ both in
      let lease : l ≡ lease_of q = cc same in
      subst (λ z. load b z.provider.id ≤ load b r.id) (sym lease) (least r member)

  -- Without a key the lease goes to an eligible provider with the smallest counter.
  pub select-least :
      (b : Balancer) (ttl now : ℤ) (user_id : String) (all_providers : Bool)
      (excluded : Option String) (r : Provider) {l : Lease} {b' : Balancer}
      → select x b ttl now user_id all_providers none excluded ≡ (ok l, b')
      → IsEligible b now user_id all_providers excluded r
      → load b l.provider.id ≤ load b r.id
  unfolding select
  select-least b ttl now user_id all_providers excluded r e fits =
      select_among-least b ttl now (eligible b now user_id all_providers excluded) r e
        ((eligible_iff b now user_id all_providers excluded r).1 fits)

  -- What a call for a key leaves in the affinity map.
  get-after :
      (b : Balancer) (key : String) (q : Provider) (c : ℕ) (now ttl : ℤ)
      → Map.get
          (count_lease
            (remember x (record b { cursor = c }) (some key) q.id now ttl)
            q.id).affinities
          (affinity_hash x key)
        ≡ some (record { provider_id = q.id; expires_at = wrap (now +ℤ ttl); updated_at = now })
  unfolding remember_affinity count_lease
  get-after b key q c now ttl = rw (
    get-put b.affinities (affinity_hash x key) (affinity_hash x key) _,
    eq_refl (x.sha256_hex key),
  )

  choose-named :
      (b : Balancer) (key : String) (entry : AffinityEntry) (candidates : List Provider) (now : ℤ)
      (p : Provider)
      → Map.get b.affinities (affinity_hash x key) ≡ some entry
      → now <ℤ entry.expires_at
      → In p candidates
      → p.id ≡ entry.provider_id
      → (q : Provider) × (choose x b (some key) candidates now ≡ (ok q, b)) × (q.id ≡ p.id)
  unfolding choose affinity_provider
  choose-named b key entry candidates now p e live member same =
      let (q, found, id) = live_provider-named _ entry candidates now p e live member same in
      (q, rw (found, choose), id)

  select_among-named :
      (b : Balancer) (ttl now : ℤ) (key : String) (candidates : List Provider) (p q : Provider)
      → In p candidates
      → choose x b (some key) candidates now ≡ (ok q, b)
      → (select_among x candidates b ttl now (some key)).0 ≡ ok (lease_of q)
  unfolding select_among
  select_among-named b ttl now key [] p q member e = elim member [ ]
  select_among-named b ttl now key (y ∷ ys) p q member e = rw e

  -- A key sticks to its provider: once a call for the key was served by a provider, the next call for
  -- the key, by whichever user, is served by a provider of the same id, if it comes before the entry
  -- expires, the entry was not changed in between, and some listed record `p` of that id, whatever its
  -- other members are by then, is eligible for it.
  pub select-sticky :
      (b b' c : Balancer) (ttl now later : ℤ) (user user' : String) (all all' : Bool) (key : String)
      (excluded excluded' : Option String) (l : Lease) (p : Provider)
      → select x b ttl now user all (some key) excluded ≡ (ok l, b')
      → Map.get c.affinities (affinity_hash x key) ≡ Map.get b'.affinities (affinity_hash x key)
      → later <ℤ wrap (now +ℤ ttl)
      → p.id ≡ l.provider.id
      → IsEligible c later user' all' excluded' p
      → (l' : Lease) × ((select x c ttl later user' all' (some key) excluded').0 ≡ ok l')
        × (l'.provider.id ≡ l.provider.id)
  unfolding select
  select-sticky b b' c ttl now later user user' all all' key excluded excluded' l p e same live id
        fits =
      elim (select_cases b ttl now user all (some key) excluded) [
        | inl (first, k, served, _) ↦
            let both = sym e ∙ served in
            let lease : l ≡ lease_of first = cc both in
            let entry =
              same
              ∙ ap (λ s. Map.get s.affinities (affinity_hash x key)) (ap (λ r. r.1) both)
              ∙ get-after b key first k now ttl in
            let member = (eligible_iff c later user' all' excluded' p).1 fits in
            let (q, chosen, found) =
              choose-named c key _ (eligible c later user' all' excluded') later p entry live member
                (id ∙ ap (λ z. z.provider.id) lease) in
            (lease_of q, select_among-named c ttl later key _ p q member chosen, found ∙ id)
        | inr (_, refused) ↦ cc (sym e ∙ refused)
      ]

-- What a lease does to the counters.
pub load-count_lease :
    (b : Balancer) (id j : String)
    → load (count_lease b id) j ≡ (if id == j then fetch_add (load b id) else load b j)
unfolding count_lease load
load-count_lease b id j =
    rw (get-put b.inflight id j (fetch_add (unwrap_or (Map.get b.inflight id) 0)))
      (ground (arith, eq_iff id j))

pub load-drop_lease :
    (b : Balancer) (l : Lease) (j : String)
    → 0 < load b l.provider.id
    → load b l.provider.id < 2 ^ 64
    → load (drop_lease b l) j ≡ (if l.provider.id == j then load b j - 1 else load b j)
unfolding drop_lease load
load-drop_lease b l j pos h = elim (Option-cases (Map.get b.inflight l.provider.id)) [
  | inl e ↦ absurd (omega (arith, ap (λ o. unwrap_or o 0) e))
  | inr (n, e) ↦
      rw (e, drop_lease)
        (rw (get-put b.inflight l.provider.id j (fetch_sub n))
          (ground (arith, eq_iff l.provider.id j, e)))
]
