-- ===== src/Examples/Balancing.antt =====
-- The balancer of two providers: a key and its provider, and leases that are taken and dropped.
use open_ai_lb.Prelude.{
  ◌≤◌, true, false, none, some, List, [], ◌∷◌, ◌≡◌, ◌↔◌, ◌⊎◌, refl, inl, inr, arith, In,
}
use open_ai_lb.Prelude.Int.{pos, wrap, ◌+ℤ◌}
use open_ai_lb.Prelude.Map
use open_ai_lb.Errors.{ok}
use open_ai_lb.Provider.{Provider, observe_provider, provider_is_available}
use open_ai_lb.Upkeep.{observe, update_first}
use open_ai_lb.Balancer.{Balancer, Lease, affinity_hash, select, eligible, lease_of, load}
use open_ai_lb.Balancer
use open_ai_lb.Balancer.Eligible.{IsEligible, eligible_iff}
use open_ai_lb.Balancer.Selecting.{select_cases, Served, Refused, select-sticky}
use open_ai_lb.Balancer.Leases.{
  Office, Call, selects, drops, run, step, IsCounted, run-IsCounted, select-fewest, held_of,
}
use open_ai_lb.Examples.{toy, alpha, beta, two, used}

select_cases_example :
    Served toy two (pos 3600) (pos 100) "ann" false (some "key") (some "alpha")
    ⊎ Refused toy two (pos 3600) (pos 100) "ann" false (some "key") (some "alpha")
select_cases_example =
    select_cases toy two (pos 3600) (pos 100) "ann" false (some "key") (some "alpha")

eligible_iff_example :
    In beta (eligible two (pos 100) "ann" false (some "alpha"))
    ↔ IsEligible two (pos 100) "ann" false (some "alpha") beta
eligible_iff_example = eligible_iff two (pos 100) "ann" false (some "alpha") beta

abbrev served : Balancer
served = (select toy two (pos 3600) (pos 100) "ann" false (some "key") none).1

select-alpha :
    select toy two (pos 3600) (pos 100) "ann" false (some "key") none
    ≡ (ok (lease_of alpha), served)
unfolding select provider_is_available Map.get Map.put eligible Balancer.is_permitted
    Balancer.affinity_provider Balancer.least_inflight Balancer.min_by_key Balancer.count_lease
    Balancer.remember_affinity
select-alpha = refl

-- The answer of the first call is tracked, which changes the record of the provider.
abbrev tracked : Balancer
tracked = observe served "alpha" used

abbrev alpha_used : Provider
alpha_used = observe_provider alpha used

affinity-tracked :
    Map.get tracked.affinities (affinity_hash toy "key")
    ≡ Map.get served.affinities (affinity_hash toy "key")
unfolding observe
affinity-tracked = refl

alpha-IsEligible : IsEligible tracked (pos 200) "bob" true (some "beta") alpha_used
unfolding select provider_is_available Map.get Map.put eligible Balancer.is_permitted
    Balancer.affinity_provider Balancer.least_inflight Balancer.min_by_key Balancer.count_lease
    Balancer.remember_affinity observe update_first observe_provider
alpha-IsEligible = record {
  listed = inl refl;
  available = refl;
  permitted = inl refl;
  kept = λ h. cc;
}

select-sticky_example :
    (l' : Lease) × ((select toy tracked
        (pos 3600)
        (pos 200)
        "bob"
        true
        (some "key")
        (some "beta")).0
      ≡ ok l')
    × (l'.provider.id ≡ "alpha")
unfolding wrap ◌+ℤ◌ observe_provider
select-sticky_example =
    select-sticky toy two served tracked (pos 3600) (pos 100) (pos 200) "ann" "bob" false true "key"
      none (some "beta") (lease_of alpha) alpha_used select-alpha affinity-tracked (omega arith)
      refl alpha-IsEligible

abbrev idle : Office
idle = record { balancer = two; held = [] }

idle-IsCounted : IsCounted idle
unfolding load Map.get
idle-IsCounted = record { counted = λ j. refl }

abbrev history : List Call
history =
    selects (pos 3600) (pos 100) "ann" false (some "key") none
    ∷ selects (pos 3600) (pos 101) "ann" false none none
    ∷ drops 1
    ∷ []

run-IsCounted_example : IsCounted (run toy idle history)
run-IsCounted_example = run-IsCounted toy idle history idle-IsCounted (omega arith)

-- One call is out at `alpha`, so the next one goes to `beta`.
abbrev busy : Balancer
busy = (run toy idle (selects (pos 3600) (pos 100) "ann" false (some "key") none ∷ [])).balancer

select-beta :
    select toy busy (pos 3600) (pos 200) "ann" false none none
    ≡ (ok (lease_of beta), (select toy busy (pos 3600) (pos 200) "ann" false none none).1)
unfolding run step select provider_is_available Map.get Map.put eligible Balancer.is_permitted
    Balancer.affinity_provider Balancer.least_inflight Balancer.min_by_key Balancer.count_lease
    Balancer.remember_affinity
select-beta = refl

busy-IsEligible : IsEligible busy (pos 200) "ann" false none alpha
unfolding run step select provider_is_available Map.get Map.put eligible Balancer.is_permitted
    Balancer.affinity_provider Balancer.least_inflight Balancer.min_by_key Balancer.count_lease
    Balancer.remember_affinity
busy-IsEligible = record {
  listed = inl refl;
  available = refl;
  permitted = inr (inl refl);
  kept = λ h. cc;
}

select-fewest_example :
    held_of "beta"
      (run toy idle (selects (pos 3600) (pos 100) "ann" false (some "key") none ∷ [])).held
    ≤ held_of "alpha"
        (run toy idle (selects (pos 3600) (pos 100) "ann" false (some "key") none ∷ [])).held
select-fewest_example =
    select-fewest toy idle (selects (pos 3600) (pos 100) "ann" false (some "key") none ∷ [])
      (pos 3600) (pos 200) "ann" false none alpha idle-IsCounted (omega arith) select-beta
      busy-IsEligible
