-- ===== src/Balancer/Leases.antt =====
-- src/balancer.rs: requests take leases and drop them, in any order and over any reloads of the
-- snapshot; the counters always tell how many calls each provider is serving.
use open_ai_lb.Prelude.{
  ℕ, zero, suc, ◌+◌, ◌-◌, ◌^◌, ◌≤◌, ◌<◌, String, Bool, Option, none, some, List, [], ◌∷◌, ◌≡◌, refl,
  ◌∙◌, inl, inr, ◌==◌, eq_iff, arith, length, get_elem?, if◌then◌else◌,
}
use open_ai_lb.Prelude.Int.{ℤ}
use open_ai_lb.Prelude.Map.{Map}
use open_ai_lb.Errors.{Result, ok, err, panic}
use open_ai_lb.External.{External}
use open_ai_lb.Provider.{Provider}
use open_ai_lb.Balancer.{
  Balancer, Lease, load, drop_lease, remember, remember_affinity, count_lease, lease_of, select,
}
use open_ai_lb.Balancer.Eligible.{IsEligible}
use open_ai_lb.Balancer.Selecting.{select_cases, select-least, load-count_lease, load-drop_lease}

-- The balancer with the leases that are held, newest first.
pub record Office : Type 0 where
  pub balancer : Balancer
  pub held : List Lease

pub data Call : Type 0 where
  selects :
      (ttl now : ℤ) (user_id : String) (all_providers : Bool) (affinity excluded : Option String)
      → Call
  drops : ℕ → Call
  reloads : List Provider → Map (List String) → Call

pub take_out : ℕ → List Lease → List Lease
take_out i [] = []
take_out zero (l ∷ ls) = ls
take_out (suc i) (l ∷ ls) = l ∷ take_out i ls

hold : List Lease → Result Lease × Balancer → Office
hold ls (ok l, b) = record { balancer = b; held = l ∷ ls }
hold ls (err e, b) = record { balancer = b; held = ls }
hold ls (panic, b) = record { balancer = b; held = ls }

give_back : Office → ℕ → Option Lease → Office
give_back o i none = o
give_back o i (some l) = record { balancer = drop_lease o.balancer l; held = take_out i o.held }

module _ (x : External) where
  unfoldable pub step : Office → Call → Office
  unfolding hold give_back take_out
  step o (selects ttl now user_id all_providers affinity excluded) =
      hold o.held (select x o.balancer ttl now user_id all_providers affinity excluded)
  step o (drops i) = give_back o i (get_elem? o.held i)
  step o (reloads providers grants) = record o {
    balancer = record o.balancer { providers = providers; provider_grants = grants };
  }

  unfoldable pub run : Office → List Call → Office
  run o [] = o
  run o (c ∷ cs) = run (step o c) cs

-- The leases of one provider.
abbrev pub held_of : String → List Lease → ℕ
held_of j [] = 0
held_of j (l ∷ ls) = if l.provider.id == j then suc (held_of j ls) else held_of j ls

pub record IsCounted (o : Office) : Type 0 where
  pub counted : (j : String) → load o.balancer j ≡ held_of j o.held

held_of-le : (j : String) (ls : List Lease) → held_of j ls ≤ length ls
held_of-le j [] = omega arith
held_of-le j (l ∷ ls) = ground (arith, held_of-le j ls)

held_of-take_out :
    (j : String) (i : ℕ) (ls : List Lease) (l : Lease)
    → get_elem? ls i ≡ some l
    → held_of j ls
      ≡ (if l.provider.id == j then suc (held_of j (take_out i ls)) else held_of j (take_out i ls))
unfolding take_out
held_of-take_out j i [] l e = cc
held_of-take_out j zero (y ∷ ls) l e = ground arith
held_of-take_out j (suc i) (y ∷ ls) l e = ground (arith, held_of-take_out j i ls l e)

length-take_out : (i : ℕ) (ls : List Lease) → length (take_out i ls) ≤ length ls
unfolding take_out
length-take_out i [] = omega arith
length-take_out zero (y ∷ ls) = omega arith
length-take_out (suc i) (y ∷ ls) = omega (arith, length-take_out i ls)

module _ (x : External) where
  load-remember :
      (b : Balancer) (c : ℕ) (affinity : Option String) (id j : String) (now ttl : ℤ)
      → load (remember x (record b { cursor = c }) affinity id now ttl) j ≡ load b j
  unfolding load remember_affinity
  load-remember b c none id j now ttl = refl
  load-remember b c (some key) id j now ttl = refl

  hold-IsCounted :
      (ls : List Lease) (b : Balancer) (q : Provider)
      → ((j : String) → load b j ≡ held_of j ls)
      → length ls < 2 ^ 64 - 1
      → (j : String) → load (count_lease b q.id) j ≡ held_of j (lease_of q ∷ ls)
  hold-IsCounted ls b q counted h j =
      rw (load-count_lease b q.id j)
        (ground (arith, counted j, counted q.id, eq_iff q.id j, held_of-le q.id ls))

  step-IsCounted :
      (o : Office) (c : Call)
      → IsCounted o
      → length o.held < 2 ^ 64 - 1
      → IsCounted (step x o c) × (length (step x o c).held ≤ length o.held + 1)
  unfolding step
  step-IsCounted o (selects ttl now user_id all_providers affinity excluded) v h =
      elim (select_cases x o.balancer ttl now user_id all_providers affinity excluded) [
        | inl (q, c, served, _) ↦
            rw (served, step)
              (
                record {
                  counted =
                      hold-IsCounted o.held
                        (remember x (record o.balancer { cursor = c }) affinity q.id now ttl) q
                        (λ j. load-remember o.balancer c affinity q.id j now ttl ∙ v.counted j) h;
                },
                omega arith,
              )
        | inr (_, refused) ↦ rw (refused, step) (v, omega arith)
      ]
  step-IsCounted o (drops i) v h = dropped (get_elem? o.held i) refl
    where
      dropped :
          (found : Option Lease)
          → get_elem? o.held i ≡ found
          → IsCounted (give_back o i found)
            × (length (give_back o i found).held ≤ length o.held + 1)
      dropped none e = (v, omega arith)
      dropped (some l) e = (
        record {
          counted = λ j.
              load-drop_lease o.balancer l j (omega (arith, v.counted l.provider.id, positive))
                (omega (arith, v.counted l.provider.id, held_of-le l.provider.id o.held))
              ∙ ground (arith, v.counted j, held_of-take_out j i o.held l e);
        },
        omega (arith, length-take_out i o.held),
      )
        where
          positive : 0 < held_of l.provider.id o.held
          positive = ground (
            arith,
            held_of-take_out l.provider.id i o.held l e,
            eq_iff l.provider.id l.provider.id,
          )
  step-IsCounted o (reloads providers grants) v h =
      (record { counted = λ j. unfold load in v.counted j }, omega arith)

  -- After any sequence of `select`, drops of leases and reloads of the snapshot, in which fewer
  -- leases than a 64-bit counter holds are taken, each counter is the number of leases held.
  pub run-IsCounted :
      (o : Office) (cs : List Call)
      → IsCounted o
      → length o.held + length cs < 2 ^ 64
      → IsCounted (run x o cs)
  unfolding run
  run-IsCounted o [] v h = v
  run-IsCounted o (c ∷ cs) v h =
      let (next, grown) = step-IsCounted o c v (omega arith) in
      run-IsCounted (step x o c) cs next (omega arith)

  -- So a request without a key goes to an eligible provider that serves the fewest calls: in an
  -- office reached from a counted one with fewer than 2 ^ 64 leases and calls, no eligible provider
  -- has fewer leases out.
  pub select-fewest :
      (o : Office) (cs : List Call) (ttl now : ℤ) (user_id : String) (all_providers : Bool)
      (excluded : Option String) (r : Provider) {l : Lease} {b' : Balancer}
      → IsCounted o
      → length o.held + length cs < 2 ^ 64
      → select x (run x o cs).balancer ttl now user_id all_providers none excluded ≡ (ok l, b')
      → IsEligible (run x o cs).balancer now user_id all_providers excluded r
      → held_of l.provider.id (run x o cs).held ≤ held_of r.id (run x o cs).held
  select-fewest o cs ttl now user_id all_providers excluded r {l} v h e fits =
      let w = run-IsCounted o cs v h in
      omega (
        arith,
        w.counted l.provider.id,
        w.counted r.id,
        select-least x (run x o cs).balancer ttl now user_id all_providers excluded r e fits,
      )
