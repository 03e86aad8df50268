-- ===== src/Balancer.antt =====
-- src/balancer.rs: the state of the balancer and the calls of the request path. Time is an argument,
-- counters are the 64-bit words of the atomics, and a call returns its result with the new state.
pub mod Eligible
pub mod Choice
pub mod Selecting
pub mod Leases
use open_ai_lb.Prelude.{
  ℕ, ◌+◌, ◌-◌, ◌%◌, ◌^◌, String, Bool, false, not, ◌||◌, Option, none, some, List, [], ◌∷◌, ◌++◌,
  ◌==◌, if◌then◌else◌, unwrap_or, ltb, contains, length, take, drop, filter_by, find,
}
use open_ai_lb.Prelude.Int.{ℤ, ◌+ℤ◌, wrap, ltb_ℤ}
use open_ai_lb.Prelude.Map
use open_ai_lb.Prelude.Map.{Map}
use open_ai_lb.Errors.{Result, ok, err, panic, unavailable}
use open_ai_lb.External.{External}
use open_ai_lb.Provider.{Provider, ProviderUpdate, provider_is_available}

pub record AffinityEntry : Type 0 where
  pub provider_id : String
  pub expires_at : ℤ
  pub updated_at : ℤ

pub record Balancer : Type 0 where
  pub inflight : Map ℕ
  pub cursor : ℕ
  pub providers : List Provider
  pub provider_grants : Map (List String)
  pub affinities : Map AffinityEntry
  pub dirty_affinities : Map (Unit {0})
  pub provider_updates : Map ProviderUpdate

-- A lease also holds the shared `inflight` map, which here is the balancer's.
pub record Lease : Type 0 where
  pub provider : Provider
  pub access_token : String
  pub refresh_token : String

-- `fetch_add(1)` and `fetch_sub(1)` of a 64-bit atomic.
abbrev pub fetch_add : ℕ → ℕ
fetch_add n = (n + 1) % 2 ^ 64

abbrev pub fetch_sub : ℕ → ℕ
fetch_sub n = (n + (2 ^ 64 - 1)) % 2 ^ 64

-- `Balancer::default`.
abbrev pub default : Balancer
default = record {
  inflight = [];
  cursor = 0;
  providers = [];
  provider_grants = [];
  affinities = [];
  dirty_affinities = [];
  provider_updates = [];
}

-- `Balancer::inflight`: the calls that a provider is serving.
unfoldable pub load : Balancer → String → ℕ
load b provider_id = unwrap_or (Map.get b.inflight provider_id) 0

-- `Drop for Lease`.
unfoldable pub drop_lease : Balancer → Lease → Balancer
drop_lease b lease = elim (Map.get b.inflight lease.provider.id) [
  | none ↦ b
  | some value ↦ record b { inflight = Map.put b.inflight lease.provider.id (fetch_sub value) }
]

-- The three filters of `select`.
abbrev pub owned_by : Option String → String → Bool
owned_by none user_id = false
owned_by (some owner) user_id = owner == user_id

abbrev pub granted_to : Option (List String) → String → Bool
granted_to none user_id = false
granted_to (some users) user_id = contains users user_id

abbrev pub is_excluded : Option String → String → Bool
is_excluded none id = false
is_excluded (some other) id = other == id

unfoldable pub is_permitted : Balancer → String → Bool → Provider → Bool
is_permitted b user_id all_providers item =
    all_providers
    || (owned_by item.owner_id user_id || granted_to (Map.get b.provider_grants item.id) user_id)

unfoldable pub eligible : Balancer → ℤ → String → Bool → Option String → List Provider
eligible b now user_id all_providers excluded =
    filter_by (λ item. not (is_excluded excluded item.id))
      (filter_by (is_permitted b user_id all_providers)
        (filter_by (λ item. provider_is_available item now) b.providers))

-- `iter().min_by_key(f)`: the first of the smallest.
min_from : (Provider → ℕ) → Provider → List Provider → Provider
min_from key best [] = best
min_from key best (x ∷ xs) = min_from key (if ltb (key x) (key best) then x else best) xs

unfoldable pub min_by_key : (Provider → ℕ) → List Provider → Option Provider
unfolding min_from
min_by_key key [] = none
min_by_key key (x ∷ xs) = some (min_from key x xs)

-- `iter().cycle().skip(start).take(len)`.
abbrev pub cycle_from : ℕ → List Provider → List Provider
cycle_from start xs = drop start xs ++ take start xs

abbrev expect : Option Provider → Result Provider
expect none = panic
expect (some provider) = ok provider

-- `least_inflight`. A remainder by the length of an empty list panics.
unfoldable pub least_inflight : Balancer → List Provider → Result Provider × Balancer
least_inflight b [] = (panic, b)
least_inflight b (p ∷ ps) =
    let start = b.cursor % length (p ∷ ps) in
    (
      expect (min_by_key (λ provider. load b provider.id) (cycle_from start (p ∷ ps))),
      record b { cursor = fetch_add b.cursor },
    )

-- `affinity_provider`.
abbrev live_provider : Option AffinityEntry → List Provider → ℤ → Option Provider
live_provider none candidates now = none
live_provider (some entry) candidates now =
    if ltb_ℤ now entry.expires_at
    then find (λ provider. provider.id == entry.provider_id) candidates
    else none

abbrev pub lease_of : Provider → Lease
lease_of chosen = record {
  provider = chosen;
  access_token = chosen.access_token;
  refresh_token = chosen.refresh_token;
}

-- The counter of a provider goes up by one.
unfoldable pub count_lease : Balancer → String → Balancer
unfolding load
count_lease b id = record b { inflight = Map.put b.inflight id (fetch_add (load b id)) }

module _ (x : External) where
  abbrev pub affinity_hash : String → String
  affinity_hash key = x.sha256_hex key

  unfoldable pub affinity_provider : Balancer → String → List Provider → ℤ → Option Provider
  affinity_provider b key candidates now =
      live_provider (Map.get b.affinities (affinity_hash key)) candidates now

  -- `remember_affinity`.
  unfoldable pub remember_affinity : Balancer → String → String → ℤ → ℤ → Balancer
  remember_affinity b key provider_id now ttl = record b {
    affinities =
        Map.put b.affinities (affinity_hash key)
          (record { provider_id = provider_id; expires_at = wrap (now +ℤ ttl); updated_at = now });
    dirty_affinities = Map.put b.dirty_affinities (affinity_hash key) tt;
  }

  abbrev pub sticky : Balancer → Option String → List Provider → ℤ → Option Provider
  sticky b none candidates now = none
  sticky b (some key) candidates now = affinity_provider b key candidates now

  -- The provider that a request goes to.
  unfoldable pub choose : Balancer → Option String → List Provider → ℤ → Result Provider × Balancer
  choose b affinity candidates now = elim (sticky b affinity candidates now) [
    | none ↦ least_inflight b candidates
    | some provider ↦ (ok provider, b)
  ]

  abbrev pub remember : Balancer → Option String → String → ℤ → ℤ → Balancer
  remember b none id now ttl = b
  remember b (some key) id now ttl = remember_affinity b key id now ttl

  -- The end of `select`, once a provider is chosen.
  unfoldable pub take_lease :
      Result Provider × Balancer → Option String → ℤ → ℤ → Result Lease × Balancer
  take_lease (ok chosen, b) affinity now ttl =
      (ok (lease_of chosen), count_lease (remember b affinity chosen.id now ttl) chosen.id)
  take_lease (err e, b) affinity now ttl = (err e, b)
  take_lease (panic, b) affinity now ttl = (panic, b)

  select_among : List Provider → Balancer → ℤ → ℤ → Option String → Result Lease × Balancer
  unfolding choose take_lease
  select_among [] b ttl now affinity = (err (unavailable "no available CodeX provider"), b)
  select_among (p ∷ ps) b ttl now affinity =
      take_lease (choose b affinity (p ∷ ps) now) affinity now ttl

  -- `Balancer::select`, with `affinity_ttl_seconds` of the configuration.
  unfoldable pub select :
      Balancer
      → (ttl now : ℤ) (user_id : String) (all_providers : Bool) (affinity excluded : Option String)
      → Result Lease × Balancer
  unfolding select_among
  select b ttl now user_id all_providers affinity excluded =
      select_among (eligible b now user_id all_providers excluded) b ttl now affinity
