-- ===== src/Upkeep.antt =====
-- src/balancer.rs: what happens to the balancer beside the request path. A response is observed, the
-- snapshot is read again, a provider is forgotten, cooldowns that are over are closed.
pub mod Forgetting
pub mod Tracking
pub mod Grants
use open_ai_lb.Prelude.{
  ℕ, String, Bool, true, false, not, Option, none, some, List, [], ◌∷◌, ◌++◌, map, ◌==◌,
  if◌then◌else◌, is_some, unwrap_or, ltb, leb, eqb, filter_by, and_then, map_option, ◌||◌,
}
use open_ai_lb.Prelude.Int.{ℤ}
use open_ai_lb.Prelude.Map
use open_ai_lb.Prelude.Map.{Map}
use open_ai_lb.Errors.{display_u16}
use open_ai_lb.External.{External}
use open_ai_lb.Json.{Value, member}
use open_ai_lb.Provider.{
  Provider, ProviderUpdate, CircuitOpen, merge, observe_provider, recover_provider,
  usage_limit_cooldown,
}
use open_ai_lb.Balancer.{Balancer, AffinityEntry}
use Prim.Native.String

-- The write through `iter_mut().find(…)`: the first provider of that id.
unfoldable pub update_first : String → ProviderUpdate → List Provider → List Provider
update_first id update [] = []
update_first id update (p ∷ ps) =
    if p.id == id then observe_provider p update ∷ ps else p ∷ update_first id update ps

abbrev pub merged_with : Option ProviderUpdate → ProviderUpdate → ProviderUpdate
merged_with none update = update
merged_with (some current) update = merge current update

-- `entry().and_modify(merge).or_insert(update)`.
unfoldable pub pend : Map ProviderUpdate → String → ProviderUpdate → Map ProviderUpdate
pend updates id update = Map.put updates id (merged_with (Map.get updates id) update)

-- `observe`.
unfoldable pub observe : Balancer → String → ProviderUpdate → Balancer
observe b provider_id update = record b {
  providers = update_first provider_id update b.providers;
  provider_updates = pend b.provider_updates provider_id update;
}

-- `recover_cached_providers`.
unfoldable pub recover_cached_providers : Balancer → ℤ → Balancer
recover_cached_providers b now = record b { providers = map (recover_provider now) b.providers }

-- The loop of `reload_providers` over the rows of `provider_grants`; the users of a grant are a set.
abbrev pub set_insert : List String → String → List String
set_insert users user = user ∷ filter_by (λ u. not (u == user)) users

unfoldable pub collect_grants : Map (List String) → List (String × String) → Map (List String)
collect_grants grants [] = grants
collect_grants grants ((provider_id, user_id) ∷ rows) =
    collect_grants
      (Map.put grants provider_id (set_insert (unwrap_or (Map.get grants provider_id) []) user_id))
      rows

-- `reload_providers`, given the rows of the two queries.
unfoldable pub reload_providers : Balancer → List Provider → List (String × String) → Balancer
reload_providers b providers rows = record b {
  providers = providers;
  provider_grants = collect_grants [] rows;
}

-- `hydrate`, given the rows of the third query too.
collect_affinities : Map AffinityEntry → List (String × AffinityEntry) → Map AffinityEntry
collect_affinities entries [] = entries
collect_affinities entries ((hash, entry) ∷ rows) =
    collect_affinities (Map.put entries hash entry) rows

unfoldable pub hydrate :
    Balancer → List Provider → List (String × String) → List (String × AffinityEntry) → Balancer
unfolding reload_providers collect_affinities
hydrate b providers rows saved = record (reload_providers b providers rows) {
  affinities = collect_affinities [] saved;
}

-- The hashes whose entry names the provider.
abbrev pub hashes_of : String → Map AffinityEntry → List String
hashes_of id [] = []
hashes_of id ((hash, entry) ∷ m) =
    if entry.provider_id == id then hash ∷ hashes_of id m else hashes_of id m

-- `remove_if(&hash, |_, entry| entry.provider_id == provider_id).is_some()`.
abbrev pub is_named : Option AffinityEntry → String → Bool
is_named none id = false
is_named (some entry) id = entry.provider_id == id

-- The body of the loop over those hashes.
unfoldable pub forget_hash : String → Balancer → String → Balancer
forget_hash id b hash =
    let left = record b {
      affinities = Map.remove b.affinities hash;
      dirty_affinities =
          let dirty = Map.remove b.dirty_affinities hash in
          if is_some (Map.get (Map.remove b.affinities hash) hash)
          then Map.put dirty hash tt
          else dirty;
    } in
    if is_named (Map.get b.affinities hash) id then left else b

unfoldable pub forget_hashes : String → Balancer → List String → Balancer
forget_hashes id b [] = b
forget_hashes id b (hash ∷ hashes) = forget_hashes id (forget_hash id b hash) hashes

abbrev pub without : String → List Provider → List Provider
without id = filter_by (λ provider. not (provider.id == id))

-- `forget_provider`.
unfoldable pub forget_provider : Balancer → String → Balancer
unfolding forget_hashes
forget_provider b provider_id =
    let rest = record b {
      providers = without provider_id b.providers;
      inflight = Map.remove b.inflight provider_id;
      provider_updates = Map.remove b.provider_updates provider_id;
      provider_grants = Map.remove b.provider_grants provider_id;
    } in
    forget_hashes provider_id rest (hashes_of provider_id b.affinities)

-- An update that only records the use of a provider.
abbrev pub used_at : String → ℤ → ProviderUpdate
used_at rate_json now = record {
  status = none;
  cooldown_until = none;
  rate_limit_json = rate_json;
  last_error = none;
  last_used_at = some now;
  updated_at = now;
  circuit = none;
}

abbrev pub rejected : ℕ → String → ℤ → ProviderUpdate
rejected status rate_json now = record (used_at rate_json now) {
  status = some "auth_error";
  last_error = some (String.◌++◌ "upstream HTTP " (display_u16 status));
}

abbrev pub limited : String → String → ℤ → ℤ → ProviderUpdate
limited uuid rate_json now cooldown = record (used_at rate_json now) {
  status = some "cooldown";
  cooldown_until = some cooldown;
  last_error = some "usage limit reached";
  circuit = some (record {
    id = uuid;
    cause = "usage_limit_reached";
    rate_limit_json = rate_json;
    opened_at = now;
    cooldown_until = cooldown;
  });
}

module _ (x : External) where
  -- The `match` of `track_response`.
  unfoldable pub update_for : ℕ → Option Value → String → ℤ → ProviderUpdate
  update_for status error uuid now =
      let rate_json = unwrap_or (map_option x.to_string error) "{}" in
      if eqb status 401 || eqb status 403
      then rejected status rate_json now
      else if eqb status 429
      then elim (usage_limit_cooldown error now) [
        | some cooldown ↦ limited uuid rate_json now cooldown
        | none ↦ used_at rate_json now
      ]
      else used_at rate_json now

  -- `track_response`, with a fresh identifier for the event of a circuit.
  unfoldable pub track_response : Balancer → String → ℕ → List ℕ → String → ℤ → Balancer
  unfolding update_for
  track_response b provider_id status body uuid now =
      let error = and_then (x.from_slice body) (λ response. member response "error") in
      observe b provider_id (update_for status error uuid now)
