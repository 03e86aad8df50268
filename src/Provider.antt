-- ===== src/Provider.antt =====
-- src/balancer.rs: a provider, the update of it that a response brings, and when it is available.
pub mod Cooldown
pub mod Coalescing
use open_ai_lb.Prelude.{
  String, List, [], ◌∷◌, Bool, ◌&&◌, ◌||◌, Option, none, some, ◌==◌, if◌then◌else◌, is_some,
  is_some_and, ◌or_else◌, and_then, unwrap_or, eqb, false,
}
use open_ai_lb.Prelude.Int.{ℤ, pos, negsuc, ◌+ℤ◌, leb_ℤ, ltb_ℤ, max_ℤ, in_i64}
use open_ai_lb.Json.{Value, member, as_str, as_i64}

pub record Provider : Type 0 where
  pub id : String
  pub name : String
  pub account_id : String
  pub access_token : String
  pub refresh_token : String
  pub expires_at : Option ℤ
  pub status : String
  pub manual_disabled : ℤ
  pub cooldown_until : Option ℤ
  pub rate_limit_json : Option String
  pub last_error : Option String
  pub last_used_at : Option ℤ
  pub created_at : ℤ
  pub updated_at : ℤ
  pub owner_id : Option String
  pub owner_name : Option String

-- The row of an id, which is the primary key.
abbrev pub find_id : List Provider → String → Option Provider
find_id [] id = none
find_id (p ∷ ps) id = if p.id == id then some p else find_id ps id

pub record CircuitOpen : Type 0 where
  pub id : String
  pub cause : String
  pub rate_limit_json : String
  pub opened_at : ℤ
  pub cooldown_until : ℤ

pub record ProviderUpdate : Type 0 where
  pub status : Option String
  pub cooldown_until : Option ℤ
  pub rate_limit_json : String
  pub last_error : Option String
  pub last_used_at : Option ℤ
  pub updated_at : ℤ
  pub circuit : Option CircuitOpen

-- `ProviderUpdate::merge`.
unfoldable pub merge : ProviderUpdate → ProviderUpdate → ProviderUpdate
merge self next = record {
  status = if is_some next.status then next.status else self.status;
  cooldown_until = if is_some next.status then next.cooldown_until else self.cooldown_until;
  rate_limit_json = next.rate_limit_json;
  last_error = if is_some next.status then next.last_error else self.last_error;
  last_used_at = next.last_used_at or_else self.last_used_at;
  updated_at = max_ℤ self.updated_at next.updated_at;
  circuit = if is_some next.status then next.circuit else self.circuit;
}

-- An integer column that is 0.
abbrev pub is_zero : ℤ → Bool
is_zero (pos n) = eqb n 0
is_zero (negsuc n) = false

abbrev pub is_one : ℤ → Bool
is_one (pos n) = eqb n 1
is_one (negsuc n) = false

-- `cooldown_until.is_some_and(|until| until <= now)`.
abbrev pub is_reached : Option ℤ → ℤ → Bool
is_reached none now = false
is_reached (some until) now = leb_ℤ until now

-- An enabled provider whose cooldown is over.
unfoldable pub is_recovered : Provider → ℤ → Bool
is_recovered provider now =
    is_zero provider.manual_disabled
    && (provider.status == "cooldown" && is_reached provider.cooldown_until now)

-- `provider_is_available`.
unfoldable pub provider_is_available : Provider → ℤ → Bool
provider_is_available provider now =
    is_zero provider.manual_disabled
    && (provider.status == "active"
        || (provider.status == "cooldown" && is_reached provider.cooldown_until now))

-- `error.get("type")` is the text `usage_limit_reached`.
abbrev is_usage_limit : Value → Bool
is_usage_limit error =
    is_some_and (and_then (member error "type") as_str) (λ kind. kind == "usage_limit_reached")

-- `filter(|reset| *reset > now)`.
abbrev future_reset : Option ℤ → ℤ → Option ℤ
future_reset none now = none
future_reset (some reset) now = if ltb_ℤ now reset then some reset else none

-- `filter(|seconds| *seconds > 0)` and `now.checked_add(seconds)`.
abbrev reset_after : Option ℤ → ℤ → Option ℤ
reset_after none now = none
reset_after (some seconds) now =
    if ltb_ℤ (pos 0) seconds
    then (if in_i64 (now +ℤ seconds) then some (now +ℤ seconds) else none)
    else none

-- `usage_limit_cooldown`.
unfoldable pub usage_limit_cooldown : Option Value → ℤ → Option ℤ
usage_limit_cooldown none now = none
usage_limit_cooldown (some error) now =
    if is_usage_limit error
    then (future_reset (and_then (member error "resets_at") as_i64) now
        or_else reset_after (and_then (member error "resets_in_seconds") as_i64) now)
    else none

-- The part of `observe` that writes the cached provider.
unfoldable pub observe_provider : Provider → ProviderUpdate → Provider
observe_provider provider update = record provider {
  status =
      if is_zero provider.manual_disabled
      then unwrap_or update.status provider.status
      else provider.status;
  cooldown_until =
      if is_zero provider.manual_disabled && is_some update.status
      then update.cooldown_until
      else provider.cooldown_until;
  rate_limit_json = some update.rate_limit_json;
  last_error =
      if is_zero provider.manual_disabled && is_some update.status
      then update.last_error
      else provider.last_error;
  last_used_at = update.last_used_at or_else provider.last_used_at;
  updated_at = update.updated_at;
}

-- The body of the loop of `recover_cached_providers`.
unfoldable pub recover_provider : ℤ → Provider → Provider
recover_provider now provider =
    if is_recovered provider now
    then record provider {
      status = "active";
      cooldown_until = none;
      last_error = none;
      updated_at = now;
    }
    else provider

-- `UPDATE providers SET status=CASE … WHERE id=?` of `maintain`, on the row that it matches.
unfoldable pub update_row : Provider → ProviderUpdate → Provider
update_row row update = record row {
  status = if is_one row.manual_disabled then "disabled" else unwrap_or update.status row.status;
  cooldown_until =
      if is_one row.manual_disabled
      then none
      else if is_some update.status
      then update.cooldown_until
      else row.cooldown_until;
  rate_limit_json = some update.rate_limit_json;
  last_error = if is_some update.status then update.last_error else row.last_error;
  last_used_at = update.last_used_at or_else row.last_used_at;
  updated_at = update.updated_at;
}

-- `UPDATE providers SET status='active' … WHERE manual_disabled=0 AND status='cooldown' AND
-- cooldown_until<=?` of `maintain`, on one row.
unfoldable pub expire_row : ℤ → Provider → Provider
expire_row now row =
    if is_recovered row now
    then record row {
      status = "active";
      cooldown_until = none;
      last_error = none;
      updated_at = now;
    }
    else row
