-- ===== src/Examples.antt =====
-- Two providers, a balancer and a table of them, for the examples of the children.
pub mod Balancing
pub mod Keeping
pub mod Observing
pub mod Billing
pub mod Streaming
pub mod Auditing
pub mod Requests
pub mod Dispatching
pub mod Signing
pub mod Writing
pub mod Accounts
pub mod Sharing
use open_ai_lb.Prelude.{ℕ, String, Option, none, some, List, [], ◌∷◌}
use open_ai_lb.Prelude.Int.{ℤ, pos}
use open_ai_lb.External.{External}
use open_ai_lb.Json.{Value, object, field, end, string, integer}
use open_ai_lb.Provider.{Provider, ProviderUpdate}
use open_ai_lb.Balancer.{Balancer}
use open_ai_lb.Balancer
use open_ai_lb.Database.{Database}

-- A body that reports a limit of usage, which the reader below finds in every body but the empty one.
abbrev pub limit_error : Value
limit_error =
    object
      (field "type" (string "usage_limit_reached") (field "resets_at" (integer (pos 2000)) end))

abbrev read_toy : List ℕ → Option Value
read_toy [] = none
read_toy (b ∷ bs) = some (
    object (
      field "error" limit_error
        (field "usage" (object (field "input_tokens" (integer (pos 7)) end)) end)))

abbrev pub toy : External
toy = record {
  sha256_hex = λ s. s;
  sha256_base64 = λ s. s;
  base64_decode = λ bytes. some bytes;
  url_with_query = λ url query. some url;
  from_slice = read_toy;
  to_string = λ v. "{}";
  to_vec = λ v. [];
}

abbrev provider_named : String → Provider
provider_named id = record {
  id = id;
  name = id;
  account_id = "account";
  access_token = "token";
  refresh_token = "refresh";
  expires_at = none;
  status = "active";
  manual_disabled = pos 0;
  cooldown_until = none;
  rate_limit_json = none;
  last_error = none;
  last_used_at = none;
  created_at = pos 1;
  updated_at = pos 1;
  owner_id = some "ann";
  owner_name = some "Ann";
}

abbrev pub alpha : Provider
alpha = provider_named "alpha"

abbrev pub beta : Provider
beta = provider_named "beta"

abbrev pub two : Balancer
two = record Balancer.default { providers = alpha ∷ beta ∷ [] }

abbrev pub tables : Database
tables = record { providers = alpha ∷ beta ∷ []; events = []; affinities = [] }

-- An update at 500 that puts its provider into cooldown until 2000, and a later one of a used call.
abbrev pub cooling : ProviderUpdate
cooling = record {
  status = some "cooldown";
  cooldown_until = some (pos 2000);
  rate_limit_json = "{}";
  last_error = some "limit";
  last_used_at = none;
  updated_at = pos 500;
  circuit = some (record {
    id = "event";
    cause = "usage_limit_reached";
    rate_limit_json = "{}";
    opened_at = pos 500;
    cooldown_until = pos 2000;
  });
}

abbrev pub used : ProviderUpdate
used = record {
  status = none;
  cooldown_until = none;
  rate_limit_json = "{}";
  last_error = none;
  last_used_at = some (pos 600);
  updated_at = pos 600;
  circuit = none;
}
