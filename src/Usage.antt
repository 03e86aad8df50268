-- ===== src/Usage.antt =====
-- src/proxy.rs: the token usage of a call, as the upstream reports it.
use open_ai_lb.Prelude.{
  ℕ, String, Option, List, [], ◌∷◌, and_then, map_option, unwrap_or, ◌or_else◌,
}
use open_ai_lb.Prelude.Int.{ℤ, pos, max_ℤ}
use open_ai_lb.External.{External}
use open_ai_lb.Json.{Value, member, pointer, as_i64}

pub record Usage : Type 0 where
  pub input_tokens : ℤ
  pub output_tokens : ℤ
  pub cached_tokens : ℤ
  pub cache_write_tokens : ℤ

abbrev pub default : Usage
default = record {
  input_tokens = pos 0;
  output_tokens = pos 0;
  cached_tokens = pos 0;
  cache_write_tokens = pos 0;
}

-- `Usage::merge`.
unfoldable pub merge : Usage → Usage → Usage
merge self other = record {
  input_tokens = max_ℤ self.input_tokens other.input_tokens;
  output_tokens = max_ℤ self.output_tokens other.output_tokens;
  cached_tokens = max_ℤ self.cached_tokens other.cached_tokens;
  cache_write_tokens = max_ℤ self.cache_write_tokens other.cache_write_tokens;
}

-- `and_then(…).and_then(Value::as_i64).unwrap_or_default()`.
abbrev pub count_at : Option Value → List String → ℤ
count_at usage path = unwrap_or (and_then (and_then usage (λ v. pointer v path)) as_i64) (pos 0)

abbrev pub usage_member : Value → Option Value
usage_member value = member value "usage" or_else pointer value ("response" ∷ "usage" ∷ [])

unfoldable pub usage_from_value : Value → Usage
usage_from_value value = record {
  input_tokens = count_at (usage_member value) ("input_tokens" ∷ []);
  output_tokens = count_at (usage_member value) ("output_tokens" ∷ []);
  cached_tokens = count_at (usage_member value) ("input_tokens_details" ∷ "cached_tokens" ∷ []);
  cache_write_tokens =
      count_at (usage_member value) ("input_tokens_details" ∷ "cache_write_tokens" ∷ []);
}

unfoldable pub usage_from_bytes : External → List ℕ → Usage
usage_from_bytes x bytes = unwrap_or (map_option usage_from_value (x.from_slice bytes)) default
