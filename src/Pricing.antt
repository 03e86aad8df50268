-- ===== src/Pricing.antt =====
-- src/proxy.rs: what a call costs, in `i64` nano-dollars.
mod Table
pub mod Charge
pub use Table.{TokenRates, TokenPricing, recent_pricing, earlier_pricing, older_pricing}
unfoldable pub use Table.{token_pricing}
use open_ai_lb.Prelude.{
  ℕ, String, Bool, Option, none, some, List, [], ◌∷◌, ◌==◌, eqb, if◌then◌else◌, unwrap_or,
}
use open_ai_lb.Prelude.Int.{
  ℤ, pos, max_ℤ, ltb_ℤ, leb_ℤ, saturating_add, saturating_sub, saturating_mul,
}
use open_ai_lb.Errors.{Result, ok, err, panic, ◌>>=◌}
use open_ai_lb.Usage.{Usage}

abbrev pub long_context_threshold_tokens : ℤ
long_context_threshold_tokens = pos 272_000

-- `TokenPricing::rates`.
unfoldable pub rates : TokenPricing → ℤ → TokenRates
rates pricing input_tokens =
    if leb_ℤ long_context_threshold_tokens input_tokens
    then unwrap_or pricing.long pricing.short
    else pricing.short

-- `Ord::clamp`, which panics where the bounds cross.
unfoldable pub clamp : ℤ → ℤ → ℤ → Result ℤ
clamp low high a =
    if ltb_ℤ high low
    then panic
    else ok (if ltb_ℤ a low then low else if ltb_ℤ high a then high else a)

abbrev pub find_pricing : String → List TokenPricing → Option TokenPricing
find_pricing model [] = none
find_pricing model (p ∷ ps) = if p.model == model then some p else find_pricing model ps

abbrev pub written_tokens : TokenRates → ℤ → ℤ → Result ℤ
written_tokens r uncached cache_write_tokens =
    if eqb r.cache_write_usd_nanos 0 then ok (pos 0) else clamp (pos 0) uncached cache_write_tokens

-- The sum at the end of `cost_usd_nanos`.
unfoldable pub total : TokenRates → ℤ → ℤ → ℤ → ℤ → ℤ
total r uncached cached written output =
    saturating_add
      (saturating_add
        (saturating_add (saturating_mul (saturating_sub uncached written) r.input_usd_nanos)
          (saturating_mul cached r.cached_input_usd_nanos))
        (saturating_mul written r.cache_write_usd_nanos))
      (saturating_mul (max_ℤ output (pos 0)) r.output_usd_nanos)

-- `cost_usd_nanos`, for the rates of the model.
unfoldable pub cost_at : TokenRates → Usage → Result ℤ
cost_at r usage = do
  cached ← clamp (pos 0) (max_ℤ usage.input_tokens (pos 0)) usage.cached_tokens
  let uncached = saturating_sub usage.input_tokens cached
  written ← written_tokens r uncached usage.cache_write_tokens
  ok (total r uncached cached written usage.output_tokens)

abbrev cost_by : Option TokenPricing → Usage → Result (Option ℤ)
cost_by none usage = ok none
cost_by (some pricing) usage = do
  cost ← cost_at (rates pricing usage.input_tokens) usage
  ok (some cost)

unfoldable pub cost_usd_nanos : String → Usage → Result (Option ℤ)
unfolding cost_at rates token_pricing
cost_usd_nanos model usage = cost_by (find_pricing model token_pricing) usage
