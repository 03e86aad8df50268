-- ===== src/Examples/Billing.antt =====
-- The charge of a call, and a report that makes the computation panic.
use open_ai_lb.Prelude.{ℕ, some, ◌≡◌, ◌≢◌, ◌↔◌, refl, arith}
use open_ai_lb.Prelude.Int.{pos, negsuc, ◌<ℤ◌}
use open_ai_lb.Errors.{ok, panic}
use open_ai_lb.Usage.{Usage}
use open_ai_lb.Pricing.{TokenRates, TokenPricing, rates, cost_at, cost_usd_nanos, token_pricing}
use open_ai_lb.Pricing.Charge.{cut, charge, cost_at-charge, cost_usd_nanos-charge, cost_at_panics}

abbrev report : Usage
report = record {
  input_tokens = pos 300_000;
  output_tokens = pos 40;
  cached_tokens = pos 100;
  cache_write_tokens = pos 0;
}

abbrev dear : TokenRates
dear = record {
  input_usd_nanos = 10;
  cached_input_usd_nanos = 1;
  cache_write_usd_nanos = 12;
  output_usd_nanos = 60;
}

cost_at-charge_example : cost_at dear report ≡ ok (pos (cut (charge dear 300_000 report)))
cost_at-charge_example = cost_at-charge dear report 300_000 refl (omega arith)

abbrev token_rates : ℕ → ℕ → ℕ → ℕ → TokenRates
token_rates input cached write output = record {
  input_usd_nanos = input;
  cached_input_usd_nanos = cached;
  cache_write_usd_nanos = write;
  output_usd_nanos = output;
}

abbrev listed : TokenPricing
listed = record {
  model = "gpt-5.4";
  short = token_rates 2500 250 0 15_000;
  long = some (token_rates 5000 500 0 22_500);
}

cost_usd_nanos-charge_example :
    cost_usd_nanos "gpt-5.4" report
    ≡ ok (some (pos (cut (charge (rates listed (pos 300_000)) 300_000 report))))
unfolding token_pricing
cost_usd_nanos-charge_example =
    cost_usd_nanos-charge "gpt-5.4" listed report 300_000 refl refl (omega arith)

cost_at_panics_example :
    (cost_at dear (record report { input_tokens = negsuc 4 }) ≡ panic)
    ↔ ((negsuc 4 <ℤ pos 0) × (dear.cache_write_usd_nanos ≢ 0))
cost_at_panics_example =
    cost_at_panics dear (record report { input_tokens = negsuc 4 }) (omega arith)
