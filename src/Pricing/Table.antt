-- ===== src/Pricing/Table.antt =====
-- The price table of src/proxy.rs, in nano-dollars for a token, in its order.
use open_ai_lb.Prelude.{ℕ, String, Option, none, some, List, [], ◌∷◌, ◌++◌}

pub record TokenRates : Type 0 where
  pub input_usd_nanos : ℕ
  pub cached_input_usd_nanos : ℕ
  pub cache_write_usd_nanos : ℕ
  pub output_usd_nanos : ℕ

pub record TokenPricing : Type 0 where
  pub model : String
  pub short : TokenRates
  pub long : Option TokenRates

-- Input, cached input, cache write and output.
abbrev token_rates : ℕ → ℕ → ℕ → ℕ → TokenRates
token_rates input cached write output = record {
  input_usd_nanos = input;
  cached_input_usd_nanos = cached;
  cache_write_usd_nanos = write;
  output_usd_nanos = output;
}

abbrev short_only : String → TokenRates → TokenPricing
short_only model short = record { model = model; short = short; long = none }

abbrev short_and_long : String → TokenRates → TokenRates → TokenPricing
short_and_long model short long = record { model = model; short = short; long = some long }

-- From "gpt-5.6-sol" to "gpt-5.4-pro".
unfoldable pub recent_pricing : List TokenPricing
recent_pricing =
    short_and_long "gpt-5.6-sol" (token_rates 5000 500 6250 30000)
      (token_rates 10000 1000 12500 45000)
    ∷ short_and_long "gpt-5.6-terra" (token_rates 2000 200 2500 12000)
        (token_rates 4000 400 5000 18000)
    ∷ short_and_long "gpt-5.6-luna" (token_rates 200 20 250 1200) (token_rates 400 40 500 1800)
    ∷ short_and_long "gpt-5.5" (token_rates 5000 500 0 30000) (token_rates 10000 1000 0 45000)
    ∷ short_and_long "gpt-5.5-pro" (token_rates 30000 0 0 180000) (token_rates 60000 0 0 270000)
    ∷ short_and_long "gpt-5.4" (token_rates 2500 250 0 15000) (token_rates 5000 500 0 22500)
    ∷ short_only "gpt-5.4-mini" (token_rates 750 75 0 4500)
    ∷ short_only "gpt-5.4-nano" (token_rates 200 20 0 1250)
    ∷ short_and_long "gpt-5.4-pro" (token_rates 30000 0 0 180000) (token_rates 60000 0 0 270000)
    ∷ []

-- From "gpt-5.3-codex" to "gpt-4.1-nano".
unfoldable pub earlier_pricing : List TokenPricing
earlier_pricing =
    short_only "gpt-5.3-codex" (token_rates 1750 175 0 14000)
    ∷ short_only "gpt-5.2" (token_rates 1750 175 0 14000)
    ∷ short_only "gpt-5.2-pro" (token_rates 21000 0 0 168000)
    ∷ short_only "gpt-5.1" (token_rates 1250 125 0 10000)
    ∷ short_only "gpt-5" (token_rates 1250 125 0 10000)
    ∷ short_only "gpt-5-mini" (token_rates 250 25 0 2000)
    ∷ short_only "gpt-5-nano" (token_rates 50 5 0 400)
    ∷ short_only "gpt-5-pro" (token_rates 15000 0 0 120000)
    ∷ short_only "gpt-4.1" (token_rates 2000 500 0 8000)
    ∷ short_only "gpt-4.1-mini" (token_rates 400 100 0 1600)
    ∷ short_only "gpt-4.1-nano" (token_rates 100 25 0 400)
    ∷ []

-- From "gpt-4o" to "gpt-4o-mini-transcribe".
unfoldable pub older_pricing : List TokenPricing
older_pricing =
    short_only "gpt-4o" (token_rates 2500 1250 0 10000)
    ∷ short_only "gpt-4o-mini" (token_rates 150 75 0 600)
    ∷ short_only "o1" (token_rates 15000 7500 0 60000)
    ∷ short_only "o1-pro" (token_rates 150000 0 0 600000)
    ∷ short_only "o3" (token_rates 2000 500 0 8000)
    ∷ short_only "o3-pro" (token_rates 20000 0 0 80000)
    ∷ short_only "o4-mini" (token_rates 1100 275 0 4400)
    ∷ short_only "o3-mini" (token_rates 1100 550 0 4400)
    ∷ short_only "gpt-4o-transcribe" (token_rates 2500 0 0 10000)
    ∷ short_only "gpt-4o-mini-transcribe" (token_rates 1250 0 0 5000)
    ∷ []

unfoldable pub token_pricing : List TokenPricing
unfolding recent_pricing earlier_pricing older_pricing
token_pricing = recent_pricing ++ (earlier_pricing ++ older_pricing)
