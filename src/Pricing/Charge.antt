-- ===== src/Pricing/Charge.antt =====
-- src/proxy.rs: what `cost_usd_nanos` charges.
use open_ai_lb.Prelude.{
  ℕ, ◌+◌, ◌-◌, ◌*◌, ◌^◌, ◌≤◌, ◌<◌, min, String, Bool, true, false, some, ◌≡◌, ◌≢◌, ◌↔◌, refl, ap,
  ◌∙◌, inl, inr, arith, eqb, if◌then◌else◌, Bool-cases,
}
use open_ai_lb.Prelude.Int.{
  ℤ, pos, negsuc, pos_part, ◌+ℤ◌, ◌-ℤ◌, ◌<ℤ◌, times, saturate, saturating_add, saturating_sub,
  saturating_mul, max_ℤ, IsI64,
}
use open_ai_lb.Errors.{ok, panic, ◌>>=◌}
use open_ai_lb.Usage.{Usage}
use open_ai_lb.Pricing.{
  TokenRates, TokenPricing, rates, clamp, written_tokens, total, cost_at, cost_usd_nanos,
  find_pricing, token_pricing,
}

-- A number, cut at the largest `i64`.
abbrev pub cut : ℕ → ℕ
cut n = min n (2 ^ 63 - 1)

saturate-pos : (n : ℕ) → saturate (pos n) ≡ pos (cut n)
unfolding saturate
saturate-pos n = ground arith

add-pos : (a b : ℕ) → pos a +ℤ pos b ≡ pos (a + b)
unfolding ◌+ℤ◌
add-pos a b = ground arith

sub-pos : (a b : ℕ) → b ≤ a → pos a -ℤ pos b ≡ pos (a - b)
unfolding ◌-ℤ◌
sub-pos a b h = ground arith

times-pos : (a k : ℕ) → times (pos a) k ≡ pos (a * k)
unfolding times
times-pos a k = ground arith

-- Saturating sums of numbers that are already cut.
saturating_add-cut : (a b : ℕ) → saturating_add (pos (cut a)) (pos (cut b)) ≡ pos (cut (a + b))
saturating_add-cut a b =
    rw (add-pos (cut a) (cut b), saturate-pos (cut a + cut b)) (ap pos (omega arith))

saturating_mul-cut : (a k : ℕ) → saturating_mul (pos a) k ≡ pos (cut (a * k))
saturating_mul-cut a k = rw (times-pos a k) (saturate-pos (a * k))

saturating_sub-pos : (a b : ℕ) → b ≤ a → a < 2 ^ 63 → saturating_sub (pos a) (pos b) ≡ pos (a - b)
saturating_sub-pos a b h k = rw (sub-pos a b h, saturate-pos (a - b)) (ap pos (omega arith))

max_ℤ-zero : (a : ℤ) → max_ℤ a (pos 0) ≡ pos (pos_part a)
unfolding max_ℤ
max_ℤ-zero (pos n) = ground arith
max_ℤ-zero (negsuc n) = ground arith

clamp-zero : (high : ℕ) (a : ℤ) → clamp (pos 0) (pos high) a ≡ ok (pos (min (pos_part a) high))
unfolding clamp
clamp-zero high (pos n) = ground arith
clamp-zero high (negsuc n) = ground arith

-- The tokens of each kind in a call of `input` tokens.
abbrev pub cached_of : ℕ → Usage → ℕ
cached_of input u = min (pos_part u.cached_tokens) input

abbrev pub written_of : TokenRates → ℕ → Usage → ℕ
written_of r input u =
    if eqb r.cache_write_usd_nanos 0
    then 0
    else min (pos_part u.cache_write_tokens) (input - cached_of input u)

-- Each input token is charged once, as read from the cache, written to it, or neither; the parts of
-- a report that are negative count as nothing.
abbrev pub charge : TokenRates → ℕ → Usage → ℕ
charge r input u =
    (input - cached_of input u - written_of r input u) * r.input_usd_nanos
    + cached_of input u * r.cached_input_usd_nanos
    + written_of r input u * r.cache_write_usd_nanos
    + pos_part u.output_tokens * r.output_usd_nanos

total-cut :
    (r : TokenRates) (uncached cached written : ℕ) (output : ℤ)
    → written ≤ uncached
    → uncached < 2 ^ 63
    → total r (pos uncached) (pos cached) (pos written) output
      ≡ pos (
          cut (
            (uncached - written) * r.input_usd_nanos
            + cached * r.cached_input_usd_nanos
            + written * r.cache_write_usd_nanos
            + pos_part output * r.output_usd_nanos))
unfolding total
total-cut r uncached cached written output h k =
    rw
      (
        saturating_sub-pos uncached written h k,
        max_ℤ-zero output,
        saturating_mul-cut (uncached - written) r.input_usd_nanos,
        saturating_mul-cut cached r.cached_input_usd_nanos,
        saturating_mul-cut written r.cache_write_usd_nanos,
        saturating_mul-cut (pos_part output) r.output_usd_nanos,
        saturating_add-cut ((uncached - written) * r.input_usd_nanos)
            (cached * r.cached_input_usd_nanos),
        saturating_add-cut _ (written * r.cache_write_usd_nanos),
      )
      (saturating_add-cut _ (pos_part output * r.output_usd_nanos))

written_tokens-of :
    (r : TokenRates) (input : ℕ) (u : Usage)
    → written_tokens r (pos (input - cached_of input u)) u.cache_write_tokens
      ≡ ok (pos (written_of r input u))
written_tokens-of r input u = elim (Bool-cases (eqb r.cache_write_usd_nanos 0)) [
  | inl free ↦ rw free
  | inr priced ↦ rw priced (clamp-zero (input - cached_of input u) u.cache_write_tokens)
]

written_of-le :
    (r : TokenRates) (input : ℕ) (u : Usage) → written_of r input u ≤ input - cached_of input u
written_of-le r input u = ground arith

-- A call that reports no negative input costs its exact charge, cut at the largest `i64`; the
-- computation does not panic.
pub cost_at-charge :
    (r : TokenRates) (u : Usage) (input : ℕ)
    → u.input_tokens ≡ pos input
    → input < 2 ^ 63
    → cost_at r u ≡ ok (pos (cut (charge r input u)))
unfolding cost_at
cost_at-charge r u input e h =
    rw
      (
        e,
        max_ℤ-zero (pos input),
        clamp-zero input u.cached_tokens,
        saturating_sub-pos input (cached_of input u) (omega arith) h,
        written_tokens-of r input u,
      )
      (ap ok (
        total-cut r (input - cached_of input u) (cached_of input u) (written_of r input u)
          u.output_tokens (written_of-le r input u) (omega arith)))

-- A call of a listed model that reports a number of input tokens below 2 ^ 63 costs exactly the charge
-- at the model's rates for that number, cut at the largest `i64`.
pub cost_usd_nanos-charge :
    (model : String) (p : TokenPricing) (u : Usage) (input : ℕ)
    → find_pricing model token_pricing ≡ some p
    → u.input_tokens ≡ pos input
    → input < 2 ^ 63
    → cost_usd_nanos model u ≡ ok (some (pos (cut (charge (rates p (pos input)) input u))))
unfolding cost_usd_nanos
cost_usd_nanos-charge model p u input found e h =
    rw (found, cost_at-charge (rates p u.input_tokens) u input e h) (rw e)

sub-zero_ℤ : (a : ℤ) → IsI64 a → saturating_sub a (pos 0) ≡ a
unfolding ◌-ℤ◌ saturate
sub-zero_ℤ a h = ground arith

clamp-crossed : (n : ℕ) (a : ℤ) → clamp (pos 0) (negsuc n) a ≡ panic
unfolding clamp
clamp-crossed n a = ground arith

cost_at-negative :
    (r : TokenRates) (u : Usage) (n : ℕ)
    → u.input_tokens ≡ negsuc n
    → n < 2 ^ 63
    → cost_at r u ≡ (
        if eqb r.cache_write_usd_nanos 0
        then ok (total r (negsuc n) (pos 0) (pos 0) u.output_tokens)
        else panic)
unfolding cost_at
cost_at-negative r u n e h =
    rw
      (
        e,
        max_ℤ-zero (negsuc n),
        clamp-zero 0 u.cached_tokens,
        min_zero (pos_part u.cached_tokens),
        sub-zero_ℤ (negsuc n) (omega arith, omega arith),
      )
      (priced (eqb r.cache_write_usd_nanos 0))
  where
    min_zero : (m : ℕ) → min m 0 ≡ 0
    min_zero m = omega arith

    priced :
        (free : Bool)
        → ((if free then ok (pos 0) else clamp (pos 0) (negsuc n) u.cache_write_tokens)
            >>= λ written. ok (total r (negsuc n) (pos 0) written u.output_tokens))
          ≡ (if free then ok (total r (negsuc n) (pos 0) (pos 0) u.output_tokens) else panic)
    priced true = refl
    priced false = rw (clamp-crossed n u.cache_write_tokens)

-- The computation panics exactly for a negative input at rates with a price for cache writes.
pub cost_at_panics :
    (r : TokenRates) (u : Usage)
    → IsI64 u.input_tokens
    → (cost_at r u ≡ panic) ↔ ((u.input_tokens <ℤ pos 0) × (r.cache_write_usd_nanos ≢ 0))
cost_at_panics r u h = split u.input_tokens refl
  where
    split :
        (a : ℤ)
        → u.input_tokens ≡ a
        → (cost_at r u ≡ panic) ↔ ((u.input_tokens <ℤ pos 0) × (r.cache_write_usd_nanos ≢ 0))
    split (pos n) e =
        let charged = cost_at-charge r u n e (ground arith) in
        (λ p. cc charged, λ k. absurd (ground arith))
    split (negsuc n) e =
        let negative = cost_at-negative r u n e (ground arith) in
        (λ p. (ground arith, ground arith), λ k. negative ∙ ground arith)
