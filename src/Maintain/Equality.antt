-- ===== src/Maintain/Equality.antt =====
-- The derived `PartialEq` of `ProviderUpdate`, `CircuitOpen` and `AffinityEntry` in src/balancer.rs.
use open_ai_lb.Prelude.{
  String, Bool, true, false, ◌&&◌, Option, none, some, ◌≡◌, refl, ap, ◌==◌, eq_iff, eq_refl, arith,
  eqb,
}
use open_ai_lb.Prelude.Int.{ℤ, pos, negsuc}
use open_ai_lb.Provider.{ProviderUpdate, CircuitOpen}
use open_ai_lb.Balancer.{AffinityEntry}

abbrev pub eq_ℤ : ℤ → ℤ → Bool
eq_ℤ (pos m) (pos n) = eqb m n
eq_ℤ (negsuc m) (negsuc n) = eqb m n
eq_ℤ _ _ = false

abbrev pub eq_opt_ℤ : Option ℤ → Option ℤ → Bool
eq_opt_ℤ none none = true
eq_opt_ℤ (some a) (some b) = eq_ℤ a b
eq_opt_ℤ _ _ = false

abbrev pub eq_opt_str : Option String → Option String → Bool
eq_opt_str none none = true
eq_opt_str (some a) (some b) = a == b
eq_opt_str _ _ = false

unfoldable pub eq_circuit : CircuitOpen → CircuitOpen → Bool
eq_circuit a b =
    a.id == b.id
    && (a.cause == b.cause
        && (a.rate_limit_json == b.rate_limit_json
            && (eq_ℤ a.opened_at b.opened_at && eq_ℤ a.cooldown_until b.cooldown_until)))

abbrev pub eq_opt_circuit : Option CircuitOpen → Option CircuitOpen → Bool
eq_opt_circuit none none = true
eq_opt_circuit (some a) (some b) = eq_circuit a b
eq_opt_circuit _ _ = false

unfoldable pub eq_update : ProviderUpdate → ProviderUpdate → Bool
eq_update a b =
    eq_opt_str a.status b.status
    && (eq_opt_ℤ a.cooldown_until b.cooldown_until
        && (a.rate_limit_json == b.rate_limit_json
            && (eq_opt_str a.last_error b.last_error
                && (eq_opt_ℤ a.last_used_at b.last_used_at
                    && (eq_ℤ a.updated_at b.updated_at && eq_opt_circuit a.circuit b.circuit)))))

unfoldable pub eq_entry : AffinityEntry → AffinityEntry → Bool
eq_entry a b =
    a.provider_id == b.provider_id
    && (eq_ℤ a.expires_at b.expires_at && eq_ℤ a.updated_at b.updated_at)

eq_ℤ_sound : (a b : ℤ) → eq_ℤ a b ≡ true → a ≡ b
eq_ℤ_sound (pos m) (pos n) h = ground arith
eq_ℤ_sound (negsuc m) (negsuc n) h = ground arith
eq_ℤ_sound (pos m) (negsuc n) h = cc
eq_ℤ_sound (negsuc m) (pos n) h = cc

eq_ℤ_refl : (a : ℤ) → eq_ℤ a a ≡ true
eq_ℤ_refl (pos m) = ground arith
eq_ℤ_refl (negsuc m) = ground arith

eq_opt_ℤ_sound : (a b : Option ℤ) → eq_opt_ℤ a b ≡ true → a ≡ b
eq_opt_ℤ_sound none none h = refl
eq_opt_ℤ_sound (some a) (some b) h = ap some (eq_ℤ_sound a b h)
eq_opt_ℤ_sound none (some b) h = cc
eq_opt_ℤ_sound (some a) none h = cc

eq_opt_str_sound : (a b : Option String) → eq_opt_str a b ≡ true → a ≡ b
eq_opt_str_sound none none h = refl
eq_opt_str_sound (some a) (some b) h = ap some ((eq_iff a b).0 h)
eq_opt_str_sound none (some b) h = cc
eq_opt_str_sound (some a) none h = cc

eq_circuit_sound : (a b : CircuitOpen) → eq_circuit a b ≡ true → a ≡ b
unfolding eq_circuit
eq_circuit_sound a b h = ground (
  arith,
  eq_iff a.id b.id,
  eq_iff a.cause b.cause,
  eq_iff a.rate_limit_json b.rate_limit_json,
  eq_ℤ_sound a.opened_at b.opened_at,
  eq_ℤ_sound a.cooldown_until b.cooldown_until,
)

eq_opt_circuit_sound : (a b : Option CircuitOpen) → eq_opt_circuit a b ≡ true → a ≡ b
eq_opt_circuit_sound none none h = refl
eq_opt_circuit_sound (some a) (some b) h = ap some (eq_circuit_sound a b h)
eq_opt_circuit_sound none (some b) h = cc
eq_opt_circuit_sound (some a) none h = cc

-- Two updates that compare equal are equal.
pub eq_update_sound : (a b : ProviderUpdate) → eq_update a b ≡ true → a ≡ b
unfolding eq_update
eq_update_sound a b h = ground (
  arith,
  eq_opt_str_sound a.status b.status,
  eq_opt_ℤ_sound a.cooldown_until b.cooldown_until,
  eq_iff a.rate_limit_json b.rate_limit_json,
  eq_opt_str_sound a.last_error b.last_error,
  eq_opt_ℤ_sound a.last_used_at b.last_used_at,
  eq_ℤ_sound a.updated_at b.updated_at,
  eq_opt_circuit_sound a.circuit b.circuit,
)

and-intro : (a b : Bool) → a ≡ true → b ≡ true → (a && b) ≡ true
and-intro true b h k = k
and-intro false b h k = cc

eq_opt_ℤ_refl : (a : Option ℤ) → eq_opt_ℤ a a ≡ true
eq_opt_ℤ_refl none = refl
eq_opt_ℤ_refl (some a) = eq_ℤ_refl a

eq_opt_str_refl : (a : Option String) → eq_opt_str a a ≡ true
eq_opt_str_refl none = refl
eq_opt_str_refl (some a) = eq_refl a

eq_opt_circuit_refl : (a : Option CircuitOpen) → eq_opt_circuit a a ≡ true
unfolding eq_circuit
eq_opt_circuit_refl none = refl
eq_opt_circuit_refl (some a) = and-intro _ _ (eq_refl a.id) (
    and-intro _ _ (eq_refl a.cause) (
      and-intro _ _ (eq_refl a.rate_limit_json)
        (and-intro _ _ (eq_ℤ_refl a.opened_at) (eq_ℤ_refl a.cooldown_until))))

pub eq_update_refl : (a : ProviderUpdate) → eq_update a a ≡ true
unfolding eq_update
eq_update_refl a = and-intro _ _ (eq_opt_str_refl a.status) (
    and-intro _ _ (eq_opt_ℤ_refl a.cooldown_until) (
      and-intro _ _ (eq_refl a.rate_limit_json) (
        and-intro _ _ (eq_opt_str_refl a.last_error) (
          and-intro _ _ (eq_opt_ℤ_refl a.last_used_at)
            (and-intro _ _ (eq_ℤ_refl a.updated_at) (eq_opt_circuit_refl a.circuit))))))
