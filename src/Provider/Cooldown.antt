-- ===== src/Provider/Cooldown.antt =====
-- src/balancer.rs: how long a provider stays out of use.
use open_ai_lb.Prelude.{
  Bool, true, false, Option, none, some, ◌≡◌, refl, ◌⊎◌, inl, inr, ◌or_else◌, and_then, arith,
  if◌then◌else◌, Bool-cases,
}
use open_ai_lb.Prelude.Int.{ℤ, pos, ◌+ℤ◌, +ℤ_parts, ◌<ℤ◌, ◌≤ℤ◌, IsI64, leb_ℤ, in_i64}
use open_ai_lb.Json.{Value, null, integer, member, as_i64}
use open_ai_lb.Provider.{
  Provider, ProviderUpdate, provider_is_available, is_usage_limit, future_reset, reset_after,
  usage_limit_cooldown, observe_provider, recover_provider, is_recovered, is_zero,
}

in_i64-IsI64 : (a : ℤ) → in_i64 a ≡ true → IsI64 a
in_i64-IsI64 a h = ground arith

as_i64-IsI64 : (v : Value) {z : ℤ} → as_i64 v ≡ some z → IsI64 z
as_i64-IsI64 (integer a) h = ground (arith, in_i64-IsI64 a)
as_i64-IsI64 null h = cc
as_i64-IsI64 _ h = cc

member-IsI64 : (o : Option Value) {z : ℤ} → and_then o as_i64 ≡ some z → IsI64 z
member-IsI64 none h = cc
member-IsI64 (some v) h = as_i64-IsI64 v h

future_reset-future :
    (reset : Option ℤ) (now : ℤ) {until : ℤ}
    → ((z : ℤ) → reset ≡ some z → IsI64 z)
    → future_reset reset now ≡ some until
    → (now <ℤ until) × IsI64 until
future_reset-future none now k h = ground arith
future_reset-future (some z) now k h = ground (arith, k z refl)

reset_after-future :
    (seconds : Option ℤ) (now : ℤ) {until : ℤ}
    → reset_after seconds now ≡ some until
    → (now <ℤ until) × IsI64 until
reset_after-future none now h = ground arith
reset_after-future (some z) now h = ground (arith, +ℤ_parts now z, in_i64-IsI64 (now +ℤ z))

or_else-eq-some : (a b : Option ℤ) {z : ℤ} → (a or_else b) ≡ some z → (a ≡ some z) ⊎ (b ≡ some z)
or_else-eq-some none b h = inr h
or_else-eq-some (some x) b h = inl h

usage_limit-eq-some :
    (b : Bool) (o : Option ℤ) {z : ℤ} → (if b then o else none) ≡ some z → o ≡ some z
usage_limit-eq-some true o h = h
usage_limit-eq-some false o h = cc

-- A cooldown that is read from an error lies strictly in the future and is an `i64`.
pub usage_limit_cooldown-future :
    (error : Option Value) (now : ℤ) {until : ℤ}
    → usage_limit_cooldown error now ≡ some until
    → (now <ℤ until) × IsI64 until
unfolding usage_limit_cooldown
usage_limit_cooldown-future none now e = ground arith
usage_limit_cooldown-future (some error) now e =
    elim (or_else-eq-some _ _ (usage_limit-eq-some (is_usage_limit error) _ e)) [
      | inl h ↦
          future_reset-future (and_then (member error "resets_at") as_i64) now
            (λ z k. member-IsI64 (member error "resets_at") k) h
      | inr h ↦ reset_after-future (and_then (member error "resets_in_seconds") as_i64) now h
    ]

available-is_recovered :
    (p : Provider) (now t : ℤ)
    → now ≤ℤ t
    → is_recovered p now ≡ true
    → (is_zero p.manual_disabled ≡ true) × (provider_is_available p t ≡ true)
unfolding provider_is_available is_recovered
available-is_recovered p now t h e = ground arith

-- Closing the cooldowns that are over at `now` changes the availability of no provider, at `now`
-- or later.
pub available-recover_provider :
    (p : Provider) (now t : ℤ)
    → now ≤ℤ t
    → provider_is_available (recover_provider now p) t ≡ provider_is_available p t
unfolding recover_provider
available-recover_provider p now t h = elim (Bool-cases (is_recovered p now)) [
  | inl e ↦
      let (enabled, usable) = available-is_recovered p now t h e in
      rw (e, usable) (unfold provider_is_available in rw enabled)
  | inr e ↦ rw e
]

-- While a provider that an administrator has not disabled cools down, it is available exactly from
-- the end of the cooldown on.
pub available-observe_cooldown :
    (p : Provider) (u : ProviderUpdate) (until t : ℤ)
    → p.manual_disabled ≡ pos 0
    → u.status ≡ some "cooldown"
    → u.cooldown_until ≡ some until
    → provider_is_available (observe_provider p u) t ≡ leb_ℤ until t
unfolding provider_is_available observe_provider
available-observe_cooldown p u until t d s c = rw (d, s, c)
