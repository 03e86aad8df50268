-- ===== src/Upkeep/Tracking.antt =====
-- src/balancer.rs: what `track_response` makes of the status of a response.
use open_ai_lb.Prelude.{
  ℕ, String, Bool, false, Option, none, some, List, [], ◌∷◌, ◌≡◌, refl, ◌∙◌, ◌≢◌, inl, inr, ◌==◌,
  eq_iff, eq_refl, arith, map_option, and_then, ◌⊎◌, Bool-cases, if◌then◌else◌, unwrap_or,
}
use open_ai_lb.Prelude.Int.{ℤ, pos, leb_ℤ}
use open_ai_lb.Prelude.Map
use open_ai_lb.Prelude.Map.{Map, get-put}
use open_ai_lb.External.{External}
use open_ai_lb.Json.{Value, member}
use open_ai_lb.Provider.{
  Provider, ProviderUpdate, find_id, provider_is_available, is_zero, observe_provider,
  usage_limit_cooldown,
}
use open_ai_lb.Provider.Cooldown.{available-observe_cooldown}
use open_ai_lb.Balancer.{Balancer}
use open_ai_lb.Upkeep.{
  update_first, pend, merged_with, observe, update_for, track_response, limited, rejected, used_at,
}

-- The cached provider of an id, which is the primary key of its table.
abbrev pub cached : Balancer → String → Option Provider
cached b id = find_id b.providers id

abbrev pub observed : Option Provider → ProviderUpdate → Option Provider
observed none u = none
observed (some p) u = some (observe_provider p u)

id-observe_provider : (p : Provider) (u : ProviderUpdate) → (observe_provider p u).id ≡ p.id
unfolding observe_provider
id-observe_provider p u = refl

find_id-update_first :
    (id : String) (u : ProviderUpdate) (ps : List Provider) (j : String)
    → find_id (update_first id u ps) j
      ≡ (if id == j then observed (find_id ps j) u else find_id ps j)
unfolding update_first
find_id-update_first id u [] j = ground arith
find_id-update_first id u (p ∷ ps) j = ground (
  arith,
  find_id-update_first id u ps j,
  id-observe_provider p u,
  eq_iff p.id id,
  eq_iff p.id j,
  eq_iff id j,
)

-- An observation reaches the cached provider and the update that waits for the database, and no
-- other provider.
pub observe_lem :
    (b : Balancer) (id : String) (u : ProviderUpdate) (j : String)
    → (cached (observe b id u) j ≡ (if id == j then observed (cached b j) u else cached b j))
      × (Map.get (observe b id u).provider_updates j ≡ (
          if id == j
          then some (merged_with (Map.get b.provider_updates id) u)
          else Map.get b.provider_updates j))
unfolding observe pend
observe_lem b id u j = (
  find_id-update_first id u b.providers j,
  get-put b.provider_updates id j (merged_with (Map.get b.provider_updates id) u),
)

-- The availability of a cached provider.
abbrev pub available_at : Option Provider → ℤ → Bool
available_at none t = false
available_at (some p) t = provider_is_available p t

available-observe_auth_error :
    (p : Provider) (u : ProviderUpdate) (t : ℤ)
    → p.manual_disabled ≡ pos 0
    → u.status ≡ some "auth_error"
    → provider_is_available (observe_provider p u) t ≡ false
unfolding provider_is_available observe_provider
available-observe_auth_error p u t d s = rw (d, s)

available-observe_none :
    (p : Provider) (u : ProviderUpdate) (t : ℤ)
    → u.status ≡ none
    → provider_is_available (observe_provider p u) t ≡ provider_is_available p t
unfolding provider_is_available observe_provider
available-observe_none p u t s = elim (Bool-cases (is_zero p.manual_disabled)) [
  | inl z ↦ rw (s, z)
  | inr z ↦ rw (s, z)
]

module _ (x : External) (error : Option Value) (uuid : String) (now : ℤ) where
  abbrev rate_json : String
  rate_json = unwrap_or (map_option x.to_string error) "{}"

  update_for-limited :
      (until : ℤ)
      → usage_limit_cooldown error now ≡ some until
      → update_for x 429 error uuid now ≡ limited uuid rate_json now until
  unfolding update_for
  update_for-limited until e = rw e

  update_for-rejected :
      (status : ℕ)
      → (status ≡ 401) ⊎ (status ≡ 403)
      → update_for x status error uuid now ≡ rejected status rate_json now
  unfolding update_for
  update_for-rejected status (inl e) = rw e
  update_for-rejected status (inr e) = rw e

  -- Any other answer says nothing of the provider's status.
  update_for-used :
      (status : ℕ)
      → status ≢ 401
      → status ≢ 403
      → (status ≢ 429) ⊎ (usage_limit_cooldown error now ≡ none)
      → update_for x status error uuid now ≡ used_at rate_json now
  unfolding update_for
  update_for-used status h₁ h₃ k = ground arith

module _ (x : External) (b : Balancer) (id : String) (uuid : String) (now : ℤ) (p : Provider)
    (found : cached b id ≡ some p) where
  abbrev pub error_of : List ℕ → Option Value
  error_of body = and_then (x.from_slice body) (λ response. member response "error")

  cached-track_response :
      (status : ℕ) (body : List ℕ)
      → cached (track_response x b id status body uuid now) id
        ≡ some (observe_provider p (update_for x status (error_of body) uuid now))
  unfolding track_response
  cached-track_response status body =
      (observe_lem b id (update_for x status (error_of body) uuid now) id).0
      ∙ rw (eq_refl id, found)

  -- A 429 whose error is a usage limit with a reset puts an enabled provider out of use exactly
  -- until that reset.
  pub track_response-limited :
      (body : List ℕ) (until t : ℤ)
      → p.manual_disabled ≡ pos 0
      → usage_limit_cooldown (error_of body) now ≡ some until
      → available_at (cached (track_response x b id 429 body uuid now) id) t ≡ leb_ℤ until t
  track_response-limited body until t d e =
      rw (cached-track_response 429 body, update_for-limited x (error_of body) uuid now until e)
        (available-observe_cooldown p _ until t d refl refl)

  -- Right after a 401 or 403 is tracked, an enabled provider is out of use, at whatever time is asked
  -- for. A later update or a reload may change that.
  pub track_response-rejected :
      (status : ℕ) (body : List ℕ) (t : ℤ)
      → p.manual_disabled ≡ pos 0
      → (status ≡ 401) ⊎ (status ≡ 403)
      → available_at (cached (track_response x b id status body uuid now) id) t ≡ false
  track_response-rejected status body t d h =
      rw
        (cached-track_response status body, update_for-rejected x (error_of body) uuid now status h)
        (available-observe_auth_error p _ t d refl)

  -- Any other answer, and a 429 that names no reset, leaves the availability of the provider as it
  -- was, at every time.
  pub track_response-used :
      (status : ℕ) (body : List ℕ) (t : ℤ)
      → status ≢ 401
      → status ≢ 403
      → (status ≢ 429) ⊎ (usage_limit_cooldown (error_of body) now ≡ none)
      → available_at (cached (track_response x b id status body uuid now) id) t
        ≡ provider_is_available p t
  track_response-used status body t h₁ h₃ k =
      rw
        (
          cached-track_response status body,
          update_for-used x (error_of body) uuid now status h₁ h₃ k,
        )
        (available-observe_none p _ t refl)
