-- ===== src/Maintain/Coherence.antt =====
-- The cache of src/balancer.rs and the table of providers, between two reloads: observing and
-- `maintain` keep the cache equal to the table with the waiting updates applied, where no provider is
-- disabled by hand. A reload takes the table without those updates.
use open_ai_lb.Prelude.{
  String, Option, none, some, List, [], ◌∷◌, map, ◌≡◌, refl, sym, ap, ◌∙◌, inl, inr, eq_iff, arith,
  Bool-cases,
}
use open_ai_lb.Prelude.Int.{ℤ, pos, ◌≤ℤ◌}
use open_ai_lb.Prelude.Map
use open_ai_lb.Prelude.Map.{Map, Distinct, Distinct-put}
use open_ai_lb.Provider.{
  Provider, ProviderUpdate, find_id, update_row, expire_row, recover_provider,
}
use open_ai_lb.Provider.Coalescing.{update_row-merge, observe_provider-eq-update_row}
use open_ai_lb.Balancer.{Balancer}
use open_ai_lb.Upkeep.{observe, pend, merged_with, recover_cached_providers}
use open_ai_lb.Upkeep.Tracking.{cached, observed, observe_lem}
use open_ai_lb.Database.{Database}
use open_ai_lb.Maintain.{
  Batch, Saved, commit, read_batch, settle_affinity, settle_affinities, settle, maintain, entry_is,
}
use open_ai_lb.Maintain.Flushing.{written, expired, commit-row}
use open_ai_lb.Maintain.Settling.{get-settle, unsettled}
use open_ai_lb.Maintain.Equality.{eq_update_refl}

-- No provider is disabled by hand, and the cache is the table with the waiting updates applied.
pub record IsCoherent (b : Balancer) (db : Database) : Type 0 where
  pub distinct : Distinct b.provider_updates
  pub enabled :
      (j : String) (p : Provider) → find_id db.providers j ≡ some p → p.manual_disabled ≡ pos 0
  pub same :
      (j : String) → cached b j ≡ written (find_id db.providers j) (Map.get b.provider_updates j)

manual-update_row :
    (p : Provider) (u : ProviderUpdate) → (update_row p u).manual_disabled ≡ p.manual_disabled
unfolding update_row
manual-update_row p u = refl

-- An observation at or after the time of the update that waits.
abbrev pub Follows : Option ProviderUpdate → ProviderUpdate → Type 0
Follows none u = Unit {0}
Follows (some v) u = v.updated_at ≤ℤ u.updated_at

observed-written :
    (row : Option Provider) (waiting : Option ProviderUpdate) (u : ProviderUpdate)
    → ((p : Provider) → row ≡ some p → p.manual_disabled ≡ pos 0)
    → Follows waiting u
    → observed (written row waiting) u ≡ written row (some (merged_with waiting u))
observed-written none waiting u enabled h = refl
observed-written (some p) none u enabled h =
    ap some (observe_provider-eq-update_row p u (enabled p refl))
observed-written (some p) (some v) u enabled h = ap some (
    observe_provider-eq-update_row (update_row p v) u (manual-update_row p v ∙ enabled p refl)
    ∙ sym (update_row-merge p v u h))

Distinct-observe :
    (b : Balancer) (id : String) (u : ProviderUpdate)
    → Distinct b.provider_updates
    → Distinct (observe b id u).provider_updates
unfolding observe pend
Distinct-observe b id u d =
    Distinct-put b.provider_updates id (merged_with (Map.get b.provider_updates id) u) d

-- Observing a response keeps the cache equal to the table with the waiting updates applied, if the
-- observation is not older than the update that waits.
pub observe-IsCoherent :
    (b : Balancer) (db : Database) (id : String) (u : ProviderUpdate)
    → IsCoherent b db
    → Follows (Map.get b.provider_updates id) u
    → IsCoherent (observe b id u) db
observe-IsCoherent b db id u c h = record {
  distinct = Distinct-observe b id u c.distinct;
  enabled = c.enabled;
  same = λ j. ground (
    arith,
    (observe_lem b id u j).0,
    (observe_lem b id u j).1,
    c.same j,
    observed-written (find_id db.providers j) (Map.get b.provider_updates j) u (c.enabled j),
    eq_iff id j,
  );
}

-- Closing cooldowns, on the cache.
abbrev recovered : Option Provider → ℤ → Option Provider
recovered none now = none
recovered (some p) now = some (recover_provider now p)

id-recover_provider : (now : ℤ) (p : Provider) → (recover_provider now p).id ≡ p.id
unfolding recover_provider
id-recover_provider now p = ground arith

find_id-recover :
    (now : ℤ) (ps : List Provider) (j : String)
    → find_id (map (recover_provider now) ps) j ≡ recovered (find_id ps j) now
find_id-recover now [] j = refl
find_id-recover now (p ∷ ps) j =
    ground (arith, find_id-recover now ps j, id-recover_provider now p, eq_iff p.id j)

recovered-eq-expired : (o : Option Provider) (now : ℤ) → recovered o now ≡ expired o now
unfolding recover_provider expire_row
recovered-eq-expired none now = refl
recovered-eq-expired (some p) now = refl

providers-settle_affinity :
    (b : Balancer) (s : Saved) → (settle_affinity b s).providers ≡ b.providers
unfolding settle_affinity
providers-settle_affinity b s = elim (Bool-cases (entry_is (Map.get b.affinities s.hash) s.entry)) [
  | inl same ↦ rw same
  | inr other ↦ rw other
]

providers-settle_affinities :
    (b : Balancer) (saved : List Saved) → (settle_affinities b saved).providers ≡ b.providers
unfolding settle_affinities
providers-settle_affinities b [] = refl
providers-settle_affinities b (s ∷ saved) =
    providers-settle_affinities (settle_affinity b s) saved ∙ providers-settle_affinity b s

cached-settle :
    (b : Balancer) (batch : Batch) (saved : List Saved) (now : ℤ) (j : String)
    → cached (settle b batch saved now) j ≡ expired (cached b j) now
unfolding settle recover_cached_providers
cached-settle b batch saved now j =
    find_id-recover now _ j
    ∙ ap (λ ps. recovered (find_id ps j) now) (providers-settle_affinities _ saved)
    ∙ recovered-eq-expired (cached b j) now

unsettled_self : (o : Option ProviderUpdate) → unsettled o o ≡ none
unsettled_self none = refl
unsettled_self (some u) = rw (eq_update_refl u)

module _ (b : Balancer) (db : Database) (now : ℤ) (c : IsCoherent b db)
    (out : Database × List Saved) (passes : commit (read_batch b) now db ≡ some out) where
  abbrev pub quiet : Balancer × Database
  quiet = maintain (λ s. s) b db now

  waiting-maintain : (j : String) → Map.get quiet.0.provider_updates j ≡ none
  unfolding maintain read_batch
  waiting-maintain j = rw passes (
      get-settle b (read_batch b) out.1 now j c.distinct
      ∙ unsettled_self (Map.get b.provider_updates j))

  row-maintain :
      (j : String)
      → find_id quiet.1.providers j
        ≡ expired (written (find_id db.providers j) (Map.get b.provider_updates j)) now
  unfolding maintain read_batch
  row-maintain j = rw passes (commit-row (read_batch b) now db j c.distinct passes)

  cached-maintain : (j : String) → cached quiet.0 j ≡ expired (cached b j) now
  unfolding maintain
  cached-maintain j = rw passes (cached-settle b (read_batch b) out.1 now j)

  -- A run of `maintain` with no traffic meanwhile, whose transaction does not fail, from a state in which
  -- no provider is disabled by hand and the cache is the table with the waiting updates applied, leaves
  -- no update waiting, makes the cache equal to the table row by row, and changes the cache only by
  -- closing the cooldowns that are over.
  pub maintain-coherent :
      (j : String)
      → (Map.get quiet.0.provider_updates j ≡ none)
        × (cached quiet.0 j ≡ find_id quiet.1.providers j)
        × (cached quiet.0 j ≡ expired (cached b j) now)
  maintain-coherent j = (
    waiting-maintain j,
    cached-maintain j ∙ ap (λ o. expired o now) (c.same j) ∙ sym (row-maintain j),
    cached-maintain j,
  )
