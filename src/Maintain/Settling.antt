-- ===== src/Maintain/Settling.antt =====
-- What `maintain` does to the updates that wait, while other tasks bring new ones.
use open_ai_lb.Prelude.{
  String, Option, none, some, List, [], ◌∷◌, ◌≡◌, refl, sym, ap, ◌∙◌, ◌⊎◌, inl, inr, eq_iff, arith,
  if◌then◌else◌, Bool-cases, Option-cases,
}
use open_ai_lb.Prelude.Int.{ℤ}
use open_ai_lb.Prelude.Map
use open_ai_lb.Prelude.Map.{Map, Distinct, get-remove}
use open_ai_lb.Provider.{ProviderUpdate, find_id}
use open_ai_lb.Balancer.{Balancer}
use open_ai_lb.Upkeep.{recover_cached_providers}
use open_ai_lb.Database.{Database}
use open_ai_lb.Maintain.{
  commit, Batch, Saved, read_batch, update_is, entry_is, settle_updates, settle_affinity,
  settle_affinities, settle, maintain,
}
use open_ai_lb.Maintain.Equality.{eq_update, eq_update_sound}
use open_ai_lb.Maintain.Flushing.{written, expired, commit-row}

-- What is left of a waiting update, given the one that was written for the provider.
abbrev pub unsettled : Option ProviderUpdate → Option ProviderUpdate → Option ProviderUpdate
unsettled waiting none = waiting
unsettled waiting (some update) = if update_is waiting update then none else waiting

get-settle_updates :
    (updates waiting : Map ProviderUpdate) (j : String)
    → Distinct updates
    → Map.get (settle_updates updates waiting) j ≡ unsettled (Map.get waiting j) (Map.get updates j)
unfolding settle_updates Map.get
get-settle_updates [] waiting j d = refl
get-settle_updates ((id, u) ∷ updates) waiting j d =
    elim (Bool-cases (update_is (Map.get waiting id) u)) [
      | inl same ↦
          rw (same, settle_updates)
            (ground (
              arith,
              get-settle_updates updates (Map.remove waiting id) j d.1,
              get-remove waiting id j,
              eq_iff id j,
              d.0,
              same,
            ))
      | inr other ↦
          rw (other, settle_updates)
            (ground (arith, get-settle_updates updates waiting j d.1, eq_iff id j, d.0, other))
    ]

updates-settle_affinity :
    (b : Balancer) (s : Saved) → (settle_affinity b s).provider_updates ≡ b.provider_updates
unfolding settle_affinity
updates-settle_affinity b s = elim (Bool-cases (entry_is (Map.get b.affinities s.hash) s.entry)) [
  | inl same ↦ rw same
  | inr other ↦ rw other
]

updates-settle_affinities :
    (b : Balancer) (saved : List Saved)
    → (settle_affinities b saved).provider_updates ≡ b.provider_updates
unfolding settle_affinities
updates-settle_affinities b [] = refl
updates-settle_affinities b (s ∷ saved) =
    updates-settle_affinities (settle_affinity b s) saved ∙ updates-settle_affinity b s

pub get-settle :
    (b : Balancer) (batch : Batch) (saved : List Saved) (now : ℤ) (j : String)
    → Distinct batch.updates
    → Map.get (settle b batch saved now).provider_updates j
      ≡ unsettled (Map.get b.provider_updates j) (Map.get batch.updates j)
unfolding settle recover_cached_providers
get-settle b batch saved now j d =
    ap (λ m. Map.get m j) (updates-settle_affinities _ saved)
    ∙ get-settle_updates batch.updates b.provider_updates j d

unsettled-cases :
    (waiting update : Option ProviderUpdate) (w : ProviderUpdate)
    → waiting ≡ some w
    → (unsettled waiting update ≡ some w) ⊎ (update ≡ some w)
unsettled-cases waiting none w e = inl e
unsettled-cases waiting (some u) w e = elim (Bool-cases (eq_update w u)) [
  | inl same ↦ inr (ap some (sym (eq_update_sound w u same)))
  | inr other ↦ inl (rw (e, other))
]

-- No update is lost, whatever the other tasks do while `maintain` waits for its transaction, and
-- whether or not the transaction fails: an update that waits when the transaction ends is still waiting
-- after `maintain`, or it is the very one that the transaction wrote to the provider's row.
pub maintain-keeps :
    (meanwhile : Balancer → Balancer) (b : Balancer) (db : Database) (now : ℤ) (id : String)
    (w : ProviderUpdate)
    → Distinct b.provider_updates
    → Map.get (meanwhile b).provider_updates id ≡ some w
    → (Map.get (maintain meanwhile b db now).0.provider_updates id ≡ some w)
      ⊎ (find_id (maintain meanwhile b db now).1.providers id
          ≡ expired (written (find_id db.providers id) (some w)) now)
unfolding maintain read_batch
maintain-keeps meanwhile b db now id w d e = elim (Option-cases (commit (read_batch b) now db)) [
  | inl fails ↦ rw fails (inl e)
  | inr (out, passes) ↦ rw passes (elim (unsettled-cases _ (Map.get b.provider_updates id) w e) [
    | inl waits ↦ inl (get-settle (meanwhile b) (read_batch b) out.1 now id d ∙ waits)
    | inr same ↦ inr (
        commit-row (read_batch b) now db id d passes
        ∙ ap (λ o. expired (written (find_id db.providers id) o) now) same)
  ])
]
