-- ===== src/Maintain.antt =====
-- src/balancer.rs: `maintain`, which runs every second. It reads what waits, writes it in one
-- transaction, and then clears what was written, while other tasks go on calling the balancer.
pub mod Equality
pub mod Flushing
pub mod Settling
pub mod Coherence
pub mod Circuits
use open_ai_lb.Prelude.{
  ℕ, String, Bool, true, false, not, ◌&&◌, ◌||◌, Option, none, some, List, [], ◌∷◌, ◌==◌, ◌≡◌,
  if◌then◌else◌, is_some,
}
use open_ai_lb.Prelude.Int.{ℤ, ltb_ℤ}
use open_ai_lb.Prelude.Map
use open_ai_lb.Prelude.Map.{Map}
use open_ai_lb.Provider.{Provider, ProviderUpdate, CircuitOpen, expire_row}
use open_ai_lb.Balancer.{Balancer, AffinityEntry}
use open_ai_lb.Upkeep.{recover_cached_providers}
use Equality.{eq_update, eq_entry}
use open_ai_lb.Database.{
  Database, refuses, open_circuit, update_providers, update_where, save_affinity, expire_affinities,
}

-- What `maintain` reads before the transaction.
pub record Batch : Type 0 where
  pub updates : Map ProviderUpdate
  pub affinities : List (String × AffinityEntry)

with_entry :
    String → Option AffinityEntry → List (String × AffinityEntry) → List (String × AffinityEntry)
with_entry hash none rest = rest
with_entry hash (some entry) rest = (hash, entry) ∷ rest

dirty_entries : Map AffinityEntry → Map (Unit {0}) → List (String × AffinityEntry)
unfolding with_entry
dirty_entries affinities [] = []
dirty_entries affinities ((hash, _) ∷ dirty) =
    with_entry hash (Map.get affinities hash) (dirty_entries affinities dirty)

unfoldable pub read_batch : Balancer → Batch
unfolding dirty_entries
read_batch b = record {
  updates = b.provider_updates;
  affinities = dirty_entries b.affinities b.dirty_affinities;
}

-- The two loops of the transaction.
unfoldable pub write_update : String → ProviderUpdate → Database → Database
write_update id update db =
    update_providers (update_where id update) (open_circuit id update.circuit db)

unfoldable pub write_updates : Map ProviderUpdate → Database → Database
write_updates [] db = db
write_updates ((id, update) ∷ updates) db = write_updates updates (write_update id update db)

-- Whether one of the statements fails.
unfoldable pub writes_fail : Map ProviderUpdate → Database → Bool
writes_fail [] db = false
writes_fail ((id, update) ∷ updates) db =
    refuses id update.circuit db || writes_fail updates (write_update id update db)

pub record Saved : Type 0 where
  pub hash : String
  pub entry : AffinityEntry
  pub persisted : Bool

pub write_affinities : List (String × AffinityEntry) → Database → Database × List Saved
write_affinities [] db = (db, [])
write_affinities ((hash, entry) ∷ rest) db =
    let (db₁, persisted) = save_affinity hash entry db in
    let (db₂, saved) = write_affinities rest db₁ in
    (db₂, record { hash = hash; entry = entry; persisted = persisted } ∷ saved)

-- The statements of the transaction, with what they persisted of the affinities.
unfoldable pub run : Batch → ℤ → Database → Database × List Saved
unfolding write_affinities
run batch now db =
    let (db', saved) = write_affinities batch.affinities (write_updates batch.updates db) in
    (expire_affinities now (update_providers (expire_row now) db'), saved)

-- The transaction: `none` if a statement fails, and then the database is as before.
unfoldable pub commit : Batch → ℤ → Database → Option (Database × List Saved)
unfolding writes_fail run
commit batch now db = if writes_fail batch.updates db then none else some (run batch now db)

-- `is_some_and(|current| *current == update)`, and so for the entries.
abbrev pub update_is : Option ProviderUpdate → ProviderUpdate → Bool
update_is none update = false
update_is (some current) update = eq_update current update

abbrev pub entry_is : Option AffinityEntry → AffinityEntry → Bool
entry_is none entry = false
entry_is (some current) entry = eq_entry current entry

-- The loop over the written updates.
unfoldable pub settle_updates : Map ProviderUpdate → Map ProviderUpdate → Map ProviderUpdate
settle_updates [] waiting = waiting
settle_updates ((id, update) ∷ updates) waiting =
    settle_updates updates
      (if update_is (Map.get waiting id) update then Map.remove waiting id else waiting)

-- The body of the loop over the written entries.
unfoldable pub settle_affinity : Balancer → Saved → Balancer
settle_affinity b s =
    let affinities = if s.persisted then b.affinities else Map.remove b.affinities s.hash in
    let dirty = Map.remove b.dirty_affinities s.hash in
    let settled = record b {
      affinities = affinities;
      dirty_affinities =
          if is_some (Map.get affinities s.hash) && not s.persisted
          then Map.put dirty s.hash tt
          else dirty;
    } in
    if entry_is (Map.get b.affinities s.hash) s.entry then settled else b

unfoldable pub settle_affinities : Balancer → List Saved → Balancer
settle_affinities b [] = b
settle_affinities b (s ∷ saved) = settle_affinities (settle_affinity b s) saved

-- What follows the transaction.
unfoldable pub settle : Balancer → Batch → List Saved → ℤ → Balancer
settle b batch saved now =
    let written = record b { provider_updates = settle_updates batch.updates b.provider_updates } in
    let settled = settle_affinities written saved in
    recover_cached_providers
      (record settled {
        affinities = Map.retain (λ _ entry. ltb_ℤ now entry.expires_at) settled.affinities;
      })
      now

-- What follows `begin`: with `?`, a transaction that fails ends `maintain`.
abbrev pub after_commit :
    Balancer → Batch → ℤ → Database → Option (Database × List Saved) → Balancer × Database
after_commit b batch now db none = (b, db)
after_commit b batch now db (some (db', saved)) = (settle b batch saved now, db')

-- `maintain`, with what the other tasks do to the balancer while it waits for the transaction.
unfoldable pub maintain : (Balancer → Balancer) → Balancer → Database → ℤ → Balancer × Database
maintain meanwhile b db now =
    let batch = read_batch b in after_commit (meanwhile b) batch now db (commit batch now db)
