-- ===== src/Maintain/Flushing.antt =====
-- What the transaction of `maintain` leaves in the table of providers.
use open_ai_lb.Prelude.{
  String, Option, none, some, List, [], ◌∷◌, ◌≡◌, refl, sym, ap, ◌∙◌, unwrap_or, inl, inr, ◌==◌,
  eq_iff, arith, if◌then◌else◌, Bool-cases, is_some,
}
use open_ai_lb.Prelude.Int.{ℤ}
use open_ai_lb.Prelude.Map
use open_ai_lb.Prelude.Map.{Map, Distinct}
use open_ai_lb.Provider.{Provider, ProviderUpdate, find_id, CircuitOpen, update_row, expire_row}
use open_ai_lb.Balancer.{AffinityEntry}
use open_ai_lb.Database.{
  Database, is_enabled, open_circuit, update_rows, update_where, update_providers, save_affinity,
  expire_affinities,
}
use open_ai_lb.Maintain.{
  Batch, Saved, write_update, write_updates, writes_fail, write_affinities, run, commit,
}

-- A row after the update that waits for it, and after the cooldowns that are over are closed.
abbrev pub written : Option Provider → Option ProviderUpdate → Option Provider
written none u = none
written (some row) none = some row
written (some row) (some u) = some (update_row row u)

abbrev pub expired : Option Provider → ℤ → Option Provider
expired none now = none
expired (some row) now = some (expire_row now row)

pub id-update_row : (row : Provider) (u : ProviderUpdate) → (update_row row u).id ≡ row.id
unfolding update_row
id-update_row row u = refl

pub id-expire_row : (now : ℤ) (row : Provider) → (expire_row now row).id ≡ row.id
unfolding expire_row
id-expire_row now row = ground arith

find_id-update_where :
    (id : String) (u : ProviderUpdate) (rows : List Provider) (j : String)
    → find_id (update_rows (update_where id u) rows) j
      ≡ (if id == j then written (find_id rows j) (some u) else find_id rows j)
unfolding update_rows update_where
find_id-update_where id u [] j = ground arith
find_id-update_where id u (p ∷ ps) j = ground (
  arith,
  find_id-update_where id u ps j,
  id-update_row p u,
  eq_iff p.id id,
  eq_iff p.id j,
  eq_iff id j,
)

find_id-expire_row :
    (now : ℤ) (rows : List Provider) (j : String)
    → find_id (update_rows (expire_row now) rows) j ≡ expired (find_id rows j) now
unfolding update_rows
find_id-expire_row now [] j = refl
find_id-expire_row now (p ∷ ps) j =
    ground (arith, find_id-expire_row now ps j, id-expire_row now p, eq_iff p.id j)

pub providers-open_circuit :
    (id : String) (c : Option CircuitOpen) (db : Database)
    → (open_circuit id c db).providers ≡ db.providers
unfolding open_circuit
providers-open_circuit id none db = refl
providers-open_circuit id (some c) db = elim (Bool-cases (is_enabled (find_id db.providers id))) [
  | inl yes' ↦ rw yes'
  | inr no' ↦ rw no'
]

find_id-write_update :
    (id : String) (u : ProviderUpdate) (db : Database) (j : String)
    → find_id (write_update id u db).providers j
      ≡ (if id == j then written (find_id db.providers j) (some u) else find_id db.providers j)
unfolding write_update update_providers
find_id-write_update id u db j =
    rw (providers-open_circuit id u.circuit db) (find_id-update_where id u db.providers j)

find_id-write_updates :
    (updates : Map ProviderUpdate) (db : Database) (j : String)
    → Distinct updates
    → find_id (write_updates updates db).providers j
      ≡ written (find_id db.providers j) (Map.get updates j)
unfolding write_updates Map.get
find_id-write_updates [] db j d = ground arith
find_id-write_updates ((id, u) ∷ updates) db j d = ground (
  arith,
  find_id-write_updates updates (write_update id u db) j d.1,
  find_id-write_update id u db j,
  eq_iff id j,
  d.0,
)

providers-save_affinity :
    (hash : String) (entry : AffinityEntry) (db : Database)
    → (save_affinity hash entry db).0.providers ≡ db.providers
unfolding save_affinity
providers-save_affinity hash entry db =
    elim (Bool-cases (is_some (find_id db.providers entry.provider_id))) [
      | inl found ↦ rw found
      | inr missing ↦ rw missing
    ]

pub providers-write_affinities :
    (entries : List (String × AffinityEntry)) (db : Database)
    → (write_affinities entries db).0.providers ≡ db.providers
unfolding write_affinities
providers-write_affinities [] db = refl
providers-write_affinities ((hash, entry) ∷ rest) db =
    providers-write_affinities rest (save_affinity hash entry db).0
    ∙ providers-save_affinity hash entry db

-- A transaction that does not fail runs all statements.
pub commit-run :
    (batch : Batch) (now : ℤ) (db : Database) {out : Database × List Saved}
    → commit batch now db ≡ some out
    → run batch now db ≡ out
unfolding commit
commit-run batch now db {out} e = elim (Bool-cases (writes_fail batch.updates db)) [
  | inl fails ↦
      let refused : commit batch now db ≡ none = rw (fails, commit) in
      let h : none ≡ some out = sym refused ∙ e in cc h
  | inr passes ↦
      let ran : commit batch now db ≡ some (run batch now db) = rw (passes, commit) in
      ap (λ o. unwrap_or o out) (sym ran ∙ e)
]

run-row :
    (batch : Batch) (now : ℤ) (db : Database) (j : String)
    → Distinct batch.updates
    → find_id (run batch now db).0.providers j
      ≡ expired (written (find_id db.providers j) (Map.get batch.updates j)) now
unfolding run expire_affinities update_providers
run-row batch now db j d =
    find_id-expire_row now _ j
    ∙ ap (λ ps. expired (find_id ps j) now)
        (providers-write_affinities batch.affinities (write_updates batch.updates db))
    ∙ ap (λ o. expired o now) (find_id-write_updates batch.updates db j d)

-- For a batch with one update a provider, a transaction that does not fail gives each row its update,
-- and then closes its cooldown if it is over; a row with no update waiting is only so closed, and no row
-- is added or removed.
pub commit-row :
    (batch : Batch) (now : ℤ) (db : Database) (j : String) {out : Database × List Saved}
    → Distinct batch.updates
    → commit batch now db ≡ some out
    → find_id out.0.providers j
      ≡ expired (written (find_id db.providers j) (Map.get batch.updates j)) now
commit-row batch now db j d e =
    ap (λ (o : Database × List Saved). find_id o.0.providers j) (sym (commit-run batch now db e))
    ∙ run-row batch now db j d
