-- ===== src/Maintain/Circuits.antt =====
-- The circuit events: an event stays open only while its provider cools down.
use open_ai_lb.Prelude.{
  String, true, false, not, ◌&&◌, Option, none, some, List, [], ◌∷◌, map, ◌≡◌, ◌≢◌, refl, sym, ap,
  ◌∙◌, subst, ◌⊎◌, inl, inr, ◌==◌, eq_iff, arith, In, Bool-cases, is_some,
}
use open_ai_lb.Prelude.Int.{ℤ, max_ℤ}
use open_ai_lb.Prelude.Map.{Map}
use open_ai_lb.Provider.{
  Provider, ProviderUpdate, CircuitOpen, find_id, is_zero, update_row, expire_row,
}
use open_ai_lb.Balancer.{AffinityEntry}
use open_ai_lb.Database.{
  Database, CircuitEvent, is_open_of, is_enabled, upsert_event, open_circuit, close_event, fire,
  update_rows, fire_rows, update_providers, update_where, save_affinity, expire_affinities,
}
use open_ai_lb.Maintain.Flushing.{
  commit-run, providers-open_circuit, providers-write_affinities, id-expire_row, id-update_row,
}
use open_ai_lb.Maintain.{Batch, Saved, write_update, write_updates, write_affinities, run, commit}

-- The row of a provider that cools down.
abbrev pub IsCooling : Option Provider → Type 0
IsCooling none = ⊥
IsCooling (some p) = p.status ≡ "cooldown"

-- Every open event belongs to a provider that cools down.
abbrev pub OpenIsCooling : Database → Type 0
OpenIsCooling db =
    (e : CircuitEvent)
    → In e db.events
    → e.closed_at ≡ none
    → IsCooling (find_id db.providers e.provider_id)

-- An event that is open after `close_event` was not touched by it.
close_event-open :
    (new : Provider) (x e : CircuitEvent)
    → close_event new x ≡ e
    → e.closed_at ≡ none
    → (x ≡ e) × ((e.provider_id == new.id) ≡ false)
unfolding close_event
close_event-open new x e h o = ground arith

close_events-open :
    (new : Provider) (e : CircuitEvent) (events : List CircuitEvent)
    → In e (map (close_event new) events)
    → e.closed_at ≡ none
    → In e events × ((e.provider_id == new.id) ≡ false)
close_events-open new e [] m o = elim m [ ]
close_events-open new e (x ∷ events) (inl h) o =
    let (same, other) = close_event-open new x e h o in (inl same, other)
close_events-open new e (x ∷ events) (inr m) o =
    let (member, other) = close_events-open new e events m o in (inr member, other)

-- The trigger leaves no open event to a provider that it takes out of `cooldown`.
abbrev Stays : Provider → Provider → CircuitEvent → Type 0
Stays old new e = old.status ≡ "cooldown" → e.provider_id ≡ new.id → new.status ≡ "cooldown"

fire-open :
    (old new : Provider) (e : CircuitEvent) (events : List CircuitEvent)
    → In e (fire old new events)
    → e.closed_at ≡ none
    → In e events × Stays old new e
unfolding fire
fire-open old new e events m o =
    elim (Bool-cases (old.status == "cooldown" && not (new.status == "cooldown"))) [
      | inl left ↦
          let (member, other) = close_events-open new e events (rw (left, fire) at m) o in
          (member, λ c same. ground (arith, eq_iff e.provider_id new.id))
      | inr stays ↦ (
        rw (stays, fire) at m,
        λ c same. ground (arith, eq_iff old.status "cooldown", eq_iff new.status "cooldown"),
      )
    ]

module _ (f : Provider → Provider) (keeps_id : (p : Provider) → (f p).id ≡ p.id) where
  fire_rows-open :
      (rows : List Provider) (e : CircuitEvent) (events : List CircuitEvent)
      → In e (fire_rows f rows events)
      → e.closed_at ≡ none
      → In e events × ((p : Provider) → find_id rows e.provider_id ≡ some p → Stays p (f p) e)
  unfolding fire_rows
  fire_rows-open [] e events m o = (m, λ p h. cc)
  fire_rows-open (r ∷ rows) e events m o =
      let (before, later) = fire_rows-open rows e (fire r (f r) events) m o in
      let (member, here) = fire-open r (f r) e events before o in
      (
        member,
        λ p h. elim (Bool-cases (r.id == e.provider_id)) [
          | inl hit ↦
              let same : some r ≡ some p = ground arith in
              let eq : r ≡ p = cc same in subst (λ z. Stays z (f z) e) eq here
          | inr miss ↦ later p (ground arith)
        ],
      )

  find_id-update_rows :
      (rows : List Provider) (j : String) (p : Provider)
      → find_id rows j ≡ some p
      → (find_id (update_rows f rows) j ≡ some (f p)) × (p.id ≡ j)
  unfolding update_rows
  find_id-update_rows [] j p h = cc
  find_id-update_rows (r ∷ rows) j p h =
      ground (arith, keeps_id r, keeps_id p, find_id-update_rows rows j p, eq_iff r.id j)

  IsCooling-update_rows :
      (rows : List Provider) (e : CircuitEvent) (events : List CircuitEvent)
      (found : Option Provider)
      → find_id rows e.provider_id ≡ found
      → In e (fire_rows f rows events)
      → e.closed_at ≡ none
      → IsCooling found
      → IsCooling (find_id (update_rows f rows) e.provider_id)
  IsCooling-update_rows rows e events none h m o c = absurd c
  IsCooling-update_rows rows e events (some p) h m o c =
      let (found, id) = find_id-update_rows rows e.provider_id p h in
      let (_, stays) = fire_rows-open rows e events m o in
      rw found (stays p h c (sym id ∙ sym (keeps_id p)))

  -- An UPDATE with its trigger keeps open events to providers that cool down.
  update_providers-OpenIsCooling :
      (db : Database) → OpenIsCooling db → OpenIsCooling (update_providers f db)
  unfolding update_providers
  update_providers-OpenIsCooling db v e m o =
      let (member, _) = fire_rows-open db.providers e db.events m o in
      IsCooling-update_rows db.providers e db.events (find_id db.providers e.provider_id) refl m o
        (v e member o)

-- An open event is an old one, or belongs to the provider whose circuit was opened.
upsert_event-open :
    (id : String) (c : CircuitOpen) (e : CircuitEvent) (events : List CircuitEvent)
    → In e (upsert_event id c events)
    → (e.provider_id ≡ id) ⊎ In e events
unfolding upsert_event
upsert_event-open id c e [] (inl h) = inl (ap (λ z. z.provider_id) (sym h))
upsert_event-open id c e [] (inr m) = elim m [ ]
upsert_event-open id c e (x ∷ events) m = elim (Bool-cases (is_open_of id x)) [
  | inl hit ↦ replaced hit (rw (hit, upsert_event) at m)
  | inr miss ↦ kept (upsert_event-open id c e events) (rw (miss, upsert_event) at m)
]
  where
    replaced :
        is_open_of id x ≡ true
        → In e (
            record x {
              cause = c.cause;
              rate_limit_json = c.rate_limit_json;
              cooldown_until = max_ℤ x.cooldown_until c.cooldown_until;
            }
            ∷ events)
        → (e.provider_id ≡ id) ⊎ In e (x ∷ events)
    replaced hit (inl h) =
        let same : x.provider_id ≡ id = ground (arith, eq_iff x.provider_id id) in
        inl (ap (λ z. z.provider_id) (sym h) ∙ same)
    replaced hit (inr k) = inr (inr k)

    kept :
        (In e (upsert_event id c events) → (e.provider_id ≡ id) ⊎ In e events)
        → In e (x ∷ upsert_event id c events)
        → (e.provider_id ≡ id) ⊎ In e (x ∷ events)
    kept ih (inl h) = inr (inl h)
    kept ih (inr k) = elim (ih k) [ inl i ↦ inl i | inr i ↦ inr (inr i) ]

-- A circuit comes only with the status `cooldown`.
abbrev pub CircuitCools : ProviderUpdate → Type 0
CircuitCools u = (u.circuit ≡ none) ⊎ (u.status ≡ some "cooldown")

abbrev pub AllCool : Map ProviderUpdate → Type 0
AllCool [] = Unit
AllCool ((id, u) ∷ updates) = CircuitCools u × AllCool updates

open_circuit-open :
    (id : String) (c : Option CircuitOpen) (db : Database) (e : CircuitEvent)
    → In e (open_circuit id c db).events
    → In e db.events
      ⊎ ((e.provider_id ≡ id) × (is_enabled (find_id db.providers id) ≡ true) × (c ≢ none))
unfolding open_circuit
open_circuit-open id none db e m = inl m
open_circuit-open id (some c) db e m = elim (Bool-cases (is_enabled (find_id db.providers id))) [
  | inl on ↦ elim (upsert_event-open id c e db.events (rw (on, open_circuit) at m)) [
    | inl same ↦ inr (same, on, λ h. cc)
    | inr old ↦ inl old
  ]
  | inr off ↦ inl (rw (off, open_circuit) at m)
]

id-update_where :
    (id : String) (u : ProviderUpdate) (p : Provider) → (update_where id u p).id ≡ p.id
unfolding update_where
id-update_where id u p = ground (arith, id-update_row p u)

status-update_where :
    (id : String) (u : ProviderUpdate) (p : Provider)
    → p.id ≡ id
    → is_zero p.manual_disabled ≡ true
    → u.status ≡ some "cooldown"
    → (update_where id u p).status ≡ "cooldown"
unfolding update_where update_row
status-update_where id u p same on cools = rw ((eq_iff p.id id).1 same, cools) (ground arith)

IsCooling-opened :
    (id : String) (u : ProviderUpdate) (rows : List Provider) (found : Option Provider)
    → find_id rows id ≡ found
    → is_enabled found ≡ true
    → u.status ≡ some "cooldown"
    → IsCooling (find_id (update_rows (update_where id u) rows) id)
IsCooling-opened id u rows none h on cools = cc
IsCooling-opened id u rows (some p) h on cools =
    let (found, same) =
      find_id-update_rows (update_where id u) (id-update_where id u) rows id p h in
    rw found (status-update_where id u p same on cools)

write_update-OpenIsCooling :
    (id : String) (u : ProviderUpdate) (db : Database)
    → CircuitCools u
    → OpenIsCooling db
    → OpenIsCooling (write_update id u db)
unfolding write_update update_providers
write_update-OpenIsCooling id u db cools v e m o =
    let rows = db.providers in
    let opened = (open_circuit id u.circuit db).events in
    let m' = rw (providers-open_circuit id u.circuit db) at m in
    let f = update_where id u in
    rw (providers-open_circuit id u.circuit db)
      (elim (open_circuit-open id u.circuit db e
        (fire_rows-open f (id-update_where id u) rows e opened m' o).0) [
          | inl old ↦
              IsCooling-update_rows f (id-update_where id u) rows e opened
                (find_id rows e.provider_id) refl m' o (v e old o)
          | inr (same, on, circuit) ↦ elim cools [
            | inl no_circuit ↦ absurd (circuit no_circuit)
            | inr status ↦
                subst (λ j. IsCooling (find_id (update_rows f rows) j)) (sym same)
                  (IsCooling-opened id u rows (find_id rows id) refl on status)
          ]
        ])

write_updates-OpenIsCooling :
    (updates : Map ProviderUpdate) (db : Database)
    → AllCool updates
    → OpenIsCooling db
    → OpenIsCooling (write_updates updates db)
unfolding write_updates
write_updates-OpenIsCooling [] db a v = v
write_updates-OpenIsCooling ((id, u) ∷ updates) db a v =
    write_updates-OpenIsCooling updates (write_update id u db) a.1
      (write_update-OpenIsCooling id u db a.0 v)

events-save_affinity :
    (hash : String) (entry : AffinityEntry) (db : Database)
    → (save_affinity hash entry db).0.events ≡ db.events
unfolding save_affinity
events-save_affinity hash entry db =
    elim (Bool-cases (is_some (find_id db.providers entry.provider_id))) [
      | inl found ↦ rw found
      | inr missing ↦ rw missing
    ]

events-write_affinities :
    (entries : List (String × AffinityEntry)) (db : Database)
    → (write_affinities entries db).0.events ≡ db.events
unfolding write_affinities
events-write_affinities [] db = refl
events-write_affinities ((hash, entry) ∷ rest) db =
    events-write_affinities rest (save_affinity hash entry db).0
    ∙ events-save_affinity hash entry db

run-OpenIsCooling :
    (batch : Batch) (now : ℤ) (db : Database)
    → AllCool batch.updates
    → OpenIsCooling db
    → OpenIsCooling (run batch now db).0
unfolding run expire_affinities
run-OpenIsCooling batch now db a v =
    update_providers-OpenIsCooling (expire_row now) (id-expire_row now) _ (λ e m o.
      rw (providers-write_affinities batch.affinities (write_updates batch.updates db)) (
        write_updates-OpenIsCooling batch.updates db a v e
          (rw (events-write_affinities batch.affinities (write_updates batch.updates db)) at m) o))

-- A transaction of `maintain` that does not fail keeps every open circuit event to a provider that cools
-- down, if each update that carries a circuit sets that status: it opens an event only for a provider
-- that it puts into `cooldown`, and closes the event of each provider that it takes out of it.
pub commit-OpenIsCooling :
    (batch : Batch) (now : ℤ) (db : Database) {out : Database × List Saved}
    → AllCool batch.updates
    → OpenIsCooling db
    → commit batch now db ≡ some out
    → OpenIsCooling out.0
commit-OpenIsCooling batch now db a v e =
    subst (λ (o : Database × List Saved). OpenIsCooling o.0) (commit-run batch now db e)
      (run-OpenIsCooling batch now db a v)
