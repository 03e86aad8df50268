-- ===== src/Database.antt =====
-- The tables that src/balancer.rs writes, as migrations/ declare them, and the statements of
-- `maintain` on them. Closing an open circuit event is the trigger of
-- migrations/20260808000025_provider_circuit_events.sql.
use open_ai_lb.Prelude.{
  String, Bool, true, false, not, ◌&&◌, Option, none, some, List, [], ◌∷◌, map, ◌==◌, if◌then◌else◌,
  is_some,
}
use open_ai_lb.Prelude.Int.{ℤ, max_ℤ, ltb_ℤ}
use open_ai_lb.Prelude.Map
use open_ai_lb.Prelude.Map.{Map}
use open_ai_lb.Provider.{Provider, ProviderUpdate, CircuitOpen, find_id, is_zero, update_row}
use open_ai_lb.Balancer.{AffinityEntry}
use Prim.Native.String

pub record CircuitEvent : Type 0 where
  pub id : String
  pub provider_id : String
  pub cause : String
  pub rate_limit_json : String
  pub opened_at : ℤ
  pub cooldown_until : ℤ
  pub closed_at : Option ℤ
  pub resolution : Option String

pub record Database : Type 0 where
  pub providers : List Provider
  pub events : List CircuitEvent
  pub affinities : Map AffinityEntry

-- An event of the provider that is not closed: at most one, by the unique index.
abbrev pub is_open_of : String → CircuitEvent → Bool
is_open_of provider_id e = e.provider_id == provider_id && not (is_some e.closed_at)

-- SELECT 1 FROM providers WHERE id=? AND manual_disabled=0, of the row that the key finds.
abbrev pub is_enabled : Option Provider → Bool
is_enabled none = false
is_enabled (some row) = is_zero row.manual_disabled

-- INSERT INTO provider_circuit_events … ON CONFLICT(provider_id) WHERE closed_at IS NULL DO UPDATE,
-- where it does not fail (`refuses`).
unfoldable pub upsert_event : String → CircuitOpen → List CircuitEvent → List CircuitEvent
upsert_event provider_id c [] =
    record {
      id = c.id;
      provider_id = provider_id;
      cause = c.cause;
      rate_limit_json = c.rate_limit_json;
      opened_at = c.opened_at;
      cooldown_until = c.cooldown_until;
      closed_at = none;
      resolution = none;
    }
    ∷ []
upsert_event provider_id c (e ∷ es) =
    if is_open_of provider_id e
    then record e {
      cause = c.cause;
      rate_limit_json = c.rate_limit_json;
      cooldown_until = max_ℤ e.cooldown_until c.cooldown_until;
    }
      ∷ es
    else e ∷ upsert_event provider_id c es

abbrev has_open : String → List CircuitEvent → Bool
has_open provider_id [] = false
has_open provider_id (e ∷ es) = if is_open_of provider_id e then true else has_open provider_id es

abbrev has_id : String → List CircuitEvent → Bool
has_id id [] = false
has_id id (e ∷ es) = if e.id == id then true else has_id id es

-- Whether the INSERT fails: the identifier is a primary key. The upsert is for an open event of the
-- provider only, which comes first.
unfoldable pub refuses : String → Option CircuitOpen → Database → Bool
refuses id none db = false
refuses id (some circuit) db =
    is_enabled (find_id db.providers id)
    && (not (has_open id db.events) && has_id circuit.id db.events)

-- The first statement of `maintain` for one update, if it does not fail.
unfoldable pub open_circuit : String → Option CircuitOpen → Database → Database
open_circuit id none db = db
open_circuit id (some circuit) db =
    if is_enabled (find_id db.providers id)
    then record db { events = upsert_event id circuit db.events }
    else db

-- The UPDATE in the trigger.
unfoldable pub close_event : Provider → CircuitEvent → CircuitEvent
close_event new e =
    if is_open_of new.id e
    then record e {
      closed_at = some new.updated_at;
      resolution = some (
          if new.status == "active"
          then "provider became active"
          else String.◌++◌ "provider status changed to " new.status);
    }
    else e

-- The trigger, for a row whose status is set.
unfoldable pub fire : Provider → Provider → List CircuitEvent → List CircuitEvent
fire old new events =
    if old.status == "cooldown" && not (new.status == "cooldown")
    then map (close_event new) events
    else events

-- UPDATE providers SET status=…, row by row. A row that does not match is given back as it was, and
-- then the trigger does nothing.
unfoldable pub update_rows : (Provider → Provider) → List Provider → List Provider
update_rows f [] = []
update_rows f (p ∷ ps) = f p ∷ update_rows f ps

unfoldable pub fire_rows :
    (Provider → Provider) → List Provider → List CircuitEvent → List CircuitEvent
fire_rows f [] events = events
fire_rows f (p ∷ ps) events = fire_rows f ps (fire p (f p) events)

unfoldable pub update_providers : (Provider → Provider) → Database → Database
update_providers f db = record db {
  providers = update_rows f db.providers;
  events = fire_rows f db.providers db.events;
}

-- WHERE id=?
unfoldable pub update_where : String → ProviderUpdate → Provider → Provider
update_where id update row = if row.id == id then update_row row update else row

-- INSERT INTO affinities … SELECT … FROM providers WHERE id=? ON CONFLICT(affinity_hash) DO UPDATE,
-- with whether a row was written.
unfoldable pub save_affinity : String → AffinityEntry → Database → Database × Bool
save_affinity hash entry db =
    if is_some (find_id db.providers entry.provider_id)
    then (record db { affinities = Map.put db.affinities hash entry }, true)
    else (db, false)

-- DELETE FROM affinities WHERE expires_at<=?
unfoldable pub expire_affinities : ℤ → Database → Database
expire_affinities now db = record db {
  affinities = Map.retain (λ _ entry. ltb_ℤ now entry.expires_at) db.affinities;
}
