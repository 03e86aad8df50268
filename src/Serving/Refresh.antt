-- ===== src/Serving/Refresh.antt =====
-- src/proxy.rs: `refresh_if_needed`, which renews a credential that is about to expire.
use open_ai_lb.Prelude.{
  String, Bool, true, false, ◌&&◌, Option, none, some, ◌==◌, if◌then◌else◌, is_some, unwrap_or,
  find,
}
use open_ai_lb.Prelude.Int.{ℤ, pos, ◌+ℤ◌, wrap, ltb_ℤ}
use open_ai_lb.Errors.{Result, ok, err, panic, unavailable}
use open_ai_lb.Oauth.{TokenResponse, internal_error, refresh, account_id_from_jwt}
use open_ai_lb.Provider.{Provider, find_id}
use open_ai_lb.Balancer.{Lease}
use open_ai_lb.Upkeep.{reload_providers}
use open_ai_lb.Database.{update_providers}
use open_ai_lb.Serving.{Surroundings, World, Action, wait, now, with_balancer}

-- `expires > now + 60`.
abbrev pub is_fresh : ℤ → ℤ → Bool
is_fresh expires now = ltb_ℤ (wrap (now +ℤ pos 60)) expires

abbrev pub never_or_fresh : Option ℤ → ℤ → Bool
never_or_fresh none now = true
never_or_fresh (some expires) now = is_fresh expires now

abbrev pub known_fresh : Option ℤ → ℤ → Bool
known_fresh none now = false
known_fresh (some expires) now = is_fresh expires now

-- The row's credential in the lease.
abbrev take_row : Lease → Provider → Lease
take_row lease row = record lease {
  access_token = row.access_token;
  refresh_token = row.refresh_token;
  provider = record lease.provider { expires_at = row.expires_at; account_id = row.account_id };
}

abbrev take_token : Lease → TokenResponse → String → ℤ → Lease
take_token lease token account_id expires_at = record lease {
  access_token = token.access_token;
  refresh_token = token.refresh_token;
  provider = record lease.provider { account_id = account_id; expires_at = some expires_at };
}

-- WHERE id=? AND refresh_token=?
abbrev pub is_row : String → String → Provider → Bool
is_row id refresh_token row = (row.id == id) && row.refresh_token == refresh_token

-- SET status='auth_error',last_error='credential refresh failed',updated_at=?
unfoldable pub reject_row : String → String → ℤ → Provider → Provider
reject_row id refresh_token now row =
    if is_row id refresh_token row
    then record row {
      status = "auth_error";
      last_error = some "credential refresh failed";
      updated_at = now;
    }
    else row

-- SET access_token=?,refresh_token=?,account_id=?,expires_at=?,status='active',last_error=NULL,
-- updated_at=?
unfoldable pub renew_row : String → String → TokenResponse → String → ℤ → ℤ → Provider → Provider
renew_row id refresh_token token account_id expires_at now row =
    if is_row id refresh_token row
    then record row {
      access_token = token.access_token;
      refresh_token = token.refresh_token;
      account_id = account_id;
      expires_at = some expires_at;
      status = "active";
      last_error = none;
      updated_at = now;
    }
    else row

abbrev write_rows : (Provider → Provider) → World → World
write_rows f w = record w { shared = record w.shared { db = update_providers f w.shared.db } }

abbrev reload : World → World
reload w =
    with_balancer (reload_providers w.shared.balancer w.shared.db.providers w.shared.grants) w

module _ (s : Surroundings) where
  -- `reload_providers(…).await?`, before a result is given.
  abbrev pub reloaded : Result Lease → Action Lease
  reloaded r w =
      let waited = wait s w in
      if s.database waited.waits then (r, reload waited) else (err internal_error, waited)

  -- What follows the answer of the token endpoint. The time is that of the row's test.
  unfoldable pub conclude_refresh : Lease → String → ℤ → Result TokenResponse → Action Lease
  conclude_refresh lease old now (err e) w =
      if s.database w.waits
      then reloaded (err e) (write_rows (reject_row lease.provider.id old now) w)
      else (err internal_error, w)
  conclude_refresh lease old now panic w = (panic, w)
  conclude_refresh lease old now (ok token) w =
      let account_id =
        unwrap_or (account_id_from_jwt s.external token.access_token) lease.provider.account_id in
      let expires_at = wrap (now +ℤ token.expires_in) in
      let written =
        write_rows (renew_row lease.provider.id old token account_id expires_at now) w in
      if s.database w.waits
      then (if is_some (find (is_row lease.provider.id old) w.shared.db.providers)
          then reloaded (ok (take_token lease token account_id expires_at)) written
          else (err (unavailable "provider credential changed during refresh"), written))
      else (err internal_error, w)

  abbrev ask_token : Lease → Provider → Action Lease
  ask_token lease row w =
      conclude_refresh lease row.refresh_token (now s w)
        (refresh s.external (s.config w.waits).oauth (s.tokens w.waits) row.refresh_token)
        (wait s w)

  -- What follows the query, under the lock of the provider.
  unfoldable pub refresh_row : Lease → Option Provider → Action Lease
  unfolding conclude_refresh
  refresh_row lease none w = (err internal_error, w)
  refresh_row lease (some row) w =
      if known_fresh row.expires_at (now s w)
      then (ok (take_row lease row), w)
      else ask_token lease row w

  -- The lease is given back with its changes; a caller that gets an error drops its own, which has
  -- the same provider.
  unfoldable pub refresh_if_needed : Lease → Action Lease
  unfolding refresh_row
  refresh_if_needed lease w =
      let locked = wait s w in
      if never_or_fresh lease.provider.expires_at (now s w)
      then (ok lease, w)
      else if s.database locked.waits
      then refresh_row lease (find_id locked.shared.db.providers lease.provider.id) locked
      else (err internal_error, locked)
