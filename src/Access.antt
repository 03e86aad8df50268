-- ===== src/Access.antt =====
-- src/auth.rs: who a request is from.
pub mod Consumers
pub mod Roundtrip
pub mod Administration
pub mod Archives
pub mod Grants
pub mod Granting
pub mod Roles
pub mod Ranks
pub mod Root
use Prim.Native.String
use open_ai_lb.Prelude.{
  ℕ, suc, ◌+◌, String, Bool, true, false, not, ◌&&◌, ◌||◌, Option, none, some, List, [], ◌∷◌, ◌++◌,
  ◌==◌, if◌then◌else◌, and_then, keep_if, is_some, unwrap_or, ltb, filter_by, length, eqb,
}
use open_ai_lb.Prelude.Int.{ℤ}
use open_ai_lb.Text.{strip_text, starts_with, is_empty, trim, take_chars}
use open_ai_lb.Errors.{
  AppError, Result, ok, err, panic, ◌>>=◌, ◌>>◌, bad_request, unauthorized, forbidden, not_found,
}
use open_ai_lb.External.{External}
use open_ai_lb.Oauth.{internal_error}
use open_ai_lb.Audit.{HeaderMap, header_value}
use open_ai_lb.Audit.Tracker.{ApiIdentity}
use open_ai_lb.Serving.Dispatch.{Identity}

pub record User : Type 0 where
  pub id : String
  pub email : Option String
  pub display_name : Option String
  pub role : String
  pub provider_access : Bool
  pub created_at : ℤ

pub record Consumer : Type 0 where
  pub id : String
  pub user_id : String
  pub name : String
  pub prefix : String
  pub secret_hash : String
  pub request_archive : Bool
  pub created_at : ℤ
  pub revoked_at : Option ℤ

pub record AccessTables : Type 0 where
  pub users : List User
  pub consumers : List Consumer

pub record UserIdentity : Type 0 where
  pub id : String
  pub email : Option String
  pub name : Option String
  pub role : String

abbrev pub require {ℓ} : {A : Type ℓ} → AppError → Option A → Result A
require e none = err e
require e (some a) = ok a

abbrev pub guard : Bool → AppError → Result (Unit {0})
guard true e = ok tt
guard false e = err e

unfoldable pub bearer : HeaderMap → Result String
bearer headers = require (unauthorized "missing bearer token") (
    keep_if (λ token. not (is_empty token))
      (and_then (header_value headers "authorization") (strip_text "Bearer ")))

unfoldable pub find_user : List User → String → Option User
find_user [] id = none
find_user (u ∷ users) id = if u.id == id then some u else find_user users id

abbrev new_user : String → ℤ → User
new_user id now = record {
  id = id;
  email = none;
  display_name = none;
  role = "user";
  provider_access = false;
  created_at = now;
}

abbrev identity_of : User → UserIdentity
identity_of u = record { id = u.id; email = u.email; name = u.display_name; role = u.role }

-- `upsert_user`: the user with the table that it is in.
abbrev upserted : List User → User → Option User → UserIdentity × List User
upserted users new none = (identity_of new, users ++ (new ∷ []))
upserted users new (some u) = (identity_of u, users)

unfoldable pub upsert_user : List User → String → ℤ → UserIdentity × List User
upsert_user users user_id now = upserted users (new_user user_id now) (find_user users user_id)

-- `browser_identity`, with what the verifier of tokens answers.
unfoldable pub browser_identity :
    (String → Result String) → AccessTables → HeaderMap → ℤ → Result (UserIdentity × AccessTables)
browser_identity verify t headers now = do
  token ← bearer headers
  user_id ← verify token
  let found = upsert_user t.users user_id now
  ok (found.0, record t { users = found.1 })

abbrev pub is_admin : UserIdentity → Bool
is_admin identity = identity.role == "root" || identity.role == "admin"

abbrev pub require_admin : UserIdentity → Result (Unit {0})
require_admin identity = guard (is_admin identity) (forbidden "administrator access required")

abbrev pub require_root : UserIdentity → Result (Unit {0})
require_root identity = guard (identity.role == "root") (forbidden "root access required")

-- The query of `api_identity`: an unrevoked key with that hash, and its user.
unfoldable pub find_active : List Consumer → String → Option Consumer
find_active [] hash = none
find_active (c ∷ consumers) hash =
    if c.secret_hash == hash && not (is_some c.revoked_at)
    then some c
    else find_active consumers hash

abbrev pub identified : Consumer → User → Identity
identified c u = record {
  api = record { consumer_id = c.id; user_id = c.user_id; request_archive = c.request_archive };
  all_providers = not (u.role == "user") || u.provider_access;
}

abbrev pub joined : List User → Option Consumer → Option Identity
joined users none = none
joined users (some c) = and_then (find_user users c.user_id) (λ u. some (identified c u))

unfoldable pub api_identity : External → AccessTables → HeaderMap → Result Identity
unfolding bearer
api_identity x t headers = do
  secret ← bearer headers
  known ← guard (starts_with secret "sk-") (unauthorized "invalid consumer credential")
  require (unauthorized "invalid consumer credential")
      (joined t.users (find_active t.consumers (x.sha256_hex secret)))
