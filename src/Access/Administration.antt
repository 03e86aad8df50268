-- ===== src/Access/Administration.antt =====
-- src/api.rs: `setup`, which makes the root, and `update_user`, whose statements are no transaction: what
-- was written before an error stays.
use open_ai_lb.Prelude.{
  String, Bool, true, false, not, ◌||◌, Option, none, some, List, [], ◌∷◌, ◌++◌, ◌==◌,
  if◌then◌else◌, is_some, ltb,
}
use Prim.Native.String
use open_ai_lb.Prelude.Int.{ℤ}
use open_ai_lb.Text.{trim, is_empty, trim_end_matches}
use open_ai_lb.Errors.{AppError, Result, ok, err, panic, ◌>>=◌, bad_request, not_found}
use open_ai_lb.Audit.{HeaderMap}
use open_ai_lb.Access.{User, UserIdentity, find_user, guard, require_admin, require_root, bearer}

-- `required_setting`, and the message that it makes.
abbrev setting_error : String → AppError
setting_error name = bad_request (String.◌++◌ name " must be 1-200 characters")

unfoldable pub required_setting : String → String → Result String
required_setting name value = do
  valid ←
      guard (not (is_empty (trim value) || ltb 200 (String.len (trim value)))) (setting_error name)
  ok (trim value)

-- A row of `admin_audit`: who did what to whom.
pub record AdminAudit : Type 0 where
  pub admin_user_id : String
  pub action : String
  pub target_id : Option String

pub record Office : Type 0 where
  pub users : List User
  pub admin_audit : List AdminAudit
  pub provider_owners : List (Option String)
  pub setup_complete : Bool
  pub auth_issuer : String
  pub auth_audience : String

-- UPDATE users SET … WHERE id=? and a condition: the row of the key, if it fits.
unfoldable pub set_user : String → (User → Bool) → (User → User) → List User → List User
set_user id fits f [] = []
set_user id fits f (u ∷ users) =
    let rest = set_user id fits f users in
    if u.id == id then (if fits u then f u else u) ∷ users else u ∷ rest

abbrev pub fits_found : Option User → (User → Bool) → Bool
fits_found none fits = false
fits_found (some u) fits = fits u

abbrev write_admin_audit : UserIdentity → String → String → Office → Office
write_admin_audit admin action id o = record o {
  admin_audit =
      o.admin_audit
      ++ (record { admin_user_id = admin.id; action = action; target_id = some id } ∷ []);
}

-- An UPDATE of a user, the error if it finds no row, and the audit of it.
abbrev pub Outcome : Type 0
Outcome = Result (Unit {0}) × Office

unfoldable pub write_user :
    UserIdentity → String → String → AppError → (User → Bool) → (User → User) → Office → Outcome
unfolding set_user
write_user admin id action missing fits f o =
    if fits_found (find_user o.users id) fits
    then (
      ok tt,
      write_admin_audit admin action id (record o { users = set_user id fits f o.users }),
    )
    else (err missing, o)

abbrev pub then_do : Outcome → (Office → Outcome) → Outcome
then_do (ok done, o) f = f o
then_do (err e, o) f = (err e, o)
then_do (panic, o) f = (panic, o)

abbrev pub first_check : Result (Unit {0}) → Office → (Office → Outcome) → Outcome
first_check r o f = then_do (r, o) f

abbrev pub is_anyone : User → Bool
is_anyone u = true

abbrev pub is_no_root : User → Bool
is_no_root u = not (u.role == "root")

abbrev pub is_tenant : User → Bool
is_tenant u = u.role == "user"

pub record UpdateUser : Type 0 where
  pub display_name : Option String
  pub role : Option String
  pub provider_access : Option Bool

module _ (admin : UserIdentity) (id : String) where
  abbrev pub name_checked : Result String → Office → Outcome
  name_checked (ok name) o =
      write_user admin id "user.display_name.update" (not_found "user not found") is_anyone
        (λ u. record u { display_name = some name }) o
  name_checked (err e) o = (err e, o)
  name_checked panic o = (panic, o)

  unfoldable pub update_name : Option String → Office → Outcome
  update_name none o = (ok tt, o)
  update_name (some name) o = name_checked (required_setting "display name" name) o

  abbrev pub set_role : String → Office → Outcome
  set_role role o =
      write_user admin id "user.role.update" (not_found "user not found or root role is immutable")
        is_no_root (λ u. record u { role = role }) o

  abbrev pub role_allowed : String → Result (Unit {0})
  role_allowed role =
      guard (role == "admin" || role == "user") (bad_request "role must be admin or user")

  unfoldable pub update_role : Option String → Office → Outcome
  update_role none o = (ok tt, o)
  update_role (some role) o =
      first_check (require_root admin) o (λ p. first_check (role_allowed role) p (set_role role))

  unfoldable pub update_access : Option Bool → Office → Outcome
  update_access none o = (ok tt, o)
  update_access (some provider_access) o =
      write_user admin id "user.provider_access.update"
        (bad_request "provider access only applies to tenant users") is_tenant
        (λ u. record u { provider_access = provider_access }) o

  abbrev pub is_something : UpdateUser → Bool
  is_something input =
      is_some input.display_name || (is_some input.role || is_some input.provider_access)

  abbrev pub role_stage : UpdateUser → Office → Outcome
  role_stage input o = then_do (update_role input.role o) (update_access input.provider_access)

  abbrev pub write_stage : UpdateUser → Office → Outcome
  write_stage input o = then_do (update_name input.display_name o) (role_stage input)

  abbrev pub something : UpdateUser → Result (Unit {0})
  something input =
      guard (is_something input) (bad_request "display_name, role, or provider_access is required")

  abbrev pub input_stage : UpdateUser → Office → Outcome
  input_stage input o = first_check (something input) o (write_stage input)

  -- `update_user`, once the caller is known. A name that is not valid is refused before anything is
  -- written, as its check stands before the first statement.
  unfoldable pub update_user : UpdateUser → Office → Outcome
  unfolding update_name update_role update_access
  update_user input o = first_check (require_admin admin) o (input_stage input)

-- INSERT INTO users … ON CONFLICT(id) DO UPDATE SET role='root'
unfoldable pub make_root : String → ℤ → List User → List User
make_root id now [] =
    record {
      id = id;
      email = none;
      display_name = none;
      role = "root";
      provider_access = false;
      created_at = now;
    }
    ∷ []
make_root id now (u ∷ users) =
    let rest = make_root id now users in
    if u.id == id then record u { role = "root" } ∷ users else u ∷ rest

unfoldable pub own_all : String → List (Option String) → List (Option String)
own_all id [] = []
own_all id (none ∷ owners) = some id ∷ own_all id owners
own_all id (some owner ∷ owners) = some owner ∷ own_all id owners

abbrev completed : String → String → String → ℤ → Office → Office
completed id issuer audience now o = record o {
  users = make_root id now o.users;
  provider_owners = own_all id o.provider_owners;
  setup_complete = true;
  auth_issuer = issuer;
  auth_audience = audience;
}

-- The transaction of `setup`, by what its query of `setup_complete` answers. The index that refuses a
-- second root is not part of it.
unfoldable pub commit_as : Bool → String → String → String → ℤ → Office → Outcome
unfolding make_root own_all
commit_as true id issuer audience now o = (err (not_found "setup is already complete"), o)
commit_as false id issuer audience now o = (ok tt, completed id issuer audience now o)

abbrev pub commit_setup : String → String → String → ℤ → Office → Outcome
commit_setup id issuer audience now o = commit_as o.setup_complete id issuer audience now o

abbrev pub checked_setup :
    (String → String → String → Result String)
    → HeaderMap
    → String
    → String
    → Result (String × String)
checked_setup verify headers issuer audience_input = do
  audience ← required_setting "Auth Mini audience" audience_input
  token ← bearer headers
  id ← verify issuer audience token
  ok (id, audience)

abbrev pub committed : Result (String × String) → String → ℤ → Office → Outcome
committed (ok (id, audience)) issuer now o = commit_setup id issuer audience now o
committed (err e) issuer now o = (err e, o)
committed panic issuer now o = (panic, o)

-- `setup`, with what the first query answered, what the verifier of tokens answers, and the office as
-- the transaction finds it.
unfoldable pub setup :
    Bool
    → (String → String → String → Result String)
    → HeaderMap
    → String
    → String
    → ℤ
    → Office
    → Outcome
unfolding commit_as
setup required verify headers issuer_input audience_input now o =
    let issuer = trim_end_matches (trim issuer_input) "/" in
    if required
    then committed (checked_setup verify headers issuer audience_input) issuer now o
    else (err (not_found "setup is already complete"), o)
