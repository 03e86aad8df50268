-- ===== src/Access/Grants.antt =====
-- src/api.rs: who may manage a provider, and the grants that let other users use it.
use Prim.Native.String
use open_ai_lb.Prelude.{
  String, Bool, false, not, ◌&&◌, ◌||◌, Option, none, some, List, [], ◌∷◌, ◌++◌, ◌==◌,
  if◌then◌else◌, is_some, ltb,
}
use open_ai_lb.Text.{trim, is_empty}
use open_ai_lb.Errors.{Result, ok, ◌>>=◌, bad_request, not_found}
use open_ai_lb.Oauth.{internal_error}
use open_ai_lb.Provider.{Provider, find_id}
use open_ai_lb.Balancer.{Balancer, owned_by}
use open_ai_lb.Upkeep.{reload_providers}
use open_ai_lb.Access.{User, UserIdentity, find_user, is_admin, guard, require}
use open_ai_lb.Access.Administration.{AdminAudit}

-- The tables that the handlers read and write, with the balancer.
pub record Desk : Type 0 where
  pub users : List User
  pub providers : List Provider
  pub grants : List (String × String)
  pub balancer : Balancer
  pub admin_audit : List AdminAudit

abbrev is_owned : Option Provider → String → Bool
is_owned none user_id = false
is_owned (some row) user_id = owned_by row.owner_id user_id

abbrev may_manage : UserIdentity → Option Provider → Bool
may_manage user row = if is_admin user then is_some row else is_owned row user.id

unfoldable pub require_provider_manager : Desk → UserIdentity → String → Result (Unit {0})
require_provider_manager d user id =
    guard (may_manage user (find_id d.providers id)) (not_found "provider not found")

abbrev pub is_grant : String → String → String × String → Bool
is_grant id user_id row = row.0 == id && row.1 == user_id

abbrev pub has_grant : String → String → List (String × String) → Bool
has_grant id user_id [] = false
has_grant id user_id (row ∷ rows) = is_grant id user_id row || has_grant id user_id rows

-- DELETE FROM provider_grants WHERE provider_id=? AND user_id=?
unfoldable pub remove_grant : String → String → List (String × String) → List (String × String)
remove_grant id user_id [] = []
remove_grant id user_id (row ∷ rows) =
    let rest = remove_grant id user_id rows in if is_grant id user_id row then rest else row ∷ rest

-- The reload of the balancer and the row of `admin_audit` after the grants are written.
unfoldable pub with_grants : Desk → List (String × String) → UserIdentity → String → String → Desk
with_grants d grants user action target = record d {
  grants = grants;
  balancer = reload_providers d.balancer d.providers grants;
  admin_audit =
      d.admin_audit
      ++ (record { admin_user_id = user.id; action = action; target_id = some target } ∷ []);
}

abbrev grant_target : String → String → String
grant_target id user_id = String.◌++◌ id (String.◌++◌ ":" user_id)

-- `create_provider_grant`, with the user that it names.
unfoldable pub create_provider_grant :
    Desk → UserIdentity → String → String → Result (String × Desk)
unfolding require_provider_manager with_grants
create_provider_grant d user id input = do
  managed ← require_provider_manager d user id
  let target = trim input
  valid ←
      guard (not (is_empty target || ltb 200 (String.len target)))
        (bad_request "user_id must be 1-200 characters")
  row ← require internal_error (find_id d.providers id)
  other ←
      guard (not (owned_by row.owner_id target))
        (bad_request "provider owner already has implicit access")
  known ← require (not_found "user_id not found") (find_user d.users target)
  new ← guard (not (has_grant id target d.grants)) (bad_request "provider grant already exists")
  ok (
    target,
    with_grants d (d.grants ++ ((id, target) ∷ [])) user "provider.grant.create"
        (grant_target id target),
  )

-- `delete_provider_grant`.
unfoldable pub delete_provider_grant : Desk → UserIdentity → String → String → Result Desk
unfolding require_provider_manager with_grants remove_grant
delete_provider_grant d user id user_id = do
  managed ← require_provider_manager d user id
  found ← guard (has_grant id user_id d.grants) (not_found "provider grant not found")
  ok (
      with_grants d (remove_grant id user_id d.grants) user "provider.grant.delete"
        (grant_target id user_id))
