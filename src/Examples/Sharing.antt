-- ===== src/Examples/Sharing.antt =====
-- Ann, who owns a provider, grants it to Bob, and an administrator takes the grant back.
use open_ai_lb.Prelude.{String, true, none, [], ◌∷◌, ◌≡◌, refl}
use open_ai_lb.Access.{UserIdentity, find_user}
use open_ai_lb.Access.Grants.{Desk, create_provider_grant, delete_provider_grant, with_grants}
use open_ai_lb.Access.Granting.{is_granted, delete_provider_grant-create_provider_grant}
use open_ai_lb.Text.{trim}
use open_ai_lb.Examples.{alpha, beta, two}
use open_ai_lb.Examples.Accounts.{user_of}

abbrev identity : String → String → UserIdentity
identity id role = record { id = id; email = none; name = none; role = role }

abbrev ann : UserIdentity
ann = identity "ann" "user"

abbrev root : UserIdentity
root = identity "root" "root"

abbrev desk : Desk
desk = record {
  users = user_of "ann" "user" ∷ user_of "bob" "user" ∷ [];
  providers = alpha ∷ beta ∷ [];
  grants = ("beta", "bob") ∷ [];
  balancer = two;
  admin_audit = [];
}

abbrev given : Desk
given =
    with_grants desk (("beta", "bob") ∷ ("alpha", "bob") ∷ []) ann "provider.grant.create"
      "alpha:bob"

abbrev taken : Desk
taken = with_grants given (("beta", "bob") ∷ []) root "provider.grant.delete" "alpha:bob"

delete_provider_grant-create_provider_grant_example :
    (is_granted given "alpha" "bob" ≡ true)
    × (¬ (is_granted taken "alpha" "bob" ≡ true))
    × (taken.grants ≡ desk.grants)
unfolding create_provider_grant delete_provider_grant with_grants find_user trim
delete_provider_grant-create_provider_grant_example =
    delete_provider_grant-create_provider_grant desk ann root "alpha" " bob " {target = "bob"}
      {d1 = given} {d2 = taken} refl refl
