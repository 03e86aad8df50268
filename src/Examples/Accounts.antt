-- ===== src/Examples/Accounts.antt =====
-- A new key of Ann, and an instance that Ann sets up and where Bob tries to raise himself.
use open_ai_lb.Prelude.{String, true, false, none, some, List, [], ◌∷◌, ◌≡◌, refl}
use open_ai_lb.Prelude.Int.{pos}
use open_ai_lb.Errors.{Result, ok}
use open_ai_lb.Text.{trim, take_chars}
use open_ai_lb.Access.{User, UserIdentity, AccessTables, find_user, api_identity}
use open_ai_lb.Access.Consumers.{
  is_taken, Created, secret_of, new_consumer, create_consumer, consumer_name,
}
use open_ai_lb.Access.Administration.{Office, UpdateUser, update_user}
use open_ai_lb.Access.Roundtrip.{with_secret, owner_of, create_consumer-api_identity}
use open_ai_lb.Access.Roles.{role_of}
use open_ai_lb.Access.Ranks.{update_user-role_of}
use open_ai_lb.Access.Root.{Call, signs_in, updates, sets_up, IsRooted, run, run-IsRooted}
use open_ai_lb.Examples.{toy}

abbrev pub user_of : String → String → User
user_of id role = record {
  id = id;
  email = none;
  display_name = none;
  role = role;
  provider_access = false;
  created_at = pos 1;
}

abbrev ann : User
ann = user_of "ann" "user"

abbrev tables : AccessTables
tables = record { users = ann ∷ []; consumers = [] }

abbrev created : Created
created = record {
  id = "key";
  name = "laptop";
  prefix = "sk-random";
  secret = secret_of "random";
  request_archive = true;
}

abbrev with_key : AccessTables
with_key = record tables {
  consumers = new_consumer toy "ann" "laptop" true "random" "key" (pos 5) ∷ [];
}

create_consumer-api_identity_example :
    api_identity toy with_key (with_secret (secret_of "random"))
    ≡ ok (owner_of ann "ann" true "key")
unfolding find_user create_consumer consumer_name trim is_taken take_chars
create_consumer-api_identity_example =
    create_consumer-api_identity toy tables "ann" true "random" "key" (pos 5) ann refl "laptop"
      {created = created} {t' = with_key} refl

abbrev untouched : Office
untouched = record {
  users = [];
  admin_audit = [];
  provider_owners = none ∷ [];
  setup_complete = false;
  auth_issuer = "";
  auth_audience = "";
}

abbrev bob : UserIdentity
bob = record { id = "bob"; email = none; name = none; role = "user" }

abbrev raise : UpdateUser
raise = record { display_name = none; role = some "admin"; provider_access = none }

abbrev verifier : String → String → String → Result String
verifier issuer audience token = ok "ann"

abbrev calls : List Call
calls =
    signs_in "bob" (pos 1)
    ∷ sets_up true verifier (with_secret "token") "https://auth" "audience" (pos 2)
    ∷ updates bob "bob" raise
    ∷ sets_up true verifier (with_secret "token") "https://auth" "audience" (pos 3)
    ∷ []

run-IsRooted_example : IsRooted (run untouched calls)
run-IsRooted_example = run-IsRooted untouched calls (record { roots = refl })

abbrev joint : Office
joint = record untouched { users = ann ∷ user_of "bob" "user" ∷ [] }

update_user-role_of_example :
    role_of (update_user bob "bob" raise joint).1.users "bob" ≡ role_of joint.users "bob"
update_user-role_of_example = update_user-role_of bob "bob" "bob" raise joint refl
