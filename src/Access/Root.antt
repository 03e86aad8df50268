-- ===== src/Access/Root.antt =====
-- src/auth.rs, src/api.rs: an instance that is set up has one root.
use open_ai_lb.Prelude.{
  Option-cases, String, Bool, true, false, List, [], ◌∷◌, ◌++◌, ◌≡◌, refl, sym, ap, ◌∙◌, inl, inr,
  arith, if◌then◌else◌, Bool-cases,
}
use open_ai_lb.Prelude.Int.{ℤ}
use open_ai_lb.Errors.{Result, ok, err, panic}
use open_ai_lb.Audit.{HeaderMap}
use open_ai_lb.Access.{User, UserIdentity, find_user, upsert_user}
use open_ai_lb.Access.Administration.{
  Office, UpdateUser, update_user, make_root, commit_as, checked_setup, committed, setup,
}
use open_ai_lb.Access.Roles.{is_root, count_roots, update_user-Keeps}

-- The steps of an instance: a user signs in, an update of a user, a setup.
pub data Call : Type 0 where
  signs_in : (user_id : String) (now : ℤ) → Call
  updates : (admin : UserIdentity) (id : String) (input : UpdateUser) → Call
  sets_up :
      (required : Bool) (verify : String → String → String → Result String) (headers : HeaderMap)
      (issuer audience : String) (now : ℤ)
      → Call

unfoldable pub step : Office → Call → Office
step o (signs_in user_id now) = record o { users = (upsert_user o.users user_id now).1 }
step o (updates admin id input) = (update_user admin id input o).1
step o (sets_up required verify headers issuer audience now) =
    (setup required verify headers issuer audience now o).1

unfoldable pub run : Office → List Call → Office
run o [] = o
run o (c ∷ cs) = run (step o c) cs

-- There is one root once the setup is complete, and none before.
pub record IsRooted (o : Office) : Type 0 where
  pub roots : count_roots o.users ≡ (if o.setup_complete then 1 else 0)

count_roots-append :
    (users : List User) (u : User)
    → is_root u ≡ false
    → count_roots (users ++ (u ∷ [])) ≡ count_roots users
count_roots-append [] u h = rw h
count_roots-append (v ∷ users) u h = ground (arith, count_roots-append users u h)

count_roots-upsert_user :
    (users : List User) (id : String) (now : ℤ)
    → count_roots (upsert_user users id now).1 ≡ count_roots users
unfolding upsert_user
count_roots-upsert_user users id now = elim (Option-cases (find_user users id)) [
  | inl e ↦ rw e (count_roots-append users _ refl)
  | inr (u, e) ↦ rw e
]

count_roots-make_root :
    (id : String) (now : ℤ) (users : List User)
    → count_roots users ≡ 0
    → count_roots (make_root id now users) ≡ 1
unfolding make_root
count_roots-make_root id now [] h = refl
count_roots-make_root id now (u ∷ users) h = ground (arith, h, count_roots-make_root id now users)

commit_as-IsRooted :
    (complete : Bool) (id issuer audience : String) (now : ℤ) (o : Office)
    → o.setup_complete ≡ complete
    → IsRooted o
    → IsRooted (commit_as complete id issuer audience now o).1
unfolding commit_as
commit_as-IsRooted true id issuer audience now o e v = v
commit_as-IsRooted false id issuer audience now o e v = record {
  roots = count_roots-make_root id now o.users (v.roots ∙ ap (λ (t : Bool). if t then 1 else 0) e);
}

committed-IsRooted :
    (r : Result (String × String)) (issuer : String) (now : ℤ) (o : Office)
    → IsRooted o
    → IsRooted (committed r issuer now o).1
committed-IsRooted (ok (id, audience)) issuer now o v =
    commit_as-IsRooted o.setup_complete id issuer audience now o refl v
committed-IsRooted (err e) issuer now o v = v
committed-IsRooted panic issuer now o v = v

step-IsRooted : (o : Office) (c : Call) → IsRooted o → IsRooted (step o c)
unfolding step setup
step-IsRooted o (signs_in user_id now) v = record {
  roots = count_roots-upsert_user o.users user_id now ∙ v.roots;
}
step-IsRooted o (updates admin id input) v =
    let (a, b) = update_user-Keeps admin id input o in
    record { roots = a ∙ v.roots ∙ ap (λ (t : Bool). if t then 1 else 0) (sym b) }
step-IsRooted o (sets_up required verify headers issuer audience now) v =
    elim (Bool-cases required) [
      | inl e ↦ rw e (committed-IsRooted (checked_setup verify headers _ audience) _ now o v)
      | inr e ↦ rw e v
    ]

-- Over any sign-ins, updates of users and setups, whoever calls them: there is no root before the setup
-- is complete, and exactly one after it.
pub run-IsRooted : (o : Office) (cs : List Call) → IsRooted o → IsRooted (run o cs)
unfolding run
run-IsRooted o [] v = v
run-IsRooted o (c ∷ cs) v = run-IsRooted (step o c) cs (step-IsRooted o c v)
