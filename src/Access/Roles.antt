-- ===== src/Access/Roles.antt =====
-- src/auth.rs, src/api.rs: who has which role.
use open_ai_lb.Prelude.{
  ℕ, suc, String, Bool, true, false, ◌||◌, Option, none, some, List, [], ◌∷◌, ◌≡◌, refl, sym, ap,
  ◌∙◌, inl, inr, arith, ◌==◌, eq_iff, if◌then◌else◌, Bool-cases, map_option,
}
use open_ai_lb.Errors.{AppError, Result, ok, err, panic}
use open_ai_lb.Access.{User, UserIdentity, find_user, require_admin}
use open_ai_lb.Access.Administration.{
  role_stage, write_stage, something, input_stage, Office, Outcome, fits_found, UpdateUser,
  set_user, write_user, then_do, is_anyone, is_no_root, is_tenant, required_setting, name_checked,
  update_name, update_role, update_access, update_user,
}

abbrev pub is_root : User → Bool
is_root u = u.role == "root"

abbrev pub count_roots : List User → ℕ
count_roots [] = 0
count_roots (u ∷ users) = if u.role == "root" then suc (count_roots users) else count_roots users

abbrev pub role_of : List User → String → Option String
role_of users id = map_option (λ (u : User). u.role) (find_user users id)

-- What a chain of statements keeps.
then_do-keeps :
    (K : Office → Type 0) (r : Outcome) (f : Office → Outcome)
    → K r.1
    → ((o : Office) → K o → K (f o).1)
    → K (then_do r f).1
then_do-keeps K (ok done, o) f h k = k o h
then_do-keeps K (err e, o) f h k = h
then_do-keeps K (panic, o) f h k = h

count_roots-set_user :
    (id : String) (fits : User → Bool) (f : User → User) (users : List User)
    → ((u : User) → fits u ≡ true → is_root (f u) ≡ is_root u)
    → count_roots (set_user id fits f users) ≡ count_roots users
unfolding set_user
count_roots-set_user id fits f [] h = refl
count_roots-set_user id fits f (u ∷ users) h = elim (Bool-cases (u.id == id)) [
  | inl e ↦ elim (Bool-cases (fits u)) [ inl k ↦ rw (e, k, h u k) | inr k ↦ rw (e, k) ]
  | inr e ↦ rw (e, count_roots-set_user id fits f users h)
]

pub role_of-set_user :
    (id : String) (fits : User → Bool) (f : User → User) (j : String) (users : List User)
    → ((u : User) → ((f u).role ≡ u.role) × ((f u).id ≡ u.id))
    → role_of (set_user id fits f users) j ≡ role_of users j
unfolding set_user find_user
role_of-set_user id fits f j [] h = refl
role_of-set_user id fits f j (u ∷ users) h = elim (Bool-cases (u.id == id)) [
  | inl e ↦ elim (Bool-cases (fits u)) [
    | inl k ↦
        rw (e, k, (h u).1)
          (elim (Bool-cases (u.id == j)) [ inl a ↦ rw (a, (h u).0) | inr a ↦ rw a ])
    | inr k ↦ rw (e, k)
  ]
  | inr e ↦ rw e (elim (Bool-cases (u.id == j)) [
    | inl a ↦ rw a
    | inr a ↦ rw (a, role_of-set_user id fits f j users h)
  ])
]

-- What `write_user` keeps of the roots, and of the rest.
abbrev pub Keeps : Office → Office → Type 0
Keeps o p = (count_roots p.users ≡ count_roots o.users) × (p.setup_complete ≡ o.setup_complete)

write_user-Keeps :
    (admin : UserIdentity) (id action : String) (missing : AppError) (fits : User → Bool)
    (f : User → User) (start o : Office)
    → ((u : User) → fits u ≡ true → is_root (f u) ≡ is_root u)
    → Keeps start o
    → Keeps start (write_user admin id action missing fits f o).1
unfolding write_user
write_user-Keeps admin id action missing fits f start o h (a, b) =
    elim (Bool-cases (fits_found (find_user o.users id) fits)) [
      | inl e ↦ rw e (count_roots-set_user id fits f o.users h ∙ a, b)
      | inr e ↦ rw e (a, b)
    ]

-- A role that may be given is not the root's.
given_role : (role : String) → (role == "admin" || role == "user") ≡ true → (role == "root") ≡ false
given_role role h = elim (Bool-cases (role == "admin")) [
  | inl e ↦ ap (λ r. r == "root") ((eq_iff role "admin").0 e)
  | inr e ↦ ap (λ r. r == "root") ((eq_iff role "user").0 (rw e at h))
]

module _ (admin : UserIdentity) (id : String) where
  update_name-Keeps :
      (name : Option String) (start o : Office)
      → Keeps start o
      → Keeps start (update_name admin id name o).1
  unfolding update_name
  update_name-Keeps none start o h = h
  update_name-Keeps (some name) start o h = checked (required_setting "display name" name)
    where
      checked : (r : Result String) → Keeps start (name_checked admin id r o).1
      checked (ok valid) =
          write_user-Keeps admin id _ _ is_anyone (λ u. record u { display_name = some valid })
            start o (λ u e. refl) h
      checked (err e) = h
      checked panic = h

  update_role-Keeps :
      (role : Option String) (start o : Office)
      → Keeps start o
      → Keeps start (update_role admin id role o).1
  unfolding update_role
  update_role-Keeps none start o h = h
  update_role-Keeps (some role) start o h = elim (Bool-cases (admin.role == "root")) [
    | inl e ↦ rw e (elim (Bool-cases (role == "admin" || role == "user")) [
      | inl k ↦ rw k (
          write_user-Keeps admin id "user.role.update" _ is_no_root (λ u. record u { role = role })
            start o (λ u n. given_role role k ∙ sym (ground (arith, n))) h)
      | inr k ↦ rw k h
    ])
    | inr e ↦ rw e h
  ]

  update_access-Keeps :
      (access : Option Bool) (start o : Office)
      → Keeps start o
      → Keeps start (update_access admin id access o).1
  unfolding update_access
  update_access-Keeps none start o h = h
  update_access-Keeps (some access) start o h =
      write_user-Keeps admin id _ _ is_tenant (λ u. record u { provider_access = access }) start o
        (λ u e. refl) h

  -- What each of the three updates keeps, the call keeps.
  pub update_user-keeps :
      (K : Office → Type 0) (input : UpdateUser) (o : Office)
      → K o
      → ((p : Office) → K p → K (update_name admin id input.display_name p).1)
      → ((p : Office) → K p → K (update_role admin id input.role p).1)
      → ((p : Office) → K p → K (update_access admin id input.provider_access p).1)
      → K (update_user admin id input o).1
  unfolding update_user
  update_user-keeps K input o h name role access =
      then_do-keeps K (require_admin admin, o) (input_stage admin id input) h
        (λ o1 h1.
          then_do-keeps K (something admin id input, o1) (write_stage admin id input) h1
            (λ o2 h2.
              then_do-keeps K (update_name admin id input.display_name o2)
                (role_stage admin id input) (name o2 h2)
                (λ o3 h3.
                  then_do-keeps K (update_role admin id input.role o3)
                    (update_access admin id input.provider_access) (role o3 h3) access)))

  pub update_user-Keeps :
      (input : UpdateUser) (o : Office) → Keeps o (update_user admin id input o).1
  update_user-Keeps input o =
      update_user-keeps (Keeps o) input o (refl, refl) (update_name-Keeps input.display_name o)
        (update_role-Keeps input.role o) (update_access-Keeps input.provider_access o)
