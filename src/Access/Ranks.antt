-- ===== src/Access/Ranks.antt =====
-- src/api.rs: whom `update_user` gives another role.
use open_ai_lb.Prelude.{
  String, Bool, false, Option, none, some, ◌≡◌, refl, ◌∙◌, inl, inr, ◌==◌, Bool-cases,
}
use open_ai_lb.Errors.{AppError, Result, ok, err, panic}
use open_ai_lb.Access.{User, UserIdentity, find_user}
use open_ai_lb.Access.Administration.{
  Office, fits_found, UpdateUser, write_user, required_setting, is_anyone, is_tenant, name_checked,
  update_name, update_role, update_access, update_user,
}
use open_ai_lb.Access.Roles.{role_of, role_of-set_user, update_user-keeps}

module _ (admin : UserIdentity) (id j : String) where
  write_user-role_of :
      (action : String) (missing : AppError) (fits : User → Bool) (f : User → User) (o : Office)
      → ((u : User) → ((f u).role ≡ u.role) × ((f u).id ≡ u.id))
      → role_of (write_user admin id action missing fits f o).1.users j ≡ role_of o.users j
  unfolding write_user
  write_user-role_of action missing fits f o h =
      elim (Bool-cases (fits_found (find_user o.users id) fits)) [
        | inl e ↦ rw e (role_of-set_user id fits f j o.users h)
        | inr e ↦ rw e
      ]

  update_name-role_of :
      (name : Option String) (o : Office)
      → role_of (update_name admin id name o).1.users j ≡ role_of o.users j
  unfolding update_name
  update_name-role_of none o = refl
  update_name-role_of (some name) o = checked (required_setting "display name" name)
    where
      checked :
          (r : Result String) → role_of (name_checked admin id r o).1.users j ≡ role_of o.users j
      checked (ok valid) =
          write_user-role_of _ _ is_anyone (λ u. record u { display_name = some valid }) o
            (λ u. (refl, refl))
      checked (err e) = refl
      checked panic = refl

  update_access-role_of :
      (access : Option Bool) (o : Office)
      → role_of (update_access admin id access o).1.users j ≡ role_of o.users j
  unfolding update_access
  update_access-role_of none o = refl
  update_access-role_of (some access) o =
      write_user-role_of _ _ is_tenant (λ u. record u { provider_access = access }) o
        (λ u. (refl, refl))

  update_role-role_of :
      (role : Option String) (o : Office)
      → (admin.role == "root") ≡ false
      → role_of (update_role admin id role o).1.users j ≡ role_of o.users j
  unfolding update_role
  update_role-role_of none o h = refl
  update_role-role_of (some role) o h = rw h

  -- A caller that is no root changes the role of no user, whatever else the call changes.
  pub update_user-role_of :
      (input : UpdateUser) (o : Office)
      → (admin.role == "root") ≡ false
      → role_of (update_user admin id input o).1.users j ≡ role_of o.users j
  update_user-role_of input o h =
      update_user-keeps admin id (λ p. role_of p.users j ≡ role_of o.users j) input o refl
        (λ p k. update_name-role_of input.display_name p ∙ k)
        (λ p k. update_role-role_of input.role p h ∙ k)
        (λ p k. update_access-role_of input.provider_access p ∙ k)
