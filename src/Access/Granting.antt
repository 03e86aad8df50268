-- ===== src/Access/Granting.antt =====
-- src/api.rs: what making and deleting a grant change.
use open_ai_lb.Prelude.{
  String, Bool, true, false, not, ◌||◌, List, [], ◌∷◌, ◌++◌, ◌≡◌, refl, sym, ap, ◌∙◌, subst, inl,
  inr, arith, eq_refl, ltb, In, Bool-cases,
}
use open_ai_lb.Prelude.Map
use Prim.Native.String
use open_ai_lb.Text.{trim, is_empty}
use open_ai_lb.Errors.{AppError, Result, ok, err, panic, ◌>>=◌}
use open_ai_lb.Oauth.{internal_error}
use open_ai_lb.Provider.{find_id}
use open_ai_lb.Balancer.{granted_to, owned_by}
use open_ai_lb.Upkeep.{reload_providers}
use open_ai_lb.Upkeep.Grants.{reload_providers-granted_to}
use open_ai_lb.Access.{UserIdentity, find_user, guard, require}
use open_ai_lb.Access.Grants.{
  Desk, is_grant, has_grant, remove_grant, with_grants, require_provider_manager,
  create_provider_grant, delete_provider_grant,
}

In-last : (rows : List (String × String)) (row : String × String) → In row (rows ++ (row ∷ []))
In-last [] row = inl refl
In-last (r ∷ rows) row = inr (In-last rows row)

In-remove_grant :
    (id user_id : String) (rows : List (String × String))
    → ¬ In (id, user_id) (remove_grant id user_id rows)
unfolding remove_grant
In-remove_grant id user_id [] m = elim m [ ]
In-remove_grant id user_id (row ∷ rows) m = elim (Bool-cases (is_grant id user_id row)) [
  | inl e ↦ In-remove_grant id user_id rows (rw e at m)
  | inr e ↦ elim (rw e at m) [
    | inl same ↦ absurd (cc (sym e ∙ ap (is_grant id user_id) same ∙ itself))
    | inr k ↦ In-remove_grant id user_id rows k
  ]
]
  where
    itself : is_grant id user_id (id, user_id) ≡ true
    itself = ground (arith, eq_refl id, eq_refl user_id)

remove_grant-last :
    (id user_id : String) (rows : List (String × String))
    → has_grant id user_id rows ≡ false
    → remove_grant id user_id (rows ++ ((id, user_id) ∷ [])) ≡ rows
unfolding remove_grant
remove_grant-last id user_id [] h = rw (eq_refl id, eq_refl user_id)
remove_grant-last id user_id (row ∷ rows) h = elim (Bool-cases (is_grant id user_id row)) [
  | inl e ↦ absurd (cc (rw e at h))
  | inr e ↦ rw (e, remove_grant-last id user_id rows (rw e at h))
]

guard-true : (t : Bool) (e : AppError) (u : Unit {0}) → guard t e ≡ ok u → t ≡ true
guard-true true e u h = refl
guard-true false e u h = absurd (cc h)

module _ (d : Desk) (user : UserIdentity) (id : String) where
  -- What a success tells of the grants, and of the balancer after it.
  abbrev Makes : Result (String × Desk) → Type 0
  Makes (ok (target, d')) =
      (has_grant id target d.grants ≡ false)
      × (d'.grants ≡ d.grants ++ ((id, target) ∷ []))
      × (d'.balancer ≡ reload_providers d.balancer d.providers d'.grants)
  Makes (err e) = Unit
  Makes panic = Unit

  Makes-bind :
      {A : Type 0} (r : Result A) (f : A → Result (String × Desk))
      → ((a : A) → r ≡ ok a → Makes (f a))
      → Makes (r >>= f)
  Makes-bind (ok a) f h = h a refl
  Makes-bind (err e) f h = tt
  Makes-bind panic f h = tt

  create_provider_grant-Makes : (input : String) → Makes (create_provider_grant d user id input)
  unfolding create_provider_grant with_grants
  create_provider_grant-Makes input = Makes-bind (require_provider_manager d user id) _ (λ _ _.
      Makes-bind (guard (not (is_empty (trim input) || ltb 200 (String.len (trim input)))) _) _
        (λ _ _. Makes-bind (require internal_error (find_id d.providers id)) _ (λ row _.
          Makes-bind (guard (not (owned_by row.owner_id (trim input))) _) _ (λ _ _.
            Makes-bind (require _ (find_user d.users (trim input))) _ (λ _ _.
              Makes-bind (guard (not (has_grant id (trim input) d.grants)) _) _
                (λ u e. (ground (arith, guard-true _ _ u e), refl, refl)))))))

  abbrev Deletes : String → Result Desk → Type 0
  Deletes user_id (ok d') =
      (d'.grants ≡ remove_grant id user_id d.grants)
      × (d'.balancer ≡ reload_providers d.balancer d.providers d'.grants)
  Deletes user_id (err e) = Unit
  Deletes user_id panic = Unit

  Deletes-bind :
      {A : Type 0} (user_id : String) (r : Result A) (f : A → Result Desk)
      → ((a : A) → Deletes user_id (f a))
      → Deletes user_id (r >>= f)
  Deletes-bind user_id (ok a) f h = h a
  Deletes-bind user_id (err e) f h = tt
  Deletes-bind user_id panic f h = tt

  delete_provider_grant-Deletes :
      (user_id : String) → Deletes user_id (delete_provider_grant d user id user_id)
  unfolding delete_provider_grant with_grants
  delete_provider_grant-Deletes user_id =
      Deletes-bind user_id (require_provider_manager d user id) _
        (λ _. Deletes-bind user_id (guard (has_grant id user_id d.grants) _) _ (λ _. (refl, refl)))

-- Whether the balancer of a desk has the grant.
abbrev pub is_granted : Desk → String → String → Bool
is_granted d id user_id = granted_to (Map.get d.balancer.provider_grants id) user_id

-- A grant that is made works at once: the balancer has it. When it is deleted, by whomever, the balancer
-- does not have it any more, and the table of the grants is as it was before.
pub delete_provider_grant-create_provider_grant :
    (d : Desk) (maker deleter : UserIdentity) (id input : String) {target : String} {d1 d2 : Desk}
    → create_provider_grant d maker id input ≡ ok (target, d1)
    → delete_provider_grant d1 deleter id target ≡ ok d2
    → (is_granted d1 id target ≡ true)
      × (¬ (is_granted d2 id target ≡ true))
      × (d2.grants ≡ d.grants)
delete_provider_grant-create_provider_grant d maker deleter id input {target} {d1} {d2} made
      deleted =
    let (free, rows, balancer) =
      subst (Makes d maker id) made (create_provider_grant-Makes d maker id input) in
    let (rows', balancer') =
      subst (Deletes d1 deleter id target) deleted
        (delete_provider_grant-Deletes d1 deleter id target) in
    (
      ap (λ b. granted_to (Map.get b.provider_grants id) target) balancer
          ∙ (reload_providers-granted_to d.balancer d.providers d1.grants id target).1
              (subst (In (id, target)) (sym rows) (In-last d.grants (id, target))),
      λ h. In-remove_grant id target d1.grants (
          subst (In (id, target)) rows' (
            (reload_providers-granted_to d1.balancer d1.providers d2.grants id target).0
              (sym (ap (λ b. granted_to (Map.get b.provider_grants id) target) balancer') ∙ h))),
      rows' ∙ ap (remove_grant id target) rows ∙ remove_grant-last id target d.grants free,
    )
