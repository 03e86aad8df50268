-- ===== src/Upkeep/Grants.antt =====
-- src/balancer.rs: the grants that `reload_providers` reads.
use open_ai_lb.Prelude.{
  String, Bool, true, false, ◌&&◌, ◌||◌, Option, none, some, List, [], ◌∷◌, ◌≡◌, ◌≢◌, ◌↔◌, refl, ap,
  ◌⊎◌, inl, inr, ◌==◌, eq_iff, eq_refl, arith, In, contains, str-cases, unwrap_or,
}
use open_ai_lb.Prelude.Map
use open_ai_lb.Prelude.Map.{Map, get-put}
use open_ai_lb.Provider.{Provider}
use open_ai_lb.Balancer.{Balancer, granted_to}
use open_ai_lb.Upkeep.{collect_grants, reload_providers, set_insert}

abbrev has_row : List (String × String) → String → String → Bool
has_row [] id user = false
has_row ((p, u) ∷ rows) id user = ((p == id) && (u == user)) || has_row rows id user

or_absorb : (a f c : Bool) → (a || f) ≡ (a || c) → (a || f) ≡ (a || (a || c))
or_absorb true f c h = refl
or_absorb false f c h = h

or_keep : (a d f c : Bool) → (a || f) ≡ (a || c) → (a || (d || f)) ≡ (a || (d || c))
or_keep true d f c h = refl
or_keep false d f c h = ap (◌||◌ d) h

contains-set_insert :
    (users : List String) (u user : String)
    → contains (set_insert users u) user ≡ ((u == user) || contains users user)
contains-set_insert [] u user = refl
contains-set_insert (w ∷ users) u user = elim (str-cases w u) [
  | inl e ↦ rw (e, eq_refl u) (or_absorb (u == user) _ _ (contains-set_insert users u user))
  | inr e ↦ rw e (or_keep (u == user) (w == user) _ _ (contains-set_insert users u user))
]

granted_to-put :
    (o : Option (List String)) (u user : String)
    → granted_to (some (set_insert (unwrap_or o []) u)) user ≡ ((u == user) || granted_to o user)
granted_to-put none u user = refl
granted_to-put (some users) u user = contains-set_insert users u user

or_assoc_swap : (a b c : Bool) → ((a || b) || c) ≡ (b || (a || c))
or_assoc_swap true true c = refl
or_assoc_swap true false c = refl
or_assoc_swap false b c = refl

collect_grants-has_row :
    (grants : Map (List String)) (rows : List (String × String)) (id user : String)
    → granted_to (Map.get (collect_grants grants rows) id) user
      ≡ (granted_to (Map.get grants id) user || has_row rows id user)
unfolding collect_grants
collect_grants-has_row grants [] id user = ground arith
collect_grants-has_row grants ((p, u) ∷ rows) id user =
    rw
      (
        collect_grants-has_row (Map.put grants p (set_insert (unwrap_or (Map.get grants p) []) u))
            rows id user,
        get-put grants p id (set_insert (unwrap_or (Map.get grants p) []) u),
      )
      (elim (str-cases p id) [
        | inl e ↦
            rw (e, eq_refl id, granted_to-put (Map.get grants id) u user)
              (or_assoc_swap (u == user) (granted_to (Map.get grants id) user)
                (has_row rows id user))
        | inr e ↦ rw e
      ])

abbrev row : String → String → String × String
row id user = (id, user)

differ : (s t : String) → (s == t) ≡ false → s ≢ t
differ s t h e = ground (arith, eq_iff s t)

row-cases :
    (p u id user : String)
    → ((((p == id) && (u == user)) ≡ true) × (row p u ≡ row id user))
      ⊎ ((((p == id) && (u == user)) ≡ false) × (row p u ≢ row id user))
row-cases p u id user = elim (str-cases p id) [
  | inl e ↦ elim (str-cases u user) [
    | inl f ↦ inl (rw (e, f, eq_refl id, eq_refl user), rw (e, f))
    | inr f ↦
        inr (rw (e, eq_refl id, f), λ k. differ u user f (ap (λ (r : String × String). r.1) k))
  ]
  | inr e ↦ inr (rw e, λ k. differ p id e (ap (λ (r : String × String). r.0) k))
]

has_row_iff :
    (rows : List (String × String)) (id user : String)
    → (has_row rows id user ≡ true) ↔ In (id, user) rows
has_row_iff [] id user = (λ h. cc, λ m. elim m [ ])
has_row_iff ((p, u) ∷ rows) id user = elim (row-cases p u id user) [
  | inl (t, e) ↦ (λ h. inl e, λ m. rw t)
  | inr (f, n) ↦ (
    λ h. inr ((has_row_iff rows id user).0 (rw f at h)),
    λ m. rw f (elim m [ inl e ↦ absurd (n e) | inr k ↦ (has_row_iff rows id user).1 k ]),
  )
]

-- After a reload, a user has the grant of a provider exactly if the table has the row of the two.
pub reload_providers-granted_to :
    (b : Balancer) (providers : List Provider) (rows : List (String × String)) (id user : String)
    → (granted_to (Map.get (reload_providers b providers rows).provider_grants id) user ≡ true)
      ↔ In (id, user) rows
unfolding reload_providers
reload_providers-granted_to b providers rows id user =
    rw (collect_grants-has_row [] rows id user) (unfold Map.get in has_row_iff rows id user)
