-- ===== src/Balancer/Eligible.antt =====
-- src/balancer.rs: the providers that a call may be sent to.
use open_ai_lb.Prelude.{
  String, Bool, true, false, not, ◌||◌, Option, none, some, List, [], ◌∷◌, ◌≡◌, refl, ap, ◌≢◌, ◌↔◌,
  ◌⊎◌, inl, inr, eq_iff, contains, arith, In, filter_by, In-filter_by, filter_by-In,
}
use open_ai_lb.Prelude.Int.{ℤ}
use open_ai_lb.Prelude.Map
use open_ai_lb.Provider.{Provider, provider_is_available}
use open_ai_lb.Balancer.{Balancer, owned_by, granted_to, is_excluded, is_permitted, eligible}

-- A user may use a provider with access to all, as its owner, or by a grant.
abbrev pub MayUse : Balancer → String → Bool → Provider → Type 0
MayUse b user_id all_providers p =
    (all_providers ≡ true)
    ⊎ ((p.owner_id ≡ some user_id)
        ⊎ ((users : List String) × (Map.get b.provider_grants p.id ≡ some users)
            × In user_id users))

pub record IsEligible (b : Balancer) (now : ℤ) (user_id : String) (all_providers : Bool)
    (excluded : Option String) (p : Provider) : Type 0 where
  pub listed : In p b.providers
  pub available : provider_is_available p now ≡ true
  pub permitted : MayUse b user_id all_providers p
  pub kept : excluded ≢ some p.id

contains-In : (users : List String) (u : String) → contains users u ≡ true → In u users
contains-In [] u h = cc
contains-In (v ∷ users) u h = ground (arith, eq_iff v u, contains-In users u)

In-contains : (users : List String) (u : String) → In u users → contains users u ≡ true
In-contains [] u h = elim h [ ]
In-contains (v ∷ users) u h = ground (arith, eq_iff v u, In-contains users u)

owned_by_iff : (o : Option String) (u : String) → (owned_by o u ≡ true) ↔ (o ≡ some u)
owned_by_iff none u = (λ h. cc, λ h. cc)
owned_by_iff (some v) u = (λ h. ap some ((eq_iff v u).0 h), λ h. (eq_iff v u).1 (ground arith))

granted_to_sound :
    (o : Option (List String)) (u : String)
    → granted_to o u ≡ true
    → (users : List String) × (o ≡ some users) × In u users
granted_to_sound none u h = cc
granted_to_sound (some users) u h = (users, refl, contains-In users u h)

granted_to_complete :
    (o : Option (List String)) (u : String) (users : List String)
    → o ≡ some users
    → In u users
    → granted_to o u ≡ true
granted_to_complete o u users e h = rw e (In-contains users u h)

or-cases : (a b : Bool) → (a || b) ≡ true → (a ≡ true) ⊎ (b ≡ true)
or-cases true b h = inl refl
or-cases false b h = inr h

or-left : (a b : Bool) → a ≡ true → (a || b) ≡ true
or-left true b h = refl
or-left false b h = cc

or-right : (a b : Bool) → b ≡ true → (a || b) ≡ true
or-right true b h = refl
or-right false b h = h

module _ (b : Balancer) (user_id : String) (all_providers : Bool) (p : Provider) where
  is_permitted_sound :
      is_permitted b user_id all_providers p ≡ true → MayUse b user_id all_providers p
  unfolding is_permitted
  is_permitted_sound h = elim (or-cases _ _ h) [
    | inl every ↦ inl every
    | inr rest ↦ elim (or-cases _ _ rest) [
      | inl owned ↦ inr (inl ((owned_by_iff p.owner_id user_id).0 owned))
      | inr granted ↦ inr (inr (granted_to_sound _ user_id granted))
    ]
  ]

  is_permitted_complete :
      MayUse b user_id all_providers p → is_permitted b user_id all_providers p ≡ true
  unfolding is_permitted
  is_permitted_complete (inl every) = or-left _ _ every
  is_permitted_complete (inr (inl owned)) =
      or-right all_providers _ (or-left _ _ ((owned_by_iff p.owner_id user_id).1 owned))
  is_permitted_complete (inr (inr (users, found, member))) =
      or-right all_providers _ (
        or-right (owned_by p.owner_id user_id) _ (granted_to_complete _ user_id users found member))

is_excluded_iff :
    (o : Option String) (id : String) → (not (is_excluded o id) ≡ true) ↔ (o ≢ some id)
is_excluded_iff none id = (λ h e. cc, λ h. refl)
is_excluded_iff (some other) id = ground (arith, eq_iff other id)

module _ (b : Balancer) (now : ℤ) (user_id : String) (all_providers : Bool)
    (excluded : Option String) (p : Provider) where
  abbrev usable : List Provider
  usable = filter_by (λ item. provider_is_available item now) b.providers

  abbrev permitted_ones : List Provider
  permitted_ones = filter_by (is_permitted b user_id all_providers) usable

  eligible_sound :
      In p (eligible b now user_id all_providers excluded)
      → IsEligible b now user_id all_providers excluded p
  unfolding eligible
  eligible_sound h =
      let (h₁, kept) =
        In-filter_by (λ item. not (is_excluded excluded item.id)) p permitted_ones h in
      let (h₂, permitted) = In-filter_by (is_permitted b user_id all_providers) p usable h₁ in
      let (listed, available) =
        In-filter_by (λ item. provider_is_available item now) p b.providers h₂ in
      record {
        listed = listed;
        available = available;
        permitted = is_permitted_sound b user_id all_providers p permitted;
        kept = (is_excluded_iff excluded p.id).0 kept;
      }

  eligible_complete :
      IsEligible b now user_id all_providers excluded p
      → In p (eligible b now user_id all_providers excluded)
  unfolding eligible
  eligible_complete e =
      filter_by-In (λ item. not (is_excluded excluded item.id)) p permitted_ones
        (filter_by-In (is_permitted b user_id all_providers) p usable
          (filter_by-In (λ item. provider_is_available item now) p b.providers e.listed e.available)
          (is_permitted_complete b user_id all_providers p e.permitted))
        ((is_excluded_iff excluded p.id).1 e.kept)

  -- `select` filters the list down to exactly the eligible providers.
  pub eligible_iff :
      In p (eligible b now user_id all_providers excluded)
      ↔ IsEligible b now user_id all_providers excluded p
  eligible_iff = (eligible_sound, eligible_complete)
