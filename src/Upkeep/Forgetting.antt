-- ===== src/Upkeep/Forgetting.antt =====
-- src/balancer.rs: `forget_provider` leaves no trace of the provider, and nothing else changes.
use open_ai_lb.Prelude.{
  String, Bool, true, false, not, Option, none, some, List, [], ◌∷◌, ◌≡◌, refl, ◌∙◌, ◌≢◌, ◌↔◌, inl,
  inr, ◌==◌, eq_iff, eq_refl, arith, In, In-filter_by, filter_by-In, filter_by, contains,
  Bool-cases, if◌then◌else◌,
}
use open_ai_lb.Prelude.Map
use open_ai_lb.Prelude.Map.{Map, get-put, get-remove}
use open_ai_lb.Provider.{Provider}
use open_ai_lb.Balancer.{Balancer, AffinityEntry, load}
use open_ai_lb.Upkeep.{is_named, hashes_of, forget_hash, forget_hashes, forget_provider, without}

abbrev unless_named : Option AffinityEntry → String → Option AffinityEntry
unless_named o id = if is_named o id then none else o

unless_named_idem :
    (o : Option AffinityEntry) (id : String)
    → unless_named (unless_named o id) id ≡ unless_named o id
unless_named_idem none id = refl
unless_named_idem (some e) id = ground arith

get-forget_hash :
    (id : String) (b : Balancer) (hash j : String)
    → Map.get (forget_hash id b hash).affinities j
      ≡ (if hash == j then unless_named (Map.get b.affinities j) id else Map.get b.affinities j)
unfolding forget_hash
get-forget_hash id b hash j = elim (Bool-cases (is_named (Map.get b.affinities hash) id)) [
  | inl named ↦
      rw named (rw (get-remove b.affinities hash j) (ground (arith, eq_iff hash j, named)))
  | inr other ↦ rw other (ground (arith, eq_iff hash j, other))
]

dirty-forget_hash :
    (id : String) (b : Balancer) (hash j : String)
    → Map.get (forget_hash id b hash).dirty_affinities j ≡ (
        if is_named (Map.get b.affinities hash) id
        then (if hash == j then none else Map.get b.dirty_affinities j)
        else Map.get b.dirty_affinities j)
unfolding forget_hash
dirty-forget_hash id b hash j = elim (Bool-cases (is_named (Map.get b.affinities hash) id)) [
  | inl named ↦
      rw (named, get-remove b.affinities hash hash, eq_refl hash)
        (get-remove b.dirty_affinities hash j)
  | inr other ↦ rw other refl
]

is_named-unless_named :
    (o : Option AffinityEntry) (id : String) → is_named (unless_named o id) id ≡ false
is_named-unless_named none id = refl
is_named-unless_named (some e) id = ground arith

get-forget_hashes :
    (id : String) (b : Balancer) (hashes : List String) (j : String)
    → Map.get (forget_hashes id b hashes).affinities j ≡ (
        if contains hashes j
        then unless_named (Map.get b.affinities j) id
        else Map.get b.affinities j)
unfolding forget_hashes
get-forget_hashes id b [] j = refl
get-forget_hashes id b (hash ∷ hashes) j = ground (
  arith,
  get-forget_hashes id (forget_hash id b hash) hashes j,
  get-forget_hash id b hash j,
  unless_named_idem (Map.get b.affinities j) id,
)

dirty-forget_hashes :
    (id : String) (b : Balancer) (hashes : List String) (j : String)
    → Map.get (forget_hashes id b hashes).dirty_affinities j ≡ (
        if contains hashes j
        then (if is_named (Map.get b.affinities j) id then none else Map.get b.dirty_affinities j)
        else Map.get b.dirty_affinities j)
unfolding forget_hashes
dirty-forget_hashes id b [] j = refl
dirty-forget_hashes id b (hash ∷ hashes) j = ground (
  arith,
  dirty-forget_hashes id (forget_hash id b hash) hashes j,
  dirty-forget_hash id b hash j,
  get-forget_hash id b hash j,
  is_named-unless_named (Map.get b.affinities j) id,
  eq_iff hash j,
)

-- The loop writes the two affinity maps only.
abbrev SameElsewhere : Balancer → Balancer → Type 0
SameElsewhere b c =
    (c.providers ≡ b.providers)
    × (c.inflight ≡ b.inflight)
    × (c.provider_updates ≡ b.provider_updates)
    × (c.provider_grants ≡ b.provider_grants)
    × (c.cursor ≡ b.cursor)

forget_hash-elsewhere :
    (id : String) (b : Balancer) (hash : String) → SameElsewhere b (forget_hash id b hash)
unfolding forget_hash
forget_hash-elsewhere id b hash = elim (Bool-cases (is_named (Map.get b.affinities hash) id)) [
  | inl named ↦ rw named (refl, refl, refl, refl, refl)
  | inr other ↦ rw other (refl, refl, refl, refl, refl)
]

forget_hashes-elsewhere :
    (id : String) (b : Balancer) (hashes : List String)
    → SameElsewhere b (forget_hashes id b hashes)
unfolding forget_hashes
forget_hashes-elsewhere id b [] = (refl, refl, refl, refl, refl)
forget_hashes-elsewhere id b (hash ∷ hashes) =
    let rest = forget_hashes-elsewhere id (forget_hash id b hash) hashes in
    let first = forget_hash-elsewhere id b hash in
    (rest.0 ∙ first.0, rest.1 ∙ first.1, rest.2 ∙ first.2, rest.3 ∙ first.3, rest.4 ∙ first.4)

contains-hashes_of :
    (id : String) (m : Map AffinityEntry) (j : String)
    → is_named (Map.get m j) id ≡ true
    → contains (hashes_of id m) j ≡ true
unfolding Map.get
contains-hashes_of id [] j h = cc
contains-hashes_of id ((hash, entry) ∷ m) j h = ground (arith, contains-hashes_of id m j)

unless_named-contains :
    (id : String) (m : Map AffinityEntry) (j : String)
    → (if contains (hashes_of id m) j then unless_named (Map.get m j) id else Map.get m j)
      ≡ unless_named (Map.get m j) id
unless_named-contains id m j = ground (arith, contains-hashes_of id m j)

dirty-contains :
    {D : Type 0} (id : String) (m : Map AffinityEntry) (j : String) (d : D) (e : D)
    → (if contains (hashes_of id m) j then (if is_named (Map.get m j) id then e else d) else d)
      ≡ (if is_named (Map.get m j) id then e else d)
dirty-contains id m j d e = ground (arith, contains-hashes_of id m j)

module _ (b : Balancer) (id : String) where
  abbrev left : Balancer
  left = forget_provider b id

  forget_provider-elsewhere :
      (left.providers ≡ without id b.providers)
      × (left.inflight ≡ Map.remove b.inflight id)
      × (left.provider_updates ≡ Map.remove b.provider_updates id)
      × (left.provider_grants ≡ Map.remove b.provider_grants id)
      × (left.cursor ≡ b.cursor)
  unfolding forget_provider
  forget_provider-elsewhere = forget_hashes-elsewhere id _ (hashes_of id b.affinities)

  -- What is known of a balancer after a provider was forgotten, for each key `j` and provider `p`.
  pub record IsForgotten : Type 0 where
    pub listed : (p : Provider) → In p left.providers ↔ (In p b.providers × (p.id ≢ id))
    pub order : left.providers ≡ filter_by (λ p. not (p.id == id)) b.providers
    pub cursor : left.cursor ≡ b.cursor
    pub idle : (j : String) → load left j ≡ (if id == j then 0 else load b j)
    pub updates :
        (j : String)
        → Map.get left.provider_updates j ≡ (if id == j then none else Map.get b.provider_updates j)
    pub grants :
        (j : String)
        → Map.get left.provider_grants j ≡ (if id == j then none else Map.get b.provider_grants j)
    pub affinities :
        (j : String)
        → Map.get left.affinities j
          ≡ (if is_named (Map.get b.affinities j) id then none else Map.get b.affinities j)
    pub dirty :
        (j : String)
        → Map.get left.dirty_affinities j
          ≡ (if is_named (Map.get b.affinities j) id then none else Map.get b.dirty_affinities j)

  forget_provider-listed : (p : Provider) → In p left.providers ↔ (In p b.providers × (p.id ≢ id))
  forget_provider-listed p = rw (forget_provider-elsewhere.0) (sound, complete)
    where
      other : Provider → Bool
      other provider = not (provider.id == id)

      sound : In p (without id b.providers) → In p b.providers × (p.id ≢ id)
      sound m =
          let (member, differs) = In-filter_by other p b.providers m in
          (member, ground (arith, eq_iff p.id id))

      complete : In p b.providers × (p.id ≢ id) → In p (without id b.providers)
      complete h = filter_by-In other p b.providers h.0 (ground (arith, eq_iff p.id id))

  -- `forget_provider` removes the provider from the snapshot, its counter, its waiting update, its
  -- grants, and each affinity entry that names it with its mark; whatever belongs to another
  -- provider, the order of the snapshot and the cursor stay as they were.
  pub forget_provider-IsForgotten : IsForgotten
  unfolding forget_provider
  forget_provider-IsForgotten = record {
    listed = forget_provider-listed;
    order = forget_provider-elsewhere.0;
    cursor = forget_provider-elsewhere.4;
    idle = λ j.
        unfold load in
        rw (forget_provider-elsewhere.1) (rw (get-remove b.inflight id j) (ground arith));
    updates = λ j. rw (forget_provider-elsewhere.2) (get-remove b.provider_updates id j);
    grants = λ j. rw (forget_provider-elsewhere.3) (get-remove b.provider_grants id j);
    affinities = λ j.
        get-forget_hashes id _ (hashes_of id b.affinities) j
        ∙ unless_named-contains id b.affinities j;
    dirty = λ j.
        dirty-forget_hashes id _ (hashes_of id b.affinities) j
        ∙ dirty-contains id b.affinities j (Map.get b.dirty_affinities j) none;
  }
