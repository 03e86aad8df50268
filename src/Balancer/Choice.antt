-- ===== src/Balancer/Choice.antt =====
-- src/balancer.rs: `least_inflight` and `affinity_provider`.
use open_ai_lb.Prelude.{
  ℕ, ◌%◌, ◌≤◌, Bool, true, false, Option, none, some, List, [], ◌∷◌, ◌≡◌, refl, sym, ◌∙◌, ap, subst,
  ◌↔◌, ◌⊎◌, inl, inr, ◌==◌, eq_iff, arith, In, In-append, In-append_left, In-append_right, find-In,
  find-some, length, take, drop, take-drop-append, ltb, if◌then◌else◌,
}
use open_ai_lb.Prelude.Int.{ℤ, ltb_ℤ, ◌<ℤ◌, lt→ltb_ℤ}
use open_ai_lb.Errors.{ok}
use open_ai_lb.Provider.{Provider}
use open_ai_lb.Balancer.{
  Balancer, AffinityEntry, load, fetch_add, min_from, min_by_key, cycle_from, least_inflight,
  live_provider,
}

module _ (key : Provider → ℕ) where
  abbrev better : Provider → Provider → Provider
  better best x = if ltb (key x) (key best) then x else best

  better-le : (best x : Provider) → (key (better best x) ≤ key best) × (key (better best x) ≤ key x)
  better-le best x = ground arith

  better-cases : (best x : Provider) → (better best x ≡ x) ⊎ (better best x ≡ best)
  better-cases best x = ground arith

  -- No candidate has a smaller key than the result.
  min_from-le : (best : Provider) (xs : List Provider) → key (min_from key best xs) ≤ key best
  unfolding min_from
  min_from-le best [] = omega arith
  min_from-le best (x ∷ xs) = omega (arith, min_from-le (better best x) xs, (better-le best x).0)

  min_from-least :
      (best : Provider) (xs : List Provider) (q : Provider)
      → In q (best ∷ xs)
      → key (min_from key best xs) ≤ key q
  unfolding min_from
  min_from-least best xs q (inl e) = omega (arith, ap key e, min_from-le best xs)
  min_from-least best [] q (inr m) = elim m [ ]
  min_from-least best (x ∷ xs) q (inr (inl e)) =
      omega (arith, ap key e, min_from-le (better best x) xs, (better-le best x).1)
  min_from-least best (x ∷ xs) q (inr (inr m)) = min_from-least (better best x) xs q (inr m)

  min_from-In : (best : Provider) (xs : List Provider) → In (min_from key best xs) (best ∷ xs)
  unfolding min_from
  min_from-In best [] = inl refl
  min_from-In best (x ∷ xs) = widen (better-cases best x) (min_from-In (better best x) xs)
    where
      widen :
          {r : Provider}
          → (better best x ≡ x) ⊎ (better best x ≡ best)
          → In r (better best x ∷ xs)
          → In r (best ∷ x ∷ xs)
      widen (inl c) (inl e) = inr (inl (sym c ∙ e))
      widen (inr c) (inl e) = inl (sym c ∙ e)
      widen c (inr m) = inr (inr m)

  -- `min_by_key` of a list that is not empty.
  min_by_key_lem :
      (xs : List Provider) (p : Provider)
      → In p xs
      → (q : Provider) × (min_by_key key xs ≡ some q)
        × In q xs
        × ((r : Provider) → In r xs → key q ≤ key r)
  unfolding min_by_key
  min_by_key_lem [] p m = elim m [ ]
  min_by_key_lem (x ∷ xs) p m = (min_from key x xs, refl, min_from-In x xs, min_from-least x xs)

-- Starting elsewhere in the cycle, the candidates are the same.
In-cycle_from : (n : ℕ) (xs : List Provider) (q : Provider) → In q (cycle_from n xs) ↔ In q xs
In-cycle_from n xs q = (sound, complete)
  where
    sound : In q (cycle_from n xs) → In q xs
    sound m = subst (In q) (take-drop-append n xs) (elim (In-append q (drop n xs) (take n xs) m) [
      | inl k ↦ In-append_right q (take n xs) (drop n xs) k
      | inr k ↦ In-append_left q (take n xs) (drop n xs) k
    ])

    complete : In q xs → In q (cycle_from n xs)
    complete m =
        elim (In-append q (take n xs) (drop n xs) (subst (In q) (sym (take-drop-append n xs)) m)) [
          | inl k ↦ In-append_right q (drop n xs) (take n xs) k
          | inr k ↦ In-append_left q (drop n xs) (take n xs) k
        ]

-- With a candidate there is a choice: a candidate that serves no more calls than any other.
pub least_inflight-least :
    (b : Balancer) (p : Provider) (ps : List Provider)
    → (q : Provider) × (least_inflight b (p ∷ ps)
        ≡ (ok q, record b { cursor = fetch_add b.cursor }))
      × In q (p ∷ ps)
      × ((r : Provider) → In r (p ∷ ps) → load b q.id ≤ load b r.id)
unfolding least_inflight
least_inflight-least b p ps =
    let start : ℕ = b.cursor % length (p ∷ ps) in
    let cycled = In-cycle_from start (p ∷ ps) in
    let (q, found, member, least) =
      min_by_key_lem (λ provider. load b provider.id) (cycle_from start (p ∷ ps)) p
        ((cycled p).1 (inl refl)) in
    (q, rw found, (cycled q).0 member, λ r h. least r ((cycled r).1 h))

-- A provider that the affinity map names is a candidate.
pub live_provider-In :
    (o : Option AffinityEntry) (candidates : List Provider) (now : ℤ) {q : Provider}
    → live_provider o candidates now ≡ some q
    → In q candidates
live_provider-In none candidates now e = cc
live_provider-In (some entry) candidates now {q} e =
    (find-In (λ provider. provider.id == entry.provider_id) candidates
      (unless (ltb_ℤ now entry.expires_at) _ e)).0
  where
    unless : (c : Bool) (o : Option Provider) → (if c then o else none) ≡ some q → o ≡ some q
    unless true o h = h
    unless false o h = cc

-- While its entry is live, a key goes to the provider that the entry names, if it is a candidate.
pub live_provider-named :
    (o : Option AffinityEntry) (entry : AffinityEntry) (candidates : List Provider) (now : ℤ)
    (p : Provider)
    → o ≡ some entry
    → now <ℤ entry.expires_at
    → In p candidates
    → p.id ≡ entry.provider_id
    → (q : Provider) × (live_provider o candidates now ≡ some q) × (q.id ≡ p.id)
live_provider-named o entry candidates now p e live member same =
    let named = λ (provider : Provider). provider.id == entry.provider_id in
    let (q, found) = find-some named p candidates member ((eq_iff _ _).1 same) in
    let hit = (find-In named candidates found).1 in
    (q, rw (e, lt→ltb_ℤ now entry.expires_at live) found, (eq_iff _ _).0 hit ∙ sym same)
