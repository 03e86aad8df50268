-- ===== src/Oauth/Redemption.antt =====
-- src/oauth.rs: a state of OAuth is redeemed at most once for each time it was handed out, by the user
-- it was handed to, and within ten minutes.
use open_ai_lb.Prelude.{
  ℕ, suc, ◌+◌, ◌≤◌, String, Bool, ◌&&◌, Option, none, some, List, [], ◌∷◌, ◌≡◌, refl, sym, ap, ◌∙◌,
  inl, inr, arith, ◌==◌, eq_iff, eq_refl, if◌then◌else◌, Bool-cases, keep_if,
}
use open_ai_lb.Prelude.Int.{ℤ, pos, wrap, ◌+ℤ◌, ltb_ℤ}
use open_ai_lb.Prelude.Map
use open_ai_lb.Prelude.Map.{Map, get-put, get-remove, get-retain}
use open_ai_lb.External.{External}
use open_ai_lb.Oauth.{OauthFlow, add_flow, redeem, state_hash, may_redeem}

-- The calls on the flows, and their log.
pub data Call : Type 0 where
  starts : (user_id verifier raw_state : String) (now : ℤ) → Call
  redeems : (raw_state user_id : String) (now : ℤ) → Call

pub record Desk : Type 0 where
  pub flows : Map OauthFlow
  pub started : List String
  pub redeemed : List String

abbrev logged : String → Option OauthFlow → List String → List String
logged hash none log = log
logged hash (some flow) log = hash ∷ log

abbrev pub times : String → List String → ℕ
times hash [] = 0
times hash (h ∷ log) = if h == hash then suc (times hash log) else times hash log

abbrev present : Option OauthFlow → ℕ
present none = 0
present (some flow) = 1

abbrev is_live : ℤ → OauthFlow → Bool
is_live now flow = ltb_ℤ now flow.expires_at

abbrev pub flow_of : String → String → ℤ → OauthFlow
flow_of user_id verifier now = record {
  verifier = verifier;
  created_by = user_id;
  expires_at = wrap (now +ℤ pos 600);
}

-- A flow that is kept was there.
kept :
    (p : OauthFlow → Bool) (o : Option OauthFlow) (flow : OauthFlow)
    → keep_if p o ≡ some flow
    → o ≡ some flow
kept p none flow e = e
kept p (some f) flow e = elim (Bool-cases (p f)) [
  | inl h ↦ rw h at e
  | inr h ↦ absurd (cc (rw h at e))
]

present-keep_if : (p : OauthFlow → Bool) (o : Option OauthFlow) → present (keep_if p o) ≤ present o
present-keep_if p none = omega arith
present-keep_if p (some flow) = elim (Bool-cases (p flow)) [
  | inl e ↦ rw e (omega arith)
  | inr e ↦ rw e (omega arith)
]

module _ (x : External) where
  unfoldable pub step : Desk → Call → Desk
  step d (starts user_id verifier raw_state now) = record d {
    flows = add_flow x d.flows user_id verifier raw_state now;
    started = state_hash x raw_state ∷ d.started;
  }
  step d (redeems raw_state user_id now) = record d {
    flows = (redeem x d.flows raw_state user_id now).1;
    redeemed =
        logged (state_hash x raw_state) (redeem x d.flows raw_state user_id now).0 d.redeemed;
  }

  unfoldable pub run : Desk → List Call → Desk
  run d [] = d
  run d (c ∷ cs) = run (step d c) cs

  -- Each waiting flow and each redemption has a start of its own.
  pub record IsBacked (d : Desk) : Type 0 where
    pub backed :
        (hash : String)
        → times hash d.redeemed + present (Map.get d.flows hash) ≤ times hash d.started

  get-add_flow :
      (flows : Map OauthFlow) (user_id verifier raw_state : String) (now : ℤ) (hash : String)
      → Map.get (add_flow x flows user_id verifier raw_state now) hash ≡ (
          if state_hash x raw_state == hash
          then some (flow_of user_id verifier now)
          else keep_if (is_live now) (Map.get flows hash))
  unfolding add_flow
  get-add_flow flows user_id verifier raw_state now hash = rw (
    get-put (Map.retain (λ _ flow. is_live now flow) flows) (state_hash x raw_state) hash
        (flow_of user_id verifier now),
    get-retain (λ _ flow. is_live now flow) flows hash,
  )

  step-IsBacked : (d : Desk) (c : Call) → IsBacked d → IsBacked (step d c)
  unfolding step redeem
  step-IsBacked d (starts user_id verifier raw_state now) v = record {
    backed = λ hash.
        rw (get-add_flow d.flows user_id verifier raw_state now hash)
          (elim (Bool-cases (state_hash x raw_state == hash)) [
            | inl e ↦ rw e (omega (arith, v.backed hash))
            | inr e ↦
                rw e (
                  omega
                    (arith, v.backed hash, present-keep_if (is_live now) (Map.get d.flows hash)))
          ]);
  }
  step-IsBacked d (redeems raw_state user_id now) v = record {
    backed = λ hash.
        redeemed hash (keep_if (may_redeem user_id now) (Map.get d.flows (state_hash x raw_state)))
          refl;
  }
    where
      redeemed :
          (hash : String) (found : Option OauthFlow)
          → keep_if (may_redeem user_id now) (Map.get d.flows (state_hash x raw_state)) ≡ found
          → times hash (
                logged
                  (state_hash x raw_state)
                  (redeem x d.flows raw_state user_id now).0
                  d.redeemed)
              + present (Map.get (redeem x d.flows raw_state user_id now).1 hash)
            ≤ times hash d.started
      redeemed hash none e = rw (e, redeem) (v.backed hash)
      redeemed hash (some flow) e =
          rw (e, redeem, get-remove d.flows (state_hash x raw_state) hash)
            (elim (Bool-cases (state_hash x raw_state == hash)) [
              | inl h ↦ rw h (
                  omega (
                    arith,
                    v.backed hash,
                    ap present (
                        ap (Map.get d.flows) (sym ((eq_iff (state_hash x raw_state) hash).0 h))
                        ∙ kept _ _ flow e),
                  ))
              | inr h ↦ rw h (v.backed hash)
            ])

  -- Over any calls, a state is redeemed at most as often as it was handed out; so a state that is
  -- handed out once is good for one redemption.
  pub run-IsBacked : (d : Desk) (cs : List Call) → IsBacked d → IsBacked (run d cs)
  unfolding run
  run-IsBacked d [] v = v
  run-IsBacked d (c ∷ cs) v = run-IsBacked (step d c) cs (step-IsBacked d c v)

  -- A state that was handed out at `now` is redeemed at once by the user that it was handed to, and by no
  -- other; the redemption finds the verifier of the start and takes the flow away. At a time at which
  -- ten minutes are over, or for another user, nothing is redeemed and the flows stay as they are.
  pub redeem-add_flow :
      (flows : Map OauthFlow) (user_id verifier raw_state : String) (now : ℤ) (user : String)
      (later : ℤ)
      → redeem x (add_flow x flows user_id verifier raw_state now) raw_state user later ≡ (
          if (user_id == user) && ltb_ℤ later (wrap (now +ℤ pos 600))
          then (
            some (flow_of user_id verifier now),
            Map.remove (add_flow x flows user_id verifier raw_state now) (state_hash x raw_state),
          )
          else (none, add_flow x flows user_id verifier raw_state now))
  unfolding redeem
  redeem-add_flow flows user_id verifier raw_state now user later =
      rw
        (
          get-add_flow flows user_id verifier raw_state now (state_hash x raw_state),
          eq_refl (state_hash x raw_state),
          redeem,
        )
        (elim (Bool-cases (may_redeem user later (flow_of user_id verifier now))) [
          | inl e ↦ rw e
          | inr e ↦ rw e
        ])
