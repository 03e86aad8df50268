-- ===== src/Oauth.antt =====
-- src/oauth.rs: the flows that are waiting for their code, and the requests for tokens.
pub mod Redemption
use open_ai_lb.Prelude.{
  ℕ, String, Bool, true, false, not, ◌&&◌, ◌||◌, Option, none, some, List, [], ◌∷◌, ◌==◌,
  if◌then◌else◌, ◌or_else◌, and_then, map_option, keep_if, unwrap_or,
}
use open_ai_lb.Prelude.Int.{ℤ, pos, ◌+ℤ◌, wrap, ltb_ℤ, leb_ℤ}
use open_ai_lb.Prelude.Map
use open_ai_lb.Prelude.Map.{Map}
use open_ai_lb.Text.{chars, split_once, is_empty}
use open_ai_lb.Errors.{
  AppError, Result, ok, err, panic, ◌>>=◌, ◌>>◌, bad_request, internal, upstream,
}
use open_ai_lb.External.{External}
use open_ai_lb.Json.{
  Value, Items, nil, cons, array, string, integer, member, pointer, as_str, as_i64,
}
use open_ai_lb.Keys.{is_success}

-- The members of the configuration that OAuth reads.
pub record OauthConfig : Type 0 where
  pub authorize_url : String
  pub redirect_uri : String
  pub client_id : String

-- `OAuthFlow` of src/lib.rs.
pub record OauthFlow : Type 0 where
  pub verifier : String
  pub created_by : String
  pub expires_at : ℤ

pub record OauthStart : Type 0 where
  pub authorize_url : String
  pub state : String

pub record TokenResponse : Type 0 where
  pub access_token : String
  pub refresh_token : String
  pub expires_in : ℤ

-- What the token endpoint answers: nothing, or a status with a body.
pub data TokenReply : Type 0 where
  unreachable : TokenReply
  reply : ℕ → List ℕ → TokenReply

abbrev pub internal_error : AppError
internal_error = internal "internal server error"

abbrev pub or_internal {ℓ} : {A : Type ℓ} → Option A → Result A
or_internal none = err internal_error
or_internal (some a) = ok a

abbrev token_of : Option String → Option String → Option ℤ → Option TokenResponse
token_of (some access) (some refresh) (some expires) =
    some (record { access_token = access; refresh_token = refresh; expires_in = expires })
token_of (some access) (some refresh) none = none
token_of (some access) none expires = none
token_of none refresh expires = none

-- `Deserialize for TokenResponse`: an object with the three members, or an array of the three values.
unfoldable pub read_token : Value → Option TokenResponse
read_token (array (cons access (cons refresh (cons expires nil)))) =
    token_of (as_str access) (as_str refresh) (as_i64 expires)
read_token value =
    token_of (and_then (member value "access_token") as_str)
      (and_then (member value "refresh_token") as_str) (and_then (member value "expires_in") as_i64)

abbrev pub is_complete : TokenResponse → Bool
is_complete token = not (
    is_empty token.access_token || (is_empty token.refresh_token || leb_ℤ token.expires_in (pos 0)))

-- `token_request`, after its form was sent.
unfoldable pub token_request : External → TokenReply → Result TokenResponse
token_request x unreachable = err internal_error
token_request x (reply status body) =
    if not (is_success status)
    then err (upstream status "CodeX OAuth token exchange failed")
    else (do
      token ← or_internal (and_then (x.from_slice body) read_token)
      (if is_complete token
          then ok token
          else err (upstream 502 "CodeX OAuth response is missing fields")))

-- The forms of `exchange` and `refresh`.
abbrev pub exchange_form : OauthConfig → String → OauthFlow → List (String × String)
exchange_form config auth_code flow =
    ("grant_type", "authorization_code")
    ∷ ("client_id", config.client_id)
    ∷ ("code", auth_code)
    ∷ ("code_verifier", flow.verifier)
    ∷ ("redirect_uri", config.redirect_uri)
    ∷ []

abbrev pub refresh_form : OauthConfig → String → List (String × String)
refresh_form config refresh_token =
    ("grant_type", "refresh_token")
    ∷ ("refresh_token", refresh_token)
    ∷ ("client_id", config.client_id)
    ∷ []

-- `token.split('.').nth(1)`.
abbrev until_dot : List ℕ → Option (List ℕ × List ℕ) → List ℕ
until_dot s none = s
until_dot s (some (before, after)) = before

abbrev second_part : Option (List ℕ × List ℕ) → Option (List ℕ)
second_part none = none
second_part (some (before, after)) = some (until_dot after (split_once (46 ∷ []) after))

abbrev claims_of : External → String → Option Value
claims_of x token =
    and_then (and_then (second_part (split_once (46 ∷ []) (chars token))) x.base64_decode)
      x.from_slice

unfoldable pub account_id_from_jwt : External → String → Option String
account_id_from_jwt x token = and_then (claims_of x token) (λ claims.
    and_then
      (pointer claims ("https://api.openai.com/auth" ∷ "chatgpt_account_id" ∷ [])
        or_else pointer claims ("https://api.openai.com/auth" ∷ "account_id" ∷ []))
      as_str)

unfoldable pub expires_at_from_jwt : External → String → Option ℤ
expires_at_from_jwt x token =
    and_then (claims_of x token) (λ claims. and_then (member claims "exp") as_i64)

abbrev pub may_redeem : String → ℤ → OauthFlow → Bool
may_redeem user_id now flow = (flow.created_by == user_id) && ltb_ℤ now flow.expires_at

module _ (x : External) where
  abbrev authorize_query : OauthConfig → String → String → List (String × String)
  authorize_query config challenge raw_state =
      ("response_type", "code")
      ∷ ("client_id", config.client_id)
      ∷ ("redirect_uri", config.redirect_uri)
      ∷ ("scope", "openid profile email offline_access")
      ∷ ("code_challenge", challenge)
      ∷ ("code_challenge_method", "S256")
      ∷ ("state", raw_state)
      ∷ ("id_token_add_organizations", "true")
      ∷ ("codex_cli_simplified_flow", "true")
      ∷ ("originator", "codex_cli_rs")
      ∷ []

  abbrev pub state_hash : String → String
  state_hash raw_state = x.sha256_hex raw_state

  -- The writes of `start` to the flows.
  unfoldable pub add_flow : Map OauthFlow → String → String → String → ℤ → Map OauthFlow
  add_flow flows user_id verifier raw_state now =
      Map.put (Map.retain (λ _ (flow : OauthFlow). ltb_ℤ now flow.expires_at) flows)
        (state_hash raw_state)
        (record { verifier = verifier; created_by = user_id; expires_at = wrap (now +ℤ pos 600) })

  -- `start`, with the verifier and the state as they were drawn.
  unfoldable pub start :
      Map OauthFlow → OauthConfig → String → String → String → ℤ → Result OauthStart × Map OauthFlow
  unfolding add_flow
  start flows config user_id verifier raw_state now = (
    or_internal (
        map_option (λ (url : String). record { authorize_url = url; state = raw_state })
          (x.url_with_query config.authorize_url
            (authorize_query config (x.sha256_base64 verifier) raw_state))),
    add_flow flows user_id verifier raw_state now,
  )

  -- `remove_if`, with the flow that was there.
  unfoldable pub redeem : Map OauthFlow → String → String → ℤ → Option OauthFlow × Map OauthFlow
  redeem flows raw_state user_id now =
      elim (keep_if (may_redeem user_id now) (Map.get flows (state_hash raw_state))) [
        | none ↦ (none, flows)
        | some flow ↦ (some flow, Map.remove flows (state_hash raw_state))
      ]

  abbrev redeemed_token : Option OauthFlow → (OauthFlow → TokenReply) → Result TokenResponse
  redeemed_token none endpoint = err (bad_request "invalid or expired OAuth state")
  redeemed_token (some flow) endpoint = token_request x (endpoint flow)

  -- `exchange`, at an endpoint that answers a form.
  unfoldable pub exchange :
      Map OauthFlow
      → OauthConfig
      → (List (String × String) → TokenReply)
      → String
      → String
      → String
      → ℤ
      → Result TokenResponse × Map OauthFlow
  unfolding redeem
  exchange flows config endpoint raw_state auth_code user_id now =
      let found = redeem flows raw_state user_id now in
      (redeemed_token found.0 (λ flow. endpoint (exchange_form config auth_code flow)), found.1)

  -- `refresh`.
  unfoldable pub refresh :
      OauthConfig → (List (String × String) → TokenReply) → String → Result TokenResponse
  refresh config endpoint refresh_token =
      token_request x (endpoint (refresh_form config refresh_token))
