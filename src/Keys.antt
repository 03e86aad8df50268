-- ===== src/Keys.antt =====
-- src/proxy.rs: what a request tells of its conversation, and the error that a response reports.
use Prim.Native.String
use open_ai_lb.Prelude.{
  ℕ, String, Bool, not, Option, none, some, List, [], ◌∷◌, ◌or_else◌, and_then, map_option, keep_if,
  unwrap_or, if◌then◌else◌, leb, ltb, ◌&&◌,
}
use open_ai_lb.Text.{trim, is_empty}
use open_ai_lb.External.{External}
use open_ai_lb.Errors.{display_u16}
use open_ai_lb.Json.{Value, member, pointer, as_str}
use open_ai_lb.Audit.{HeaderMap, header_value}

pub record AffinityKey : Type 0 where
  pub source : String
  pub value : String

-- `map(str::trim).filter(|value| !value.is_empty())`.
abbrev pub trimmed : Option String → Option String
trimmed o = keep_if (λ s. not (is_empty s)) (map_option trim o)

-- `find_map` over names, with the name.
abbrev key_of : String → Option String → Option AffinityKey → Option AffinityKey
key_of name none rest = rest
key_of name (some value) rest = some (record { source = name; value = value })

unfoldable pub key_in_headers : List String → HeaderMap → Option AffinityKey
key_in_headers [] headers = none
key_in_headers (name ∷ names) headers =
    key_of name (trimmed (header_value headers name)) (key_in_headers names headers)

unfoldable pub key_in_body : List String → Value → Option AffinityKey
key_in_body [] body = none
key_in_body (name ∷ names) body =
    key_of name (trimmed (and_then (member body name) as_str)) (key_in_body names body)

abbrev pub affinity_headers : List String
affinity_headers =
    "x-lb-affinity-key" ∷ "session_id" ∷ "x-session-id" ∷ "x-codex-session-id"
    ∷ "x-codex-conversation-id" ∷ "thread-id" ∷ []

abbrev pub affinity_members : List String
affinity_members = "session_id" ∷ "previous_response_id" ∷ "prompt_cache_key" ∷ []

unfoldable pub affinity_key : HeaderMap → Option Value → Option AffinityKey
unfolding key_in_headers key_in_body
affinity_key headers body =
    key_in_headers affinity_headers headers or_else and_then body (key_in_body affinity_members)

unfoldable pub thread_id : HeaderMap → Option String
unfolding key_in_headers
thread_id headers =
    map_option (λ (key : AffinityKey). key.value)
      (key_in_headers ("x-codex-conversation-id" ∷ "thread-id" ∷ []) headers)

-- `format!("{}:{}", consumer_id, key.value)`.
abbrev pub scoped : String → AffinityKey → String
scoped consumer_id key = String.◌++◌ consumer_id (String.◌++◌ ":" key.value)

unfoldable pub reasoning_effort : Value → Option String
reasoning_effort request =
    and_then (pointer request ("reasoning" ∷ "effort" ∷ [])) as_str
    or_else and_then (member request "reasoning_effort") as_str

abbrev pub is_success : ℕ → Bool
is_success status = leb 200 status && ltb status 300

unfoldable pub error_from : External → ℕ → List ℕ → Option String
error_from x status bytes =
    if is_success status
    then none
    else some (
        unwrap_or
          (and_then (x.from_slice bytes)
            (λ v. and_then (pointer v ("error" ∷ "message" ∷ [])) as_str))
          (String.◌++◌ "upstream HTTP " (display_u16 status)))
