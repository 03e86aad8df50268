-- ===== src/Access/Archives.antt =====
-- src/api.rs: the headers of an archived request that a user may see.
use open_ai_lb.Prelude.{
  ℕ, ◌+◌, String, Bool, true, false, not, ◌&&◌, ◌||◌, Option, none, some, List, [], ◌∷◌, ◌≡◌, refl,
  inl, inr, if◌then◌else◌, is_some, leb, map, map_option, and_then, Bool-cases,
}
use open_ai_lb.Text.{chars, strip_prefix, split_once, backwards}
use open_ai_lb.External.{External}
use open_ai_lb.Json.{Value, Items, nil, cons, array, string}

-- `to_ascii_lowercase`, of a character.
abbrev lower_char : ℕ → ℕ
lower_char c = if leb 65 c && leb c 90 then c + 32 else c

abbrev lower : String → List ℕ
lower name = map lower_char (chars name)

abbrev is_nothing : Option (List ℕ) → Bool
is_nothing (some []) = true
is_nothing (some (c ∷ s)) = false
is_nothing none = false

abbrev is_text : List ℕ → String → Bool
is_text s name = is_nothing (strip_prefix (chars name) s)

abbrev is_listed : List String → List ℕ → Bool
is_listed [] s = false
is_listed (name ∷ names) s = is_text s name || is_listed names s

abbrev ends_in : List ℕ → String → Bool
ends_in s pattern = is_some (strip_prefix (backwards (chars pattern) []) (backwards s []))

abbrev sensitive_names : List String
sensitive_names =
    "authorization" ∷ "proxy-authorization" ∷ "cookie" ∷ "set-cookie" ∷ "api-key" ∷ "x-api-key"
    ∷ "x-openai-api-key" ∷ "x-goog-api-key" ∷ "x-auth" ∷ "x-credential" ∷ "access-key"
    ∷ "x-amz-security-token" ∷ "x-session-id" ∷ "x-codex-session-id" ∷ "session-id" ∷ "session_id"
    ∷ []

abbrev is_sensitive : List ℕ → Bool
is_sensitive s =
    is_listed sensitive_names s
    || (ends_in s "-api-key" || (ends_in s "-token" || is_some (split_once (chars "secret") s)))

unfoldable pub sensitive_header : String → Bool
sensitive_header name = is_sensitive (lower name)

-- `Vec<(String, String)>` as `serde_json` reads and prints it: arrays of two texts.
abbrev add_pair :
    Option (String × String) → Option (List (String × String)) → Option (List (String × String))
add_pair none rest = none
add_pair (some pair) none = none
add_pair (some pair) (some pairs) = some (pair ∷ pairs)

abbrev read_pair : Value → Option (String × String)
read_pair (array (cons (string name) (cons (string value) nil))) = some (name, value)
read_pair _ = none

unfoldable pub read_pairs : Items → Option (List (String × String))
read_pairs nil = some []
read_pairs (cons v vs) = add_pair (read_pair v) (read_pairs vs)

abbrev pairs_of : Value → Option (List (String × String))
pairs_of (array vs) = read_pairs vs
pairs_of _ = none

unfoldable pub print_pairs : List (String × String) → Items
print_pairs [] = nil
print_pairs ((name, value) ∷ pairs) =
    cons (array (cons (string name) (cons (string value) nil))) (print_pairs pairs)

unfoldable pub without_sensitive : List (String × String) → List (String × String)
without_sensitive [] = []
without_sensitive ((name, value) ∷ pairs) =
    let rest = without_sensitive pairs in
    if sensitive_header name then rest else (name, value) ∷ rest

module _ (x : External) (from_str : String → Option Value) where
  abbrev shown : Option (List (String × String)) → String
  shown none = "[]"
  shown (some pairs) = x.to_string (array (print_pairs (without_sensitive pairs)))

  -- `visible_archive_headers`, with the reader of JSON texts.
  unfoldable pub visible_archive_headers : Option String → Bool → Option String
  unfolding read_pairs print_pairs without_sensitive
  visible_archive_headers headers true = headers
  visible_archive_headers headers false =
      map_option (λ text. shown (and_then (from_str text) pairs_of)) headers

-- What a user sees who is no administrator: nothing, no headers, or headers of which none is sensitive.
abbrev all_harmless : List (String × String) → Bool
all_harmless [] = true
all_harmless ((name, value) ∷ pairs) = not (sensitive_header name) && all_harmless pairs

data IsHarmless (x : External) : Option String → Type 0 where
  hidden : IsHarmless x none
  nothing : IsHarmless x (some "[]")
  headers :
      (pairs : List (String × String))
      → all_harmless pairs ≡ true
      → IsHarmless x (some (x.to_string (array (print_pairs pairs))))

without_sensitive-harmless :
    (pairs : List (String × String)) → all_harmless (without_sensitive pairs) ≡ true
unfolding without_sensitive
without_sensitive-harmless [] = refl
without_sensitive-harmless ((name, value) ∷ pairs) = elim (Bool-cases (sensitive_header name)) [
  | inl e ↦ rw e (without_sensitive-harmless pairs)
  | inr e ↦ rw (e, without_sensitive-harmless pairs, e)
]

-- Of archived headers, a caller that is no administrator sees none that is sensitive, whatever the
-- archive holds.
visible_archive_headers-IsHarmless :
    (x : External) (from_str : String → Option Value) (archived : Option String)
    → IsHarmless x (visible_archive_headers x from_str archived false)
unfolding visible_archive_headers
visible_archive_headers-IsHarmless x from_str none = hidden
visible_archive_headers-IsHarmless x from_str (some text) =
    shown_as (and_then (from_str text) pairs_of)
  where
    shown_as : (o : Option (List (String × String))) → IsHarmless x (some (shown x from_str o))
    shown_as none = nothing
    shown_as (some pairs) = headers (without_sensitive pairs) (without_sensitive-harmless pairs)
