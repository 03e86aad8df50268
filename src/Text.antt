-- ===== src/Text.antt =====
-- Texts as the standard library reads them: prefixes, `split_once`, `parse::<u64>` and `trim`. A text
-- is taken apart as the list of its characters' numbers.
use Prim.Native.Char.{code}
use open_ai_lb.Prelude.{
  zero, suc, ◌==◌, ℕ, ◌+◌, ◌-◌, ◌*◌, ◌^◌, String, Bool, true, false, ◌&&◌, ◌||◌, Option, none, some,
  List, [], ◌∷◌, eqb, leb, ltb, if◌then◌else◌, is_some,
}

unfoldable pub chars : String → List ℕ
chars String.[] = []
chars (String.◌∷◌ c s) = code c ∷ chars s

abbrev pub strip_prefix : List ℕ → List ℕ → Option (List ℕ)
strip_prefix [] s = some s
strip_prefix (p ∷ ps) [] = none
strip_prefix (p ∷ ps) (c ∷ s) = if eqb p c then strip_prefix ps s else none

-- `split_once`: what stands before the first place where the pattern begins, and what stands after it.
abbrev split_at : ℕ → Option (List ℕ) → Option (List ℕ × List ℕ) → Option (List ℕ × List ℕ)
split_at c (some after) rest = some ([], after)
split_at c none none = none
split_at c none (some (before, after)) = some (c ∷ before, after)

unfoldable pub split_once : List ℕ → List ℕ → Option (List ℕ × List ℕ)
split_once pattern [] = none
split_once pattern (c ∷ s) = split_at c (strip_prefix pattern (c ∷ s)) (split_once pattern s)

-- `parse::<u64>`: decimal digits, after a `+` if there is one, of a number below 2 ^ 64.
unfoldable pub parse_digits : ℕ → List ℕ → Option ℕ
parse_digits n [] = some n
parse_digits n (c ∷ s) =
    let next = n * 10 + (c - 48) in
    let rest = parse_digits next s in
    if leb 48 c && leb c 57 && ltb next (2 ^ 64) then rest else none

unfoldable pub parse_u64 : List ℕ → Option ℕ
unfolding parse_digits
parse_u64 [] = none
parse_u64 (c ∷ []) = parse_digits 0 (c ∷ [])
parse_u64 (c ∷ d ∷ s) = if eqb c 43 then parse_digits 0 (d ∷ s) else parse_digits 0 (c ∷ d ∷ s)

abbrev pub starts_with : String → String → Bool
starts_with s pattern = is_some (strip_prefix (chars pattern) (chars s))

abbrev pub backwards : List ℕ → List ℕ → List ℕ
backwards [] acc = acc
backwards (c ∷ s) acc = backwards s (c ∷ acc)

abbrev pub ends_with : String → String → Bool
ends_with s pattern = is_some (strip_prefix (backwards (chars pattern) []) (backwards (chars s) []))

abbrev pub is_empty : String → Bool
is_empty String.[] = true
is_empty (String.◌∷◌ c s) = false

-- `char::is_whitespace`: the characters with the property White_Space.
abbrev pub is_whitespace : ℕ → Bool
is_whitespace c =
    (leb 9 c && leb c 13)
    || eqb c 32
    || eqb c 133
    || eqb c 160
    || eqb c 5760
    || (leb 8192 c && leb c 8202)
    || eqb c 8232
    || eqb c 8233
    || eqb c 8239
    || eqb c 8287
    || eqb c 12288

unfoldable pub trim_start : String → String
trim_start String.[] = String.[]
trim_start (String.◌∷◌ c s) = if is_whitespace (code c) then trim_start s else String.◌∷◌ c s

unfoldable pub trim_end : String → String
trim_end String.[] = String.[]
trim_end (String.◌∷◌ c s) =
    let rest = trim_end s in
    if is_whitespace (code c) && is_empty rest then String.[] else String.◌∷◌ c rest

unfoldable pub trim : String → String
unfolding trim_start trim_end
trim s = trim_end (trim_start s)

-- `trim_end_matches`, of a pattern that is not empty.
unfoldable pub trim_end_matches : String → String → String
trim_end_matches String.[] pattern = String.[]
trim_end_matches (String.◌∷◌ c s) pattern =
    let rest = trim_end_matches s pattern in
    if String.◌∷◌ c rest == pattern then String.[] else String.◌∷◌ c rest

-- `str::from_utf8`: how many bytes of a character are still to come, and the bounds of the next one.
abbrev utf8_lead : ℕ → Option (ℕ × ℕ × ℕ)
utf8_lead b =
    if ltb b 128
    then some (0, 0, 0)
    else if leb 194 b && leb b 223
    then some (1, 128, 191)
    else if eqb b 224
    then some (2, 160, 191)
    else if eqb b 237
    then some (2, 128, 159)
    else if leb 225 b && leb b 239
    then some (2, 128, 191)
    else if eqb b 240
    then some (3, 144, 191)
    else if leb 241 b && leb b 243
    then some (3, 128, 191)
    else if eqb b 244
    then some (3, 128, 143)
    else none

abbrev utf8_next : Option (ℕ × ℕ × ℕ) → ℕ → Option (ℕ × ℕ × ℕ)
utf8_next none b = none
utf8_next (some (n, low, high)) b =
    if eqb n 0
    then utf8_lead b
    else if leb low b && leb b high
    then some (n - 1, 128, 191)
    else none

abbrev utf8_ended : Option (ℕ × ℕ × ℕ) → Bool
utf8_ended none = false
utf8_ended (some (n, low, high)) = eqb n 0

utf8_from : Option (ℕ × ℕ × ℕ) → List ℕ → Bool
utf8_from state [] = utf8_ended state
utf8_from state (b ∷ bs) = utf8_from (utf8_next state b) bs

unfoldable pub is_utf8 : List ℕ → Bool
unfolding utf8_from
is_utf8 bytes = utf8_from (some (0, 0, 0)) bytes

-- `lines`: the pieces between line feeds, without a carriage return at their end and without an empty
-- piece at the end of the text.
abbrev without_return : List ℕ → List ℕ
without_return [] = []
without_return (c ∷ []) = if eqb c 13 then [] else c ∷ []
without_return (c ∷ d ∷ s) = c ∷ without_return (d ∷ s)

abbrev last_line : List ℕ → List (List ℕ)
last_line [] = []
last_line (c ∷ s) = (c ∷ s) ∷ []

abbrev add_char : ℕ → List (List ℕ) → List (List ℕ)
add_char c [] = (c ∷ []) ∷ []
add_char c (line ∷ lines) = (c ∷ line) ∷ lines

-- The pieces, of which there is at least one, with their carriage returns.
pieces : List ℕ → List (List ℕ)
pieces [] = [] ∷ []
pieces (c ∷ s) = let rest = pieces s in if eqb c 10 then [] ∷ rest else add_char c rest

abbrev ended_pieces : List (List ℕ) → List (List ℕ)
ended_pieces [] = []
ended_pieces (line ∷ []) = last_line line
ended_pieces (line ∷ next ∷ lines) = without_return line ∷ ended_pieces (next ∷ lines)

unfoldable pub lines : List ℕ → List (List ℕ)
unfolding pieces
lines text = ended_pieces (pieces text)

-- `str::strip_prefix`.
unfoldable pub strip_text : String → String → Option String
strip_text String.[] s = some s
strip_text (String.◌∷◌ p ps) String.[] = none
strip_text (String.◌∷◌ p ps) (String.◌∷◌ c s) =
    let rest = strip_text ps s in if eqb (code p) (code c) then rest else none

-- `chars().take(n).collect()`.
unfoldable pub take_chars : ℕ → String → String
take_chars zero s = String.[]
take_chars (suc n) String.[] = String.[]
take_chars (suc n) (String.◌∷◌ c s) = String.◌∷◌ c (take_chars n s)
