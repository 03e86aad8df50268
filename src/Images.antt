-- ===== src/Images.antt =====
-- src/proxy.rs: the checks of an image request, `validate_image_request` and what it calls. Texts are
-- taken apart as lists of their characters' numbers.
pub mod Sizes
use Prim.Native.String
use open_ai_lb.Text.{chars, strip_prefix, split_once, parse_u64}
use open_ai_lb.Prelude.{
  ℕ, zero, suc, ◌+◌, ◌-◌, ◌*◌, ◌%◌, ◌^◌, min, max, String, Bool, true, false, not, ◌&&◌, ◌||◌,
  Option, none, some, List, [], ◌∷◌, ◌==◌, eqb, leb, ltb, if◌then◌else◌, contains, length, drop,
  and_then, unwrap_or,
}
use open_ai_lb.Prelude.Int.{ℤ, pos, negsuc, leb_ℤ}
use open_ai_lb.Errors.{AppError, bad_request, Result, ok, err, panic, ◌>>=◌, ◌>>◌}
use open_ai_lb.Json.{
  Value, Fields, field, end, null, boolean, integer, float, string, array, object, items, lookup,
  as_str, as_bool, as_i64,
}

abbrev pub require {ℓ} : {A : Type ℓ} → Option A → String → Result A
require none message = err (bad_request message)
require (some a) message = ok a

abbrev pub check : Bool → String → Result (Unit {0})
check true message = ok tt
check false message = err (bad_request message)

-- The tests of a custom size; the product is a `u64`.
abbrev pub is_aligned : ℕ → ℕ → Bool
is_aligned width height =
    not (ltb 3840 width || ltb 3840 height || not (eqb (width % 16) 0) || not (eqb (height % 16) 0))

abbrev pub is_proportioned : ℕ → ℕ → Bool
is_proportioned width height =
    let pixels = (width * height) % 2 ^ 64 in
    not (
      not (leb 655_360 pixels && leb pixels 8_294_400)
      || ltb (3 * min width height) (max width height))

unfoldable pub custom_size : List ℕ → Result (Unit {0})
custom_size size = do
  parts ← require (split_once (120 ∷ []) size) "size must use WIDTHxHEIGHT"
  width ← require (parse_u64 parts.0) "size must use WIDTHxHEIGHT"
  height ← require (parse_u64 parts.1) "size must use WIDTHxHEIGHT"
  aligned ←
      check (is_aligned width height)
        "size dimensions must be multiples of 16 and no larger than 3840"
  check (is_proportioned width height)
      "size must contain 655360-8294400 pixels with an aspect ratio no wider than 3:1"

abbrev pub fixed_sizes : List String
fixed_sizes = "auto" ∷ "1024x1024" ∷ "1536x1024" ∷ "1024x1536" ∷ []

abbrev pub is_model : Option String → String → Bool
is_model none name = false
is_model (some model) name = model == name

unfoldable pub validate_image_size : String → Option String → Result (Unit {0})
validate_image_size size model =
    if contains fixed_sizes size
    then ok tt
    else if not (is_model model "gpt-image-2")
    then err (bad_request "custom image sizes require model gpt-image-2")
    else custom_size (chars size)

-- `if let Some(value) = object.get(…)` around a check.
abbrev pub if_some : Option Value → (Value → Result (Unit {0})) → Result (Unit {0})
if_some none f = ok tt
if_some (some value) f = f value

unfoldable pub validate_enum : Fields → String → List String → Result (Unit {0})
validate_enum fields name allowed = if_some (lookup fields name) (λ value. do
  text ← require (as_str value) (String.◌++◌ name " must be a string")
  check (contains allowed text) (String.◌++◌ "unsupported " name))

abbrev pub image_kinds : List String
image_kinds = "image/png" ∷ "image/jpeg" ∷ "image/jpg" ∷ "image/webp" ∷ "image/gif" ∷ []

abbrev pub is_text_of : List String → List ℕ → Bool
is_text_of [] s = false
is_text_of (t ∷ ts) s = same (chars t) s || is_text_of ts s
  where
    same : List ℕ → List ℕ → Bool
    same [] [] = true
    same [] (d ∷ t) = false
    same (c ∷ s) [] = false
    same (c ∷ s) (d ∷ t) = eqb c d && same s t

abbrev pub is_empty : List ℕ → Bool
is_empty [] = true
is_empty (c ∷ s) = false

abbrev is_kind : Option (List ℕ) → Bool
is_kind none = false
is_kind (some mime) = is_text_of image_kinds mime

unfoldable pub validate_reference_image_url : String → Result (Unit {0})
validate_reference_image_url image_url = do
  parts ←
      require (split_once (chars ";base64,") (chars image_url))
        "reference images must be base64 data URLs"
  check (is_kind (strip_prefix (chars "data:") parts.0) && not (is_empty parts.1))
      "reference images must be PNG, JPEG, WEBP, or GIF data URLs"

abbrev pub input_image : String → Value
input_image image_url = object (
    field "type" (string "input_image")
      (field "image_url" (string image_url) (field "detail" (string "auto") end)))

unfoldable pub input_images : List Value → Result (List Value)
input_images [] = ok []
input_images (image ∷ images) = do
  image_url ← require (as_str image) "reference_images must contain strings"
  valid ← validate_reference_image_url image_url
  rest ← input_images images
  ok (input_image image_url ∷ rest)

abbrev pub max_reference_images : ℕ
max_reference_images = 4

abbrev list_of : Value → Option (List Value)
list_of (array vs) = some (items vs)
list_of _ = none

abbrev inputs_of : Option Value → Result (List Value)
inputs_of none = ok []
inputs_of (some value) = do
  images ← require (list_of value) "reference_images must be an array"
  few ←
      check (leb (length images) max_reference_images) "reference_images supports at most 4 images"
  input_images images

unfoldable pub reference_image_inputs : Fields → Result (List Value)
reference_image_inputs fields = inputs_of (lookup fields "reference_images")

abbrev is_one : Option ℤ → Bool
is_one none = false
is_one (some (pos n)) = eqb n 1
is_one (some (negsuc n)) = false

abbrev check_stream : Option Bool → Result (Unit {0})
check_stream none = err (bad_request "stream must be a boolean")
check_stream (some true) = err (bad_request "streaming images are not supported by this endpoint")
check_stream (some false) = ok tt

abbrev is_text : Option String → Bool
is_text none = false
is_text (some s) = not (s == "")

abbrev is_percentage : ℤ → Bool
is_percentage n = leb_ℤ (pos 0) n && leb_ℤ n (pos 100)

-- The checks before the size, the one of the size, and the ones after it.
unfoldable pub validate_basics : Fields → Result (Unit {0})
validate_basics fields =
    if_some (lookup fields "n")
      (λ value. check (is_one (as_i64 value)) "image generation supports integer n=1 only")
    >> if_some (lookup fields "stream") (λ value. check_stream (as_bool value))
    >> if_some (lookup fields "response_format") (λ value.
      check (is_model (as_str value) "b64_json") "response_format must be the string b64_json")
    >> if_some (lookup fields "model")
        (λ value. check (is_text (as_str value)) "model must be a non-empty string")

unfoldable pub validate_size : Fields → Result (Unit {0})
validate_size fields = if_some (lookup fields "size") (λ value. do
  size ← require (as_str value) "size must be a string"
  validate_image_size size (and_then (lookup fields "model") as_str))

unfoldable pub validate_options : Fields → Result (Unit {0})
validate_options fields =
    validate_enum fields "quality" ("auto" ∷ "low" ∷ "medium" ∷ "high" ∷ [])
    >> validate_enum fields "background" ("auto" ∷ "opaque" ∷ "transparent" ∷ [])
    >> validate_enum fields "output_format" ("png" ∷ "jpeg" ∷ "webp" ∷ [])
    >> validate_enum fields "moderation" ("auto" ∷ "low" ∷ [])
    >> (reference_image_inputs fields >>= λ inputs. ok tt)
    >> if_some (lookup fields "output_compression") (λ value. do
      compression ← require (as_i64 value) "output_compression must be an integer from 0 to 100"
      check (is_percentage compression) "output_compression must be 0-100")

unfoldable pub validate_image_request : Fields → Result (Unit {0})
validate_image_request fields =
    validate_basics fields >> (validate_size fields >> validate_options fields)
