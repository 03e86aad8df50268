-- ===== src/Examples/Requests.antt =====
-- Image requests with a size of their own.
use open_ai_lb.Prelude.{ℕ, String, true, Option, some, ◌≡◌, ◌↔◌, ◌⊎◌, refl, contains, and_then}
use open_ai_lb.Errors.{ok}
use open_ai_lb.Json.{Fields, field, end, string, lookup, as_str}
use open_ai_lb.Text.{chars, split_once, parse_u64}
use open_ai_lb.Images.{
  fixed_sizes, custom_size, validate_image_size, validate_image_request, validate_basics,
  validate_size, validate_options, validate_enum, reference_image_inputs,
}
use open_ai_lb.Images.Sizes.{IsCustom, Reads, validate_image_size_iff, validate_image_request-size}

abbrev model : Option String
model = some "gpt-image-2"

validate_image_size_iff_example : (validate_image_size "2048x1152" model ≡ ok tt) ↔ (
    (contains fixed_sizes "2048x1152" ≡ true)
    ⊎ ((model ≡ some "gpt-image-2") × ((w h : ℕ) × Reads (chars "2048x1152") w h × IsCustom w h)))
validate_image_size_iff_example = validate_image_size_iff "2048x1152" model

abbrev wide : Fields
wide = field "model" (string "gpt-image-2") (field "size" (string "2048x1152") end)

accepted : validate_image_request wide ≡ ok tt
unfolding validate_image_request validate_basics lookup validate_size validate_image_size
    custom_size split_once chars parse_u64 validate_options validate_enum reference_image_inputs
accepted = refl

named : lookup wide "size" ≡ some (string "2048x1152")
unfolding lookup
named = refl

validate_image_request-size_example :
    (contains fixed_sizes "2048x1152" ≡ true)
    ⊎ ((and_then (lookup wide "model") as_str ≡ some "gpt-image-2")
        × ((w h : ℕ) × Reads (chars "2048x1152") w h × IsCustom w h))
validate_image_request-size_example = validate_image_request-size wide "2048x1152" accepted named
