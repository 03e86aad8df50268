-- ===== src/Transform.antt =====
-- src/proxy.rs: `transform_request`, the body that goes upstream.
pub mod Laws
use open_ai_lb.Prelude.{
  ℕ, String, Bool, true, false, not, Option, none, some, List, [], ◌∷◌, ◌==◌, and_then, unwrap_or,
  if◌then◌else◌,
}
use open_ai_lb.Prelude.Int.{ℤ, pos}
use open_ai_lb.Text.{ends_with}
use open_ai_lb.Errors.{Result, ok, err, panic, ◌>>=◌, ◌>>◌, bad_request}
use open_ai_lb.External.{External}
use open_ai_lb.Json.{
  Value, Items, Fields, nil, cons, field, end, boolean, integer, string, array, object, lookup,
  insert, delete, or_insert, as_str, as_u64, as_object,
}
use open_ai_lb.Images.{require, validate_image_request, reference_image_inputs}

abbrev text_or : Fields → String → String → String
text_or fields name fallback = unwrap_or (and_then (lookup fields name) as_str) fallback

abbrev as_items : List Value → Items
as_items [] = nil
as_items (v ∷ vs) = cons v (as_items vs)

-- The one tool of an image request.
abbrev image_tool : Fields → Value
image_tool fields = object (
    field "type" (string "image_generation") (
      field "model" (string (text_or fields "model" "gpt-image-1")) (
        field "size" (string (text_or fields "size" "1024x1024")) (
          field "quality" (string (text_or fields "quality" "auto")) (
            field "background" (string (text_or fields "background" "auto")) (
              field "output_format" (string (text_or fields "output_format" "png")) (
                field "output_compression"
                  (integer
                    (pos (unwrap_or (and_then (lookup fields "output_compression") as_u64) 100)))
                  (field "moderation" (string (text_or fields "moderation" "auto")) end))))))))

abbrev pub generator_instructions : String
generator_instructions =
    "You are an image generator. You MUST call image_generation exactly once and return only that tool call. Mirror the user's request verbatim into the prompt argument."

abbrev user_message : List Value → Value
user_message content = object (
    field "type" (string "message")
      (field "role" (string "user") (field "content" (array (as_items content)) end)))

-- The request that stands for an image request.
unfoldable pub translate_image : String → Fields → Result Value
translate_image host_model fields = do
  valid ← validate_image_request fields
  prompt ← require (and_then (lookup fields "prompt") as_str) "prompt is required"
  reference_images ← reference_image_inputs fields
  let content =
      object (field "type" (string "input_text") (field "text" (string prompt) end))
      ∷ reference_images
  ok (
      object (
        field "model" (string host_model) (
          field "instructions" (string generator_instructions) (
            field "input" (array (cons (user_message content) nil)) (
              field "tools" (array (cons (image_tool fields) nil)) (
                field "tool_choice" (object (field "type" (string "image_generation") end))
                  (field "stream" (boolean true) (field "store" (boolean false) end))))))))

-- The rewriting of any other request.
unfoldable pub rewrite : Bool → Fields → Fields
rewrite compact fields =
    let defaulted = or_insert fields "instructions" (string "") in
    if compact
    then defaulted
    else delete (delete (insert defaulted "store" (boolean false)) "max_output_tokens")
        "temperature"

unfoldable pub transform_value : String → Option Value → String → Result Value
unfolding translate_image rewrite
transform_value path parsed host_model = do
  value ← require parsed "JSON request body required"
  fields ← require (as_object value) "JSON object required"
  (if path == "/v1/images/generations"
      then translate_image host_model fields
      else ok (object (rewrite (ends_with path "/compact") fields)))

-- `transform_request`, with `image_host_model` of the configuration; printing a value does not fail.
unfoldable pub transform_request : External → String → Option Value → String → Result (List ℕ)
transform_request x path parsed host_model = do
  value ← transform_value path parsed host_model
  ok (x.to_vec value)
