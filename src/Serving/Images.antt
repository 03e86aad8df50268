-- ===== src/Serving/Images.antt =====
-- src/proxy.rs: `images_from_sse`, the images in the events of a response.
use open_ai_lb.Prelude.{
  ℕ, String, Bool, true, false, ◌&&◌, Option, none, some, List, [], ◌∷◌, ◌++◌, ◌==◌, if◌then◌else◌,
  and_then, is_some_and, unwrap_or, filter_by,
}
use open_ai_lb.Prelude.Int.{ℤ}
use open_ai_lb.Text.{is_utf8, lines}
use open_ai_lb.Errors.{Result, ok, err, upstream}
use open_ai_lb.External.{External}
use open_ai_lb.Json.{
  Value, Items, nil, cons, null, field, end, object, array, string, integer, member, pointer,
  as_str, as_array,
}
use open_ai_lb.Usage.{Usage, merge, usage_from_value}
use open_ai_lb.Usage
use open_ai_lb.Sse.{strip_prefix, data_prefix}

abbrev is_kind : String → Value → Bool
is_kind kind value = is_some_and (and_then (member value "type") as_str) (λ t. t == kind)

abbrev no_items : List Value → Bool
no_items [] = true
no_items (v ∷ vs) = false

abbrev add_item : Option Value → List Value → List Value
add_item none found = found
add_item (some item) found =
    if is_kind "image_generation_call" item then found ++ (item ∷ []) else found

abbrev add_output : Option (List Value) → List Value → List Value
add_output none found = found
add_output (some output) found = found ++ filter_by (is_kind "image_generation_call") output

-- The items after an event.
unfoldable pub add_event : Value → List Value → List Value
add_event event found =
    let after_item =
      if is_kind "response.output_item.done" event
      then add_item (member event "item") found
      else found in
    if is_kind "response.completed" event && no_items after_item
    then add_output (and_then (pointer event ("response" ∷ "output" ∷ [])) as_array) after_item
    else after_item

abbrev pub read_event : Option Value → List Value × Usage → List Value × Usage
read_event none (found, usage) = (found, usage)
read_event (some event) (found, usage) =
    (add_event event found, merge usage (usage_from_value event))

abbrev as_items : List Value → Items
as_items [] = nil
as_items (v ∷ vs) = cons v (as_items vs)

abbrev image_of : Value → Option String → Items → Items
image_of item none rest = rest
image_of item (some result) rest =
    cons
      (object (
        field "b64_json" (string result)
          (field "revised_prompt" (unwrap_or (member item "revised_prompt") null) end)))
      rest

-- `filter_map` over the items.
unfoldable pub image_data : List Value → Items
image_data [] = nil
image_data (item ∷ found) =
    image_of item (and_then (member item "result") as_str) (image_data found)

abbrev pub some_images : Items → Usage → Result (Items × Usage)
some_images nil usage = err (upstream 502 "upstream did not return image data")
some_images (cons v vs) usage = ok (cons v vs, usage)

module _ (x : External) where
  abbrev event_of : List ℕ → Option Value
  event_of line = and_then (strip_prefix data_prefix line) x.from_slice

  -- The loop over the lines.
  unfoldable pub read_lines : List (List ℕ) → List Value × Usage → List Value × Usage
  read_lines [] state = state
  read_lines (line ∷ rest) state = read_lines rest (read_event (event_of line) state)

  unfoldable pub images_from_sse : List ℕ → Result (Items × Usage)
  unfolding read_lines image_data
  images_from_sse bytes =
      let state = read_lines (lines bytes) ([], Usage.default) in
      if is_utf8 bytes
      then some_images (image_data state.0) state.1
      else err (upstream 502 "invalid image event stream")

abbrev usage_value : Usage → Value
usage_value usage = object (
    field "input_tokens" (integer usage.input_tokens) (
      field "output_tokens" (integer usage.output_tokens) (
        field "cached_tokens" (integer usage.cached_tokens)
          (field "cache_write_tokens" (integer usage.cache_write_tokens) end))))

-- The body of an image response.
abbrev pub envelope : External → ℤ → Items → Usage → List ℕ
envelope x created images usage = x.to_vec (
    object (
      field "created" (integer created)
        (field "data" (array images) (field "usage" (usage_value usage) end))))
