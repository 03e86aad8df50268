-- ===== src/Sse.antt =====
-- src/proxy.rs: the lines of a server-sent event stream, read for their usage, and the part of a
-- body that is kept for the archive.
pub mod Stream
pub mod Preview
pub mod Counting
use open_ai_lb.Prelude.{
  ℕ, zero, suc, ◌+◌, ◌-◌, min, Bool, true, false, ◌||◌, Option, none, some, List, [], ◌∷◌, ◌++◌,
  eqb, ltb, if◌then◌else◌, map_option, unwrap_or, length, take,
}
use open_ai_lb.Prelude.Int.{ℤ, pos, wrap, ◌+ℤ◌}
use open_ai_lb.External.{External}
use open_ai_lb.Json.{Value}
use open_ai_lb.Usage.{Usage, merge, usage_from_value}

abbrev pub line_feed : ℕ
line_feed = 10

-- `pending.iter().position(…)` and `pending.drain(..=index)`: the first line with its end, and the
-- rest, if there is a line feed.
abbrev pub longer : ℕ → Option (List ℕ × List ℕ) → Option (List ℕ × List ℕ)
longer b none = none
longer b (some (line, rest)) = some (b ∷ line, rest)

unfoldable pub split_line : List ℕ → Option (List ℕ × List ℕ)
split_line [] = none
split_line (b ∷ bs) = if eqb b line_feed then some (b ∷ [], bs) else longer b (split_line bs)

abbrev pub strip_prefix : List ℕ → List ℕ → Option (List ℕ)
strip_prefix [] bs = some bs
strip_prefix (p ∷ ps) [] = none
strip_prefix (p ∷ ps) (b ∷ bs) = if eqb p b then strip_prefix ps bs else none

-- `b"data: "`.
abbrev pub data_prefix : List ℕ
data_prefix = 100 ∷ 97 ∷ 116 ∷ 97 ∷ 58 ∷ 32 ∷ []

abbrev pub merge_value : Usage → Option Value → Usage
merge_value usage none = usage
merge_value usage (some value) = merge usage (usage_from_value value)

abbrev pub pending_limit : ℕ
pending_limit = 2_097_152

abbrev pub clear_long : List ℕ × Usage → List ℕ × Usage
clear_long (pending, usage) =
    if ltb pending_limit (length pending) then ([], usage) else (pending, usage)

module _ (x : External) where
  abbrev pub add_line : List ℕ → Usage → Usage
  add_line line usage =
      merge_value usage (x.from_slice (unwrap_or (strip_prefix data_prefix line) []))

  -- The `while let`, on fuel.
  unfoldable pub drain_lines : ℕ → List ℕ → Usage → List ℕ × Usage
  drain_lines zero pending usage = (pending, usage)
  drain_lines (suc fuel) pending usage = elim (split_line pending) [
    | none ↦ (pending, usage)
    | some (line, rest) ↦ drain_lines fuel rest (add_line line usage)
  ]

  unfoldable pub update_sse_usage : List ℕ × Usage → List ℕ → List ℕ × Usage
  update_sse_usage (pending, usage) bytes =
      clear_long (drain_lines (length (pending ++ bytes)) (pending ++ bytes) usage)

abbrev pub archive_body_limit : ℕ
archive_body_limit = 1_048_576

-- `body_preview`, at any limit.
unfoldable pub preview_at : ℕ → List ℕ → List ℕ × Bool
preview_at limit body =
    (take (min (length body) limit) body, ltb (min (length body) limit) (length body))

abbrev pub body_preview : List ℕ → List ℕ × Bool
body_preview body = preview_at archive_body_limit body

pub record StreamingPreview : Type 0 where
  pub body : List ℕ
  pub truncated : Bool
  pub bytes : ℤ

abbrev pub empty_preview : StreamingPreview
empty_preview = record { body = []; truncated = false; bytes = pos 0 }

-- `StreamingPreview::capture`, at any limit.
unfoldable pub capture_at : ℕ → StreamingPreview → List ℕ → StreamingPreview
capture_at limit self bytes =
    let copied = min (limit - length self.body) (length bytes) in
    record {
      body = self.body ++ take copied bytes;
      truncated = self.truncated || ltb copied (length bytes);
      bytes = wrap (self.bytes +ℤ pos (length bytes));
    }

abbrev pub capture : StreamingPreview → List ℕ → StreamingPreview
capture self bytes = capture_at archive_body_limit self bytes

-- The loop of `AudioSpool::create` over the chunks of a request body: what the file holds, the
-- preview, and the count of bytes.
pub record AudioSpool : Type 0 where
  pub file : List ℕ
  pub preview : List ℕ
  pub preview_truncated : Bool
  pub bytes : ℤ

abbrev pub empty_spool : AudioSpool
empty_spool = record { file = []; preview = []; preview_truncated = false; bytes = pos 0 }

unfoldable pub spool_chunk : ℕ → AudioSpool → List ℕ → AudioSpool
spool_chunk preview_limit spool chunk =
    let copied = min (preview_limit - length spool.preview) (length chunk) in
    record {
      file = spool.file ++ chunk;
      preview = spool.preview ++ take copied chunk;
      preview_truncated = spool.preview_truncated || ltb copied (length chunk);
      bytes = wrap (spool.bytes +ℤ pos (length chunk));
    }

unfoldable pub spool_chunks : ℕ → AudioSpool → List (List ℕ) → AudioSpool
spool_chunks preview_limit spool [] = spool
spool_chunks preview_limit spool (chunk ∷ chunks) =
    spool_chunks preview_limit (spool_chunk preview_limit spool chunk) chunks
