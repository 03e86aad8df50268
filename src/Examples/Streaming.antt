-- ===== src/Examples/Streaming.antt =====
-- A stream in two chunks, cut inside a line.
use open_ai_lb.Prelude.{ℕ, List, [], ◌∷◌, ◌≡◌, refl, arith}
use open_ai_lb.Prelude.Int.{pos}
use open_ai_lb.Usage.{Usage}
use open_ai_lb.Usage
use open_ai_lb.Sse.{
  split_line, update_sse_usage, preview_at, empty_preview, empty_spool, spool_chunks,
}
use open_ai_lb.Sse.Stream.{IsOpen, joined, read_chunks, read_bytes, read_chunks-read_bytes}
use open_ai_lb.Sse.Preview.{captures_at, captures_at-preview_at, spool_chunks-preview_at}
use open_ai_lb.Sse.Counting.{IsPlausible, update_sse_usage-IsPlausible}
use open_ai_lb.Examples.{toy}

abbrev pub chunks : List (List ℕ)
chunks = (100 ∷ 97 ∷ 116 ∷ []) ∷ (97 ∷ 58 ∷ 32 ∷ 49 ∷ 10 ∷ 100 ∷ []) ∷ []

nothing-IsOpen : IsOpen []
unfolding split_line
nothing-IsOpen = record { unbroken = refl }

read_chunks-read_bytes_example :
    read_chunks toy ([], Usage.default) chunks ≡ read_bytes toy ([], Usage.default) (joined chunks)
read_chunks-read_bytes_example =
    read_chunks-read_bytes toy chunks [] Usage.default nothing-IsOpen (omega arith)

update_sse_usage-IsPlausible_example :
    IsPlausible (update_sse_usage toy ([], Usage.default) (joined chunks)).1
update_sse_usage-IsPlausible_example =
    update_sse_usage-IsPlausible toy [] (joined chunks) Usage.default (0, refl, omega arith)

captures_at-preview_at_example : captures_at 4 empty_preview chunks ≡ record {
  body = (preview_at 4 (joined chunks)).0;
  truncated = (preview_at 4 (joined chunks)).1;
  bytes = pos 9;
}
captures_at-preview_at_example = captures_at-preview_at 4 chunks (omega arith)

spool_chunks-preview_at_example : spool_chunks 4 empty_spool chunks ≡ record {
  file = joined chunks;
  preview = (preview_at 4 (joined chunks)).0;
  preview_truncated = (preview_at 4 (joined chunks)).1;
  bytes = pos 9;
}
spool_chunks-preview_at_example = spool_chunks-preview_at 4 chunks (omega arith)
