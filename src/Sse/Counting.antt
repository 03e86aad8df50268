-- ===== src/Sse/Counting.antt =====
-- src/proxy.rs: the usage that is read from a stream is a count, whatever the upstream reports.
use open_ai_lb.Prelude.{
  ℕ, zero, suc, ◌<◌, ◌^◌, String, Option, none, some, List, [], ◌∷◌, ◌++◌, ◌≡◌, refl, arith, inl,
  inr, Bool-cases, Option-cases, and_then, unwrap_or, length, ltb,
}
use open_ai_lb.Prelude.Int.{ℤ, pos, negsuc, max_ℤ, IsI64, ltb_ℤ}
use open_ai_lb.External.{External}
use open_ai_lb.Json.{Value, as_i64, pointer, null, boolean, integer, float, string, array, object}
use open_ai_lb.Usage.{Usage, merge, usage_from_value, usage_member, count_at}
use open_ai_lb.Sse.{
  split_line, add_line, merge_value, drain_lines, update_sse_usage, clear_long, pending_limit,
  strip_prefix, data_prefix,
}

-- Usage with a number of input tokens, as a count is and a reported number should be.
abbrev pub IsPlausible : Usage → Type 0
IsPlausible u = (input : ℕ) × (u.input_tokens ≡ pos input) × (input < 2 ^ 63)

as_i64-IsI64 : (v : Value) (a : ℤ) → as_i64 v ≡ some a → IsI64 a
as_i64-IsI64 (integer (pos n)) a e = ground arith
as_i64-IsI64 (integer (negsuc n)) a e = ground arith
as_i64-IsI64 null a e = ground arith
as_i64-IsI64 (boolean b) a e = ground arith
as_i64-IsI64 (float s) a e = ground arith
as_i64-IsI64 (string s) a e = ground arith
as_i64-IsI64 (array vs) a e = ground arith
as_i64-IsI64 (object fs) a e = ground arith

count_at-IsI64 : (o : Option Value) (path : List String) → IsI64 (count_at o path)
count_at-IsI64 none path = omega arith
count_at-IsI64 (some v) path = found (pointer v path)
  where
    read : (w : Option ℤ) → ((a : ℤ) → w ≡ some a → IsI64 a) → IsI64 (unwrap_or w (pos 0))
    read none h = omega arith
    read (some a) h = h a refl

    found : (w : Option Value) → IsI64 (unwrap_or (and_then w as_i64) (pos 0))
    found none = omega arith
    found (some w) = read (as_i64 w) (as_i64-IsI64 w)

-- The larger of a count and any `i64` is a count.
max_ℤ-count :
    (n : ℕ) (b : ℤ) → n < 2 ^ 63 → IsI64 b → (m : ℕ) × (max_ℤ (pos n) b ≡ pos m) × (m < 2 ^ 63)
unfolding max_ℤ
max_ℤ-count n (pos k) h i = elim (Bool-cases (ltb_ℤ (pos n) (pos k))) [
  | inl e ↦ (k, rw e, i.0)
  | inr e ↦ (n, rw e, h)
]
max_ℤ-count n (negsuc k) h i = elim (Bool-cases (ltb_ℤ (pos n) (negsuc k))) [
  | inl e ↦ absurd (ground arith)
  | inr e ↦ (n, rw e, h)
]

merge-IsPlausible :
    (u : Usage) (v : Value) → IsPlausible u → IsPlausible (merge u (usage_from_value v))
unfolding merge usage_from_value
merge-IsPlausible u v (n, e, h) = rw e (
    max_ℤ-count n (count_at (usage_member v) ("input_tokens" ∷ [])) h
      (count_at-IsI64 (usage_member v) ("input_tokens" ∷ [])))

module _ (x : External) where
  merge_value-IsPlausible :
      (u : Usage) (v : Option Value) → IsPlausible u → IsPlausible (merge_value u v)
  merge_value-IsPlausible u none h = h
  merge_value-IsPlausible u (some v) h = merge-IsPlausible u v h

  drain_lines-IsPlausible :
      (fuel : ℕ) (pending : List ℕ) (usage : Usage)
      → IsPlausible usage
      → IsPlausible (drain_lines x fuel pending usage).1
  unfolding drain_lines
  drain_lines-IsPlausible zero pending usage h = h
  drain_lines-IsPlausible (suc fuel) pending usage h = elim (Option-cases (split_line pending)) [
    | inl e ↦ rw (e, drain_lines) h
    | inr ((line, rest), e) ↦
        rw (e, drain_lines)
          (drain_lines-IsPlausible fuel rest (add_line x line usage) (
            merge_value-IsPlausible usage
              (x.from_slice (unwrap_or (strip_prefix data_prefix line) [])) h))
  ]

  clear_long-IsPlausible : (s : List ℕ × Usage) → IsPlausible s.1 → IsPlausible (clear_long s).1
  clear_long-IsPlausible (l, u) h = elim (Bool-cases (ltb pending_limit (length l))) [
    | inl e ↦ rw e h
    | inr e ↦ rw e h
  ]

  -- A chunk of a stream keeps the number of input tokens between 0 and 2 ^ 63 - 1, whatever its lines
  -- report.
  pub update_sse_usage-IsPlausible :
      (pending bytes : List ℕ) (usage : Usage)
      → IsPlausible usage
      → IsPlausible (update_sse_usage x (pending, usage) bytes).1
  unfolding update_sse_usage
  update_sse_usage-IsPlausible pending bytes usage h =
      clear_long-IsPlausible (drain_lines x (length (pending ++ bytes)) (pending ++ bytes) usage)
        (drain_lines-IsPlausible (length (pending ++ bytes)) (pending ++ bytes) usage h)
