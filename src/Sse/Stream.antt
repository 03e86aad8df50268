-- ===== src/Sse/Stream.antt =====
-- src/proxy.rs: `update_sse_usage` over a whole stream, against a reader of single bytes.
use open_ai_lb.Prelude.{
  ℕ, zero, suc, ◌≤◌, Bool, true, false, Option, none, some, List, [], ◌∷◌, ◌++◌, append_assoc,
  append-nil, ◌≡◌, refl, sym, arith, eqb, if◌then◌else◌, Bool-cases, inl, inr, length,
  length-append,
}
use open_ai_lb.External.{External}
use open_ai_lb.Usage.{Usage}
use open_ai_lb.Sse.{
  line_feed, longer, split_line, add_line, drain_lines, update_sse_usage, pending_limit, clear_long,
}

-- A line that has not ended.
pub record IsOpen (line : List ℕ) : Type 0 where
  pub unbroken : split_line line ≡ none

abbrev pub line_after : List ℕ → ℕ → List ℕ
line_after line b = if eqb b line_feed then [] else line ++ (b ∷ [])

-- No line of the stream is longer than what is kept of an open line.
abbrev pub AreShort : List ℕ → List ℕ → Type 0
AreShort line [] = length line ≤ pending_limit
AreShort line (b ∷ bs) = (length line ≤ pending_limit) × AreShort (line_after line b) bs

abbrev pub joined : List (List ℕ) → List ℕ
joined [] = []
joined (c ∷ cs) = c ++ joined cs

split_line-open :
    (b : ℕ) (bs : List ℕ)
    → split_line (b ∷ bs) ≡ none
    → (eqb b line_feed ≡ false) × (split_line bs ≡ none)
unfolding split_line
split_line-open b bs h = opened (eqb b line_feed) (split_line bs) h
  where
    opened :
        (t : Bool) (o : Option (List ℕ × List ℕ))
        → (if t then some (b ∷ [], bs) else longer b o) ≡ none
        → (t ≡ false) × (o ≡ none)
    opened true o k = ground arith
    opened false none k = (refl, refl)
    opened false (some (line, rest)) k = ground arith

split_line-end :
    (line rest : List ℕ) (b : ℕ)
    → split_line line ≡ none
    → eqb b line_feed ≡ true
    → split_line (line ++ (b ∷ rest)) ≡ some (line ++ (b ∷ []), rest)
unfolding split_line
split_line-end [] rest b h e = rw e
split_line-end (c ∷ cs) rest b h e =
    let (d, k) = split_line-open c cs h in rw (d, split_line-end cs rest b k e)

split_line-snoc :
    (line : List ℕ) (b : ℕ)
    → split_line line ≡ none
    → eqb b line_feed ≡ false
    → split_line (line ++ (b ∷ [])) ≡ none
unfolding split_line
split_line-snoc [] b h e = rw e
split_line-snoc (c ∷ cs) b h e =
    let (d, k) = split_line-open c cs h in rw (d, split_line-snoc cs b k e)

module _ (x : External) where
  -- The reader of single bytes: the line so far, and the usage of the lines before it.
  pub read_byte : List ℕ × Usage → ℕ → List ℕ × Usage
  read_byte (line, usage) b =
      (line_after line b, if eqb b line_feed then add_line x (line ++ (b ∷ [])) usage else usage)

  pub read_bytes : List ℕ × Usage → List ℕ → List ℕ × Usage
  read_bytes s [] = s
  read_bytes s (b ∷ bs) = read_bytes (read_byte s b) bs

  -- The program, over the chunks of a stream.
  pub read_chunks : List ℕ × Usage → List (List ℕ) → List ℕ × Usage
  read_chunks s [] = s
  read_chunks s (c ∷ cs) = read_chunks (update_sse_usage x s c) cs

  -- Fuel for the bytes is fuel enough.
  drain_lines-read_bytes :
      (fuel : ℕ) (line bytes : List ℕ) (usage : Usage)
      → split_line line ≡ none
      → length bytes ≤ fuel
      → drain_lines x fuel (line ++ bytes) usage ≡ read_bytes (line, usage) bytes
  unfolding drain_lines read_byte read_bytes split_line
  drain_lines-read_bytes zero line [] usage h k = rw (append-nil line)
  drain_lines-read_bytes (suc fuel) line [] usage h k = rw (append-nil line) (rw (h, drain_lines))
  drain_lines-read_bytes zero line (b ∷ bs) usage h k = absurd (omega arith)
  drain_lines-read_bytes (suc fuel) line (b ∷ bs) usage h k = elim (Bool-cases (eqb b line_feed)) [
    | inl e ↦
        rw (split_line-end line bs b h e, drain_lines, e)
          (drain_lines-read_bytes fuel [] bs (add_line x (line ++ (b ∷ [])) usage) refl
            (omega arith))
    | inr e ↦
        rw (sym (append_assoc line (b ∷ []) bs), e)
          (drain_lines-read_bytes (suc fuel) (line ++ (b ∷ [])) bs usage
            (split_line-snoc line b h e) (omega arith))
  ]

  -- One chunk, where the line that stays open is not too long.
  update_sse_usage-read_bytes :
      (line bytes : List ℕ) (usage : Usage)
      → split_line line ≡ none
      → length (read_bytes (line, usage) bytes).0 ≤ pending_limit
      → update_sse_usage x (line, usage) bytes ≡ read_bytes (line, usage) bytes
  unfolding update_sse_usage
  update_sse_usage-read_bytes line bytes usage h short =
      rw
        (drain_lines-read_bytes (length (line ++ bytes)) line bytes usage h
          (omega (arith, length-append line bytes)))
        (kept (read_bytes (line, usage) bytes) short)
    where
      kept : (s : List ℕ × Usage) → length s.0 ≤ pending_limit → clear_long s ≡ s
      kept (l, u) k = ground arith

  read_bytes-append :
      (s : List ℕ × Usage) (xs ys : List ℕ)
      → read_bytes s (xs ++ ys) ≡ read_bytes (read_bytes s xs) ys
  unfolding read_bytes
  read_bytes-append s [] ys = refl
  read_bytes-append s (b ∷ xs) ys = read_bytes-append (read_byte s b) xs ys

  -- What the reader of bytes leaves is open, and short where the stream is.
  line_after-open :
      (line : List ℕ) (b : ℕ) → split_line line ≡ none → split_line (line_after line b) ≡ none
  unfolding split_line
  line_after-open line b h = elim (Bool-cases (eqb b line_feed)) [
    | inl e ↦ rw e
    | inr e ↦ rw e (split_line-snoc line b h e)
  ]

  read_bytes-short :
      (xs ys line : List ℕ) (usage : Usage)
      → split_line line ≡ none
      → AreShort line (xs ++ ys)
      → (split_line (read_bytes (line, usage) xs).0 ≡ none)
        × (length (read_bytes (line, usage) xs).0 ≤ pending_limit)
        × AreShort (read_bytes (line, usage) xs).0 ys
  unfolding read_bytes read_byte
  read_bytes-short [] [] line usage h short = (h, short, short)
  read_bytes-short [] (y ∷ ys) line usage h short = (h, short.0, short)
  read_bytes-short (b ∷ xs) ys line usage h short =
      read_bytes-short xs ys (line_after line b) (read_byte (line, usage) b).1
        (line_after-open line b h) short.1

  -- Where no line of a stream is longer than 2 MiB, the program finds the usage that a reader of
  -- single bytes finds, however the stream is cut into chunks.
  pub read_chunks-read_bytes :
      (chunks : List (List ℕ)) (line : List ℕ) (usage : Usage)
      → IsOpen line
      → AreShort line (joined chunks)
      → read_chunks (line, usage) chunks ≡ read_bytes (line, usage) (joined chunks)
  unfolding read_chunks
  read_chunks-read_bytes [] line usage h short = unfold read_bytes in refl
  read_chunks-read_bytes (c ∷ cs) line usage h short =
      let (next, small, rest) = read_bytes-short c (joined cs) line usage h.unbroken short in
      rw
        (
          update_sse_usage-read_bytes line c usage h.unbroken small,
          read_bytes-append (line, usage) c (joined cs),
        )
        (read_chunks-read_bytes cs (read_bytes (line, usage) c).0 (read_bytes (line, usage) c).1
          (record { unbroken = next }) rest)
