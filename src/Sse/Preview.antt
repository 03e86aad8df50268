-- ===== src/Sse/Preview.antt =====
-- src/proxy.rs and src/audio_spool.rs: the part of a body that is kept, over its chunks.
use open_ai_lb.Prelude.{
  ℕ, ◌+◌, ◌-◌, ◌≤◌, ◌<◌, ◌^◌, min, false, ◌||◌, List, [], ◌∷◌, ◌++◌, append_assoc, append-nil, ◌≡◌,
  refl, sym, ap, ◌∙◌, arith, ltb, leb, leb→le, Bool-cases, inl, inr, length, take, length-append,
  length-take, take-append, take_all,
}
use open_ai_lb.Prelude.Int.{pos, wrap, ◌+ℤ◌, wrap_id}
use open_ai_lb.Sse.{
  StreamingPreview, capture_at, preview_at, empty_preview, AudioSpool, spool_chunk, spool_chunks,
  empty_spool,
}
use open_ai_lb.Sse.Stream.{joined}

-- `take` cuts at the length.
take-min : (n : ℕ) (xs : List ℕ) → take (min n (length xs)) xs ≡ take n xs
take-min n xs = elim (Bool-cases (leb n (length xs))) [
  | inl e ↦ ap (λ m. take m xs) (omega (arith, leb→le n (length xs) e))
  | inr e ↦
      ap (λ m. take m xs) (longer e)
      ∙ take_all (length xs) xs (omega arith)
      ∙ sym (take_all n xs (omega (arith, beyond e)))
]
  where
    beyond : leb n (length xs) ≡ false → length xs ≤ n
    beyond e = ground arith

    longer : leb n (length xs) ≡ false → min n (length xs) ≡ length xs
    longer e = ground arith

-- What is kept of the bytes that were seen.
abbrev pub kept_of : ℕ → List ℕ → StreamingPreview
kept_of limit seen = record {
  body = take limit seen;
  truncated = ltb limit (length seen);
  bytes = pos (length seen);
}

body-take :
    (limit : ℕ) (seen chunk : List ℕ)
    → take limit seen ++ take (min (limit - length (take limit seen)) (length chunk)) chunk
      ≡ take limit (seen ++ chunk)
body-take limit seen chunk =
    rw
      (
        take-min (limit - length (take limit seen)) chunk,
        take-append limit seen chunk,
        length-take limit seen,
      )
      (ap (λ m. take limit seen ++ take m chunk) (omega arith))

truncated-ltb :
    (limit : ℕ) (seen chunk : List ℕ)
    → (ltb limit (length seen)
        || ltb (min (limit - length (take limit seen)) (length chunk)) (length chunk))
      ≡ ltb limit (length (seen ++ chunk))
truncated-ltb limit seen chunk =
    rw (length-take limit seen, length-append seen chunk) (ground arith)

bytes-wrap : (a b c : ℕ) → c ≡ a + b → c < 2 ^ 63 → wrap (pos a +ℤ pos b) ≡ pos c
unfolding ◌+ℤ◌
bytes-wrap a b c e h = ap wrap sum ∙ wrap_id (pos c) (omega arith)
  where
    sum : pos a +ℤ pos b ≡ pos c
    sum = ground arith

capture_at-kept_of :
    (limit : ℕ) (seen chunk : List ℕ)
    → length (seen ++ chunk) < 2 ^ 63
    → capture_at limit (kept_of limit seen) chunk ≡ kept_of limit (seen ++ chunk)
unfolding capture_at
capture_at-kept_of limit seen chunk h = rw (
  body-take limit seen chunk,
  truncated-ltb limit seen chunk,
  bytes-wrap (length seen) (length chunk) (length (seen ++ chunk)) (length-append seen chunk) h,
)

pub captures_at : ℕ → StreamingPreview → List (List ℕ) → StreamingPreview
captures_at limit s [] = s
captures_at limit s (c ∷ cs) = captures_at limit (capture_at limit s c) cs

length-joined :
    (seen c rest : List ℕ)
    → length (seen ++ (c ++ rest)) < 2 ^ 63
    → (length (seen ++ c) < 2 ^ 63) × (length ((seen ++ c) ++ rest) < 2 ^ 63)
length-joined seen c rest h = (
  omega (arith, length-append seen c, length-append seen (c ++ rest), length-append c rest),
  rw (append_assoc seen c rest) h,
)

captures_at-seen :
    (limit : ℕ) (seen : List ℕ) (chunks : List (List ℕ))
    → length (seen ++ joined chunks) < 2 ^ 63
    → captures_at limit (kept_of limit seen) chunks ≡ kept_of limit (seen ++ joined chunks)
unfolding captures_at
captures_at-seen limit seen [] h = rw (append-nil seen)
captures_at-seen limit seen (c ∷ cs) h =
    let below = length-joined seen c (joined cs) h in
    rw (capture_at-kept_of limit seen c below.0, sym (append_assoc seen c (joined cs)))
      (captures_at-seen limit (seen ++ c) cs below.1)

empty-kept_of : (limit : ℕ) → empty_preview ≡ kept_of limit []
empty-kept_of limit = rw (take_all {A = ℕ} limit [] (omega arith), none_cut)
  where
    none_cut : ltb limit 0 ≡ false
    none_cut = ground arith

take-preview_at : (limit : ℕ) (body : List ℕ) → (preview_at limit body).0 ≡ take limit body
unfolding preview_at
take-preview_at limit body = ap (λ m. take m body) (omega arith) ∙ take-min limit body

ltb-preview_at : (limit : ℕ) (body : List ℕ) → (preview_at limit body).1 ≡ ltb limit (length body)
unfolding preview_at
ltb-preview_at limit body = ground arith

-- However the bytes of a body arrive, what is kept of them is the preview of the whole body, and
-- the count is its length, for a body shorter than 2 ^ 63 bytes.
pub captures_at-preview_at :
    (limit : ℕ) (chunks : List (List ℕ))
    → length (joined chunks) < 2 ^ 63
    → captures_at limit empty_preview chunks ≡ record {
      body = (preview_at limit (joined chunks)).0;
      truncated = (preview_at limit (joined chunks)).1;
      bytes = pos (length (joined chunks));
    }
captures_at-preview_at limit chunks h =
    rw
      (
        empty-kept_of limit,
        take-preview_at limit (joined chunks),
        ltb-preview_at limit (joined chunks),
      )
      (captures_at-seen limit [] chunks h)

-- The spool keeps the same preview of an audio upload, and the whole upload in its file.
abbrev pub preview_of : AudioSpool → StreamingPreview
preview_of s = record { body = s.preview; truncated = s.preview_truncated; bytes = s.bytes }

abbrev spool_of : List ℕ → StreamingPreview → AudioSpool
spool_of file s = record {
  file = file;
  preview = s.body;
  preview_truncated = s.truncated;
  bytes = s.bytes;
}

preview_of-spool_chunks :
    (limit : ℕ) (s : AudioSpool) (chunks : List (List ℕ))
    → (preview_of (spool_chunks limit s chunks) ≡ captures_at limit (preview_of s) chunks)
      × ((spool_chunks limit s chunks).file ≡ s.file ++ joined chunks)
unfolding spool_chunks spool_chunk captures_at capture_at
preview_of-spool_chunks limit s [] = (refl, sym (append-nil s.file))
preview_of-spool_chunks limit s (c ∷ cs) =
    let (same, file) = preview_of-spool_chunks limit (spool_chunk limit s c) cs in
    (same, file ∙ append_assoc s.file c (joined cs))

-- The spool of an audio upload of fewer than 2 ^ 63 bytes holds the bytes of its chunks in their
-- order, and its preview is the one of the whole upload.
pub spool_chunks-preview_at :
    (limit : ℕ) (chunks : List (List ℕ))
    → length (joined chunks) < 2 ^ 63
    → spool_chunks limit empty_spool chunks ≡ record {
      file = joined chunks;
      preview = (preview_at limit (joined chunks)).0;
      preview_truncated = (preview_at limit (joined chunks)).1;
      bytes = pos (length (joined chunks));
    }
spool_chunks-preview_at limit chunks h =
    let (same, file) = preview_of-spool_chunks limit empty_spool chunks in
    let whole = same ∙ captures_at-preview_at limit chunks h in
    ap (λ (w : List ℕ). spool_of w (preview_of (spool_chunks limit empty_spool chunks))) file
    ∙ ap (spool_of (joined chunks)) whole
