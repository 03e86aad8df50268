-- ===== src/Writer/Retrying.antt =====
-- src/audit.rs: when the loop that retries a batch ends.
use open_ai_lb.Prelude.{
  ℕ, zero, suc, ◌+◌, ◌*◌, ◌^◌, min, String, true, false, Option, none, some, List, [], ◌∷◌, ◌++◌,
  ◌≡◌, refl, ap, ◌∙◌, subst, inl, inr, arith, Bool-cases,
}
use open_ai_lb.Writer.{Message, Tables, call_ids, consumer_ids}
use open_ai_lb.Writer.Looping.{Outside, Written, write_batch, next_delay, retry_initial_delay}
use open_ai_lb.Writer.Persisting.{
  event_ids, Acceptable, persist-Holds, is_orphaned, persist-orphaned,
}

-- The attempts up to the k-th, counted from the n-th, find no database, and that one does.
abbrev pub FirstReach : Outside → ℕ → ℕ → Type 0
FirstReach o n zero = o.reachable n ≡ true
FirstReach o n (suc k) = (o.reachable n ≡ false) × FirstReach o (suc n) k

-- The i-th wait, in milliseconds: 100 doubled i times, and 5 seconds at most.
abbrev pub pause : ℕ → ℕ
pause i = min (100 * 2 ^ i) 5000

-- The first k waits, the last one first.
abbrev pub pauses : ℕ → List ℕ
pauses zero = []
pauses (suc k) = pause k ∷ pauses k

-- The batch is written at the n-th attempt with its calls behind the old ones, after these waits.
abbrev pub WritesAfter : Tables → List String → ℕ → List ℕ → Option Written → Type 0
WritesAfter t ids n waits o =
    (done : Written) × (o ≡ some done)
    × (call_ids done.tables.api_calls ≡ call_ids t.api_calls ++ ids)
    × (done.attempts ≡ n)
    × (done.waits ≡ waits)

next_delay-pause : (i : ℕ) → next_delay (pause i) ≡ pause (suc i)
next_delay-pause i = ground arith

module _ (o : Outside) (batch : List Message) where
  write_from :
      (k n : ℕ) (t : Tables)
      → ((m : ℕ) (u : Tables) → o.others m u ≡ u)
      → Acceptable (consumer_ids t.consumers) t.users (call_ids t.api_calls) batch
      → FirstReach o n k
      → WritesAfter t
          (event_ids batch)
          (suc (n + k))
          (pauses (n + k))
          (write_batch o (suc k) batch n (pause n) (pauses n) t)
  unfolding write_batch
  write_from zero n t quiet h reach =
      let (t', found, ids) = persist-Holds batch (o.clock n) t h in
      (
        record { tables = t'; attempts = suc n; waits = pauses n },
        rw (quiet n t, reach, found),
        ids,
        omega arith,
        let same : n ≡ n + 0 = omega arith in ap pauses same,
      )
  write_from (suc k) n t quiet h (down, reach) =
      let (done, found, ids, tried, within) = write_from k (suc n) t quiet h reach in
      let moved : suc n + k ≡ n + suc k = omega arith in
      (
        done,
        rw (quiet n t, down, next_delay-pause n) found,
        ids,
        omega (arith, tried),
        within ∙ ap pauses moved,
      )

  -- The loop ends: if nothing else is written meanwhile and the batch's events have known consumers and
  -- users and new names, then it needs just one more round than there are attempts that find no
  -- database. All calls of the batch are then behind the old ones, in order, and the loop waited once
  -- before each attempt but the first: 100 ms at first, twice as long each time, and never over 5 s.
  pub write_batch-ends :
      (k : ℕ) (t : Tables)
      → ((m : ℕ) (u : Tables) → o.others m u ≡ u)
      → Acceptable (consumer_ids t.consumers) t.users (call_ids t.api_calls) batch
      → FirstReach o 0 k
      → WritesAfter t
          (event_ids batch)
          (suc k)
          (pauses k)
          (write_batch o (suc k) batch 0 retry_initial_delay [] t)
  write_batch-ends k t quiet h reach =
      let same : 0 + k ≡ k = omega arith in
      subst
        (λ m.
          WritesAfter t (event_ids batch) (suc m) (pauses m)
            (write_batch o (suc k) batch 0 retry_initial_delay [] t))
        same (write_from k 0 t quiet h reach)

  -- The loop never ends while a consumer of the batch is gone: whatever others write, as long as they do
  -- not bring the batch's consumers back, no number of rounds is enough, reachable or not.
  pub write_batch-stuck :
      (fuel n delay : ℕ) (waits : List ℕ) (t : Tables)
      → ((m : ℕ) (u : Tables)
          → is_orphaned (consumer_ids u.consumers) batch ≡ true
          → is_orphaned (consumer_ids (o.others m u).consumers) batch ≡ true)
      → is_orphaned (consumer_ids t.consumers) batch ≡ true
      → write_batch o fuel batch n delay waits t ≡ none
  unfolding write_batch
  write_batch-stuck zero n delay waits t kept h = refl
  write_batch-stuck (suc fuel) n delay waits t kept h =
      let gone = persist-orphaned batch (o.clock n) (o.others n t) (kept n t h) in
      let next =
        write_batch-stuck fuel (suc n) (next_delay delay) (delay ∷ waits) (o.others n t) kept
          (kept n t h) in
      elim (Bool-cases (o.reachable n)) [ inl e ↦ rw (e, gone) next | inr e ↦ rw (e) next ]
