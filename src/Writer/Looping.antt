-- ===== src/Writer/Looping.antt =====
-- src/audit.rs: `run`, which takes the messages of the queue in batches and tries each batch until it is
-- written.
use open_ai_lb.Prelude.{
  ℕ, zero, suc, ◌-◌, ◌*◌, min, Bool, Option, none, some, List, [], ◌∷◌, if◌then◌else◌, take, drop,
}
use open_ai_lb.Prelude.Int.{ℤ}
use open_ai_lb.Writer.{Message, Tables, persist}

abbrev pub batch_capacity : ℕ
batch_capacity = 128

abbrev pub retry_initial_delay : ℕ
retry_initial_delay = 100

abbrev pub retry_max_delay : ℕ
retry_max_delay = 5000

-- `retry_delay.saturating_mul(2).min(RETRY_MAX_DELAY)`, in milliseconds.
abbrev pub next_delay : ℕ → ℕ
next_delay delay = min (delay * 2) retry_max_delay

-- What the writer meets at its n-th attempt: whether the database can be reached, the time, and what
-- others wrote since the last one.
pub record Outside : Type 0 where
  pub reachable : ℕ → Bool
  pub clock : ℕ → ℤ
  pub others : ℕ → Tables → Tables

-- A batch that is written: the tables, the next attempt's number and the waits, the last one first.
pub record Written : Type 0 where
  pub tables : Tables
  pub attempts : ℕ
  pub waits : List ℕ

abbrev after_attempt : ℕ → List ℕ → Option Tables → Option Written → Option Written
after_attempt n waits none rest = rest
after_attempt n waits (some written) rest =
    some (record { tables = written; attempts = suc n; waits = waits })

module _ (o : Outside) where
  abbrev pub attempt : List Message → ℕ → Tables → Option Tables
  attempt batch n t = if o.reachable n then persist batch (o.clock n) t else none

  -- The inner loop of `run`, on fuel.
  unfoldable pub write_batch : ℕ → List Message → ℕ → ℕ → List ℕ → Tables → Option Written
  write_batch zero batch n delay waits t = none
  write_batch (suc fuel) batch n delay waits t =
      let seen = o.others n t in
      let rest = write_batch fuel batch (suc n) (next_delay delay) (delay ∷ waits) seen in
      after_attempt n waits (attempt batch n seen) rest

-- The outer loop takes a first message and those that are there, up to a full batch; `ready` says how
-- many are there each time.
unfoldable pub batches : List ℕ → List Message → List (List Message) × List Message
batches [] queue = ([], queue)
batches (k ∷ ready) [] = ([], [])
batches (k ∷ ready) (m ∷ queue) =
    let more = min k (batch_capacity - 1) in
    let rest = batches ready (drop more queue) in ((m ∷ take more queue) ∷ rest.0, rest.1)
