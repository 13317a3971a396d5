-- ===== src/Worker/Turn.antt =====
-- One turn of the loop of `riskWorker` of app/main.go on the state of the gate: the take, the batch, and
-- what the batch does to the waiters and to the patience window.
pub mod Simulates
use obsidio.Prelude.{ℕ, ◌+◌, List, [], ◌∷◌, ◌++◌, Option, none, some, length, get_elem?, ◌>>=◌}
use obsidio.Prelude.Env.{Bytes}
use obsidio.Kernel.Chain.{Sha256}
use obsidio.Gate.{Waiter, Gate, deliver, take_work}
use obsidio.Gate.System.Defs.{System, Phase, scanning, asleep, after_take}
use obsidio.Worker.{Paths, Job, Event, cost, send, choose_lanes, run_batch}

abbrev pub seed_of : Option Waiter → Option Bytes
seed_of none = none
seed_of (some w) = some w.seed

-- The batch, with the seeds of its waiters; `none` is an address without a waiter.
pub jobs : List Waiter → List ℕ → Option (List Job)
jobs heap [] = some []
jobs heap (i ∷ ids) =
    seed_of (get_elem? heap i) >>= λ s. jobs heap ids >>= λ work. some ((i, s) ∷ work)

-- What a batch does, given the patience that each reported wall time leaves.
pub perform : (ℕ → ℕ) → List Event → Gate → Gate
perform tune [] g = g
perform tune (cost ∷ es) g = perform tune es (record g { patience = tune (length es) })
perform tune (send i h ∷ es) g = perform tune es (deliver i h g)

module _ (H : Sha256) (p : Paths) (tune : ℕ → ℕ) (before after : List Phase) where
  abbrev pub after_batch : System → Option (List Event) → Option System
  after_batch s none = none
  after_batch s (some es) =
      some (record s { gate = perform tune es s.gate; workers = before ++ scanning ∷ after })

  -- A worker that got nobody counts itself as idle and blocks.
  abbrev pub with_batch : System → List ℕ → Option System
  with_batch s [] = some (record s {
    gate = record s.gate { idle = s.gate.idle + 1 };
    workers = before ++ asleep ∷ after;
  })
  with_batch s (i ∷ ids) = after_batch s (jobs s.gate.heap (i ∷ ids) >>= run_batch H p)

  -- A turn of the worker between `before` and `after`; `none` is a panic or fuel that ran out.
  unfoldable pub turn : ℕ → System → Option System
  unfolding choose_lanes take_work jobs run_batch perform
  turn now s =
      let want = choose_lanes p s.gate.depth in
      with_batch (after_take s before after want now) (take_work want now s.gate).0
