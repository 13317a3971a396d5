-- ===== src/Gate/System/Defs.antt =====
-- The state of the whole /risk path and its steps. A step is a critical section, with `shedReserveError` in
-- one piece; the digest that a worker sends is given by the chain of a seed.
use obsidio.Prelude.{
  ℕ, ◌+◌, ◌-◌, ◌<◌, ◌≡◌, Bool, true, List, [], ◌∷◌, ◌++◌, some, ltb, if◌then◌else◌, length,
  get_elem?, set, take, replicate,
}
use obsidio.Prelude.Env.{Bytes}
use obsidio.Governor.{Counters, count_response}
use obsidio.Gate.Take.{stale_count}
use obsidio.Gate.{
  waking, waiting, leaving, collecting, served, Waiter, Gate, Entry, parked, shed, enter, wake,
  Signal, digest, disconnect, patience_over, on_signal, leave, take_work, deliver,
}

-- Where a worker stands in its loop: before `riskTakeWork`, with a batch whose addresses still
-- want a digest, after an empty take, blocked on `riskWork` and counted as idle, after the receive.
pub data Phase : Type 0 where
  scanning : Phase
  running : List ℕ → Phase
  drained asleep woken : Phase

-- What an observer counted: requests refused on arrival, stale waiters skipped, other error
-- responses.
pub record Log : Type 0 where
  pub door : ℕ
  pub stale : ℕ
  pub others : ℕ

pub record System : Type 0 where
  pub gate : Gate
  pub workers : List Phase
  pub log : Log

abbrev pub put : ℕ → Waiter → Gate → Gate
put i w g = record g { heap = set g.heap i w }

unfoldable pub after_signal : ℕ → Waiter → Signal → Gate → Gate
after_signal i w sig g =
    let (c, p) = on_signal g.budget sig g.counters in
    record g { counters = c; heap = set g.heap i (record w { pc = p }) }

unfoldable pub after_leave : ℕ → Waiter → Bool → Gate → Gate
after_leave i w reserved g =
    let (c, w') = leave reserved g.counters w in record g { counters = c; heap = set g.heap i w' }

-- Which cases of the select may fire.
abbrev pub Ready : Waiter → Signal → Type 0
Ready w (digest h) = w.result ≡ some h
Ready w disconnect = w.cancelled ≡ true
Ready w patience_over = Unit

abbrev pub next_phase : List ℕ → Phase
next_phase [] = drained
next_phase (i ∷ ids) = running (i ∷ ids)

-- The part of a stack that is gone.
abbrev pub popped_by : List ℕ → List ℕ → List ℕ
popped_by st rest = take (length st - length rest) st

abbrev pub note_entry : Entry → Log → Log
note_entry (parked i) l = l
note_entry shed l = record l { door = l.door + 1 }

abbrev pub note_response : ℕ → Log → Log
note_response code l = if ltb code 400 then l else record l { others = l.others + 1 }

abbrev pub with_gate : System → Gate → System
with_gate s g = record s { gate = g }

abbrev pub with_worker : System → List Phase → Phase → List Phase → System
with_worker s before p after = record s { workers = before ++ p ∷ after }

abbrev pub after_take : System → List Phase → List Phase → ℕ → ℕ → System
after_take s before after want now =
    let r = take_work want now s.gate in
    record {
      gate = r.1;
      workers = before ++ next_phase r.0 ∷ after;
      log = record s.log {
        stale =
            s.log.stale
            + stale_count now s.gate.patience s.gate.heap (popped_by s.gate.stack r.1.stack);
      };
    }

pub data Step (chain : Bytes → Bytes) (s : System) : System → Type 0 where
  -- A request reaches the gate.
  arrive :
      (now : ℕ) (seed : Bytes)
      → Step chain s (record s {
        gate = (enter now seed s.gate).0;
        log = note_entry (enter now seed s.gate).1 s.log;
      })
  -- The goroutine of waiter `i` goes on, from each of its positions.
  send_wake :
      (i : ℕ) (w : Waiter)
      → get_elem? s.gate.heap i ≡ some w
      → w.pc ≡ waking
      → Step chain s (with_gate s (wake (put i (record w { pc = waiting }) s.gate)))
  signal :
      (i : ℕ) (w : Waiter) (sig : Signal)
      → get_elem? s.gate.heap i ≡ some w
      → w.pc ≡ waiting
      → Ready w sig
      → Step chain s (with_gate s (after_signal i w sig s.gate))
  depart :
      (i : ℕ) (w : Waiter) (reserved : Bool)
      → get_elem? s.gate.heap i ≡ some w
      → w.pc ≡ leaving reserved
      → Step chain s (with_gate s (after_leave i w reserved s.gate))
  collect :
      (i : ℕ) (w : Waiter) (h : Bytes)
      → get_elem? s.gate.heap i ≡ some w
      → w.pc ≡ collecting
      → w.result ≡ some h
      → Step chain s (with_gate s (put i (record w { pc = served h }) s.gate))
  -- The client of waiter `i` goes away.
  cancel :
      (i : ℕ) (w : Waiter)
      → get_elem? s.gate.heap i ≡ some w
      → Step chain s (with_gate s (put i (record w { cancelled = true }) s.gate))
  -- A worker goes on, from each of its positions.
  take_some :
      (before after : List Phase) (want now : ℕ)
      → s.workers ≡ before ++ scanning ∷ after
      → 0 < want
      → Step chain s (after_take s before after want now)
  send_result :
      (before after : List Phase) (i : ℕ) (ids : List ℕ) (w : Waiter)
      → s.workers ≡ before ++ running (i ∷ ids) ∷ after
      → get_elem? s.gate.heap i ≡ some w
      → Step chain s (record s {
        gate = deliver i (chain w.seed) s.gate;
        workers = before ++ running ids ∷ after;
      })
  finish :
      (before after : List Phase)
      → s.workers ≡ before ++ running [] ∷ after
      → Step chain s (with_worker s before scanning after)
  sleep :
      (before after : List Phase)
      → s.workers ≡ before ++ drained ∷ after
      → Step chain s (record s {
        gate = record s.gate { idle = s.gate.idle + 1 };
        workers = before ++ asleep ∷ after;
      })
  rouse :
      (before after : List Phase)
      → s.workers ≡ before ++ asleep ∷ after
      → 0 < s.gate.tokens
      → Step chain s (record s {
        gate = record s.gate { tokens = s.gate.tokens - 1 };
        workers = before ++ woken ∷ after;
      })
  resume :
      (before after : List Phase)
      → s.workers ≡ before ++ woken ∷ after
      → Step chain s (record s {
        gate = record s.gate { idle = s.gate.idle - 1 };
        workers = before ++ scanning ∷ after;
      })
  -- Other handlers answer, and finished chains move the patience window.
  respond :
      (code : ℕ)
      → Step chain s (record s {
        gate = record s.gate { counters = count_response code s.gate.counters };
        log = note_response code s.log;
      })
  retune : (patience : ℕ) → Step chain s (with_gate s (record s.gate { patience = patience }))

pub data Reach (chain : Bytes → Bytes) (s : System) : System → Type 0 where
  here : Reach chain s s
  more : {t u : System} → Reach chain s t → Step chain t u → Reach chain s u

-- Right after boot: no waiter, and every worker about to look for one.
abbrev pub initial : Counters → ℕ → ℕ → ℕ → System
initial c budget patience slots = record {
  gate = record {
    counters = c;
    budget = budget;
    patience = patience;
    heap = [];
    stack = [];
    depth = 0;
    idle = 0;
    tokens = 0;
  };
  workers = replicate slots scanning;
  log = record { door = 0; stale = 0; others = 0 };
}

-- A worker that will look at the stack again before it blocks.
abbrev pub awake : Phase → ℕ
awake scanning = 1
awake (running ids) = 1
awake woken = 1
awake drained = 0
awake asleep = 0
