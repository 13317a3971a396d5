-- ===== src/Gate.antt =====
-- The /risk admission gate of app/main.go: the stack of waiters, `riskSubmit` cut into the parts
-- that run without a break, `riskTakeWork`, and the counters of idle workers and wake-ups.
-- A waiter's address is its place in `heap`, which only grows; `next` pointers are the order of
-- `stack`. Times are nanoseconds.
pub mod Take
pub mod Arrival
pub mod System
mod Tests
use obsidio.Prelude.{
  ℕ, zero, suc, ◌+◌, ◌-◌, Bool, true, false, not, ◌&&◌, ◌||◌, List, [], ◌∷◌, ◌++◌, Option, none,
  some, ltb, leb, ◌==◌, if◌then◌else◌, length, get_elem?, set, modify,
}
use obsidio.Prelude.Env.{Bytes}
use obsidio.Governor.{Counters, charge, shed_reserve_error}

-- Where the goroutine of a parked waiter stands in `riskSubmit`: before the wake-up, in the
-- select loop, after the loop with or without a reservation, waiting for the digest of a worker
-- that owns it, returned with a digest, returned without one.
pub data Pc : Type 0 where
  waking waiting : Pc
  leaving : Bool → Pc
  collecting : Pc
  served : Bytes → Pc
  refused : Pc

-- `riskWaiter`; `cancelled` is `ctx.Err() != nil`, and `result` holds what was ever sent on the channel.
pub record Waiter : Type 0 where
  pub seed : Bytes
  pub enqueued : ℕ
  pub taken : Bool
  pub abandoned : Bool
  pub cancelled : Bool
  pub result : Option Bytes
  pub pc : Pc

pub record Gate : Type 0 where
  pub counters : Counters
  pub budget : ℕ
  pub patience : ℕ
  pub heap : List Waiter
  pub stack : List ℕ
  pub depth : ℕ
  pub idle : ℕ
  pub tokens : ℕ

abbrev pub risk_stack_backstop : ℕ
risk_stack_backstop = 2048

-- The capacity of `riskWork`.
abbrev pub wake_capacity : ℕ
wake_capacity = 16

pub data Entry : Type 0 where
  parked : ℕ → Entry
  shed : Entry

abbrev pub new_waiter : ℕ → Bytes → Waiter
new_waiter now seed = record {
  seed = seed;
  enqueued = now;
  taken = false;
  abandoned = false;
  cancelled = false;
  result = none;
  pc = waking;
}

abbrev pub push : ℕ → Bytes → Gate → Gate
push now seed g = record g {
  heap = g.heap ++ new_waiter now seed ∷ [];
  stack = length g.heap ∷ g.stack;
  depth = g.depth + 1;
}

-- `riskStackDepth > 0 && riskIdleWorkers == 0 && shedReserveError()`.
unfoldable pub front_door : Gate → Counters × Bool
front_door g =
    if ltb 0 g.depth && g.idle == 0
    then shed_reserve_error g.budget g.counters
    else (g.counters, false)

-- `riskSubmit` up to the end of its first critical section.
unfoldable pub enter : ℕ → Bytes → Gate → Gate × Entry
unfolding front_door
enter now seed g =
    if leb risk_stack_backstop g.depth
    then (record g { counters = charge g.counters }, shed)
    else let (c, ok) = front_door g in
      if ok then (record g { counters = c }, shed) else (push now seed g, parked (length g.heap))

-- The non-blocking send on `riskWork`.
unfoldable pub wake : Gate → Gate
wake g = if ltb g.tokens wake_capacity then record g { tokens = g.tokens + 1 } else g

-- What the select of `riskSubmit` may find ready.
pub data Signal : Type 0 where
  digest : Bytes → Signal
  disconnect patience_over : Signal

-- One round of the select loop, on the counters and the goroutine's position.
unfoldable pub on_signal : ℕ → Signal → Counters → Counters × Pc
on_signal budget (digest h) c = (c, served h)
on_signal budget disconnect c = (c, leaving false)
on_signal budget patience_over c =
    let (c', ok) = shed_reserve_error budget c in if ok then (c', leaving true) else (c, waiting)

-- The second critical section of `riskSubmit` and the charges after it.
unfoldable pub leave : Bool → Counters → Waiter → Counters × Waiter
leave reserved c w =
    if w.taken
    then (if reserved then record c { err = c.err - 1 } else c, record w { pc = collecting })
    else (if reserved then c else charge c, record w { abandoned = true; pc = refused })

-- What `riskTakeWork` makes of the waiter on top of the stack.
pub data Fate : Type 0 where
  dead stale live : Fate

-- `now.Sub(w.enqueued) > stale` is false too where the clock reads less than `enqueued`. No
-- address on the stack lacks a waiter.
unfoldable pub fate : ℕ → ℕ → Option Waiter → Fate
fate now patience none = dead
fate now patience (some w) =
    if w.abandoned || w.cancelled
    then dead
    else if ltb patience (now - w.enqueued)
    then stale
    else live

abbrev pub mark_taken : Waiter → Waiter
mark_taken w = record w { taken = true }

abbrev pub unlink : Gate → Gate
unlink g = record g { depth = g.depth - 1 }

-- The loop of `riskTakeWork` over the rest of the stack, with `want - len(taken)` places left.
unfoldable pub take_loop : ℕ → ℕ → ℕ → List ℕ → Gate → List ℕ × Gate
take_loop zero now patience stack g = ([], record g { stack = stack })
take_loop (suc k) now patience [] g = ([], record g { stack = [] })
take_loop (suc k) now patience (i ∷ rest) g = elim (fate now patience (get_elem? g.heap i)) [
  | dead ↦ take_loop (suc k) now patience rest (unlink g)
  | stale ↦ take_loop (suc k) now patience rest (record (unlink g) { counters = charge g.counters })
  | live ↦
      let r =
        take_loop k now patience rest (record (unlink g) { heap = modify g.heap i mark_taken }) in
      (i ∷ r.0, r.1)
]

-- `riskTakeWork`: the addresses that it took, newest first.
unfoldable pub take_work : ℕ → ℕ → Gate → List ℕ × Gate
take_work want now g = take_loop want now g.patience g.stack g

-- `w.result <- h`.
unfoldable pub deliver : ℕ → Bytes → Gate → Gate
deliver i h g = record g { heap = modify g.heap i (λ w. record w { result = some h }) }
