-- ===== src/Gate/System/Accounting.antt =====
-- Every refusal is charged once: the error counter against what an observer counts.
use obsidio.Prelude.{
  ℕ, ◌+◌, ◌≤◌, ◌≡◌, refl, ◌∙◌, inl, inr, Bool, true, false, List, [], ◌∷◌, ◌++◌, some, arith,
  Bool-cases, get_elem?, set, modify, sum_of, sum_of-append, sum_of-set, sum_of-modify, sum_of-cons,
  sum_of-nil, take-length-append, length-append,
}
use obsidio.Prelude.Env.{Bytes}
use obsidio.Governor.{Counters, count_response, shed_reserve_error}
use obsidio.Gate.Take.{take_work-Takes, stale_count, mark_all}
use obsidio.Gate.Arrival.{enter_lem}
use obsidio.Gate.System.Defs.{
  System, after_signal, after_leave, popped_by, note_entry, Step, Reach, initial, arrive, send_wake,
  signal, depart, collect, cancel, take_some, send_result, finish, sleep, rouse, resume, respond,
  retune, here, more,
}
use obsidio.Gate.{
  Pc, waking, waiting, leaving, collecting, served, refused, Waiter, Gate, enter, wake, Signal,
  digest, disconnect, patience_over, on_signal, leave, mark_taken, deliver, new_waiter, take_work,
}

-- The errors that a goroutine has charged so far and not taken back: one if it holds a reservation
-- or was refused, and none otherwise.
abbrev pub owes_at : Pc → ℕ
owes_at (leaving true) = 1
owes_at refused = 1
owes_at waking = 0
owes_at waiting = 0
owes_at (leaving false) = 0
owes_at collecting = 0
owes_at (served h) = 0

abbrev pub owes : Waiter → ℕ
owes w = owes_at w.pc

abbrev owed : Gate → ℕ
owed g = sum_of owes g.heap

-- `e` errors were counted at boot.
abbrev pub Balanced : ℕ → System → Type 0
Balanced e s =
    s.gate.counters.err ≡ e + s.log.door + s.log.stale + s.log.others + sum_of owes s.gate.heap

arrive-Balanced :
    (e now : ℕ) (seed : Bytes) (s : System)
    → Balanced e s
    → Balanced e (record s {
      gate = (enter now seed s.gate).0;
      log = note_entry (enter now seed s.gate).1 s.log;
    })
arrive-Balanced e now seed s b = elim (enter_lem now seed s.gate) [
  | inl (eq, _) ↦ rw eq (omega arith)
  | inr (eq, _, _) ↦
      let w = new_waiter now seed in
      rw eq (
        omega
          (arith, sum_of-append owes s.gate.heap (w ∷ []), sum_of-cons owes w [], sum_of-nil owes))
]

-- A change to waiter `i` and the error counter that keeps what is owed in step.
put-Balanced :
    (e i n : ℕ) (w v : Waiter) (s : System)
    → get_elem? s.gate.heap i ≡ some w
    → n + owes w ≡ s.gate.counters.err + owes v
    → Balanced e s
    → n ≡ e + s.log.door + s.log.stale + s.log.others + sum_of owes (set s.gate.heap i v)
put-Balanced e i n w v s at_i same b = omega (arith, sum_of-set owes s.gate.heap i w v at_i)

on_signal-owes :
    (budget : ℕ) (sig : Signal) (c : Counters)
    → (on_signal budget sig c).0.err ≡ c.err + owes_at (on_signal budget sig c).1
unfolding on_signal shed_reserve_error
on_signal-owes budget (digest h) c = omega arith
on_signal-owes budget disconnect c = omega arith
on_signal-owes budget patience_over c = ground arith

leave-owes :
    (reserved : Bool) (c : Counters) (w : Waiter)
    → w.pc ≡ leaving reserved
    → owes w ≤ c.err
    → (leave reserved c w).0.err + owes w ≡ c.err + owes (leave reserved c w).1
unfolding leave
leave-owes true c w e le = elim (Bool-cases w.taken) [
  | inl t ↦ let one : owes w ≡ 1 = rw e refl in rw (leave, t) (omega arith)
  | inr t ↦ rw (leave, t, e) refl
]
leave-owes false c w e le = elim (Bool-cases w.taken) [
  | inl t ↦ rw (leave, t, e) refl
  | inr t ↦ rw (leave, t, e) (omega arith)
]

owed-mark_all :
    (ids : List ℕ) (heap : List Waiter) → sum_of owes (mark_all ids heap) ≡ sum_of owes heap
owed-mark_all [] heap = refl
owed-mark_all (i ∷ ids) heap =
    owed-mark_all ids (modify heap i mark_taken) ∙ sum_of-modify owes mark_taken heap i (λ w. refl)

popped_by-eq : (st popped rest : List ℕ) → st ≡ popped ++ rest → popped_by st rest ≡ popped
popped_by-eq st popped rest e =
    rw e (take-length-append popped rest _ (omega (arith, length-append popped rest)))

take-Balanced :
    (e want now : ℕ) (s : System)
    → Balanced e s
    → (take_work want now s.gate).1.counters.err
      ≡ e
        + s.log.door
        + (s.log.stale
            + stale_count now s.gate.patience s.gate.heap
                (popped_by s.gate.stack (take_work want now s.gate).1.stack))
        + s.log.others
        + sum_of owes (take_work want now s.gate).1.heap
take-Balanced e want now s b =
    let t = take_work-Takes want now s.gate in
    rw (popped_by-eq s.gate.stack t.popped _ t.splits, t.marks, t.charges)
      (omega (arith, owed-mark_all (take_work want now s.gate).0 s.gate.heap))

Step-Balanced :
    {chain : Bytes → Bytes} (e : ℕ) {s t : System} → Step chain s t → Balanced e s → Balanced e t
unfolding after_signal after_leave wake deliver count_response
Step-Balanced e {s} (arrive now seed) b = arrive-Balanced e now seed s b
Step-Balanced e {s} (send_wake i w h p) b =
    let same =
      put-Balanced e i s.gate.counters.err w (record w { pc = waiting }) s h (rw p refl) b in
    ground (arith, same)
Step-Balanced e {s} (signal i w sig h p r) b =
    put-Balanced e i _ w _ s h
      (rw p (omega (arith, on_signal-owes s.gate.budget sig s.gate.counters))) b
Step-Balanced e {s} (depart i w reserved h p) b =
    let le : owes w ≤ s.gate.counters.err =
      omega (arith, sum_of-set owes s.gate.heap i w (record w { pc = waiting }) h) in
    put-Balanced e i _ w _ s h (leave-owes reserved s.gate.counters w p le) b
Step-Balanced e {s} (collect i w h at_i p r) b = put-Balanced e i _ w _ s at_i (rw p refl) b
Step-Balanced e {s} (cancel i w h) b = put-Balanced e i _ w _ s h refl b
Step-Balanced e {s} (take_some before after want now h lt) b = take-Balanced e want now s b
Step-Balanced {chain} e {s} (send_result before after i ids w h at_i) b = omega (
  arith,
  sum_of-modify owes (λ v. record v { result = some (chain w.seed) }) s.gate.heap i (λ v. refl),
)
Step-Balanced e (finish before after h) b = b
Step-Balanced e (sleep before after h) b = b
Step-Balanced e (rouse before after h lt) b = b
Step-Balanced e (resume before after h) b = b
Step-Balanced e (respond code) b = ground arith
Step-Balanced e (retune patience) b = b

Reach-Balanced :
    {chain : Bytes → Bytes} (e : ℕ) {s t : System} → Balanced e s → Reach chain s t → Balanced e t
Reach-Balanced e b here = b
Reach-Balanced e b (more r st) = Step-Balanced e st (Reach-Balanced e b r)

-- In every interleaving from boot the error counter is the errors at boot plus one for each request
-- refused on arrival, each stale waiter skipped, each error of another handler and each goroutine
-- that was refused after parking or holds a reservation.
pub charged_once :
    {chain : Bytes → Bytes} (c : Counters) (budget patience slots : ℕ) (t : System)
    → Reach chain (initial c budget patience slots) t
    → t.gate.counters.err
      ≡ c.err + t.log.door + t.log.stale + t.log.others + sum_of owes t.gate.heap
charged_once c budget patience slots t r = Reach-Balanced c.err (omega (arith, sum_of-nil owes)) r
