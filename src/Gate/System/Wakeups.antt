-- ===== src/Gate/System/Wakeups.antt =====
-- No wake-up is lost: while somebody is on the stack, a worker is going to look at it.
use obsidio.Prelude.{
  ℕ, zero, suc, ◌+◌, ◌-◌, ◌≤◌, ◌<◌, ◌≡◌, ◌⊎◌, refl, sym, ap, ◌∙◌, inl, inr, List, [], ◌∷◌, ◌++◌,
  some, arith, length, get_elem?, modify, sum_of, sum_of-append, sum_of-set, sum_of-modify,
  sum_of-cons, sum_of-nil, sum_of-middle, All, replicate,
}
use obsidio.Prelude.Env.{Bytes}
use obsidio.Governor.{Counters}
use obsidio.Gate.Take.{take_work-Takes, mark_all}
use obsidio.Gate.Arrival.{enter_lem}
use obsidio.Gate.System.Defs.{
  Phase, scanning, running, drained, asleep, woken, System, after_signal, after_leave, next_phase,
  awake, put, Step, Reach, initial, arrive, send_wake, signal, depart, collect, cancel, take_some,
  send_result, finish, sleep, rouse, resume, respond, retune, here, more,
}
use obsidio.Gate.{
  Pc, waking, waiting, leaving, collecting, served, refused, Waiter, Gate, enter, wake, mark_taken,
  deliver, new_waiter, take_work,
}

abbrev pub waking_at : Pc → ℕ
waking_at waking = 1
waking_at waiting = 0
waking_at (leaving r) = 0
waking_at collecting = 0
waking_at (served h) = 0
waking_at refused = 0

-- A goroutine that has parked and not yet sent its wake-up.
abbrev pub about_to_wake : Waiter → ℕ
about_to_wake w = waking_at w.pc

-- A worker that `riskIdleWorkers` counts.
abbrev pub idling : Phase → ℕ
idling scanning = 0
idling (running ids) = 0
idling drained = 0
idling asleep = 1
idling woken = 1

-- What will make a worker look at the stack.
abbrev pub alarms : Gate → List Phase → ℕ
alarms g workers = g.tokens + sum_of about_to_wake g.heap + sum_of awake workers

abbrev Alert : Gate → List Phase → Type 0
Alert g workers = (g.stack ≡ []) ⊎ (0 < alarms g workers)

abbrev Counted : Gate → List Phase → Type 0
Counted g workers = g.idle ≡ sum_of idling workers

record Inv (s : System) : Type 0 where
  alert : Alert s.gate s.workers
  counted : Counted s.gate s.workers

arrive-Alert :
    (now : ℕ) (seed : Bytes) (g : Gate) (ws : List Phase)
    → Alert g ws
    → Alert (enter now seed g).0 ws
arrive-Alert now seed g ws a = elim (enter_lem now seed g) [
  | inl (eq, _) ↦ rw eq a
  | inr (eq, _, _) ↦
      let w = new_waiter now seed in
      rw eq (
        inr (
          omega
            (arith, sum_of-append about_to_wake g.heap (w ∷ []), sum_of-cons about_to_wake w [])))
]

arrive-idle : (now : ℕ) (seed : Bytes) (g : Gate) → (enter now seed g).0.idle ≡ g.idle
arrive-idle now seed g = elim (enter_lem now seed g) [
  | inl (eq, _) ↦ rw eq refl
  | inr (eq, _, _) ↦ rw eq refl
]

-- A change to a waiter that was not about to wake anybody.
put-Alert :
    (g : Gate) (ws : List Phase) (i : ℕ) (w v : Waiter)
    → get_elem? g.heap i ≡ some w
    → about_to_wake w ≤ about_to_wake v
    → Alert g ws
    → Alert (put i v g) ws
put-Alert g ws i w v e le (inl empty) = inl empty
put-Alert g ws i w v e le (inr lt) = inr (omega (arith, sum_of-set about_to_wake g.heap i w v e))

waking-mark_all :
    (ids : List ℕ) (heap : List Waiter)
    → sum_of about_to_wake (mark_all ids heap) ≡ sum_of about_to_wake heap
waking-mark_all [] heap = refl
waking-mark_all (i ∷ ids) heap =
    waking-mark_all ids (modify heap i mark_taken)
    ∙ sum_of-modify about_to_wake mark_taken heap i (λ w. refl)

-- A worker that has taken something looks again; one that has not has seen an empty stack.
take-Alert :
    (want now : ℕ) (g : Gate) (before after : List Phase)
    → 0 < want
    → Alert (take_work want now g).1 (before ++ next_phase (take_work want now g).0 ∷ after)
take-Alert want now g before after lt =
    go (take_work want now g).0 (take_work want now g).1 (take_work-Takes want now g).stops
  where
    go :
        (ids : List ℕ) (g' : Gate)
        → (length ids ≡ want) ⊎ ((g'.stack ≡ []) × (length ids < want))
        → Alert g' (before ++ next_phase ids ∷ after)
    go [] g' (inl e) = absurd (omega arith)
    go [] g' (inr (e, _)) = inl e
    go (i ∷ ids) g' st = inr (
        omega (
          arith,
          sum_of-append awake before (running (i ∷ ids) ∷ after),
          sum_of-cons awake (running (i ∷ ids)) after,
        ))

take-Counted :
    (want now : ℕ) (g : Gate) (before after : List Phase)
    → Counted g (before ++ scanning ∷ after)
    → Counted (take_work want now g).1 (before ++ next_phase (take_work want now g).0 ∷ after)
take-Counted want now g before after c =
    go (take_work want now g).0 (take_work want now g).1 (take_work-Takes want now g).same_workers.0
  where
    go :
        (ids : List ℕ) (g' : Gate)
        → g'.idle ≡ g.idle
        → Counted g' (before ++ next_phase ids ∷ after)
    go [] g' e = omega (arith, sum_of-middle idling before after scanning drained)
    go (i ∷ ids) g' e =
        omega (arith, sum_of-middle idling before after scanning (running (i ∷ ids)))

-- A worker that changes its phase, with the tokens and the idle count that go with it.
move-Inv :
    (g g' : Gate) (ws before after : List Phase) (p q : Phase)
    → ws ≡ before ++ p ∷ after
    → g'.stack ≡ g.stack
    → sum_of about_to_wake g'.heap ≡ sum_of about_to_wake g.heap
    → g.tokens + awake p ≤ g'.tokens + awake q
    → g'.idle + idling p ≡ g.idle + idling q
    → Alert g ws
    → Counted g ws
    → Alert g' (before ++ q ∷ after) × Counted g' (before ++ q ∷ after)
move-Inv g g' ws before after p q e st hp tok idl (inl empty) c =
    (inl (st ∙ empty), omega (arith, sum_of-middle idling before after p q, ap (sum_of idling) e))
move-Inv g g' ws before after p q e st hp tok idl (inr lt) c = (
  inr (omega (arith, sum_of-middle awake before after p q, ap (sum_of awake) e)),
  omega (arith, sum_of-middle idling before after p q, ap (sum_of idling) e),
)

wake-tokens : (g : Gate) → 0 < (wake g).tokens
unfolding wake
wake-tokens g = ground arith

wake-idle : (g : Gate) → (wake g).idle ≡ g.idle
unfolding wake
wake-idle g = ground arith

-- The positions that a goroutine goes on to are none before the wake-up.
not_waking : {p q : Pc} → p ≡ q → waking_at q ≡ 0 → waking_at p ≡ 0
not_waking e z = rw e z

Step-Inv : {chain : Bytes → Bytes} {s t : System} → Step chain s t → Inv s → Inv t
unfolding after_signal after_leave deliver
Step-Inv {s} (arrive now seed) v = record {
  alert = arrive-Alert now seed s.gate s.workers v.alert;
  counted = arrive-idle now seed s.gate ∙ v.counted;
}
Step-Inv {s} (send_wake i w h p) v =
    let g = put i (record w { pc = waiting }) s.gate in
    record { alert = inr (omega (arith, wake-tokens g)); counted = wake-idle g ∙ v.counted }
Step-Inv {s} (signal i w sig h p r) v =
    let z : about_to_wake w ≡ 0 = rw p refl in
    record { alert = put-Alert s.gate s.workers i w _ h (omega arith) v.alert; counted = v.counted }
Step-Inv {s} (depart i w reserved h p) v =
    let z : about_to_wake w ≡ 0 = rw p refl in
    record { alert = put-Alert s.gate s.workers i w _ h (omega arith) v.alert; counted = v.counted }
Step-Inv {s} (collect i w d h p r) v =
    let z : about_to_wake w ≡ 0 = rw p refl in
    record { alert = put-Alert s.gate s.workers i w _ h (omega arith) v.alert; counted = v.counted }
Step-Inv {s} (cancel i w h) v = record {
  alert = put-Alert s.gate s.workers i w _ h (omega arith) v.alert;
  counted = v.counted;
}
Step-Inv {s} (take_some before after want now h lt) v = record {
  alert = take-Alert want now s.gate before after lt;
  counted = take-Counted want now s.gate before after (v.counted ∙ ap (sum_of idling) h);
}
Step-Inv {chain} {s} (send_result before after i ids w h at_i) v =
    let same =
      sum_of-modify about_to_wake (λ x. record x { result = some (chain w.seed) }) s.gate.heap i
        (λ x. refl) in
    let m =
      move-Inv s.gate
        (record s.gate {
          heap = modify s.gate.heap i (λ x. record x { result = some (chain w.seed) });
        })
        s.workers before after (running (i ∷ ids)) (running ids) h refl same (omega arith)
        (omega arith) v.alert v.counted in
    record { alert = m.0; counted = m.1 }
Step-Inv {s} (finish before after h) v =
    let m =
      move-Inv s.gate s.gate s.workers before after (running []) scanning h refl refl (omega arith)
        (omega arith) v.alert v.counted in
    record { alert = m.0; counted = m.1 }
Step-Inv {s} (sleep before after h) v =
    let m =
      move-Inv s.gate (record s.gate { idle = s.gate.idle + 1 }) s.workers before after drained
        asleep h refl refl (omega arith) (omega arith) v.alert v.counted in
    record { alert = m.0; counted = m.1 }
Step-Inv {s} (rouse before after h lt) v =
    let m =
      move-Inv s.gate (record s.gate { tokens = s.gate.tokens - 1 }) s.workers before after asleep
        woken h refl refl (omega arith) (omega arith) v.alert v.counted in
    record { alert = m.0; counted = m.1 }
Step-Inv {s} (resume before after h) v =
    let one : 1 ≤ s.gate.idle = omega (
      arith,
      v.counted,
      ap (sum_of idling) h,
      sum_of-append idling before (woken ∷ after),
      sum_of-cons idling woken after,
    ) in
    let m =
      move-Inv s.gate (record s.gate { idle = s.gate.idle - 1 }) s.workers before after woken
        scanning h refl refl (omega arith) (omega arith) v.alert v.counted in
    record { alert = m.0; counted = m.1 }
Step-Inv (respond code) v = record { alert = v.alert; counted = v.counted }
Step-Inv (retune patience) v = record { alert = v.alert; counted = v.counted }

idling-replicate : (n : ℕ) → sum_of idling (replicate n scanning) ≡ 0
idling-replicate zero = sum_of-nil idling
idling-replicate (suc n) =
    omega (arith, idling-replicate n, sum_of-cons idling scanning (replicate n scanning))

Reach-Inv : {chain : Bytes → Bytes} {s t : System} → Inv s → Reach chain s t → Inv t
Reach-Inv v here = v
Reach-Inv v (more r st) = Step-Inv st (Reach-Inv v r)

initial-Inv : (c : Counters) (budget patience slots : ℕ) → Inv (initial c budget patience slots)
initial-Inv c budget patience slots = record {
  alert = inl refl;
  counted = sym (idling-replicate slots);
}

asleep-awake : (ws : List Phase) → All (λ p. p ≡ asleep) ws → sum_of awake ws ≡ 0
asleep-awake [] h = sum_of-nil awake
asleep-awake (p ∷ ws) h =
    let z : awake p ≡ 0 = rw h.0 refl in omega (arith, asleep-awake ws h.1, sum_of-cons awake p ws)

-- In every state reached from boot, if somebody is on the stack then a wake-up is buffered, or
-- about to be sent, or a worker will look at the stack before it blocks; and riskIdleWorkers is the
-- number of workers between its two updates.
pub no_lost_wakeup :
    {chain : Bytes → Bytes} (c : Counters) (budget patience slots : ℕ) (t : System)
    → Reach chain (initial c budget patience slots) t
    → ((t.gate.stack ≡ []) ⊎ (0 < alarms t.gate t.workers))
      × (t.gate.idle ≡ sum_of idling t.workers)
no_lost_wakeup c budget patience slots t r =
    let v = Reach-Inv (initial-Inv c budget patience slots) r in (v.alert, v.counted)

-- In every state reached from boot in which every worker is blocked, no wake-up is buffered and no
-- goroutine is about to send one, the stack is empty.
pub never_stalls :
    {chain : Bytes → Bytes} (c : Counters) (budget patience slots : ℕ) (t : System)
    → Reach chain (initial c budget patience slots) t
    → All (λ p. p ≡ asleep) t.workers
    → t.gate.tokens ≡ 0
    → sum_of about_to_wake t.gate.heap ≡ 0
    → t.gate.stack ≡ []
never_stalls c budget patience slots t r sleeping no_token nobody =
    elim (no_lost_wakeup c budget patience slots t r).0 [
      | inl empty ↦ empty
      | inr lt ↦ absurd (omega (arith, asleep-awake t.workers sleeping))
    ]
