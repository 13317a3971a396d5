-- ===== src/Gate/System/Delivery.antt =====
-- Every step keeps digests with the waiters whose seeds they are made of.
use obsidio.Prelude.{
  ℕ, zero, suc, ◌≡◌, refl, sym, ap, subst, ◌∙◌, inl, inr, Bool, true, false, List, [], ◌∷◌, ◌++◌,
  Option, none, some, arith, Bool-cases, get_elem?, set, All, All-get, All-set, All-append,
  get_elem?-append_keeps, replicate, modify-set,
}
use obsidio.Prelude.Env.{Bytes}
use obsidio.Governor.{Counters, shed_reserve_error}
use obsidio.Gate.Take.{take_work-Takes, mark_all, AllLive, live_of-AllLive}
use obsidio.Gate.Arrival.{enter_lem}
use obsidio.Gate.System.Defs.{
  Phase, scanning, running, drained, asleep, woken, System, Log, Ready, after_signal, after_leave,
  next_phase, Step, Reach, arrive, send_wake, signal, depart, collect, cancel, take_some,
  send_result, finish, sleep, rouse, resume, respond, retune, here, more,
}
use obsidio.Gate.{
  Pc, waking, waiting, leaving, collecting, served, refused, Waiter, Gate, enter, wake, on_signal,
  Signal, digest, disconnect, patience_over, leave, deliver, new_waiter, take_work,
}
use obsidio.Gate.System.Owned.{
  PcOk, ResultOk, WaiterOk, is_taken, Owned, BatchOk, All-keeps, All-middle, All-at, KeepsTaken-set,
  KeepsTaken-mark_all, mark_all-Owned, mark_all-WaiterOk,
}

pub record Inv (chain : Bytes → Bytes) (s : System) : Type 0 where
  pub waiters : All (WaiterOk chain) s.gate.heap
  pub batches : All (BatchOk s.gate.heap) s.workers

-- A change to waiter `i` that keeps it taken.
put-Inv :
    (chain : Bytes → Bytes) (s : System) (g : Gate) (l : Log) (i : ℕ) (w v : Waiter)
    → get_elem? s.gate.heap i ≡ some w
    → g.heap ≡ set s.gate.heap i v
    → (w.taken ≡ true → v.taken ≡ true)
    → WaiterOk chain v
    → Inv chain s
    → Inv chain (record { gate = g; workers = s.workers; log = l })
put-Inv chain s g l i w v at_i h keep ok inv = record {
  waiters = rw h (All-set (WaiterOk chain) s.gate.heap i v ok inv.waiters);
  batches =
      rw h (
        All-keeps s.gate.heap _ s.workers (KeepsTaken-set s.gate.heap i w v at_i keep) inv.batches);
}

arrive-Inv :
    (chain : Bytes → Bytes) (now : ℕ) (seed : Bytes) (s : System) (l : Log)
    → Inv chain s
    → Inv chain (record { gate = (enter now seed s.gate).0; workers = s.workers; log = l })
arrive-Inv chain now seed s l v = elim (enter_lem now seed s.gate) [
  | inl (eq, _) ↦ rw eq (record { waiters = v.waiters; batches = v.batches })
  | inr (eq, _, _) ↦
      let w = new_waiter now seed in
      rw eq (record {
        waiters = All-append (WaiterOk chain) s.gate.heap (w ∷ []) v.waiters ((refl, tt), tt);
        batches =
            All-keeps s.gate.heap (s.gate.heap ++ w ∷ []) s.workers
              (λ i. get_elem?-append_keeps is_taken s.gate.heap (w ∷ []) i refl) v.batches;
      })
]

on_signal-WaiterOk :
    (chain : Bytes → Bytes) (budget : ℕ) (c : Counters) (w : Waiter) (sig : Signal)
    → w.pc ≡ waiting
    → (Ready w sig)
    → WaiterOk chain w
    → WaiterOk chain (record w { pc = (on_signal budget sig c).1 })
unfolding on_signal
on_signal-WaiterOk chain budget c w (digest h) e r (p, k) =
    let stays : w.abandoned ≡ false = rw e at p in ((stays, r), k)
on_signal-WaiterOk chain budget c w disconnect e r (p, k) =
    let stays : w.abandoned ≡ false = rw e at p in (stays, k)
on_signal-WaiterOk chain budget c w patience_over e r (p, k) =
    let stays : w.abandoned ≡ false = rw e at p in
    (
      elim (Bool-cases (shed_reserve_error budget c).1) [
        | inl t ↦ rw (t, on_signal) stays
        | inr f ↦ rw (f, on_signal) stays
      ],
      k,
    )

leave-WaiterOk :
    (chain : Bytes → Bytes) (reserved : Bool) (c : Counters) (w : Waiter)
    → w.pc ≡ leaving reserved
    → WaiterOk chain w
    → WaiterOk chain (leave reserved c w).1
unfolding leave
leave-WaiterOk chain reserved c w e (p, k) =
    let stays : w.abandoned ≡ false = rw e at p in
    elim (Bool-cases w.taken) [
      | inl t ↦ rw (leave, t) ((stays, refl), rw t at k)
      | inr f ↦ rw (leave, f) ((refl, refl), rw f at k)
    ]

take-Inv :
    (chain : Bytes → Bytes) (want now : ℕ) (s : System) (before after : List Phase) (l : Log)
    → s.workers ≡ before ++ scanning ∷ after
    → Inv chain s
    → Inv chain (record {
      gate = (take_work want now s.gate).1;
      workers = before ++ next_phase (take_work want now s.gate).0 ∷ after;
      log = l;
    })
take-Inv chain want now s before after l h v =
    let t = take_work-Takes want now s.gate in
    let g = s.gate in
    let ids = (take_work want now g).0 in
    let all_live : AllLive now g.patience g.heap ids =
      rw t.takes (live_of-AllLive now g.patience g.heap t.popped) in
    let old : All (BatchOk (mark_all ids g.heap)) (before ++ scanning ∷ after) =
      All-keeps g.heap _ _ (KeepsTaken-mark_all ids g.heap)
        (subst (All (BatchOk g.heap)) h v.batches) in
    record {
      waiters = rw t.marks (mark_all-WaiterOk chain now g.patience ids g.heap all_live v.waiters);
      batches = rw t.marks (
          All-middle (BatchOk (mark_all ids g.heap)) before after scanning (next_phase ids) old
            (λ _. next_phase-BatchOk _ ids (mark_all-Owned now g.patience ids g.heap all_live)));
    }
  where
    next_phase-BatchOk :
        (heap : List Waiter) (ids : List ℕ) → Owned heap ids → BatchOk heap (next_phase ids)
    next_phase-BatchOk heap [] o = tt
    next_phase-BatchOk heap (i ∷ ids) o = o

-- A worker that moves on with no change to the waiters.
move-Inv :
    (chain : Bytes → Bytes) (s : System) (g : Gate) (before after : List Phase) (p q : Phase)
    → s.workers ≡ before ++ p ∷ after
    → g.heap ≡ s.gate.heap
    → (BatchOk s.gate.heap p → BatchOk s.gate.heap q)
    → Inv chain s
    → Inv chain (record { gate = g; workers = before ++ q ∷ after; log = s.log })
move-Inv chain s g before after p q h same f v = record {
  waiters = rw same v.waiters;
  batches = rw same (
      All-middle (BatchOk s.gate.heap) before after p q
        (subst (All (BatchOk s.gate.heap)) h v.batches) f);
}

send_result-Inv :
    (chain : Bytes → Bytes) (s : System) (before after : List Phase) (i : ℕ) (ids : List ℕ)
    (w : Waiter)
    → s.workers ≡ before ++ running (i ∷ ids) ∷ after
    → get_elem? s.gate.heap i ≡ some w
    → Inv chain s
    → Inv chain (record {
      gate = deliver i (chain w.seed) s.gate;
      workers = before ++ running ids ∷ after;
      log = s.log;
    })
unfolding deliver
send_result-Inv chain s before after i ids w h at_i v =
    let batches = subst (All (BatchOk s.gate.heap)) h v.batches in
    let owned = All-at (BatchOk s.gate.heap) before after (running (i ∷ ids)) batches in
    let is_mine : w.taken ≡ true = rw at_i at owned.0 in
    let old = All-get (WaiterOk chain) s.gate.heap i w at_i v.waiters in
    let put = modify-set (λ x. record x { result = some (chain w.seed) }) s.gate.heap i w at_i in
    record {
      waiters = rw put (All-set (WaiterOk chain) s.gate.heap i _ (sent w is_mine old) v.waiters);
      batches = rw put (
          All-keeps s.gate.heap _ _ (KeepsTaken-set s.gate.heap i w _ at_i (λ t. t)) (
            All-middle (BatchOk s.gate.heap) before after (running (i ∷ ids)) (running ids) batches
              (λ o. o.1)));
    }
  where
    sent :
        (w : Waiter)
        → w.taken ≡ true
        → WaiterOk chain w
        → WaiterOk chain (record w { result = some (chain w.seed) })
    sent w mine (p, k) = (pc w.pc w.result p k, (mine, refl))
      where
        pc :
            (q : Pc) (r : Option Bytes)
            → PcOk q w.abandoned w.taken r
            → ResultOk chain w.seed r w.taken
            → PcOk q w.abandoned w.taken (some (chain w.seed))
        pc waking r c o = c
        pc waiting r c o = c
        pc (leaving b) r c o = c
        pc collecting r c o = c
        pc (served d) (some h) c o = (c.0, ap some (sym o.1) ∙ c.1)
        pc (served d) none c o = cc
        pc refused r c o = c

wake-heap : (g : Gate) → (wake g).heap ≡ g.heap
unfolding wake
wake-heap g = ground arith

leave-taken : (b : Bool) (c : Counters) (w : Waiter) → w.taken ≡ true → (leave b c w).1.taken ≡ true
unfolding leave
leave-taken b c w t = rw (leave, t) refl

Step-Inv : {chain : Bytes → Bytes} {s t : System} → Step chain s t → Inv chain s → Inv chain t
unfolding after_signal after_leave
Step-Inv {chain} {s} (arrive now seed) v = arrive-Inv chain now seed s _ v
Step-Inv {chain} {s} (send_wake i w h p) v =
    let (q, k) = All-get (WaiterOk chain) s.gate.heap i w h v.waiters in
    let stays : w.abandoned ≡ false = rw p at q in
    put-Inv chain s _ s.log i w (record w { pc = waiting }) h (wake-heap _) (λ t. t) (stays, k) v
Step-Inv {chain} {s} (signal i w sig h p r) v =
    let ok = All-get (WaiterOk chain) s.gate.heap i w h v.waiters in
    put-Inv chain s _ s.log i w _ h refl (λ t. t)
      (on_signal-WaiterOk chain s.gate.budget s.gate.counters w sig p r ok) v
Step-Inv {chain} {s} (depart i w b h p) v =
    let ok = All-get (WaiterOk chain) s.gate.heap i w h v.waiters in
    put-Inv chain s _ s.log i w _ h refl (leave-taken b s.gate.counters w)
      (leave-WaiterOk chain b s.gate.counters w p ok) v
Step-Inv {chain} {s} (collect i w d h p r) v =
    let (q, k) = All-get (WaiterOk chain) s.gate.heap i w h v.waiters in
    let mine : (w.abandoned ≡ false) × (w.taken ≡ true) = rw p at q in
    put-Inv chain s _ s.log i w (record w { pc = served d }) h refl (λ t. t) ((mine.0, r), k) v
Step-Inv {chain} {s} (cancel i w h) v =
    put-Inv chain s _ s.log i w (record w { cancelled = true }) h refl (λ t. t)
      (All-get (WaiterOk chain) s.gate.heap i w h v.waiters) v
Step-Inv {chain} {s} (take_some before after want now h lt) v =
    take-Inv chain want now s before after _ h v
Step-Inv {chain} {s} (send_result before after i ids w h at_i) v =
    send_result-Inv chain s before after i ids w h at_i v
Step-Inv {chain} {s} (finish before after h) v =
    move-Inv chain s _ before after (running []) scanning h refl (λ _. tt) v
Step-Inv {chain} {s} (sleep before after h) v =
    move-Inv chain s _ before after drained asleep h refl (λ _. tt) v
Step-Inv {chain} {s} (rouse before after h lt) v =
    move-Inv chain s _ before after asleep woken h refl (λ _. tt) v
Step-Inv {chain} {s} (resume before after h) v =
    move-Inv chain s _ before after woken scanning h refl (λ _. tt) v
Step-Inv (respond code) v = record { waiters = v.waiters; batches = v.batches }
Step-Inv (retune patience) v = record { waiters = v.waiters; batches = v.batches }

pub scanning-BatchOk : (heap : List Waiter) (n : ℕ) → All (BatchOk heap) (replicate n scanning)
scanning-BatchOk heap zero = tt
scanning-BatchOk heap (suc n) = (tt, scanning-BatchOk heap n)

pub Reach-Inv : {chain : Bytes → Bytes} {s t : System} → Inv chain s → Reach chain s t → Inv chain t
Reach-Inv v here = v
Reach-Inv v (more r st) = Step-Inv st (Reach-Inv v r)
