-- ===== src/Worker/Turn/Simulates.antt =====
-- A turn of a worker is a sequence of steps of the gate.
use obsidio.Prelude.{
  ℕ, ◌≤◌, ◌<◌, ◌≡◌, refl, sym, ap, ◌∙◌, subst, inl, inr, List, [], ◌∷◌, ◌++◌, map, Option, none,
  some, arith, All, length, length-map, get_elem?, get_elem?-modify, modify, ◌⊎◌,
}
use obsidio.Prelude.Env.{Bytes}
use obsidio.Kernel.Chain.{Sha256, starter_chain}
use obsidio.Gate.{Waiter, Gate, deliver, take_work, mark_taken}
use obsidio.Gate.Take.{take_work-Takes, AllLive, live_of-AllLive, live-waiter, mark_all}
use obsidio.Gate.System.Defs.{
  System, Phase, Log, scanning, running, Reach, here, more, take_some, send_result, finish, sleep,
  retune, after_take, next_phase,
}
use obsidio.Worker.{Paths, Job, Event, cost, send, choose_lanes}
use obsidio.Worker.Batch.{PathsCorrect, sends, answer, run_batch-Answers, choose_lanes_bounds}
use obsidio.Worker.Turn.{seed_of, jobs, perform, turn, with_batch}

-- The waiters of a batch have the seeds that the worker runs.
abbrev HasSeed : List Waiter → Job → Type 0
HasSeed heap (i, s) = seed_of (get_elem? heap i) ≡ some s

HasSeed-waiter :
    (o : Option Waiter) (s : Bytes)
    → seed_of o ≡ some s
    → (w : Waiter) × (o ≡ some w) × (w.seed ≡ s)
HasSeed-waiter none s e = cc
HasSeed-waiter (some w) s e = (w, refl, cc)

deliver-HasSeed :
    (heap : List Waiter) (i : ℕ) (h : Bytes) (work : List Job)
    → All (HasSeed heap) work
    → All (HasSeed (modify heap i (λ w. record w { result = some h }))) work
deliver-HasSeed heap i h [] a = tt
deliver-HasSeed heap i h ((j, s) ∷ work) a = (
  get_elem?-modify seed_of (λ w. record w { result = some h }) heap i j (λ w. refl) ∙ a.0,
  deliver-HasSeed heap i h work a.1,
)

seed_of-mark_all :
    (ids : List ℕ) (heap : List Waiter) (j : ℕ)
    → seed_of (get_elem? (mark_all ids heap) j) ≡ seed_of (get_elem? heap j)
seed_of-mark_all [] heap j = refl
seed_of-mark_all (i ∷ ids) heap j =
    seed_of-mark_all ids (modify heap i mark_taken) j
    ∙ get_elem?-modify seed_of mark_taken heap i j (λ w. refl)

-- Every waiter that a take returns is there.
jobs-AllLive :
    (now patience : ℕ) (heap heap' : List Waiter) (ids : List ℕ)
    → ((j : ℕ) → seed_of (get_elem? heap' j) ≡ seed_of (get_elem? heap j))
    → AllLive now patience heap ids
    → (work : List Job) × (jobs heap' ids ≡ some work)
      × (map (λ w. w.0) work ≡ ids)
      × All (HasSeed heap') work
unfolding jobs
jobs-AllLive now patience heap heap' [] same a = ([], refl, refl, tt)
jobs-AllLive now patience heap heap' (i ∷ ids) same a =
    let (work, e, addresses, seeded) = jobs-AllLive now patience heap heap' ids same a.1 in
    let (w, there, _) = live-waiter now patience (get_elem? heap i) a.0 in
    let s : seed_of (get_elem? heap' i) ≡ some w.seed = same i ∙ ap seed_of there in
    ((i, w.seed) ∷ work, rw (s, e) refl, ap (i ∷◌) addresses, (s, seeded))

sends-cons : (x y : Job) (xs ys : List Job) → x ∷ xs ≡ y ∷ ys → (x ≡ y) × (xs ≡ ys)
sends-cons x y xs ys e = (cc, cc)

module _ (H : Sha256) (p : Paths) (tune : ℕ → ℕ) (before after : List Phase) where
  abbrev batch_state : Gate → List ℕ → Log → System
  batch_state g ids l = record { gate = g; workers = before ++ running ids ∷ after; log = l }

  perform-Reach :
      (es : List Event) (work : List Job) (g : Gate) (l : Log) (s : System)
      → sends es ≡ map (answer H) work
      → All (HasSeed g.heap) work
      → Reach (starter_chain H) s (batch_state g (map (λ w. w.0) work) l)
      → Reach (starter_chain H) s (batch_state (perform tune es g) [] l)
  unfolding perform deliver
  perform-Reach [] [] g l s e a r = r
  perform-Reach [] (w ∷ work) g l s e a r = cc
  perform-Reach (cost ∷ es) work g l s e a r =
      perform-Reach es work (record g { patience = tune (length es) }) l s e a
        (more r (retune (tune (length es))))
  perform-Reach (send i h ∷ es) [] g l s e a r = cc
  perform-Reach (send i h ∷ es) ((j, x) ∷ work) g l s e a r =
      let (w, there, seed) = HasSeed-waiter (get_elem? g.heap j) x a.0 in
      let (first, rest) =
        sends-cons (i, h) (j, starter_chain H x) (sends es) (map (answer H) work) e in
      let to : i ≡ j = ap (λ q. q.0) first in
      let digest : h ≡ starter_chain H w.seed =
        ap (λ q. q.1) first ∙ ap (starter_chain H) (sym seed) in
      let sent : Reach (starter_chain H) s (batch_state (deliver i h g) (map (λ w. w.0) work) l) =
        rw (to, digest) (more r (send_result before after j (map (λ w. w.0) work) w refl there)) in
      perform-Reach es work (deliver i h g) l s rest (deliver-HasSeed g.heap i h work a.1) sent

  took-jobs :
      (s : System) (now want : ℕ)
      → want ≤ 16
      → (work : List Job) × (jobs (take_work want now s.gate).1.heap (take_work want now s.gate).0
          ≡ some work)
        × (map (λ w. w.0) work ≡ (take_work want now s.gate).0)
        × All (HasSeed (take_work want now s.gate).1.heap) work
        × (length work ≤ 16)
  took-jobs s now want le =
      let r = take_work want now s.gate in
      let takes = take_work-Takes want now s.gate in
      let alive : AllLive now s.gate.patience s.gate.heap r.0 =
        subst (AllLive now s.gate.patience s.gate.heap) (sym takes.takes)
          (live_of-AllLive now s.gate.patience s.gate.heap takes.popped) in
      let same : (j : ℕ) → seed_of (get_elem? r.1.heap j) ≡ seed_of (get_elem? s.gate.heap j) = λ j.
        ap (λ heap. seed_of (get_elem? heap j)) takes.marks ∙ seed_of-mark_all r.0 s.gate.heap j in
      let (work, e, addresses, seeded) =
        jobs-AllLive now s.gate.patience s.gate.heap r.1.heap r.0 same alive in
      let few : length r.0 ≤ want = at_most (length r.0) want (r.1.stack ≡ []) takes.stops in
      (
        work,
        e,
        addresses,
        seeded,
        omega (arith, few, le, sym (length-map work (λ w. w.0)) ∙ ap length addresses),
      )
    where
      at_most : (n k : ℕ) (P : Type 0) → (n ≡ k) ⊎ (P × (n < k)) → n ≤ k
      at_most n k P (inl e) = omega arith
      at_most n k P (inr (_, lt)) = omega arith

  batch-Reach :
      PathsCorrect H p
      → (s : System) (g : Gate) (l : Log) (ids : List ℕ) (work : List Job)
      → jobs g.heap ids ≡ some work
      → map (λ w. w.0) work ≡ ids
      → All (HasSeed g.heap) work
      → length work ≤ 16
      → Reach
          (starter_chain H)
          s
          (record { gate = g; workers = before ++ next_phase ids ∷ after; log = l })
      → (t : System) × (with_batch H p tune before after
            (record { gate = g; workers = before ++ next_phase ids ∷ after; log = l })
            ids
          ≡ some t)
        × Reach (starter_chain H) s t
  batch-Reach correct s g l [] work e addresses seeded le r =
      (_, refl, more r (sleep before after refl))
  batch-Reach correct s g l (i ∷ ids) work e addresses seeded le r =
      let (es, run, sent, _) = run_batch-Answers H p work correct le in
      let start : Reach (starter_chain H) s (batch_state g (map (λ w. w.0) work) l) =
        subst (λ is. Reach (starter_chain H) s (batch_state g is l)) (sym addresses) r in
      (
        _,
        rw (e, run) refl,
        more (perform-Reach es work g l s sent seeded start) (finish before after refl),
      )

  -- With correct kernels and batch paths, from any state in which a worker is before its take, a
  -- turn of riskWorker ends without a panic, whatever the take finds, and is a sequence of steps of
  -- the gate with the starter chain as the digest of each seed.
  pub turn-Reach :
      (s : System) (now : ℕ)
      → PathsCorrect H p
      → s.workers ≡ before ++ scanning ∷ after
      → (t : System) × (turn H p tune before after now s ≡ some t) × Reach (starter_chain H) s t
  unfolding turn
  turn-Reach s now correct scans =
      let want = choose_lanes p s.gate.depth in
      let (some_, few) = choose_lanes_bounds p s.gate.depth in
      let r = take_work want now s.gate in
      let (work, e, addresses, seeded, le) = took-jobs s now want few in
      let l = (after_take s before after want now).log in
      let taken : Reach (starter_chain H) s (after_take s before after want now) =
        more here (take_some before after want now scans some_) in
      batch-Reach correct s r.1 l r.0 work e addresses seeded le taken
