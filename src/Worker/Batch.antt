-- ===== src/Worker/Batch.antt =====
-- Every waiter of a batch is sent the chain of its seed, whichever kernels are installed.
use obsidio.Prelude.{
  ℕ, suc, ◌≤◌, ◌≡◌, refl, ap, inl, inr, List, [], ◌∷◌, map, Option, none, some, arith, Bool-cases,
  leb, length, length-map,
}
use obsidio.Prelude.Env.{Bytes}
use obsidio.Kernel.Chain.{Sha256, Kernels, Pair, Quad, starter_chain}
use obsidio.Kernel.Chain.Correct.{
  KernelsCorrect, risk_chain-starter_chain, risk_chain_pair-starter_chain,
}
use obsidio.Worker.{
  Paths, choose_lanes, Job, Event, cost, send, run_serial, run_pairs, hand_out, seeds, run_rest,
  run_quad, run_x16, run_batch,
}

-- The digests that a worker sent, and how many wall times it reported.
abbrev pub sends : List Event → List Job
sends [] = []
sends (cost ∷ es) = sends es
sends (send i h ∷ es) = (i, h) ∷ sends es

abbrev pub costs : List Event → ℕ
costs [] = 0
costs (cost ∷ es) = suc (costs es)
costs (send i h ∷ es) = costs es

-- What is to be sent for each waiter.
abbrev pub answer : Sha256 → Job → Job
answer H (i, s) = (i, starter_chain H s)

abbrev pub Answers : Sha256 → List Job → Option (List Event) → Type 0
Answers H work r =
    (es : List Event) × (r ≡ some es) × (sends es ≡ map (answer H) work) × (costs es ≡ length work)

-- What the batch paths promise: the chains of their seeds.
abbrev pub QuadCorrect : Sha256 → Option (Quad → Option Quad) → Type 0
QuadCorrect H none = Unit
QuadCorrect H (some f) =
    (a b c d : Bytes)
    → f (a, b, c, d)
      ≡ some (starter_chain H a, starter_chain H b, starter_chain H c, starter_chain H d)

abbrev pub X16Correct : Sha256 → Option (List Bytes → Option (List Bytes)) → Type 0
X16Correct H none = Unit
X16Correct H (some f) = (ss : List Bytes) → length ss ≤ 16 → f ss ≡ some (map (starter_chain H) ss)

pub record PathsCorrect (H : Sha256) (p : Paths) : Type 0 where
  pub kernels : KernelsCorrect H p.kernels
  pub quad : QuadCorrect H p.chain_quad
  pub x16 : X16Correct H p.chain_x16

module _ (H : Sha256) where
  run_serial-Answers :
      (chain : Bytes → Option Bytes)
      → ((s : Bytes) → chain s ≡ some (starter_chain H s))
      → (work : List Job) → Answers H work (run_serial chain work)
  unfolding run_serial
  run_serial-Answers chain eq [] = ([], refl, refl, refl)
  run_serial-Answers chain eq ((i, s) ∷ work) =
      let (es, e, sent, n) = run_serial-Answers chain eq work in
      (
        cost ∷ send i (starter_chain H s) ∷ es,
        rw (eq s, e) refl,
        ap (◌∷◌ (i, starter_chain H s)) sent,
        ap suc n,
      )

  run_pairs-Answers :
      (pair : Bytes → Bytes → Option Pair) (chain : Bytes → Option Bytes)
      → ((s t : Bytes) → pair s t ≡ some (starter_chain H s, starter_chain H t))
      → ((s : Bytes) → chain s ≡ some (starter_chain H s))
      → (work : List Job) → Answers H work (run_pairs pair chain work)
  unfolding run_pairs
  run_pairs-Answers pair chain pe ce [] = ([], refl, refl, refl)
  run_pairs-Answers pair chain pe ce (w ∷ []) = run_serial-Answers chain ce (w ∷ [])
  run_pairs-Answers pair chain pe ce ((i, s) ∷ (j, t) ∷ work) =
      let (es, e, sent, n) = run_pairs-Answers pair chain pe ce work in
      (
        cost ∷ cost ∷ send i (starter_chain H s) ∷ send j (starter_chain H t) ∷ es,
        rw (pe s t, e) refl,
        ap (λ r. (i, starter_chain H s) ∷ (j, starter_chain H t) ∷ r) sent,
        ap (λ m. suc (suc m)) n,
      )

  hand_out-Answers :
      (work : List Job) → Answers H work (hand_out work (map (starter_chain H) (seeds work)))
  unfolding hand_out
  hand_out-Answers [] = ([], refl, refl, refl)
  hand_out-Answers ((i, s) ∷ work) =
      let (es, e, sent, n) = hand_out-Answers work in
      (
        cost ∷ send i (starter_chain H s) ∷ es,
        rw e refl,
        ap (◌∷◌ (i, starter_chain H s)) sent,
        ap suc n,
      )

  run_rest-Answers :
      (k : Kernels) (o : Option (Pair → Pair))
      → KernelsCorrect H k
      → k.sum_pair ≡ o
      → (work : List Job) → Answers H work (run_rest H k o work)
  unfolding run_rest
  run_rest-Answers k none c e work =
      run_serial-Answers _ (λ s. risk_chain-starter_chain H k s c) work
  run_rest-Answers k (some f) c e work =
      run_pairs-Answers _ _ (λ s t. risk_chain_pair-starter_chain H k f s t c e)
        (λ s. risk_chain-starter_chain H k s c) work

  run_quad-Answers :
      (k : Kernels) (o : Option (Quad → Option Quad))
      → KernelsCorrect H k
      → QuadCorrect H o
      → (work : List Job) → Answers H work (run_quad H k o work)
  unfolding run_quad
  run_quad-Answers k (some f) c q ((a, s0) ∷ (b, s1) ∷ (d, s2) ∷ (e, s3) ∷ []) = (
    cost
        ∷ cost
        ∷ cost
        ∷ cost
        ∷ send a (starter_chain H s0)
        ∷ send b (starter_chain H s1)
        ∷ send d (starter_chain H s2)
        ∷ send e (starter_chain H s3)
        ∷ [],
    rw (q s0 s1 s2 s3) refl,
    refl,
    refl,
  )
  run_quad-Answers k o c q work = run_rest-Answers k k.sum_pair c refl work

  length-seeds : (work : List Job) → length (seeds work) ≡ length work
  length-seeds work = length-map work (λ w. w.1)

  run_x16-Answers :
      (p : Paths) (o : Option (List Bytes → Option (List Bytes)))
      → PathsCorrect H p
      → X16Correct H o
      → (work : List Job) → length work ≤ 16
      → Answers H work (run_x16 H p o work)
  unfolding run_x16
  run_x16-Answers p none c x work le = run_quad-Answers p.kernels p.chain_quad c.kernels c.quad work
  run_x16-Answers p (some f) c x work le = elim (Bool-cases (leb p.x16_min_batch (length work))) [
    | inr small ↦ rw small (run_quad-Answers p.kernels p.chain_quad c.kernels c.quad work)
    | inl big ↦ rw (big, x (seeds work) (omega (arith, length-seeds work))) (hand_out-Answers work)
  ]

  -- With correct kernels and batch paths, whichever are installed, a worker that took at most 16
  -- waiters sends each the chain of its own seed, once and in the order taken, and reports one wall
  -- time for each.
  pub run_batch-Answers :
      (p : Paths) (work : List Job)
      → PathsCorrect H p
      → length work ≤ 16
      → Answers H work (run_batch H p work)
  unfolding run_batch
  run_batch-Answers p work c le = run_x16-Answers p p.chain_x16 c c.x16 work le

-- A worker asks for at least one waiter and for at most 16, whichever paths are installed and
-- however deep the stack is.
pub choose_lanes_bounds :
    (p : Paths) (depth : ℕ) → (1 ≤ choose_lanes p depth) × (choose_lanes p depth ≤ 16)
unfolding choose_lanes
choose_lanes_bounds p depth = ground arith
