-- ===== src/Worker.antt =====
-- One round of `riskWorker` of app/main.go: how many waiters it asks for, and how it runs the
-- chains of those that it got and hands out the digests.
pub mod Batch
pub mod Race
pub mod X4
pub mod X16
pub mod Boot
pub mod Turn
pub mod Samples
mod Tests
use obsidio.Prelude.{
  ℕ, zero, suc, ◌+◌, ◌≡◌, Bool, true, false, ◌&&◌, List, [], ◌∷◌, ◌++◌, map, Option, none, some,
  is_some, leb, ◌==◌, if◌then◌else◌, length, ◌>>=◌,
}
use obsidio.Prelude.Env.{Bytes}
use obsidio.Kernel.Chain.{Sha256, Kernels, Pair, Quad, risk_chain, risk_chain_pair}

-- The batch paths beside the kernels: `riskChainQuad`, `riskChainX16` and `riskX16MinBatch`.
pub record Paths : Type 0 where
  pub kernels : Kernels
  pub chain_quad : Option (Quad → Option Quad)
  pub chain_x16 : Option (List Bytes → Option (List Bytes))
  pub x16_min_batch : ℕ

abbrev lanes_x16 : Paths → ℕ → ℕ
lanes_x16 p depth = if is_some p.chain_x16 && leb p.x16_min_batch depth then 16 else 1

abbrev lanes_quad : Paths → ℕ → ℕ
lanes_quad p lanes = if lanes == 1 && is_some p.chain_quad then 4 else lanes

abbrev lanes_pair : Paths → ℕ → ℕ
lanes_pair p lanes = if lanes == 1 && is_some p.kernels.sum_pair then 2 else lanes

-- How many waiters the worker asks `riskTakeWork` for, by the depth of the stack.
unfoldable pub choose_lanes : Paths → ℕ → ℕ
choose_lanes p depth = lanes_pair p (lanes_quad p (lanes_x16 p depth))

-- A waiter as the worker sees it: its address and its seed.
abbrev pub Job : Type 0
Job = ℕ × Bytes

-- What the worker does that others see: it reports a chain's wall time, or sends a digest.
pub data Event : Type 0 where
  cost : Event
  send : ℕ → Bytes → Event

-- The last loop: one chain after the other.
pub run_serial : (Bytes → Option Bytes) → List Job → Option (List Event)
run_serial chain [] = some []
run_serial chain ((i, s) ∷ work) =
    chain s >>= λ h. run_serial chain work >>= λ es. some (cost ∷ send i h ∷ es)

-- The loop over pairs, and the chains left over.
pub run_pairs :
    (Bytes → Bytes → Option (Bytes × Bytes))
    → (Bytes → Option Bytes)
    → List Job
    → Option (List Event)
run_pairs pair chain ((i, s) ∷ (j, t) ∷ work) = pair s t >>= λ r.
    run_pairs pair chain work >>= λ es. some (cost ∷ cost ∷ send i r.0 ∷ send j r.1 ∷ es)
run_pairs pair chain (w ∷ []) = run_serial chain (w ∷ [])
run_pairs pair chain [] = some []

-- `for i, w := range work { observeChainCost(d); w.result <- outs[i] }`; `outs` that are too few
-- are an index out of range.
pub hand_out : List Job → List Bytes → Option (List Event)
hand_out [] outs = some []
hand_out (w ∷ work) [] = none
hand_out ((i, s) ∷ work) (h ∷ outs) = hand_out work outs >>= λ es. some (cost ∷ send i h ∷ es)

abbrev pub seeds : List Job → List Bytes
seeds = map (λ w. w.1)

-- The paths for what the 16-lane batch and the quad do not run, by whether `riskSumPair` is set.
pub run_rest : Sha256 → Kernels → Option (Pair → Pair) → List Job → Option (List Event)
run_rest H k (some pairing) work = run_pairs (risk_chain_pair H k) (risk_chain H k) work
run_rest H k none work = run_serial (risk_chain H k) work

-- The quad, for exactly four waiters.
pub run_quad : Sha256 → Kernels → Option (Quad → Option Quad) → List Job → Option (List Event)
run_quad H k (some quad) ((a, s0) ∷ (b, s1) ∷ (c, s2) ∷ (d, s3) ∷ []) =
    quad (s0, s1, s2, s3) >>= λ r.
    some (cost ∷ cost ∷ cost ∷ cost ∷ send a r.0 ∷ send b r.1 ∷ send c r.2 ∷ send d r.3 ∷ [])
run_quad H k quad work = run_rest H k k.sum_pair work

-- What the worker does with the waiters that it took; `none` is a panic or fuel that ran out.
pub run_x16 :
    Sha256 → Paths → Option (List Bytes → Option (List Bytes)) → List Job → Option (List Event)
run_x16 H p (some x16) work =
    if leb p.x16_min_batch (length work)
    then x16 (seeds work) >>= hand_out work
    else run_quad H p.kernels p.chain_quad work
run_x16 H p none work = run_quad H p.kernels p.chain_quad work

pub run_batch : Sha256 → Paths → List Job → Option (List Event)
run_batch H p work = run_x16 H p p.chain_x16 work
