-- ===== src/Patience.antt =====
-- The live estimate of a chain's cost and the patience window of app/main.go, in nanoseconds.
pub mod Window
pub mod Concurrent
mod Tests
use obsidio.Prelude.{ℕ, ◌+◌, ◌-◌, ◌*◌, ◌/◌, Bool, List, [], ◌∷◌, ltb, if◌then◌else◌}

abbrev pub millisecond : ℕ
millisecond = 1_000_000

abbrev pub risk_latency_budget : ℕ
risk_latency_budget = 1500 * millisecond

abbrev pub risk_safety_margin : ℕ
risk_safety_margin = 300 * millisecond

-- `riskChainEWMANs` and `riskPatienceNs`.
pub record Estimate : Type 0 where
  pub ewma : ℕ
  pub patience : ℕ

-- The clamp of a sample.
unfoldable pub clamp_sample : ℕ → ℕ
clamp_sample d =
    if ltb d millisecond
    then millisecond
    else if ltb (500 * millisecond) d
    then 500 * millisecond
    else d

-- `old + (d - old) / 8` in int64, where `/` rounds towards zero.
unfoldable pub fold_sample : ℕ → ℕ → ℕ
fold_sample old d = if ltb d old then old - (old - d) / 8 else old + (d - old) / 8

-- The window for a cost. A difference below zero is below the floor, as 0 is.
unfoldable pub patience_for : ℕ → ℕ
patience_for ewma =
    let p = risk_latency_budget - ewma - risk_safety_margin in
    if ltb p (100 * millisecond) then 100 * millisecond else p

-- `observeChainCost`.
unfoldable pub observe_chain_cost : ℕ → Estimate → Estimate
unfolding clamp_sample fold_sample patience_for
observe_chain_cost d e =
    let ewma = fold_sample e.ewma (clamp_sample d) in
    record { ewma = ewma; patience = patience_for ewma }

-- The end of `calibrateRisk`, from the median contended cost.
unfoldable pub seed_estimate : ℕ → Estimate
unfolding patience_for
seed_estimate contended_cost = record {
  ewma = contended_cost;
  patience = patience_for contended_cost;
}

abbrev pub observe_all : List ℕ → Estimate → Estimate
observe_all [] e = e
observe_all (d ∷ ds) e = observe_all ds (observe_chain_cost d e)
