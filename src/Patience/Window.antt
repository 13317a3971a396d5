-- ===== src/Patience/Window.antt =====
-- Where the estimate and the patience window can go.
use obsidio.Prelude.{ℕ, ◌+◌, ◌-◌, ◌*◌, ◌/◌, ◌≤◌, ◌≡◌, List, [], ◌∷◌, arith, ltb, if◌then◌else◌}
use obsidio.Patience.{
  millisecond, risk_latency_budget, risk_safety_margin, Estimate, clamp_sample, fold_sample,
  patience_for, observe_chain_cost, seed_estimate, observe_all,
}

-- The distance of two costs.
abbrev pub dist : ℕ → ℕ → ℕ
dist a b = if ltb a b then b - a else a - b

-- The folded sample lies as far from the clamped sample as the estimate did, less an eighth of that
-- distance, rounded down, so it never goes past it.
pub fold_sample-dist :
    (old d : ℕ)
    → dist (fold_sample old (clamp_sample d)) (clamp_sample d)
      ≡ dist old (clamp_sample d) - dist old (clamp_sample d) / 8
unfolding fold_sample
fold_sample-dist old d = ground arith

pub clamp_bounds : (d : ℕ) → (millisecond ≤ clamp_sample d) × (clamp_sample d ≤ 500 * millisecond)
unfolding clamp_sample
clamp_bounds d = ground arith

abbrev pub InRange : ℕ → Type 0
InRange c = (millisecond ≤ c) × (c ≤ 500 * millisecond)

pub fold_sample-InRange : (old d : ℕ) → InRange old → InRange d → InRange (fold_sample old d)
unfolding fold_sample
fold_sample-InRange old d o s = ground arith

-- The estimate and the window agree, and the window leaves a waiter that is served at its very end
-- the estimated chain and the safety margin before the latency bar.
abbrev pub IsTuned : Estimate → Type 0
IsTuned e = InRange e.ewma × (e.patience + e.ewma + risk_safety_margin ≡ risk_latency_budget)

observe-IsTuned : (d : ℕ) (e : Estimate) → InRange e.ewma → IsTuned (observe_chain_cost d e)
unfolding observe_chain_cost patience_for
observe-IsTuned d e r =
    let s = fold_sample-InRange e.ewma (clamp_sample d) r (clamp_bounds d) in (s, ground arith)

-- From a tuned estimate, after any samples the chain cost estimate lies between 1 ms and 500 ms and
-- patience, estimate and margin add up to the latency budget exactly.
pub observe_all-IsTuned : (ds : List ℕ) (e : Estimate) → IsTuned e → IsTuned (observe_all ds e)
observe_all-IsTuned [] e t = t
observe_all-IsTuned (d ∷ ds) e t =
    observe_all-IsTuned ds (observe_chain_cost d e) (observe-IsTuned d e t.0)

-- For every contended cost the seeded patience lies between 100 ms and 1200 ms, and for a cost
-- between 1 ms and 500 ms the seeded estimate is tuned.
pub seed_estimate_lem :
    (c : ℕ)
    → (100 * millisecond ≤ (seed_estimate c).patience)
      × ((seed_estimate c).patience ≤ 1200 * millisecond)
      × (InRange c → IsTuned (seed_estimate c))
unfolding seed_estimate
seed_estimate_lem c = ground arith
