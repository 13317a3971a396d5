-- ===== src/Boot/Calibrate.antt =====
-- `calibrateRisk` of app/main.go over the durations that it measured: the first estimate and the yield
-- mask.
pub mod Order
pub mod Measured
use obsidio.Prelude.{ℕ, zero, suc, Bool, List, [], ◌∷◌, ◌++◌, Option, some, ◌>>=◌}
use obsidio.Prelude.Env.{Bytes}
use obsidio.Patience.{Estimate, seed_estimate}
use obsidio.Boot.{yield_stride, yield_mask}
use obsidio.Boot.Sort.{median3, middle}

-- From RISK_YIELD_STRIDE, three durations of a chain alone and those of chains at once; `within` is
-- `float64(stride*2) <= target` for the cost of a chain alone.
unfoldable pub calibrate_risk : (ℕ → ℕ → Bool) → List ℕ → List ℕ → Bytes → Option (Estimate × ℕ)
unfolding yield_stride yield_mask seed_estimate median3 middle
calibrate_risk within samples contended env =
    yield_stride (within (median3 samples)) env >>= λ stride.
    some (seed_estimate (middle contended), yield_mask stride)

-- The samples that it takes: three chains alone, and two rounds of one chain in each of `slots`
-- goroutines, whose durations stand here in the order in which they were started.
abbrev pub alone_samples : (ℕ → ℕ) → List ℕ
alone_samples took = took 0 ∷ took 1 ∷ took 2 ∷ []

unfoldable pub round_samples : (ℕ → ℕ) → ℕ → List ℕ
round_samples took zero = []
round_samples took (suc slots) = took slots ∷ round_samples took slots

abbrev pub contended_samples : (ℕ → ℕ → ℕ) → ℕ → List ℕ
contended_samples took slots = round_samples (took 0) slots ++ round_samples (took 1) slots
