-- ===== src/Patience/Tests.antt =====
-- The theorems on the patience window at measured costs.
use obsidio.Prelude.{ℕ, ◌*◌, ◌≤◌, ◌≡◌, arith}
use obsidio.Patience.Window.{InRange, IsTuned, seed_estimate_lem}
use obsidio.Patience.Concurrent.{System, Reach, quiet, outside, Reach-InRange, late_window}
use obsidio.Patience.{millisecond, fold_sample, clamp_sample, patience_for, seed_estimate}

tuned : IsTuned (seed_estimate 5_000_000)
tuned = (seed_estimate_lem 5_000_000).2 (omega arith)

-- A fast chain and a slow one that end at once.
abbrev crossed : System
crossed = (late_window (seed_estimate 5_000_000) 10 9_000_000).0

Reach-InRange_example :
    InRange crossed.estimate.ewma
    × (700 * millisecond ≤ crossed.estimate.patience)
    × (crossed.estimate.patience ≤ 1199 * millisecond)
Reach-InRange_example =
    Reach-InRange {e = seed_estimate 5_000_000} tuned
      (late_window (seed_estimate 5_000_000) 10 9_000_000).1

late_window_example :
    (t : System) × Reach (quiet (seed_estimate 5_000_000)) t
    × ((i : ℕ) → t.pc i ≡ outside)
    × (t.estimate.ewma ≡ fold_sample (seed_estimate 5_000_000).ewma (clamp_sample 9_000_000))
    × (t.estimate.patience
        ≡ patience_for (fold_sample (seed_estimate 5_000_000).ewma (clamp_sample 10)))
late_window_example = late_window (seed_estimate 5_000_000) 10 9_000_000
