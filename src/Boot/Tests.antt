-- ===== src/Boot/Tests.antt =====
-- The theorems on the boot settings at concrete measurements.
use obsidio.Prelude.{ℕ, List, ◌∷◌, arith, ◌<◌, ◌*◌, ◌^◌, ◌≤◌, ◌≡◌, refl, [], some, leb}
use obsidio.Patience.{Estimate}
use obsidio.Patience.Window.{IsTuned}
use obsidio.Boot.Calibrate.{calibrate_risk}
use obsidio.Boot.Calibrate.Order.{calibrate_risk-Perm}
use mathlib.Core.List.Perm
use obsidio.Boot.Tuned.{calibrate_risk-IsTuned}
use obsidio.Prelude.Env.{codes, pos, atoi}
use obsidio.Boot.Cgroup.{boot_slots}
use obsidio.Boot.Slots.{boot_slots_lem}
use obsidio.Boot.Samples.{rough, no_files}
use obsidio.Boot.{risk_slots, yield_stride}

slots : risk_slots (some (pos 2)) (codes "9") ≡ 4
unfolding risk_slots
slots = refl

strides : yield_stride (λ s. leb s 3000) [] ≡ some 2048
unfolding yield_stride
strides = refl

boot_slots_lem_example :
    let n = boot_slots rough (λ s. []) (λ s. s) no_files (codes "9") in (1 ≤ n) × (n ≤ 4) × (n ≡ 4)
unfolding atoi
boot_slots_lem_example = boot_slots_lem rough (λ s. []) (λ s. s) no_files (codes "9")

abbrev two_chains : List ℕ
two_chains = 9_000_000 ∷ 7_000_000 ∷ []

calibrate_risk-IsTuned_example :
    (e : Estimate) × (mask : ℕ) × (calibrate_risk
        (λ cost s. leb (s * cost) 9_000_000_000)
        (3 ∷ 1 ∷ 2 ∷ [])
        two_chains
        (codes "")
      ≡ some (e, mask))
    × IsTuned e
    × (mask < 2 ^ 32)
calibrate_risk-IsTuned_example =
    calibrate_risk-IsTuned (λ cost s. leb (s * cost) 9_000_000_000) (3 ∷ 1 ∷ 2 ∷ []) two_chains
      (codes "") (omega arith) ((omega arith, omega arith), ((omega arith, omega arith), tt))

calibrate_risk-Perm_example :
    calibrate_risk (λ cost s. leb (s * cost) 9_000_000_000) (3 ∷ 1 ∷ 2 ∷ []) two_chains []
    ≡ calibrate_risk
        (λ cost s. leb (s * cost) 9_000_000_000)
        (3 ∷ 1 ∷ 2 ∷ [])
        (7_000_000 ∷ 9_000_000 ∷ [])
        []
calibrate_risk-Perm_example =
    calibrate_risk-Perm (λ cost s. leb (s * cost) 9_000_000_000) (3 ∷ 1 ∷ 2 ∷ []) two_chains
      (7_000_000 ∷ 9_000_000 ∷ []) [] (Perm.swap 7_000_000 9_000_000 [])
