-- ===== src/Boot.antt =====
-- The numbers that `main` and `calibrateRisk` of app/main.go and `initRiskKernelX16` of
-- app/shakernel_x16_amd64.go settle at boot. What is measured or read from the environment is an
-- argument.
pub mod Settings
pub mod Cgroup
pub mod Fingerprint
pub mod Slots
pub mod Sort
pub mod Calibrate
pub mod Tuned
pub mod Samples
mod Tests
use obsidio.Prelude.{
  ℕ, zero, suc, ◌+◌, ◌-◌, ◌*◌, ◌/◌, ◌%◌, ◌^◌, Bool, true, false, ◌&&◌, List, [], ◌∷◌, Option, none,
  some, ltb, leb, ◌==◌, if◌then◌else◌,
}
use obsidio.Prelude.Env.{Bytes, ℤ, pos, negsuc, atoi}

-- RISK_SLOTS: `v >= 1` replaces the count.
abbrev pub slots_override : Option ℤ → ℤ → ℤ
slots_override (some (pos v)) n = if leb 1 v then pos v else n
slots_override (some (negsuc v)) n = n
slots_override none n = n

abbrev pub clamp_slots : ℤ → ℕ
clamp_slots (pos n) = if ltb n 1 then 1 else if ltb 4 n then 4 else n
clamp_slots (negsuc n) = 1

-- `riskSlots` in `main`: `quota` is `int(cpus + 0.5)` where the cgroup budget is at least half a
-- CPU, and `none` otherwise.
abbrev pub from_quota : Option ℤ → ℤ
from_quota none = pos 2
from_quota (some n) = n

unfoldable pub risk_slots : Option ℤ → Bytes → ℕ
unfolding atoi
risk_slots quota env = clamp_slots (slots_override (atoi env) (from_quota quota))

-- `for stride < 8192 && float64(stride*2) <= target { stride *= 2 }`, with the comparison of
-- floating-point numbers as an argument.
pub grow_stride : (ℕ → Bool) → ℕ → ℕ → Option ℕ
grow_stride within zero stride = none
grow_stride within (suc fuel) stride =
    let rest = grow_stride within fuel (stride * 2) in
    if ltb stride 8192 && within (stride * 2) then rest else some stride

-- The stride of `calibrateRisk`, from RISK_YIELD_STRIDE or from the measured cost. A set variable
-- that is no number from 0 on leaves the default.
abbrev stride_from : Option ℤ → ℕ
stride_from (some (pos v)) = v % 2 ^ 32
stride_from (some (negsuc v)) = 4096
stride_from none = 4096

unfoldable pub yield_stride : (ℕ → Bool) → Bytes → Option ℕ
unfolding grow_stride atoi
yield_stride within env = elim env [
  | [] ↦ grow_stride within 6 256
  | c ∷ cs ↦ some (stride_from (atoi (c ∷ cs)))
]

-- `riskYieldMask` for a stride.
unfoldable pub yield_mask : ℕ → ℕ
yield_mask stride = if stride == 0 then 2 ^ 32 - 1 else stride - 1

-- `riskX16MinBatch`, where the batch path won its race.
unfoldable pub x16_min_batch : ℕ → ℕ → ℕ
x16_min_batch batch displaced =
    let per_chain = displaced / 16 in
    let floor = if ltb 0 per_chain then batch * 10 / (per_chain * 9) + 1 else 16 in
    if ltb floor 8 then 8 else if ltb 16 floor then 16 else floor
