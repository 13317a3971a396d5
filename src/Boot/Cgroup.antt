-- ===== src/Boot/Cgroup.antt =====
-- `cgroupCPUBudget` of app/main.go, and the number of workers that `main` makes of it. `os.ReadFile`,
-- package strings, `strconv.ParseFloat` and float64 are parameters.
use obsidio.Prelude.Text.{equal}
use obsidio.Prelude.{ℕ, Bool, not, ◌&&◌, List, [], ◌∷◌, Option, none, some, if◌then◌else◌}
use obsidio.Prelude.Env.{Bytes, ℤ, codes}
use obsidio.Boot.{risk_slots}

-- `to_int` is the conversion to int, `half` 0.5.
pub record Numbers (Float : Type 0) : Type 0 where
  pub zero_float : Float
  pub half : Float
  pub parse_float : Bytes → Option Float
  pub add : Float → Float → Float
  pub div : Float → Float → Float
  pub less : Float → Float → Bool
  pub at_least : Float → Float → Bool
  pub to_int : Float → ℤ

-- The files under /sys/fs/cgroup, `none` where one is not read.
pub record Files : Type 0 where
  pub cpu_max : Option Bytes
  pub cfs_quota_us : Option Bytes
  pub cfs_period_us : Option Bytes

module _ {Float : Type 0} (N : Numbers Float) (fields : Bytes → List Bytes)
    (trim_space : Bytes → Bytes) where
  open N use {zero_float, half, parse_float, add, div, less, at_least, to_int}

  -- `q / p` where both were parsed and `p` is positive, and `q` too in the old files.
  abbrev pub quota_v2 : Option Float → Option Float → Float
  quota_v2 (some q) (some p) = if less zero_float p then div q p else zero_float
  quota_v2 (some q) none = zero_float
  quota_v2 none p = zero_float

  abbrev pub quota_v1 : Option Float → Option Float → Float
  quota_v1 (some q) (some p) =
      if less zero_float q && less zero_float p then div q p else zero_float
  quota_v1 (some q) none = zero_float
  quota_v1 none p = zero_float

  abbrev pub from_fields : List Bytes → Float
  from_fields (q ∷ p ∷ []) =
      if not (equal q (codes "max")) then quota_v2 (parse_float q) (parse_float p) else zero_float
  from_fields _ = zero_float

  abbrev pub from_cfs : Option Bytes → Option Bytes → Float
  from_cfs (some q) (some p) = quota_v1 (parse_float (trim_space q)) (parse_float (trim_space p))
  from_cfs (some q) none = zero_float
  from_cfs none p = zero_float

  -- `cgroupCPUBudget`.
  unfoldable pub cgroup_cpu_budget : Files → Float
  unfolding equal
  cgroup_cpu_budget files = elim files.cpu_max [
    | some b ↦ from_fields (fields b)
    | none ↦ from_cfs files.cfs_quota_us files.cfs_period_us
  ]

  -- `riskSlots` at the start of `main`.
  unfoldable pub boot_slots : Files → Bytes → ℕ
  unfolding cgroup_cpu_budget risk_slots
  boot_slots files env =
      let cpus = cgroup_cpu_budget files in
      risk_slots (if at_least cpus half then some (to_int (add cpus half)) else none) env
