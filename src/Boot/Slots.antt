-- ===== src/Boot/Slots.antt =====
-- Which of its sources settles the number of workers of app/main.go.
use obsidio.Prelude.{
  ℕ, zero, suc, min, ap, ◌∙◌, ◌≤◌, ◌≡◌, ◌⊎◌, refl, inl, inr, true, List, [], ◌∷◌, Option, none,
  some, arith, Bool-cases, Option-cases, if◌then◌else◌,
}
use obsidio.Prelude.Text.{equal}
use obsidio.Prelude.Env.{Bytes, ℤ, pos, negsuc, atoi, codes}
use obsidio.Boot.{slots_override, clamp_slots, from_quota, risk_slots}
use obsidio.Boot.Cgroup.{
  Numbers, Files, quota_v1, quota_v2, from_fields, from_cfs, cgroup_cpu_budget, boot_slots,
}

clamp_bounds : (n : ℤ) → (1 ≤ clamp_slots n) × (clamp_slots n ≤ 4)
clamp_bounds (pos n) = ground arith
clamp_bounds (negsuc n) = (omega arith, omega arith)

-- A number, cut to one to four.
abbrev pub cut : ℤ → ℕ
cut (negsuc n) = 1
cut (pos zero) = 1
cut (pos (suc n)) = min (suc n) 4

clamp_slots-cut : (n : ℤ) → clamp_slots n ≡ cut n
clamp_slots-cut (negsuc n) = refl
clamp_slots-cut (pos zero) = refl
clamp_slots-cut (pos (suc n)) = ground arith

-- The number of workers, from what RISK_SLOTS says and from what the budget does.
abbrev pub settled : Option ℤ → ℕ → ℕ
settled (some (pos (suc v))) quota = min (suc v) 4
settled (some (pos zero)) quota = quota
settled (some (negsuc v)) quota = quota
settled none quota = quota

override-settled :
    (o : Option ℤ) (n : ℤ) → clamp_slots (slots_override o n) ≡ settled o (clamp_slots n)
override-settled none n = refl
override-settled (some (negsuc v)) n = refl
override-settled (some (pos zero)) n = refl
override-settled (some (pos (suc v))) n = ground arith

module _ {Float : Type 0} (N : Numbers Float) (fields : Bytes → List Bytes)
    (trim_space : Bytes → Bytes) where
  open N use {zero_float, half, parse_float, add, div, less, at_least, to_int}

  -- 0 or a quotient with a positive divisor.
  abbrev IsBudget : Float → Type 0
  IsBudget b =
      (b ≡ zero_float) ⊎ ((q : Float) × (p : Float) × (less zero_float p ≡ true) × (b ≡ div q p))

  -- Whatever the files of the cgroup and RISK_SLOTS say, there are one to four workers: as many as
  -- RISK_SLOTS says, at most four, exactly where that is a number from 1 on, and otherwise two,
  -- where the CPU budget is less than half a CPU or unknown, or else the rounded budget, cut to one
  -- to four.
  pub boot_slots_lem :
      (files : Files) (env : Bytes)
      → let budget = cgroup_cpu_budget N fields trim_space files in
        let n = boot_slots N fields trim_space files env in
        (1 ≤ n)
        × (n ≤ 4)
        × (n
            ≡ settled
                (atoi env)
                (if at_least budget half then cut (to_int (add budget half)) else 2))
  unfolding boot_slots risk_slots
  boot_slots_lem files env =
      let budget = cgroup_cpu_budget N fields trim_space files in
      let quota : Option ℤ =
        if at_least budget half then some (to_int (add budget half)) else none in
      let bounds = clamp_bounds (slots_override (atoi env) (from_quota quota)) in
      let rounded : clamp_slots (from_quota quota)
          ≡ (if at_least budget half then cut (to_int (add budget half)) else 2) =
        (elim (Bool-cases (at_least budget half)) [
          | inl enough ↦ rw enough (clamp_slots-cut (to_int (add budget half)))
          | inr unknown ↦ rw unknown refl
        ]) in
      (
        bounds.0,
        bounds.1,
        override-settled (atoi env) (from_quota quota) ∙ ap (settled (atoi env)) rounded,
      )

  quota_v2-IsBudget : (q p : Option Float) → IsBudget (quota_v2 N fields trim_space q p)
  quota_v2-IsBudget none p = inl refl
  quota_v2-IsBudget (some q) none = inl refl
  quota_v2-IsBudget (some q) (some p) = elim (Bool-cases (less zero_float p)) [
    | inl positive ↦ rw positive (inr (q, p, positive, refl))
    | inr other ↦ rw other (inl refl)
  ]

  quota_v1-IsBudget : (q p : Option Float) → IsBudget (quota_v1 N fields trim_space q p)
  quota_v1-IsBudget none p = inl refl
  quota_v1-IsBudget (some q) none = inl refl
  quota_v1-IsBudget (some q) (some p) = elim (Bool-cases (less zero_float q)) [
    | inl positive ↦ rw positive (quota_v2-IsBudget (some q) (some p))
    | inr other ↦ rw other (inl refl)
  ]

  from_fields-IsBudget : (fs : List Bytes) → IsBudget (from_fields N fields trim_space fs)
  from_fields-IsBudget [] = inl refl
  from_fields-IsBudget (q ∷ []) = inl refl
  from_fields-IsBudget (q ∷ p ∷ r ∷ fs) = inl refl
  from_fields-IsBudget (q ∷ p ∷ []) = elim (Bool-cases (equal q (codes "max"))) [
    | inl unlimited ↦ rw unlimited (inl refl)
    | inr limited ↦ rw limited (quota_v2-IsBudget (parse_float q) (parse_float p))
  ]

  from_cfs-IsBudget : (q p : Option Bytes) → IsBudget (from_cfs N fields trim_space q p)
  from_cfs-IsBudget none p = inl refl
  from_cfs-IsBudget (some q) none = inl refl
  from_cfs-IsBudget (some q) (some p) = quota_v1-IsBudget _ _

  -- No division by a divisor that is not positive.
  cgroup_cpu_budget-IsBudget :
      (files : Files) → IsBudget (cgroup_cpu_budget N fields trim_space files)
  unfolding cgroup_cpu_budget
  cgroup_cpu_budget-IsBudget files = elim (Option-cases files.cpu_max) [
    | inl missing ↦ rw missing (from_cfs-IsBudget files.cfs_quota_us files.cfs_period_us)
    | inr (b, there) ↦ rw there (from_fields-IsBudget (fields b))
  ]
