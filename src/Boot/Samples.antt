-- ===== src/Boot/Samples.antt =====
-- Numbers and files to run the boot with.
use obsidio.Prelude.{Bool, true, false, not, ◌||◌, none, some}
use obsidio.Prelude.Env.{pos}
use obsidio.Boot.Cgroup.{Numbers, Files}

-- Whether a number is at least one half.
abbrev pub rough : Numbers Bool
rough = record {
  zero_float = false;
  half = true;
  parse_float = λ s. some true;
  add = λ a b. a || b;
  div = λ a b. a;
  less = λ a b. not a;
  at_least = λ a b. a;
  to_int = λ a. pos 2;
}

abbrev pub no_files : Files
no_files = record { cpu_max = none; cfs_quota_us = none; cfs_period_us = none }
