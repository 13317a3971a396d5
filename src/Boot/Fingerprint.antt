-- ===== src/Boot/Fingerprint.antt =====
-- `bootFingerprint` and `logThrottleStats` of app/main.go up to what they log: the strings of the first
-- line, without its numbers, and the counters of the second. The text of the files and strings.TrimSpace
-- are arguments.
pub mod Gated
use obsidio.Prelude.Text.{equal, is_empty, after_prefix, contains, cut_first, split_onto}
use obsidio.Prelude.{
  ◌≡◌, refl, ◌∙◌, ap, inl, inr, Bool, true, false, ◌&&◌, ◌||◌, List, [], ◌∷◌, ◌++◌, Option, none,
  some, if◌then◌else◌, is_some, All, Bool-cases, Option-cases,
}
use obsidio.Prelude.Env.{Bytes, codes}
use obsidio.Kernel.Install.Flags.{flags_line, cpuinfo_flags, has_flag}

-- `model` and `flags`.
pub record Cpu : Type 0 where
  pub model : Bytes
  pub flags : Bytes

pub record Fingerprint : Type 0 where
  pub mem : Bytes
  pub cpu : Bytes
  pub isa : List Bytes

abbrev pub starts : Bytes → Bytes → Bool
starts line name = is_some (after_prefix name line)

-- What is behind the first colon, put where it goes.
abbrev pub behind_colon : (Bytes → Bytes) → Option (Bytes × Bytes) → Bytes → Bytes
behind_colon put none old = old
behind_colon put (some (name, val)) old = put val

-- `strings.Join(lines, " ")`.
abbrev pub join : List Bytes → Bytes
join [] = []
join (line ∷ []) = line
join (line ∷ next ∷ lines) = line ++ b' ' ∷ join (next ∷ lines)

-- The lines of cpu.stat that are logged.
abbrev pub throttle_lines : List Bytes → List Bytes
throttle_lines [] = []
throttle_lines (line ∷ lines) =
    if starts line (codes "nr_periods")
      || (starts line (codes "nr_throttled") || starts line (codes "throttled_usec"))
    then line ∷ throttle_lines lines
    else throttle_lines lines

-- `logThrottleStats`: the logged text, `none` where the file cannot be read.
unfoldable pub log_throttle_stats : Option Bytes → Option Bytes
unfolding after_prefix split_onto
log_throttle_stats none = none
log_throttle_stats (some b) = some (join (throttle_lines (split_onto [] b)))

-- `relevant`, of the names in `fs`.
abbrev pub relevant : Bytes → List Bytes → List Bytes
relevant flags [] = []
relevant flags (f ∷ fs) =
    if contains (b' ' ∷ (f ++ b' ' ∷ [])) flags then f ∷ relevant flags fs else relevant flags fs

abbrev pub gate_flags : List Bytes
gate_flags = codes "sha_ni" ∷ codes "avx" ∷ codes "sse4_1" ∷ codes "ssse3" ∷ codes "sha2" ∷ []

module _ (trim : Bytes → Bytes) where
  abbrev pub spaced : Bytes → Bytes
  spaced val = b' ' ∷ (trim val ++ b' ' ∷ [])

  -- The loop over the lines of /proc/cpuinfo.
  abbrev pub scan_line : Bytes → Cpu → Cpu
  scan_line line c = record {
    model =
        if equal c.model (codes "unknown") && starts line (codes "model name")
        then behind_colon trim (cut_first b':' line) c.model
        else c.model;
    flags =
        if is_empty c.flags && (starts line (codes "flags") || starts line (codes "Features"))
        then behind_colon spaced (cut_first b':' line) c.flags
        else c.flags;
  }

  unfoldable pub scan_lines : List Bytes → Cpu → Cpu
  unfolding equal after_prefix cut_first
  scan_lines [] c = c
  scan_lines (line ∷ lines) c = scan_lines lines (scan_line line c)

  unfoldable pub scan_cpuinfo : Option Bytes → Cpu
  unfolding scan_lines split_onto
  scan_cpuinfo none = record { model = codes "unknown"; flags = [] }
  scan_cpuinfo (some file) =
      scan_lines (split_onto [] file) (record { model = codes "unknown"; flags = [] })

  -- memory.max, or the file of cgroup v1.
  abbrev pub mem_of : Option Bytes → Option Bytes → Bytes
  mem_of (some b) v1 = trim b
  mem_of none (some b) = trim b
  mem_of none none = codes "unknown"

  -- `bootFingerprint`.
  unfoldable pub boot_fingerprint : Option Bytes → Option Bytes → Option Bytes → Fingerprint
  unfolding scan_cpuinfo contains
  boot_fingerprint cpuinfo memory_max memory_limit =
      let cpu = scan_cpuinfo cpuinfo in
      record {
        mem = mem_of memory_max memory_limit;
        cpu = cpu.model;
        isa = relevant cpu.flags gate_flags;
      }
