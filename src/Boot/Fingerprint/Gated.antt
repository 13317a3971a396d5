-- ===== src/Boot/Fingerprint/Gated.antt =====
-- The logged instruction sets beside those that the kernel gates of app/shakernel_amd64.go see.
use obsidio.Prelude.Text.{is_empty, after_prefix, cut_first, split_onto}
use obsidio.Prelude.{
  ◌≡◌, refl, ◌∙◌, ap, inl, inr, Bool, false, List, [], ◌∷◌, ◌++◌, Option, none, some, if◌then◌else◌,
  All, Bool-cases, Option-cases,
}
use obsidio.Prelude.Env.{Bytes, codes}
use obsidio.Kernel.Install.Flags.{flags_line, cpuinfo_flags, has_flag}
use obsidio.Boot.Fingerprint.{
  Cpu, scan_line, scan_lines, scan_cpuinfo, relevant, gate_flags, boot_fingerprint,
}

-- /proc/cpuinfo has no line of the ARM kind.
abbrev pub NoFeatures : List Bytes → Type 0
NoFeatures = All (λ line. after_prefix (codes "Features") line ≡ none)

abbrev pub lines_of : Option Bytes → List Bytes
lines_of none = []
lines_of (some file) = split_onto [] file

-- The flags among `fs` that the gates see.
abbrev pub seen : (Bytes → Bool) → List Bytes → List Bytes
seen has [] = []
seen has (f ∷ fs) = if has f then f ∷ seen has fs else seen has fs

relevant-seen : (flags : Bytes) (fs : List Bytes) → relevant flags fs ≡ seen (has_flag flags) fs
unfolding has_flag
relevant-seen flags [] = refl
relevant-seen flags (f ∷ fs) = elim (Bool-cases (has_flag flags f)) [
  | inl there ↦ rw there (ap (f ∷◌) (relevant-seen flags fs))
  | inr missing ↦ rw missing (relevant-seen flags fs)
]

module _ (trim : Bytes → Bytes) where
  scan_lines-kept :
      (lines : List Bytes) (c : Cpu)
      → is_empty c.flags ≡ false
      → (scan_lines trim lines c).flags ≡ c.flags
  unfolding scan_lines
  scan_lines-kept [] c h = refl
  scan_lines-kept (line ∷ lines) c h =
      let same : (scan_line trim line c).flags ≡ c.flags = rw h refl in
      scan_lines-kept lines (scan_line trim line c) (rw same h) ∙ same

  scan_lines-flags_line :
      (lines : List Bytes) (c : Cpu)
      → NoFeatures lines
      → c.flags ≡ []
      → (scan_lines trim lines c).flags ≡ flags_line trim lines
  unfolding scan_lines flags_line
  scan_lines-flags_line [] c a e = e
  scan_lines-flags_line (line ∷ lines) c a e =
      elim (Option-cases (after_prefix (codes "flags") line)) [
        | inl other ↦
            let empty : (scan_line trim line c).flags ≡ [] = rw (other, a.0, e) refl in
            rw other (scan_lines-flags_line lines (scan_line trim line c) a.1 empty)
        | inr (rest, flags) ↦ elim (Option-cases (cut_first b':' line)) [
          | inl open_ ↦
              let empty : (scan_line trim line c).flags ≡ [] = rw (flags, open_, e) refl in
              rw (flags, open_) (scan_lines-flags_line lines (scan_line trim line c) a.1 empty)
          | inr ((name, val), colon) ↦
              let found : (scan_line trim line c).flags ≡ b' ' ∷ (trim val ++ b' ' ∷ []) =
                rw (flags, colon, e) refl in
              scan_lines-kept lines (scan_line trim line c) (rw found refl)
              ∙ found
              ∙ (rw (flags, colon) refl)
        ]
      ]

  scan_cpuinfo-cpuinfo_flags :
      (cpuinfo : Option Bytes)
      → NoFeatures (lines_of cpuinfo)
      → (scan_cpuinfo trim cpuinfo).flags ≡ cpuinfo_flags trim cpuinfo
  unfolding scan_cpuinfo cpuinfo_flags
  scan_cpuinfo-cpuinfo_flags none a = refl
  scan_cpuinfo-cpuinfo_flags (some file) a = scan_lines-flags_line (split_onto [] file) _ a refl

  -- If no line of /proc/cpuinfo starts with Features, the instruction sets that bootFingerprint
  -- logs are those of its five names that the test of initRiskKernel finds in cpuinfoFlags, in the
  -- same order.
  pub boot_fingerprint-has_flag :
      (cpuinfo memory_max memory_limit : Option Bytes)
      → NoFeatures (lines_of cpuinfo)
      → (boot_fingerprint trim cpuinfo memory_max memory_limit).isa
        ≡ seen (has_flag (cpuinfo_flags trim cpuinfo)) gate_flags
  unfolding boot_fingerprint
  boot_fingerprint-has_flag cpuinfo memory_max memory_limit a =
      relevant-seen _ gate_flags
      ∙ ap (λ flags. seen (has_flag flags) gate_flags) (scan_cpuinfo-cpuinfo_flags cpuinfo a)
