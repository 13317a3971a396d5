-- ===== src/Kernel/Install/Flags.antt =====
-- `cpuinfoFlags` of app/shakernel_amd64.go, on the text of /proc/cpuinfo, and the test of one flag in
-- `initRiskKernel`. strings.TrimSpace is a parameter.
use obsidio.Prelude.Text.{cut_first, after_prefix, contains, split_onto}
use obsidio.Prelude.{Bool, List, [], ◌∷◌, ◌++◌, Option, none, some}
use obsidio.Prelude.Env.{Bytes, codes}

abbrev padded : (Bytes → Bytes) → Option (Bytes × Bytes) → Bytes → Bytes
padded trim none otherwise = otherwise
padded trim (some (name, val)) otherwise = b' ' ∷ (trim val ++ b' ' ∷ [])

abbrev or_line : (Bytes → Bytes) → Option Bytes → Bytes → Bytes → Bytes
or_line trim none line otherwise = otherwise
or_line trim (some rest) line otherwise = padded trim (cut_first b':' line) otherwise

-- The first line that starts with "flags" and has a colon.
unfoldable pub flags_line : (Bytes → Bytes) → List Bytes → Bytes
flags_line trim [] = []
flags_line trim (line ∷ lines) =
    or_line trim (after_prefix (codes "flags") line) line (flags_line trim lines)

-- `none` is a file that could not be read.
unfoldable pub cpuinfo_flags : (Bytes → Bytes) → Option Bytes → Bytes
unfolding flags_line split_onto
cpuinfo_flags trim none = []
cpuinfo_flags trim (some file) = flags_line trim (split_onto [] file)

-- `has(f)`.
unfoldable pub has_flag : Bytes → Bytes → Bool
unfolding contains
has_flag flags f = contains (b' ' ∷ (f ++ b' ' ∷ [])) flags
