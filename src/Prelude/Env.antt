-- ===== src/Prelude/Env.antt =====
-- Environment variables as byte strings ("" is an unset one), and what `strconv.Atoi` makes of them.
use obsidio.Prelude.Tests.{ltb, leb, ◌==◌, if◌then◌else◌}
use Prim.Native.Nat.{ℕ, zero, suc, ◌+◌, ◌-◌, ◌*◌, ◌^◌}
use Prim.Native.Char.{code}
use Prim.Native.String.{String}
use mathlib.Core.Bool.{Bool, true, false, ◌&&◌}
use mathlib.Core.List.{List, [], ◌∷◌}
use mathlib.Core.Option.{Option, none, some}

abbrev pub Bytes : Type 0
Bytes = List ℕ

-- The bytes of an ASCII literal.
abbrev pub codes : String → Bytes
codes String.[] = []
codes (String.◌∷◌ c s) = code c ∷ codes s

-- `negsuc n` is -(n + 1).
pub data ℤ : Type 0 where
  pos : ℕ → ℤ
  negsuc : ℕ → ℤ

abbrev pub negate : ℕ → ℤ
negate zero = pos 0
negate (suc n) = negsuc n

abbrev pub is_digit : ℕ → Bool
is_digit d = leb b'0' d && leb d b'9'

-- Decimal digits onto an accumulator; `none` at any other byte.
pub digits_onto : ℕ → Bytes → Option ℕ
digits_onto n [] = some n
digits_onto n (d ∷ ds) = elim (is_digit d) [
  | true ↦ digits_onto (n * 10 + (d - b'0')) ds
  | false ↦ none
]

abbrev unsigned : Bytes → Option ℕ
unsigned [] = none
unsigned (d ∷ ds) = digits_onto 0 (d ∷ ds)

abbrev in_range : ℕ → (ℕ → ℤ) → Option ℕ → Option ℤ
in_range bound sign none = none
in_range bound sign (some n) = if ltb n bound then some (sign n) else none

-- An optional sign and digits, with an error outside of the int64 range.
unfoldable pub atoi : Bytes → Option ℤ
unfolding digits_onto
atoi [] = none
atoi (c ∷ cs) =
    if c == b'-'
    then in_range (2 ^ 63 + 1) negate (unsigned cs)
    else if c == b'+'
    then in_range (2 ^ 63) pos (unsigned cs)
    else in_range (2 ^ 63) pos (unsigned (c ∷ cs))
