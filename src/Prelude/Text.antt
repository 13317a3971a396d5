-- ===== src/Prelude/Text.antt =====
-- Byte strings: comparison, prefixes and the first occurrence of a byte or a separator.
use Prim.Native.Nat.{ℕ, ◌≤◌}
use mathlib.Core.Path.{◌≡◌, refl}
use mathlib.Core.Logic.{◌↔◌, inl, inr}
use mathlib.Core.Bool.{Bool, true, false, ◌&&◌, ◌||◌}
use mathlib.Core.Option.{Option, none, some}
use mathlib.Core.List.{List, [], ◌∷◌, ◌++◌}
use native.Mathlib.Omega.{arith}
use obsidio.Prelude.Env.{Bytes}
use obsidio.Prelude.{◌==◌, ==_iff, Bool-cases, if◌then◌else◌, length, is_some}

abbrev pub is_empty : Bytes → Bool
is_empty [] = true
is_empty (c ∷ cs) = false

-- Go's `==` on strings.
unfoldable pub equal : Bytes → Bytes → Bool
equal [] [] = true
equal [] (y ∷ ys) = false
equal (x ∷ xs) [] = false
equal (x ∷ xs) (y ∷ ys) = x == y && equal xs ys

pub equal_self : (s : Bytes) → equal s s ≡ true
unfolding equal
equal_self [] = refl
equal_self (c ∷ s) = ground (arith, equal_self s)

-- `strings.HasPrefix(q, k)`, with what is behind the prefix.
unfoldable pub after_prefix : Bytes → Bytes → Option Bytes
after_prefix [] q = some q
after_prefix (k ∷ ks) [] = none
after_prefix (k ∷ ks) (c ∷ q) = if c == k then after_prefix ks q else none

pub after_prefix-append : (ks q v : Bytes) → after_prefix ks q ≡ some v → q ≡ ks ++ v
unfolding after_prefix
after_prefix-append [] q v e = cc
after_prefix-append (k ∷ ks) [] v e = absurd (cc)
after_prefix-append (k ∷ ks) (c ∷ q) v e = elim (Bool-cases (c == k)) [
  | inl same ↦
      let first = (==_iff c k).0 same in
      let rest = after_prefix-append ks q v (simp same at e) in cc
  | inr other ↦ let bad : none ≡ some v = simp other at e in absurd cc
]

-- A prefix that is there stays there when more follows.
pub after_prefix-more :
    (ks a b v : Bytes) → after_prefix ks a ≡ some v → after_prefix ks (a ++ b) ≡ some (v ++ b)
unfolding after_prefix
after_prefix-more [] a b v e = cc
after_prefix-more (k ∷ ks) [] b v e = absurd (cc)
after_prefix-more (k ∷ ks) (c ∷ a) b v e = elim (Bool-cases (c == k)) [
  | inl same ↦ rw same (after_prefix-more ks a b v (simp same at e))
  | inr other ↦ let bad : none ≡ some v = simp other at e in absurd cc
]

-- One that is not there does not come, once the string is as long as the prefix.
pub after_prefix-never :
    (ks a b : Bytes)
    → after_prefix ks a ≡ none
    → length ks ≤ length a
    → after_prefix ks (a ++ b) ≡ none
unfolding after_prefix
after_prefix-never [] a b e h = absurd (cc)
after_prefix-never (k ∷ ks) [] b e h = absurd (omega arith)
after_prefix-never (k ∷ ks) (c ∷ a) b e h = elim (Bool-cases (c == k)) [
  | inl same ↦ rw same (after_prefix-never ks a b (simp same at e) (omega arith))
  | inr other ↦ rw other refl
]

abbrev pub newline : ℕ
newline = b'\n'

-- `strings.Split(s, "\n")`, with the current line in front.
unfoldable pub split_onto : Bytes → Bytes → List Bytes
split_onto line [] = line ∷ []
split_onto line (c ∷ cs) =
    let next = split_onto [] cs in
    let on = split_onto (line ++ c ∷ []) cs in if c == newline then line ∷ next else on

-- `strings.Contains(s, part)`.
unfoldable pub contains : Bytes → Bytes → Bool
unfolding after_prefix
contains part [] = is_empty part
contains part (c ∷ s) = is_some (after_prefix part (c ∷ s)) || contains part s

pub equal_iff : (a b : Bytes) → (equal a b ≡ true) ↔ (a ≡ b)
unfolding equal
equal_iff a b = (sound a b, (λ e. rw e (equal_self b)))
  where
    sound : (a b : Bytes) → equal a b ≡ true → a ≡ b
    sound [] [] h = refl
    sound [] (y ∷ b) h = cc
    sound (x ∷ a) [] h = cc
    sound (x ∷ a) (y ∷ b) h = elim (Bool-cases (x == y)) [
      | inr e ↦ let bad : false ≡ true = rw e at h in cc
      | inl e ↦ let p = (==_iff x y).0 e in let q = sound a b (rw e at h) in cc
    ]

abbrev pub put_front : ℕ → Option (Bytes × Bytes) → Option (Bytes × Bytes)
put_front x none = none
put_front x (some (a, b)) = some (x ∷ a, b)

-- `bytes.IndexByte`, with what is before the byte and what is behind it.
unfoldable pub cut_first : ℕ → Bytes → Option (Bytes × Bytes)
cut_first c [] = none
cut_first c (x ∷ s) = let rest = cut_first c s in if x == c then some ([], s) else put_front x rest
