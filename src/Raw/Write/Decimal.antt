-- ===== src/Raw/Write/Decimal.antt =====
-- Decimal numbers and the parser of Content-Length.
use obsidio.Prelude.{
  ℕ, zero, suc, ◌+◌, ◌-◌, ◌*◌, ◌/◌, ◌%◌, ◌^◌, ◌≤◌, ◌<◌, ◌≡◌, refl, ap, inl, inr, true, false, [],
  ◌∷◌, ◌++◌, Option, none, some, arith, Bool-cases, ltb, ltb→lt, lt→ltb, ltb_false→le, length,
  length-append, All, All-append,
}
use native.Mathlib.Nat.{pow-suc}
use obsidio.Prelude.Text.{is_empty}
use obsidio.Prelude.Env.{Bytes, is_digit}
use obsidio.Raw.{length_from, content_length}
use obsidio.Raw.Fields.{NoOws}
use obsidio.Raw.Head.{Lacks}
use obsidio.Raw.Write.{decimal_from, decimal}

abbrev AreDigits : Bytes → Type 0
AreDigits = All (λ d. is_digit d ≡ true)

abbrev then_digit : ℕ → Option ℕ → Option ℕ
then_digit d none = none
then_digit d (some m) = some (m * 10 + (d - b'0'))

length_from-append :
    (k d : ℕ) (ds : Bytes)
    → is_digit d ≡ true
    → length_from k (ds ++ d ∷ []) ≡ then_digit d (length_from k ds)
unfolding length_from
length_from-append k d [] h = rw h refl
length_from-append k d (x ∷ ds) h = elim (Bool-cases (is_digit x)) [
  | inl digit ↦ rw digit (length_from-append (k * 10 + (x - b'0')) d ds h)
  | inr other ↦ rw other refl
]

low_digit : (n : ℕ) → n < 10 → is_digit (b'0' + n) ≡ true
low_digit n h = ground arith

decimal_from-value : (fuel n : ℕ) → n < fuel → length_from 0 (decimal_from fuel n) ≡ some n
unfolding decimal_from length_from
decimal_from-value zero n h = absurd (omega arith)
decimal_from-value (suc fuel) n h = elim (Bool-cases (ltb n 10)) [
  | inl small ↦ rw (small, low_digit n (ltb→lt n 10 small)) (ap some (omega arith))
  | inr big ↦
      let le = ltb_false→le n 10 big in
      rw
        (
          big,
          length_from-append 0 (b'0' + n % 10) (decimal_from fuel (n / 10))
              (low_digit (n % 10) (omega arith)),
          decimal_from-value fuel (n / 10) (omega (arith, le)),
        )
        (ap some (omega arith))
]

decimal_from-AreDigits : (fuel n : ℕ) → AreDigits (decimal_from fuel n)
unfolding decimal_from
decimal_from-AreDigits zero n = tt
decimal_from-AreDigits (suc fuel) n = elim (Bool-cases (ltb n 10)) [
  | inl small ↦ rw small (low_digit n (ltb→lt n 10 small), tt)
  | inr big ↦ rw big (
      All-append (λ d. is_digit d ≡ true) (decimal_from fuel (n / 10)) _
        (decimal_from-AreDigits fuel (n / 10)) (low_digit (n % 10) (omega arith), tt))
]

fewer_digits : (n k : ℕ) → n < 10 ^ suc (suc k) → n / 10 < 10 ^ suc k
fewer_digits n k h = let e : n < 10 ^ suc k * 10 = rw (pow-suc 10 (suc k)) at h in omega (arith, e)

length-decimal_from :
    (fuel n k : ℕ)
    → n < fuel
    → n < 10 ^ suc k
    → (0 < length (decimal_from fuel n)) × (length (decimal_from fuel n) ≤ suc k)
unfolding decimal_from
length-decimal_from zero n k f h = absurd (omega arith)
length-decimal_from (suc fuel) n zero f h = let e = ltb_true n h in rw e (omega arith, omega arith)
  where
    ltb_true : (n : ℕ) → n < 10 ^ suc zero → ltb n 10 ≡ true
    ltb_true n h = lt→ltb n 10 h
length-decimal_from (suc fuel) n (suc k) f h = elim (Bool-cases (ltb n 10)) [
  | inl small ↦ rw small (omega arith, omega arith)
  | inr big ↦
      let le = ltb_false→le n 10 big in
      let ih = length-decimal_from fuel (n / 10) k (omega (arith, le)) (fewer_digits n k h) in
      rw big (
        omega (arith, length-append (decimal_from fuel (n / 10)) ((b'0' + n % 10) ∷ [])),
        omega (arith, ih.1, length-append (decimal_from fuel (n / 10)) ((b'0' + n % 10) ∷ [])),
      )
]

digits-NoOws : (ds : Bytes) → AreDigits ds → NoOws ds
digits-NoOws [] h = tt
digits-NoOws (d ∷ ds) h = (ground (arith, h.0), digits-NoOws ds h.1)

digits-Lacks : (ds : Bytes) → AreDigits ds → Lacks b'\r' ds
digits-Lacks [] h = tt
digits-Lacks (d ∷ ds) h = (ground (arith, h.0), digits-Lacks ds h.1)

pub decimal-NoOws : (n : ℕ) → NoOws (decimal n)
unfolding decimal
decimal-NoOws n = digits-NoOws (decimal n) (decimal_from-AreDigits (suc n) n)

pub decimal-Lacks : (n : ℕ) → Lacks b'\r' (decimal n)
unfolding decimal
decimal-Lacks n = digits-Lacks (decimal n) (decimal_from-AreDigits (suc n) n)

not_empty : (s : Bytes) → 0 < length s → is_empty s ≡ false
not_empty [] h = absurd (omega arith)
not_empty (c ∷ s) h = refl

-- A length of up to nine digits is read back by the parser of Content-Length.
pub content_length-decimal : (n : ℕ) → n < 10 ^ 9 → content_length (decimal n) ≡ some n
unfolding decimal content_length
content_length-decimal n h =
    let (some_, few) = length-decimal_from (suc n) n 8 (omega arith) h in
    let e = not_empty (decimal_from (suc n) n) some_ in
    let t : ltb 9 (length (decimal_from (suc n) n)) ≡ false = ground (arith, few) in
    rw (e, t) (decimal_from-value (suc n) n (omega arith))
