-- ===== src/Raw/Fields.antt =====
-- Header names, optional white space and Content-Length.
use obsidio.Prelude.Text.{is_empty}
use obsidio.Prelude.{
  ℕ, ◌+◌, ◌-◌, ◌*◌, ◌^◌, ◌≤◌, ◌<◌, ◌≡◌, ◌↔◌, refl, sym, ap, ap₂, ◌∙◌, Bool, true, false, ◌&&◌, [],
  ◌∷◌, ◌++◌, none, some, arith, Bool-cases, inl, inr, ltb, ◌==◌, ==_iff, if◌then◌else◌, length,
  length-map, map, All,
}
use obsidio.Prelude.Env.{Bytes, is_digit}
use native.Mathlib.Nat.{pow-suc, mul-le-mul_right}
use obsidio.Raw.{
  lower, same_folded, ascii_equal_fold, is_ows, trim_left, trim_right, trim_ows, length_from,
  content_length,
}

same_folded_iff : (b l : Bytes) → length b ≡ length l → (same_folded b l ≡ true) ↔ (map lower b ≡ l)
unfolding same_folded
same_folded_iff [] [] h = ((λ e. refl), (λ e. refl))
same_folded_iff [] (c ∷ l) h = absurd (omega arith)
same_folded_iff (c ∷ b) [] h = absurd (omega arith)
same_folded_iff (c ∷ b) (d ∷ l) h =
    let ih = same_folded_iff b l (omega arith) in
    elim (Bool-cases (lower c == d)) [
      | inl e ↦
          let q = (==_iff (lower c) d).0 e in rw e ((λ t. ap₂ (◌∷◌) q (ih.0 t)), (λ t. ih.1 (cc)))
      | inr e ↦ rw e (
        (λ t. absurd (cc)),
        (λ t. let q : lower c ≡ d = cc in absurd (cc (e, (==_iff (lower c) d).1 q))),
      )
    ]

abbrev pub AllOws : Bytes → Type 0
AllOws = All (λ c. is_ows c ≡ true)

abbrev pub NoOws : Bytes → Type 0
NoOws = All (λ c. is_ows c ≡ false)

trim_left_lem : (left s : Bytes) → AllOws left → trim_left (left ++ s) ≡ trim_left s
unfolding trim_left
trim_left_lem [] s h = refl
trim_left_lem (c ∷ left) s h = rw h.0 (trim_left_lem left s h.1)

trim_right_ows : (right : Bytes) → AllOws right → trim_right right ≡ []
unfolding trim_right
trim_right_ows [] h = refl
trim_right_ows (c ∷ right) h = rw (trim_right_ows right h.1, h.0) refl

trim_right_lem :
    (core right : Bytes) → NoOws core → AllOws right → trim_right (core ++ right) ≡ core
unfolding trim_right
trim_right_lem [] right n h = trim_right_ows right h
trim_right_lem (c ∷ core) right n h =
    rw (trim_right_lem core right n.1 h, n.0) (if_keeps (is_empty core) (c ∷ core))
  where
    if_keeps : (b : Bool) (s : Bytes) → (if b && false then [] else s) ≡ s
    if_keeps true s = refl
    if_keeps false s = refl

trim_core :
    (core right : Bytes) → NoOws core → AllOws right → trim_right (trim_left (core ++ right)) ≡ core
unfolding trim_left trim_right
trim_core [] [] n r = refl
trim_core [] (c ∷ right) n r = rw r.0 (trim_core [] right n r.1)
trim_core (c ∷ core) right n r = rw n.0 (trim_right_lem (c ∷ core) right n r)

-- Whatever spaces and tabs stand around a value that has none inside, trimOWS returns the value.
pub trim_ows_lem :
    (left core right : Bytes)
    → AllOws left
    → NoOws core
    → AllOws right
    → trim_ows (left ++ (core ++ right)) ≡ core
trim_ows_lem left core right l n r =
    ap trim_right (trim_left_lem left (core ++ right) l) ∙ trim_core core right n r

times_ten : (n p m : ℕ) → m < ((n + 1) * 10) * p → m < (n + 1) * (p * 10)
times_ten n p m h = grind (arith, h)

length_from-lt :
    (n : ℕ) (ds : Bytes) (m : ℕ) → length_from n ds ≡ some m → m < (n + 1) * 10 ^ length ds
unfolding length_from
length_from-lt n [] m h = let e : n ≡ m = cc in omega (arith, e)
length_from-lt n (d ∷ ds) m h = elim (Bool-cases (is_digit d)) [
  | inr other ↦ let bad : none ≡ some m = rw other at h in absurd (cc)
  | inl digit ↦
      let lt = length_from-lt (n * 10 + (d - b'0')) ds m (rw digit at h) in
      let range : d - b'0' ≤ 9 = ground arith in
      let more : (n * 10 + (d - b'0') + 1) * 10 ^ length ds ≤ ((n + 1) * 10) * 10 ^ length ds =
        mul-le-mul_right (10 ^ length ds) (omega (arith, range)) in
      rw (pow-suc 10 (length ds)) (times_ten n (10 ^ length ds) m (omega (arith, lt, more)))
]

-- A Content-Length that is accepted has from one to nine bytes and is less than ten to the power of
-- their number.
pub content_length_lem :
    (val : Bytes) (n : ℕ)
    → content_length val ≡ some n
    → (0 < length val) × (length val ≤ 9) × (n < 10 ^ length val)
unfolding content_length
content_length_lem [] n h = absurd (cc)
content_length_lem (c ∷ val) n h = elim (Bool-cases (ltb 9 (length (c ∷ val)))) [
  | inl long ↦ let bad : none ≡ some n = rw long at h in absurd (cc)
  | inr fits ↦
      let lt = length_from-lt 0 (c ∷ val) n (rw fits at h) in
      (omega arith, ground arith, omega (arith, lt))
]

-- asciiEqualFold answers true exactly when the bytes with their capital letters lowered are the
-- given string.
pub ascii_equal_fold_iff : (b l : Bytes) → (ascii_equal_fold b l ≡ true) ↔ (map lower b ≡ l)
unfolding ascii_equal_fold
ascii_equal_fold_iff b l = elim (Bool-cases (length b == length l)) [
  | inl same ↦ rw same (same_folded_iff b l ((==_iff (length b) (length l)).0 same))
  | inr other ↦ rw other ((λ t. absurd (cc)), (λ e. absurd (folded_length b l e other)))
]
  where
    folded_length : (b l : Bytes) → map lower b ≡ l → (length b == length l) ≡ false → ⊥
    folded_length b l e other =
        let same : length b ≡ length l = sym (length-map b lower) ∙ ap length e in
        let t = (==_iff (length b) (length l)).1 same in cc
