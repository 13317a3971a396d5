-- ===== src/Boot/Calibrate/Order.antt =====
-- The contended round of `calibrateRisk` in app/main.go: its goroutines append their durations in the order
-- in which they end.
use obsidio.Prelude.{
  ℕ, ◌/◌, ◌≡◌, refl, sym, ap, ap₂, ◌∙◌, inl, inr, Bool, true, false, List, [], ◌∷◌, arith,
  Bool-cases, leb, leb→le, length, get_or,
}
use mathlib.Core.List.{foldr}
use mathlib.Core.List.Perm
use mathlib.Core.List
use obsidio.Prelude.Env.{Bytes}
use obsidio.Boot.Sort.{sorted_into, sort, middle}
use obsidio.Boot.Calibrate.{calibrate_risk}
use obsidio.Boot.Tuned.{length-sort}

-- Inserting in the other order gives the same list.
below : (a b : ℕ) → leb a b ≡ false → leb b a ≡ true
below a b h = ground arith

sorted_into_comm :
    (a b : ℕ) (ds : List ℕ) → sorted_into a (sorted_into b ds) ≡ sorted_into b (sorted_into a ds)
unfolding sorted_into
sorted_into_comm a b [] = elim (Bool-cases (leb a b)) [
  | inl le ↦ elim (Bool-cases (leb b a)) [
    | inl ge ↦ let e : a ≡ b = omega (arith, leb→le a b le, leb→le b a ge) in rw (le, ge, e) refl
    | inr lt ↦ rw (le, lt) refl
  ]
  | inr gt ↦ rw (gt, below a b gt) refl
]
sorted_into_comm a b (d ∷ ds) = elim (Bool-cases (leb a d)) [
  | inl a_first ↦ elim (Bool-cases (leb b d)) [
    | inl b_first ↦ elim (Bool-cases (leb a b)) [
      | inl le ↦ elim (Bool-cases (leb b a)) [
        | inl ge ↦
            let e : a ≡ b = omega (arith, leb→le a b le, leb→le b a ge) in
            ap₂ (λ x y. sorted_into x (sorted_into y (d ∷ ds))) e (sym e)
        | inr lt ↦ rw (a_first, b_first, le, lt) refl
      ]
      | inr gt ↦ rw (a_first, b_first, gt, below a b gt) (rw a_first refl)
    ]
    | inr b_later ↦
        let lt : leb b a ≡ false = ground (arith, a_first, b_later) in
        rw (b_later, a_first, lt) (rw b_later refl)
  ]
  | inr a_later ↦ elim (Bool-cases (leb b d)) [
    | inl b_first ↦
        let gt : leb a b ≡ false = ground (arith, b_first, a_later) in
        rw (b_first, a_later, gt) (rw b_first refl)
    | inr b_later ↦ rw (a_later, b_later) (rw a_later (ap (d ∷◌) (sorted_into_comm a b ds)))
  ]
]

sort-foldr : (ds : List ℕ) → sort ds ≡ foldr sorted_into [] ds
unfolding sort
sort-foldr [] = refl
sort-foldr (d ∷ ds) = ap (sorted_into d) (sort-foldr ds)

sort-Perm : (ds es : List ℕ) → List.Perm ds es → sort ds ≡ sort es
sort-Perm ds es p =
    sort-foldr ds ∙ Perm.foldr-eq (hlevel) sorted_into sorted_into_comm p [] ∙ sym (sort-foldr es)

middle-Perm : (ds es : List ℕ) → List.Perm ds es → middle ds ≡ middle es
unfolding middle
middle-Perm ds es p =
    let same = sort-Perm ds es p in
    let count : length ds ≡ length es = sym (length-sort ds) ∙ ap length same ∙ length-sort es in
    ap₂ (λ s n. get_or s (n / 2) 0) same count

-- The result of calibrateRisk does not depend on the order in which the goroutines of the contended
-- rounds end and append their durations.
pub calibrate_risk-Perm :
    (within : ℕ → ℕ → Bool) (samples contended ended : List ℕ) (env : Bytes)
    → List.Perm contended ended
    → calibrate_risk within samples contended env ≡ calibrate_risk within samples ended env
unfolding calibrate_risk
calibrate_risk-Perm within samples contended ended env p = rw (middle-Perm contended ended p) refl
