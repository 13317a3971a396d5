-- ===== src/Boot/Tuned.antt =====
-- What the boot calibration hands to the gate and to the chain loops.
use obsidio.Prelude.{
  ℕ, zero, suc, ◌*◌, ◌/◌, ◌^◌, ◌<◌, ◌≡◌, refl, ap, ◌∙◌, inl, inr, Bool, List, [], ◌∷◌, Option, none,
  some, arith, All, Bool-cases, leb, get_or, length,
}
use native.Mathlib.Nat.{pow-le-pow_right}
use obsidio.Prelude.Env.{Bytes, ℤ, pos, negsuc, atoi}
use obsidio.Patience.{Estimate, seed_estimate}
use obsidio.Patience.Window.{InRange, IsTuned, seed_estimate_lem}
use obsidio.Boot.{yield_stride, yield_mask, stride_from}
use obsidio.Boot.Settings.{yield_stride_lem}
use obsidio.Boot.Sort.{sorted_into, sort, median3, middle}
use obsidio.Boot.Calibrate.{calibrate_risk}

module _ {κ} (P : ℕ → Type κ) where
  sorted_into-All : (d : ℕ) (ds : List ℕ) → P d → All P ds → All P (sorted_into d ds)
  unfolding sorted_into
  sorted_into-All d [] p a = (p, tt)
  sorted_into-All d (e ∷ es) p a = elim (Bool-cases (leb d e)) [
    | inl first ↦ rw first (p, a)
    | inr later ↦ rw later (a.0, sorted_into-All d es p a.1)
  ]

  sort-All : (ds : List ℕ) → All P ds → All P (sort ds)
  unfolding sort
  sort-All [] a = tt
  sort-All (d ∷ ds) a = sorted_into-All d (sort ds) a.0 (sort-All ds a.1)

  All-get_or : (xs : List ℕ) (i d : ℕ) → i < length xs → All P xs → P (get_or xs i d)
  All-get_or [] i d h a = absurd (omega arith)
  All-get_or (x ∷ xs) zero d h a = a.0
  All-get_or (x ∷ xs) (suc i) d h a = All-get_or xs i d (omega arith) a.1

length-sorted_into : (d : ℕ) (ds : List ℕ) → length (sorted_into d ds) ≡ suc (length ds)
unfolding sorted_into
length-sorted_into d [] = refl
length-sorted_into d (e ∷ es) = elim (Bool-cases (leb d e)) [
  | inl first ↦ rw first refl
  | inr later ↦ rw later (ap suc (length-sorted_into d es))
]

pub length-sort : (ds : List ℕ) → length (sort ds) ≡ length ds
unfolding sort
length-sort [] = refl
length-sort (d ∷ ds) = length-sorted_into d (sort ds) ∙ ap suc (length-sort ds)

middle-InRange : (ds : List ℕ) → 0 < length ds → All InRange ds → InRange (middle ds)
unfolding middle
middle-InRange ds some_ a =
    All-get_or InRange (sort ds) (length ds / 2) 0 (omega (arith, length-sort ds))
      (sort-All InRange ds a)

stride_from-fits : (o : Option ℤ) → stride_from o < 2 ^ 32
stride_from-fits (some (pos v)) = omega arith
stride_from-fits (some (negsuc v)) = omega arith
stride_from-fits none = omega arith

stride-fits :
    (within : ℕ → Bool) (env : Bytes)
    → (stride : ℕ) × (yield_stride within env ≡ some stride) × (stride < 2 ^ 32)
unfolding yield_stride
stride-fits within [] =
    let (k, le, e) = yield_stride_lem within in
    (256 * 2 ^ k, e, omega (arith, pow-le-pow_right {n = 2} (omega arith) le))
stride-fits within (c ∷ cs) = (stride_from (atoi (c ∷ cs)), refl, stride_from-fits (atoi (c ∷ cs)))

mask-fits : (stride : ℕ) → stride < 2 ^ 32 → yield_mask stride < 2 ^ 32
unfolding yield_mask
mask-fits stride h = ground arith

-- If there is at least one contended duration and each lies between 1 ms and 500 ms, and for any
-- other durations, floating-point comparison and RISK_YIELD_STRIDE, calibrateRisk ends, with an
-- estimate and a patience window that are tuned and a yield mask of 32 bits.
pub calibrate_risk-IsTuned :
    (within : ℕ → ℕ → Bool) (samples contended : List ℕ) (env : Bytes)
    → 0 < length contended
    → All InRange contended
    → (e : Estimate) × (mask : ℕ) × (calibrate_risk within samples contended env ≡ some (e, mask))
      × IsTuned e
      × (mask < 2 ^ 32)
unfolding calibrate_risk
calibrate_risk-IsTuned within samples contended env some_ a =
    let (stride, eq, fits) = stride-fits (within (median3 samples)) env in
    (
      seed_estimate (middle contended),
      yield_mask stride,
      rw eq refl,
      (seed_estimate_lem (middle contended)).2 (middle-InRange contended some_ a),
      mask-fits stride fits,
    )
