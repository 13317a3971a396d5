-- ===== src/App/Extremes.antt =====
-- The least and the greatest number of a series.
use obsidio.Prelude.{
  ℕ, suc, ◌≡◌, refl, Bool, true, false, List, [], ◌∷◌, some, if◌then◌else◌, Bool-cases, inl, inr,
  All, get_elem?,
}
use obsidio.App.{Floats, Scan, scan_one, scan, stats_of}

-- A number is at some index of a list.
abbrev pub Occurs {ℓ} : {A : Type ℓ} → A → List A → Type ℓ
Occurs v xs = (i : ℕ) × (get_elem? xs i ≡ some v)

all_from {ℓ κ} :
    {A : Type ℓ}
    → (P : A → Type κ) (xs : List A) → ((i : ℕ) (v : A) → get_elem? xs i ≡ some v → P v)
    → All P xs
all_from P [] h = tt
all_from P (x ∷ xs) h = (h 0 x refl, all_from P xs (λ i v e. h (suc i) v e))

module _ {Float : Type 0} (F : Floats Float) where
  open F use {less, less_irrefl, less_trans}

  -- Replacing a bound by a better one, the bound that is compared on the left or on the right.
  not_below : (v w m : Float) → less v m ≡ false → less v (if less w m then w else m) ≡ false
  not_below v w m h = elim (Bool-cases (less w m)) [
    | inr keep ↦ rw keep h
    | inl better ↦ elim (Bool-cases (less v w)) [
      | inr apart ↦ rw (better, apart) refl
      | inl below ↦ let bad : less v m ≡ true = less_trans v w m below better in absurd cc
    ]
  ]

  self_not_below : (w m : Float) → less w (if less w m then w else m) ≡ false
  self_not_below w m = elim (Bool-cases (less w m)) [
    | inr keep ↦ rw keep keep
    | inl better ↦ rw better (less_irrefl w)
  ]

  not_above : (v w m : Float) → less m v ≡ false → less (if less m w then w else m) v ≡ false
  not_above v w m h = elim (Bool-cases (less m w)) [
    | inr keep ↦ rw keep h
    | inl better ↦ elim (Bool-cases (less w v)) [
      | inr apart ↦ rw (better, apart) refl
      | inl above ↦ let bad : less m v ≡ true = less_trans m w v better above in absurd cc
    ]
  ]

  self_not_above : (w m : Float) → less (if less m w then w else m) w ≡ false
  self_not_above w m = elim (Bool-cases (less m w)) [
    | inr keep ↦ rw keep keep
    | inl better ↦ rw better (less_irrefl w)
  ]

  -- What holds of the bounds at the start, and is kept by every step, holds at the end.
  scan_keeps :
      (P : Scan F → Type 0)
      → (arr : List Float) → (s : Scan F) → P s
      → All (λ v. (s : Scan F) → P s → P (scan_one F v s)) arr
      → P (scan F arr s)
  unfolding scan
  scan_keeps P [] s p h = p
  scan_keeps P (v ∷ arr) s p h = scan_keeps P arr (scan_one F v s) (h.0 s p) h.1

  abbrev Between : Float → Scan F → Type 0
  Between v s = (less v s.mn ≡ false) × (less s.mx v ≡ false)

  kept :
      (v : Float) (arr : List Float)
      → All (λ w. (s : Scan F) → Between v s → Between v (scan_one F w s)) arr
  kept v arr = all_from _ arr (λ i w e s b. (not_below v w s.mn b.0, not_above v w s.mx b.1))

  all-Between : (arr : List Float) (s : Scan F) → All (λ v. Between v (scan F arr s)) arr
  unfolding scan
  all-Between [] s = tt
  all-Between (v ∷ arr) s = (
    scan_keeps (Between v) arr (scan_one F v s) (self_not_below v s.mn, self_not_above v s.mx)
        (kept v arr),
    all-Between arr (scan_one F v s),
  )

  abbrev Taken : List Float → Scan F → Type 0
  Taken xs s = Occurs s.mn xs × Occurs s.mx xs

  taken : (xs : List Float) → All (λ w. (s : Scan F) → Taken xs s → Taken xs (scan_one F w s)) xs
  taken xs = all_from _ xs (λ i w e s t.
      (chosen (less w s.mn) w s.mn (i, e) t.0, chosen (less s.mx w) w s.mx (i, e) t.1))
    where
      chosen : (b : Bool) (w m : Float) → Occurs w xs → Occurs m xs → Occurs (if b then w else m) xs
      chosen true w m h k = h
      chosen false w m h k = k

  -- The minimum and the maximum that handleStats reports are numbers of the series, and no number
  -- of the series is less than the one or greater than the other, with NaN too.
  pub stats_of-Extremes :
      (first : Float) (arr : List Float)
      → let s = stats_of F first arr in
        Occurs s.min (first ∷ arr)
        × Occurs s.max (first ∷ arr)
        × All (λ v. (less v s.min ≡ false) × (less s.max v ≡ false)) (first ∷ arr)
  unfolding stats_of
  stats_of-Extremes first arr =
      let start : Scan F = record { sum = F.of_nat 0; mn = first; mx = first } in
      let (lo, hi) =
        scan_keeps (Taken (first ∷ arr)) (first ∷ arr) start ((0, refl), (0, refl))
          (taken (first ∷ arr)) in
      (lo, hi, all-Between (first ∷ arr) start)
