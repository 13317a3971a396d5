-- ===== src/Boot/Calibrate/Measured.antt =====
-- The samples of the contended rounds of `calibrateRisk` in app/main.go.
use obsidio.Prelude.{
  refl, ap, ap₂, ◌∙◌, ℕ, zero, suc, ◌+◌, ◌≡◌, All, All-append, length, length-append,
}
use obsidio.Boot.Calibrate.{round_samples, contended_samples}

round_samples-All {κ} :
    (P : ℕ → Type κ) (took : ℕ → ℕ) (slots : ℕ)
    → ((c : ℕ) → P (took c))
    → All P (round_samples took slots)
unfolding round_samples
round_samples-All P took zero h = tt
round_samples-All P took (suc slots) h = (h slots, round_samples-All P took slots h)

pub contended_samples-All {κ} :
    (P : ℕ → Type κ) (took : ℕ → ℕ → ℕ) (slots : ℕ)
    → ((r c : ℕ) → P (took r c))
    → All P (contended_samples took slots)
contended_samples-All P took slots h =
    All-append P (round_samples (took 0) slots) (round_samples (took 1) slots)
      (round_samples-All P (took 0) slots (h 0)) (round_samples-All P (took 1) slots (h 1))

length-round_samples : (took : ℕ → ℕ) (slots : ℕ) → length (round_samples took slots) ≡ slots
unfolding round_samples
length-round_samples took zero = refl
length-round_samples took (suc slots) = ap suc (length-round_samples took slots)

-- Two for each worker.
pub length-contended_samples :
    (took : ℕ → ℕ → ℕ) (slots : ℕ) → length (contended_samples took slots) ≡ slots + slots
length-contended_samples took slots =
    length-append (round_samples (took 0) slots) (round_samples (took 1) slots)
    ∙ ap₂ (◌+◌) (length-round_samples (took 0) slots) (length-round_samples (took 1) slots)
