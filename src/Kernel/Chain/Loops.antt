-- ===== src/Kernel/Chain/Loops.antt =====
-- The chunked loop of the kernels that run many iterations in one call.
use obsidio.Prelude.{
  ℕ, zero, suc, ◌+◌, ◌-◌, ◌^◌, ◌%◌, ◌≤◌, ◌<◌, ◌≡◌, ◌⊎◌, refl, sym, ap, inl, inr, ◌∙◌, List, [], ◌∷◌,
  Option, some, arith, Bool-cases, ltb, ltb_false→le, ltb→lt, All, ◌>>=◌,
}
use native.Mathlib.Nat.{mod-eq_of_lt}
use obsidio.Kernel.Chain.{iterate, chunked, chunk_size}

pub sum : List ℕ → ℕ
sum [] = 0
sum (n ∷ ns) = n + sum ns

module _ {ℓ} {S : Type ℓ} (f : S → S) where
  pub iterate-add : (m n : ℕ) (s : S) → iterate (m + n) f s ≡ iterate n f (iterate m f s)
  unfolding iterate
  iterate-add zero n s = let e : zero + n ≡ n = omega arith in rw e
  iterate-add (suc m) n s =
      let e : suc m + n ≡ suc (m + n) = omega arith in rw e (iterate-add m n (f s))

  pub iterate-pred : (n : ℕ) (s : S) → 0 < n → iterate n f s ≡ iterate (n - 1) f (f s)
  unfolding iterate
  iterate-pred zero s h = absurd (omega arith)
  iterate-pred (suc n) s h = let e : suc n - 1 ≡ n = omega arith in rw e

  pub iterate-keeps {κ} :
      (P : S → Type κ) → ((s : S) → P s → P (f s)) → (n : ℕ) (s : S) → P s → P (iterate n f s)
  unfolding iterate
  iterate-keeps P keep zero s p = p
  iterate-keeps P keep (suc n) s p = iterate-keeps P keep n (f s) (keep s p)

  pub iterate-eq {κ} :
      (P : S → Type κ) (g : S → S)
      → ((s : S) → P s → P (f s))
      → ((s : S) → P s → g s ≡ f s)
      → (n : ℕ) (s : S) → P s
      → iterate n g s ≡ iterate n f s
  unfolding iterate
  iterate-eq P g keep eq zero s p = refl
  iterate-eq P g keep eq (suc n) s p = rw (eq s p) (iterate-eq P g keep eq n (f s) (keep s p))

-- A call is given at least one round, all that is left at most, and at most the stride if there
-- is one.
abbrev pub CallFits : ℕ → ℕ → Type 0
CallFits stride n = (0 < n) × ((stride ≡ 0) ⊎ (n ≤ stride))

chunk_size_bounds :
    (stride left : ℕ)
    → 0 < left
    → CallFits stride (chunk_size stride left) × (chunk_size stride left ≤ left)
unfolding chunk_size
chunk_size_bounds stride left h = ground arith

module _ {ℓ κ} {S : Type ℓ} (P : S → Type κ) (f : S → S) (iter_n : S → ℕ → S) (total stride : ℕ)
    (keep : (s : S) → P s → P (f s)) (kernel : (s : S) (n : ℕ) → P s → iter_n s n ≡ iterate n f s)
    (small : total < 2 ^ 32) where
  -- What the loop is to do from `done` iterations on: all that is left, in calls that fit.
  abbrev pub Finishes : ℕ → S → Option (S × List ℕ) → Type ℓ
  Finishes left s r =
      (calls : List ℕ) × (r ≡ some (iterate left f s, calls))
      × (sum calls ≡ left)
      × All (CallFits stride) calls

  extend :
      (n left : ℕ) {whole : ℕ} (s : S) (r : Option (S × List ℕ))
      → Finishes left (iterate n f s) r
      → n + left ≡ whole
      → CallFits stride n
      → Finishes whole s (r >>= λ t. some (t.0, n ∷ t.1))
  unfolding sum
  extend n left s r (calls, e, total_is, fit) h c =
      let runs = sym (iterate-add f n left s) ∙ ap (λ m. iterate m f s) h in
      (n ∷ calls, rw e (ap (λ x. some (x, n ∷ calls)) runs), omega arith, (c, fit))

  -- Over a kernel whose n-round call makes n rounds, and with more fuel than rounds left, the loop
  -- over chunks ends, has run exactly the rounds left, and gave every call at least one round and
  -- no more than the stride if that is not 0.
  pub chunked-Finishes :
      (fuel done : ℕ) (s : S)
      → done ≤ total
      → total - done < fuel
      → P s
      → Finishes (total - done) s (chunked iter_n total stride fuel done s)
  unfolding chunked sum iterate
  chunked-Finishes zero done s le h p = absurd (omega arith)
  chunked-Finishes (suc fuel) done s le h p = elim (Bool-cases (ltb done total)) [
    | inl more ↦
        let n = chunk_size stride (total - done) in
        let lt = ltb→lt done total more in
        let fits = chunk_size_bounds stride (total - done) (omega arith) in
        let no_wrap : (done + n) % 2 ^ 32 ≡ done + n = mod-eq_of_lt (omega (arith, fits.1)) in
        let ih =
          chunked-Finishes fuel (done + n) (iterate n f s) (omega (arith, fits.1))
            (omega (arith, fits.0.0)) (iterate-keeps f P keep n s p) in
        rw (more, no_wrap, kernel s n p)
          (extend n (total - (done + n)) s _ ih (omega (arith, fits.1)) fits.0)
    | inr stop ↦
        let e : total - done ≡ 0 = omega (arith, ltb_false→le done total stop) in
        ([], rw (stop, e) refl, sym e, tt)
  ]
