-- ===== src/Prelude/Sums.antt =====
-- Sums over the addresses of a list, and over the entries by parts.
use Prim.Native.Nat.{ℕ, zero, suc, ◌+◌}
use mathlib.Core.Path.{◌≡◌, refl, sym, ap, ◌∙◌}
use mathlib.Core.List.{List, [], ◌∷◌}
use mathlib.Core.Option.{Option, none, some}
use native.Mathlib.Omega.{arith}
use obsidio.Prelude.Lists.{length, get_elem?, All}
use obsidio.Prelude.Heaps.{sum_of, sum_of-cons, sum_of-nil}

-- The sum of `f` over the numbers below.
pub below : (ℕ → ℕ) → ℕ → ℕ
below f zero = 0
below f (suc n) = f n + below f n

pub below-suc : (f : ℕ → ℕ) (n : ℕ) → below f (suc n) ≡ f n + below f n
unfolding below
below-suc f n = refl

pub below-zero : (f : ℕ → ℕ) → below f 0 ≡ 0
unfolding below
below-zero f = refl

below_shift : (f : ℕ → ℕ) (n : ℕ) → below f (suc n) ≡ f 0 + below (λ i. f (suc i)) n
unfolding below
below_shift f zero = refl
below_shift f (suc n) = omega (arith, below_shift f n)

module _ {ℓ} {A : Type ℓ} where
  -- What an entry weighs, if there is one.
  abbrev pub weigh : (A → ℕ) → Option A → ℕ
  weigh f none = 0
  weigh f (some x) = f x

  pub sum_of-below :
      (f : A → ℕ) (xs : List A) → sum_of f xs ≡ below (λ i. weigh f (get_elem? xs i)) (length xs)
  sum_of-below f [] = sum_of-nil f ∙ sym (below-zero (λ i. weigh f (get_elem? {A = A} [] i)))
  sum_of-below f (x ∷ xs) =
      sum_of-cons f x xs
      ∙ ap (λ n. f x + n) (sum_of-below f xs)
      ∙ sym (below_shift (λ i. weigh f (get_elem? (x ∷ xs) i)) (length xs))

  pub sum_of-parts :
      (h f g : A → ℕ) (xs : List A)
      → ((x : A) → h x ≡ f x + g x)
      → sum_of h xs ≡ sum_of f xs + sum_of g xs
  sum_of-parts h f g [] same = omega (arith, sum_of-nil h, sum_of-nil f, sum_of-nil g)
  sum_of-parts h f g (x ∷ xs) same = omega (
    arith,
    same x,
    sum_of-parts h f g xs same,
    sum_of-cons h x xs,
    sum_of-cons f x xs,
    sum_of-cons g x xs,
  )

  pub sum_of-none :
      {P : A → Type 0} (f : A → ℕ) (xs : List A)
      → ((x : A) → P x → f x ≡ 0)
      → All P xs
      → sum_of f xs ≡ 0
  sum_of-none f [] zero_ a = sum_of-nil f
  sum_of-none f (x ∷ xs) zero_ a =
      omega (arith, zero_ x a.0, sum_of-none f xs zero_ a.1, sum_of-cons f x xs)

  pub sum_of-one :
      {P : A → Type 0} (f : A → ℕ) (xs : List A)
      → ((x : A) → P x → f x ≡ 1)
      → All P xs
      → sum_of f xs ≡ length xs
  sum_of-one f [] one a = sum_of-nil f
  sum_of-one f (x ∷ xs) one a =
      omega (arith, one x a.0, sum_of-one f xs one a.1, sum_of-cons f x xs)
