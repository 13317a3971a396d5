-- ===== src/Prelude/Heaps.antt =====
-- Lists as stores: a sum over the entries, a property of all of them, and one entry changed.
use Prim.Native.Nat.{ℕ, zero, suc, ◌+◌}
use mathlib.Core.Path.{◌≡◌, refl, ap, subst}
use mathlib.Core.Bool.{Bool, true, false}
use mathlib.Core.List.{List, [], ◌∷◌, ◌++◌}
use mathlib.Core.Option.{Option, none, some}
use native.Mathlib.Omega.{arith}
use obsidio.Prelude.Lists.{length, get_elem?, set, All}

module _ {ℓ} {A : Type ℓ} where
  pub sum_of : (A → ℕ) → List A → ℕ
  sum_of f [] = 0
  sum_of f (x ∷ xs) = f x + sum_of f xs

  abbrev pub modify : List A → ℕ → (A → A) → List A
  modify [] i f = []
  modify (x ∷ xs) zero f = f x ∷ xs
  modify (x ∷ xs) (suc i) f = x ∷ modify xs i f

  pub sum_of-append : (f : A → ℕ) (xs ys : List A) → sum_of f (xs ++ ys) ≡ sum_of f xs + sum_of f ys
  unfolding sum_of
  sum_of-append f [] ys = omega arith
  sum_of-append f (x ∷ xs) ys = omega (arith, sum_of-append f xs ys)

  pub sum_of-cons : (f : A → ℕ) (x : A) (xs : List A) → sum_of f (x ∷ xs) ≡ f x + sum_of f xs
  unfolding sum_of
  sum_of-cons f x xs = refl

  pub sum_of-nil : (f : A → ℕ) → sum_of f [] ≡ 0
  unfolding sum_of
  sum_of-nil f = refl

  -- One entry put in place of another.
  pub sum_of-middle :
      (f : A → ℕ) (xs ys : List A) (x y : A)
      → sum_of f (xs ++ y ∷ ys) + f x ≡ sum_of f (xs ++ x ∷ ys) + f y
  sum_of-middle f xs ys x y = omega (
    arith,
    sum_of-append f xs (y ∷ ys),
    sum_of-append f xs (x ∷ ys),
    sum_of-cons f x ys,
    sum_of-cons f y ys,
  )

  pub sum_of-set :
      (f : A → ℕ) (xs : List A) (i : ℕ) (x v : A)
      → get_elem? xs i ≡ some x
      → sum_of f (set xs i v) + f x ≡ sum_of f xs + f v
  unfolding sum_of
  sum_of-set f [] i x v e = cc
  sum_of-set f (y ∷ xs) zero x v e = ground arith
  sum_of-set f (y ∷ xs) (suc i) x v e = omega (arith, sum_of-set f xs i x v e)

  -- An entry changed to one of the same weight.
  pub sum_of-modify :
      (f : A → ℕ) (g : A → A) (xs : List A) (i : ℕ)
      → ((x : A) → f (g x) ≡ f x)
      → sum_of f (modify xs i g) ≡ sum_of f xs
  unfolding sum_of
  sum_of-modify f g [] i same = refl
  sum_of-modify f g (y ∷ xs) zero same = omega (arith, same y)
  sum_of-modify f g (y ∷ xs) (suc i) same = omega (arith, sum_of-modify f g xs i same)

  pub length-modify : (g : A → A) (xs : List A) (i : ℕ) → length (modify xs i g) ≡ length xs
  length-modify g [] i = refl
  length-modify g (x ∷ xs) zero = refl
  length-modify g (x ∷ xs) (suc i) = ap suc (length-modify g xs i)

  -- A change that an observation does not see.
  pub get_elem?-modify {κ} :
      {B : Type κ} (view : Option A → B) (g : A → A) (xs : List A) (i j : ℕ)
      → ((x : A) → view (some (g x)) ≡ view (some x))
      → view (get_elem? (modify xs i g) j) ≡ view (get_elem? xs j)
  get_elem?-modify view g [] i j same = refl
  get_elem?-modify view g (x ∷ xs) zero zero same = same x
  get_elem?-modify view g (x ∷ xs) zero (suc j) same = refl
  get_elem?-modify view g (x ∷ xs) (suc i) zero same = refl
  get_elem?-modify view g (x ∷ xs) (suc i) (suc j) same = get_elem?-modify view g xs i j same

  pub modify-set :
      (g : A → A) (xs : List A) (i : ℕ) (x : A)
      → get_elem? xs i ≡ some x
      → modify xs i g ≡ set xs i (g x)
  modify-set g [] i x e = refl
  modify-set g (y ∷ xs) zero x e = ground arith
  modify-set g (y ∷ xs) (suc i) x e = ap (◌∷◌ y) (modify-set g xs i x e)

module _ {ℓ κ} {A : Type ℓ} (P : A → Type κ) where
  pub All-get : (xs : List A) (i : ℕ) (x : A) → get_elem? xs i ≡ some x → All P xs → P x
  All-get [] i x e h = cc
  All-get (y ∷ xs) zero x e h = let same : y ≡ x = ground arith in subst P same h.0
  All-get (y ∷ xs) (suc i) x e h = All-get xs i x e h.1

  pub All-set : (xs : List A) (i : ℕ) (v : A) → P v → All P xs → All P (set xs i v)
  All-set [] i v p h = tt
  All-set (y ∷ xs) zero v p h = (p, h.1)
  All-set (y ∷ xs) (suc i) v p h = (h.0, All-set xs i v p h.1)

  pub All-append : (xs ys : List A) → All P xs → All P ys → All P (xs ++ ys)
  All-append [] ys h k = k
  All-append (x ∷ xs) ys h k = (h.0, All-append xs ys h.1 k)

module _ {ℓ} {A : Type ℓ} (test : Option A → Bool) where
  -- A test that held at `i` still holds after a change elsewhere, or one that keeps it.
  pub get_elem?-set_keeps :
      (xs : List A) (i j : ℕ) (x v : A)
      → get_elem? xs j ≡ some x
      → (test (some x) ≡ true → test (some v) ≡ true)
      → test (get_elem? xs i) ≡ true
      → test (get_elem? (set xs j v) i) ≡ true
  get_elem?-set_keeps [] i j x v e keep h = h
  get_elem?-set_keeps (y ∷ xs) zero zero x v e keep h =
      keep (let same : y ≡ x = ground arith in subst (λ z. test (some z) ≡ true) same h)
  get_elem?-set_keeps (y ∷ xs) (suc i) zero x v e keep h = h
  get_elem?-set_keeps (y ∷ xs) zero (suc j) x v e keep h = h
  get_elem?-set_keeps (y ∷ xs) (suc i) (suc j) x v e keep h =
      get_elem?-set_keeps xs i j x v e keep h

  pub get_elem?-append_keeps :
      (xs ys : List A) (i : ℕ)
      → test none ≡ false
      → test (get_elem? xs i) ≡ true
      → test (get_elem? (xs ++ ys) i) ≡ true
  get_elem?-append_keeps [] ys i z h = cc
  get_elem?-append_keeps (x ∷ xs) ys zero z h = h
  get_elem?-append_keeps (x ∷ xs) ys (suc i) z h = get_elem?-append_keeps xs ys i z h

pub All-map {ℓ κ} :
    {A : Type ℓ} {P Q : A → Type κ} → ((x : A) → P x → Q x) → (xs : List A) → All P xs → All Q xs
All-map f [] h = tt
All-map f (x ∷ xs) h = (f x h.0, All-map f xs h.1)

pub All-without {ℓ κ} :
    {A : Type ℓ} (P : A → Type κ) (before : List A) (x : A) (after : List A)
    → All P (before ++ x ∷ after)
    → All P (before ++ after)
All-without P [] x after a = a.1
All-without P (y ∷ before) x after a = (a.0, All-without P before x after a.1)

pub All-at {ℓ κ} :
    {A : Type ℓ} (P : A → Type κ) (before : List A) (x : A) (after : List A)
    → All P (before ++ x ∷ after)
    → P x
All-at P [] x after a = a.0
All-at P (y ∷ before) x after a = All-at P before x after a.1
