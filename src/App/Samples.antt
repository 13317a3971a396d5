-- ===== src/App/Samples.antt =====
-- High and low as numbers, to run the model with.
use obsidio.Prelude.{◌≡◌, refl, Bool, true, false, not, ◌&&◌}
use obsidio.App.{Floats}

abbrev pub below : Bool → Bool → Bool
below a b = not a && b

pub below_irrefl : (a : Bool) → below a a ≡ false
below_irrefl true = refl
below_irrefl false = refl

pub below_trans : (a b c : Bool) → below a b ≡ true → below b c ≡ true → below a c ≡ true
below_trans true b c h k = cc
below_trans false true true h k = refl
below_trans false true false h k = cc
below_trans false false c h k = k

abbrev pub two_prices : Floats Bool
two_prices = record {
  of_nat = λ n. false;
  add = λ a b. a;
  sub = λ a b. a;
  mul = λ a b. a;
  div = λ a b. a;
  sin = λ a. a;
  sqrt = λ a. a;
  less = below;
  less_irrefl = below_irrefl;
  less_trans = below_trans;
}
