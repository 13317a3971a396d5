-- ===== src/Starter.antt =====
-- The Go starter, starters/go/main.go: the contract that the engineered backend keeps. A reply is a
-- status and the fields of the JSON object; encoding/json writes it, and is not modelled here.
pub mod Printed
pub mod Contract
pub mod Samples
mod Tests
use obsidio.Prelude.Text.{equal, is_empty}
use obsidio.Prelude.{
  ℕ, zero, suc, ◌+◌, Bool, true, false, List, [], ◌∷◌, Option, none, some, if◌then◌else◌, length,
}
use obsidio.Prelude.Env.{Bytes, codes}
use obsidio.Kernel.Chain.{Sha256, starter_chain}
use obsidio.Prices.{Table}
use obsidio.App.{Floats}

pub data Field (Float : Type 0) : Type 0 where
  text : Bytes → Field Float
  number : Float → Field Float

pub record Reply (Float : Type 0) : Type 0 where
  pub code : ℕ
  pub fields : List (Bytes × Field Float)

module _ {Float : Type 0} (F : Floats Float) where
  open F use {of_nat, add, sub, mul, div, sin, sqrt, less}

  -- `arr[i] = base * (1 + math.Sin(float64(i))/50)`, for `n` points from `i` on.
  pub points : ℕ → ℕ → Float → List Float
  points zero i base = []
  points (suc n) i base =
      mul base (add (of_nat 1) (div (sin (of_nat i)) (of_nat 50))) ∷ points n (i + 1) base

  -- `prices[s]`.
  pub base_price : List (Bytes × Float) → Bytes → Option Float
  base_price [] s = none
  base_price ((k, p) ∷ prices) s = if equal k s then some p else base_price prices s

  -- `sum, mn, mx` after the loop over the values.
  pub sum_min_max : List Float → Float × Float × Float → Float × Float × Float
  sum_min_max [] acc = acc
  sum_min_max (v ∷ arr) (sum, mn, mx) =
      sum_min_max arr (add sum v, (if less v mn then v else mn), (if less mx v then v else mx))

  -- `varr += (v - mean) * (v - mean)`.
  pub variance : Float → List Float → Float → Float
  variance mean [] varr = varr
  variance mean (v ∷ arr) varr = variance mean arr (add varr (mul (sub v mean) (sub v mean)))

  abbrev pub unknown : Reply Float
  unknown = record { code = 404; fields = (codes "error", text (codes "unknown symbol")) ∷ [] }

  -- The handlers. `prices` is the map at the time of the request, `query_get` the value of a name in
  -- `r.URL.Query()`.
  abbrev pub price_reply : Bytes → Option Float → Reply Float
  price_reply s none = unknown
  price_reply s (some p) = record {
    code = 200;
    fields = (codes "symbol", text s) ∷ (codes "price", number p) ∷ [];
  }

  unfoldable pub stats_fields : Bytes → Float → List Float → List (Bytes × Field Float)
  stats_fields s first arr =
      let n = of_nat (length (first ∷ arr)) in
      let acc = sum_min_max (first ∷ arr) (of_nat 0, first, first) in
      let mean = div acc.0 n in
      let varr = variance mean (first ∷ arr) (of_nat 0) in
      (codes "symbol", text s)
      ∷ (codes "mean", number mean)
      ∷ (codes "min", number acc.1)
      ∷ (codes "max", number acc.2)
      ∷ (codes "stddev", number (sqrt (div varr n)))
      ∷ []

  -- `arr[0]` is the first of the 500 points.
  abbrev pub stats_reply : Bytes → Option Float → Reply Float
  stats_reply s none = unknown
  stats_reply s (some base) = record {
    code = 200;
    fields =
        stats_fields s (mul base (add (of_nat 1) (div (sin (of_nat 0)) (of_nat 50))))
          (points 499 1 base);
  }

  abbrev pub risk_reply : Sha256 → Bytes → Reply Float
  risk_reply H seed = record {
    code = 200;
    fields = (codes "seed", text seed) ∷ (codes "risk_hash", text (starter_chain H seed)) ∷ [];
  }

  -- The handler of a path; `none` is left to the mux.
  unfoldable pub handle :
      Sha256
      → (Bytes → Bytes → Bytes)
      → Table Float
      → List (Bytes × Float)
      → Bytes
      → Bytes
      → Option (Reply Float)
  unfolding equal base_price starter_chain stats_fields points
  handle H query_get prices base path query =
      if equal path (codes "/health")
      then some (record { code = 200; fields = (codes "status", text (codes "ok")) ∷ [] })
      else if equal path (codes "/price")
      then (let s = query_get (codes "symbol") query in some (price_reply s (prices s)))
      else if equal path (codes "/stats")
      then (let s = query_get (codes "symbol") query in some (stats_reply s (base_price base s)))
      else if equal path (codes "/risk")
      then (let seed = query_get (codes "seed") query in
          some (risk_reply H (if is_empty seed then codes "none" else seed)))
      else none
