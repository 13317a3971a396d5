-- ===== src/App.antt =====
-- The handlers of app/main.go in front of the components: `handlePrice`, `handleStats` and `handleRisk`,
-- and the connection that app/rawserver.go serves with them. Floating-point numbers, net/url,
-- json.Marshal, what the gate answers, the disk and `c.Write` are parameters.
pub mod Extremes
pub mod Counted
pub mod Pipeline
pub mod Samples
mod Tests
use obsidio.Prelude.Text.{equal, is_empty}
use obsidio.Prelude.{
  ℕ, zero, suc, ◌+◌, ◌≡◌, Bool, true, false, List, [], ◌∷◌, ◌++◌, Option, none, some, if◌then◌else◌,
  length,
}
use obsidio.Prelude.Env.{Bytes, codes}
use obsidio.Prices.{
  Codec, Table, insert, Disk, Response, Process, write_json, not_found, handle_price_post,
  handle_price_get,
}
use obsidio.Prices.Query.{symbol_param}
use obsidio.Raw.{Request}
use obsidio.Raw.Write.{write_response}
use obsidio.Raw.Serve.{Server}

-- The operations of float64, on the type of prices; `<` is a strict order, with NaN too.
pub record Floats (Float : Type 0) : Type 0 where
  pub of_nat : ℕ → Float
  pub add : Float → Float → Float
  pub sub : Float → Float → Float
  pub mul : Float → Float → Float
  pub div : Float → Float → Float
  pub sin : Float → Float
  pub sqrt : Float → Float
  pub less : Float → Float → Bool
  pub less_irrefl : (a : Float) → less a a ≡ false
  pub less_trans : (a b c : Float) → less a b ≡ true → less b c ≡ true → less a c ≡ true

module _ {Float : Type 0} (F : Floats Float) where
  open F use {of_nat, add, sub, mul, div, sin, sqrt, less}

  -- `init` on one base price, the points from index `i` on.
  unfoldable pub series_from : ℕ → ℕ → Float → List Float
  series_from zero i base = []
  series_from (suc n) i base =
      mul base (add (of_nat 1) (div (sin (of_nat i)) (of_nat 50))) ∷ series_from n (i + 1) base

  -- The 500 points, of which `arr[0]` is there.
  abbrev pub point_series : Float → Float × List Float
  point_series base =
      (mul base (add (of_nat 1) (div (sin (of_nat 0)) (of_nat 50))), series_from 499 1 base)

  unfoldable pub init_series : List (Bytes × Float) → Table (Float × List Float)
  unfolding equal series_from
  init_series [] s = none
  init_series ((sym, base) ∷ prices) s = insert sym (point_series base) (init_series prices) s

  -- `sum`, `mn` and `mx`.
  pub record Scan : Type 0 where
    pub sum : Float
    pub mn : Float
    pub mx : Float

  abbrev pub scan_one : Float → Scan → Scan
  scan_one v s = record {
    sum = add s.sum v;
    mn = if less v s.mn then v else s.mn;
    mx = if less s.mx v then v else s.mx;
  }

  unfoldable pub scan : List Float → Scan → Scan
  scan [] s = s
  scan (v ∷ arr) s = scan arr (scan_one v s)

  -- The loop over `d * d`.
  unfoldable pub squares : Float → List Float → Float → Float
  squares mean [] varr = varr
  squares mean (v ∷ arr) varr = let d = sub v mean in squares mean arr (add varr (mul d d))

  pub record Stats : Type 0 where
    pub mean : Float
    pub min : Float
    pub max : Float
    pub stddev : Float

  -- The numbers of a series that starts with `first`.
  unfoldable pub stats_of : Float → List Float → Stats
  stats_of first arr =
      let s = scan (first ∷ arr) (record { sum = of_nat 0; mn = first; mx = first }) in
      let n = of_nat (length (first ∷ arr)) in
      let mean = div s.sum n in
      record {
        mean = mean;
        min = s.mn;
        max = s.mx;
        stddev = sqrt (div (squares mean (first ∷ arr) (of_nat 0)) n);
      }

-- What the handlers call: float64, r.URL.Query().Get of a name and a raw query, and json.Marshal of a
-- string; and around them the outcome of the next append to the log, what riskSubmit answers, `none`
-- where it sheds, http.StatusText, and what is on the wire after `c.Write` and whether it succeeded.
pub record World (J : Codec) : Type 0 where
  pub floats : Floats (Codec.Price J)
  pub base_prices : List (Bytes × Codec.Price J)
  pub query_get : Bytes → Bytes → Bytes
  pub marshal_string : Bytes → Bytes
  pub disk : Process J → Disk
  pub risk_submit : Bytes → Process J → Process J × Option Bytes
  pub status_text : ℕ → Bytes
  pub write : Bytes → Bytes → Bytes × Bool

module _ (J : Codec) (W : World J) where
  open J use {Price, format_float}
  open W use {floats, base_prices, query_get, marshal_string, disk, risk_submit, status_text, write}

  -- `handlePrice`.
  unfoldable pub handle_price : Process J → Request → Bytes → Process J × Response
  unfolding equal handle_price_post handle_price_get symbol_param
  handle_price x req body =
      if equal req.method (codes "POST")
      then handle_price_post J (disk x) body x
      else handle_price_get J (symbol_param (query_get (codes "symbol")) req.query) x

  abbrev pub stats_body : Bytes → Stats floats → Bytes
  stats_body sym s =
      codes "{\"symbol\":\""
      ++ (sym
          ++ (codes "\",\"mean\":"
              ++ (format_float s.mean
                  ++ (codes ",\"min\":"
                      ++ (format_float s.min
                          ++ (codes ",\"max\":"
                              ++ (format_float s.max
                                  ++ (codes ",\"stddev\":"
                                      ++ (format_float s.stddev ++ codes "}")))))))))

  abbrev pub stats_response : Bytes → Option (Price × List Price) → Response
  stats_response sym none = not_found J
  stats_response sym (some (first, arr)) = record {
    code = 200;
    body = stats_body sym (stats_of floats first arr);
  }

  -- `handleStats`.
  unfoldable pub handle_stats : Process J → Request → Bytes → Process J × Response
  unfolding symbol_param init_series stats_of
  handle_stats x req body =
      let sym = symbol_param (query_get (codes "symbol")) req.query in
      write_json J (stats_response sym (init_series floats base_prices sym)) x

  abbrev pub overloaded : Response
  overloaded = record { code = 503; body = codes "{\"error\":\"overloaded, try again\"}" }

  abbrev pub risk_seed : Bytes → Bytes
  risk_seed query =
      let seed = query_get (codes "seed") query in if is_empty seed then codes "none" else seed

  abbrev pub risk_body : Bytes → Bytes → Bytes
  risk_body seed h =
      codes "{\"seed\":"
      ++ (marshal_string seed ++ (codes ",\"risk_hash\":\"" ++ (h ++ codes "\"}")))

  -- Every refusal was charged by the gate, so it is not counted here.
  abbrev pub risk_response : Bytes → Process J × Option Bytes → Process J × Response
  risk_response seed (x, none) = (x, overloaded)
  risk_response seed (x, some h) = write_json J (record { code = 200; body = risk_body seed h }) x

  -- `handleRisk`.
  unfoldable pub handle_risk : Process J → Request → Bytes → Process J × Response
  handle_risk x req body = let seed = risk_seed req.query in risk_response seed (risk_submit seed x)

  -- The process and what a connection has on its wire.
  pub record Wire : Type 0 where
    pub process : Process J
    pub out : Bytes

  abbrev pub on_wire :
      (Process J → Request → Bytes → Process J × Response)
      → Wire
      → Request
      → Bytes
      → Wire × Response
  on_wire handle w req body =
      let (x, r) = handle w.process req body in (record w { process = x }, r)

  -- A connection of the process, before the response of a request is written. The code counts a
  -- response behind its write; nothing is between the two.
  abbrev pub app : Server
  app = record {
    State = Wire;
    handle_price = on_wire handle_price;
    handle_stats = on_wire handle_stats;
    handle_risk = on_wire handle_risk;
    write_json = λ w r. let (x, r') = write_json J r w.process in (record w { process = x }, r');
    respond = λ w close_after r.
        let (out, sent) = write w.out (write_response status_text close_after r.code r.body) in
        (record w { out = out }, sent);
  }
