-- ===== src/Starter/Contract.antt =====
-- The backend of app/main.go and app/rawserver.go beside the starter, path by path.
use obsidio.Prelude.Text.{equal, equal_iff}
use obsidio.Prelude.{
  ℕ, zero, suc, ◌+◌, ◌≡◌, ◌⊎◌, refl, subst, ap, ◌∙◌, inl, inr, true, false, List, [], ◌∷◌, Option,
  none, some, Bool-cases, append_assoc,
}
use obsidio.Prelude.Env.{Bytes, codes}
use obsidio.Kernel.Chain.{Sha256, starter_chain}
use obsidio.Prices.{Codec, Process, Response, handle_price_get, build_price_resp, found, not_found}
use obsidio.Prices.Query.{GetsPlain, has_semicolon, symbol_param_lem}
use obsidio.Prices.Prebuilt.{IsPrebuilt, body_of}
use obsidio.Raw.{Request}
use obsidio.Raw.Serve.{dispatch, health_body}
use obsidio.App.{
  Floats, World, Wire, app, Scan, scan_one, scan, squares, stats_of, series_from, point_series,
  init_series, stats_response, handle_price, handle_stats, handle_risk, risk_seed, risk_response,
  risk_body, overloaded,
}
use obsidio.Starter.{
  unknown, text, number, Reply, points, base_price, sum_min_max, variance, price_reply,
  stats_fields, stats_reply, risk_reply, handle,
}
use obsidio.Starter.Printed.{
  print_reply, all_plain, all_plain-IsPlain, IsPlain, Quotes, starter_chain-IsPlain,
}

module _ {Float : Type 0} (F : Floats Float) where
  open F use {of_nat, div, add}

  -- The numbers of `handleStats`, which keeps `d` apart and its bounds in a record.
  scan-sum_min_max :
      (arr : List Float) (s : Scan F)
      → sum_min_max F arr (s.sum, s.mn, s.mx)
        ≡ ((scan F arr s).sum, (scan F arr s).mn, (scan F arr s).mx)
  unfolding scan sum_min_max
  scan-sum_min_max [] s = refl
  scan-sum_min_max (v ∷ arr) s = scan-sum_min_max arr (scan_one F v s)

  squares-variance :
      (mean : Float) (arr : List Float) (varr : Float)
      → squares F mean arr varr ≡ variance F mean arr varr
  unfolding squares variance
  squares-variance mean [] varr = refl
  squares-variance mean (v ∷ arr) varr = squares-variance mean arr _

  series_from-points : (n i : ℕ) (base : Float) → series_from F n i base ≡ points F n i base
  unfolding series_from points
  series_from-points zero i base = refl
  series_from-points (suc n) i base =
      ap
        (λ (ps : List Float). F.mul base (add (of_nat 1) (div (F.sin (of_nat i)) (of_nat 50))) ∷ ps)
        (series_from-points n (i + 1) base)

  -- The 500 points of a symbol, by its base price.
  abbrev series_of : Option Float → Option (Float × List Float)
  series_of none = none
  series_of (some base) = some (point_series F base)

  init_series-base_price :
      (base : List (Bytes × Float)) (s : Bytes)
      → init_series F base s ≡ series_of (base_price F base s)
  unfolding init_series base_price
  init_series-base_price [] s = refl
  init_series-base_price ((k, p) ∷ base) s = elim (Bool-cases (equal k s)) [
    | inl same ↦ rw same refl
    | inr other ↦ rw other (init_series-base_price base s)
  ]

  stats_fields-stats_of :
      (s : Bytes) (first : Float) (arr : List Float)
      → stats_fields F s first arr
        ≡ (codes "symbol", text s)
          ∷ (codes "mean", number (stats_of F first arr).mean)
          ∷ (codes "min", number (stats_of F first arr).min)
          ∷ (codes "max", number (stats_of F first arr).max)
          ∷ (codes "stddev", number (stats_of F first arr).stddev)
          ∷ []
  unfolding stats_fields stats_of
  stats_fields-stats_of s first arr =
      let start : Scan F = record { sum = of_nat 0; mn = first; mx = first } in
      rw (scan-sum_min_max (first ∷ arr) start, squares-variance _ (first ∷ arr) (of_nat 0)) refl

pub other_path : (p a b : Bytes) → equal p a ≡ true → equal a b ≡ false → equal p b ≡ false
other_path p a b h k = ap (λ q. equal q b) ((equal_iff p a).0 h) ∙ k

nothing_given {ℓ} : {A : Type ℓ} {x : A} → none ≡ some x → ⊥
nothing_given h = cc

given {ℓ} : {A : Type ℓ} {x y : A} → some x ≡ some y → x ≡ y
given h = cc

module _ (J : Codec) (W : World J) (H : Sha256) where
  open J use {Price, format_float}
  open W use {floats, base_prices, query_get, marshal_string, risk_submit}

  abbrev pub printed : Reply Price → Response
  printed = print_reply marshal_string format_float

  -- What the gate answers is the starter's chain, where it answers.
  abbrev pub AnswersChains : Type 0
  AnswersChains =
      (seed h : Bytes) (x : Process J) → (risk_submit seed x).1 ≡ some h → h ≡ starter_chain H seed

  abbrev pub Keeps : Response → Reply Price → Request → Type 0
  Keeps r reply req =
      (r ≡ printed reply) ⊎ ((r ≡ overloaded J W) × (equal req.path (codes "/risk") ≡ true))

  module _ (quotes : Quotes marshal_string) where
    unknown-printed : not_found J ≡ printed (unknown floats)
    unfolding all_plain
    unknown-printed =
        rw (quotes (codes "unknown symbol") (all_plain-IsPlain (codes "unknown symbol") refl)) refl

    ok-printed :
        health_body
        ≡ printed (record { code = 200; fields = (codes "status", text (codes "ok")) ∷ [] })
    unfolding all_plain
    ok-printed = rw (quotes (codes "ok") (all_plain-IsPlain (codes "ok") refl)) refl

    price_reply-printed :
        (s : Bytes) (o : Option Price)
        → IsPlain s
        → found J (body_of J s o) ≡ printed (price_reply floats s o)
    unfolding build_price_resp
    price_reply-printed s none p = unknown-printed
    price_reply-printed s (some v) p = rw (quotes s p) (simp append_assoc)

    stats_reply-printed :
        (s : Bytes) (o : Option Price)
        → IsPlain s
        → stats_response J W s (series_of floats o) ≡ printed (stats_reply floats s o)
    stats_reply-printed s none p = unknown-printed
    stats_reply-printed s (some v) p =
        rw
          (
            stats_fields-stats_of floats s _ (points floats 499 1 v),
            quotes s p,
            series_from-points floats 499 1 v,
          )
          (simp append_assoc)

    risk_reply-printed :
        (seed : Bytes)
        → record { code = 200; body = risk_body J W seed (starter_chain H seed) }
          ≡ printed (risk_reply floats H seed)
    risk_reply-printed seed =
        rw (quotes (starter_chain H seed) (starter_chain-IsPlain H seed)) (simp append_assoc)

    submitted-Keeps :
        (req : Request) (seed : Bytes) (r : Process J × Option Bytes)
        → ((h : Bytes) → r.1 ≡ some h → h ≡ starter_chain H seed)
        → equal req.path (codes "/risk") ≡ true
        → Keeps (risk_response J W seed r).1 (risk_reply floats H seed) req
    submitted-Keeps req seed (x, none) gate path = inr (refl, path)
    submitted-Keeps req seed (x, some h) gate path = inl (
        ap (λ d. record { code = 200; body = risk_body J W seed d }) (gate h refl)
        ∙ risk_reply-printed seed)

    risk-Keeps :
        (req : Request) (x : Process J) (body : Bytes)
        → AnswersChains
        → equal req.path (codes "/risk") ≡ true
        → Keeps (handle_risk J W x req body).1 (risk_reply floats H (risk_seed J W req.query)) req
    unfolding handle_risk
    risk-Keeps req x body gate path =
        let seed = risk_seed J W req.query in
        submitted-Keeps req seed (risk_submit seed x) (λ h e. gate seed h x e) path

    module _ (gets : GetsPlain (query_get (codes "symbol"))) (req : Request)
        (plain_query : has_semicolon req.query ≡ false)
        (plain : IsPlain (query_get (codes "symbol") req.query)) where
      price-printed :
          (x : Process J) (body : Bytes)
          → IsPrebuilt J x.tables
          → equal req.method (codes "POST") ≡ false
          → (handle_price J W x req body).1
            ≡ printed (
                price_reply floats
                  (query_get (codes "symbol") req.query)
                  (x.tables.prices (query_get (codes "symbol") req.query)))
      unfolding handle_price handle_price_get
      price-printed x body built get =
          rw (get, symbol_param_lem (query_get (codes "symbol")) req.query gets plain_query)
            (ap (found J) (built (query_get (codes "symbol") req.query))
              ∙ price_reply-printed (query_get (codes "symbol") req.query) _ plain)

      stats-printed :
          (x : Process J) (body : Bytes)
          → (handle_stats J W x req body).1
            ≡ printed (
                stats_reply floats
                  (query_get (codes "symbol") req.query)
                  (base_price floats base_prices (query_get (codes "symbol") req.query)))
      unfolding handle_stats
      stats-printed x body =
          rw
            (
              symbol_param_lem (query_get (codes "symbol")) req.query gets plain_query,
              init_series-base_price floats base_prices (query_get (codes "symbol") req.query),
            )
            (stats_reply-printed (query_get (codes "symbol") req.query) _ plain)

      -- Beside a starter with the prices of the process, on every path that the starter handles, in
      -- a request that is no POST, whose query has no semicolon and whose symbol is plain text, the
      -- server answers with the status of the starter and a JSON object of the same names, strings
      -- and numbers, in the order that the code of the starter names them, except that /risk may be
      -- answered 503; if what the gate answers is the starter chain, the prebuilt bodies are in
      -- step with the prices, net/url returns the value of a plain pair, and json.Marshal only puts
      -- quotes around plain text.
      pub dispatch-handle :
          (w : Wire J W) (body : Bytes) (reply : Reply Price)
          → AnswersChains
          → IsPrebuilt J w.process.tables
          → equal req.method (codes "POST") ≡ false
          → handle floats H query_get w.process.tables.prices base_prices req.path req.query
            ≡ some reply
          → Keeps (dispatch (app J W) w req body).1 reply req
      unfolding dispatch handle
      dispatch-handle w body reply gate built get e =
          elim (Bool-cases (equal req.path (codes "/health"))) [
            | inl health ↦
                let not_price =
                  other_path req.path (codes "/health") (codes "/price") health refl in
                let not_stats =
                  other_path req.path (codes "/health") (codes "/stats") health refl in
                let not_risk = other_path req.path (codes "/health") (codes "/risk") health refl in
                rw (not_price, not_stats, not_risk, health)
                  (inl (ok-printed ∙ ap printed (given (rw health at e))))
            | inr not_health ↦ elim (Bool-cases (equal req.path (codes "/price"))) [
              | inl price ↦ rw price (
                  inl (
                    price-printed w.process body built get
                    ∙ ap printed (given (rw (not_health, price) at e))))
              | inr not_price ↦ elim (Bool-cases (equal req.path (codes "/stats"))) [
                | inl stats ↦
                    rw (not_price, stats)
                      (inl (
                        stats-printed w.process body
                        ∙ ap printed (given (rw (not_health, not_price, stats) at e))))
                | inr not_stats ↦ elim (Bool-cases (equal req.path (codes "/risk"))) [
                  | inl risk ↦
                      let kept : Keeps (handle_risk J W w.process req body).1 reply req =
                        subst (λ r. Keeps (handle_risk J W w.process req body).1 r req)
                          (given (rw (not_health, not_price, not_stats, risk) at e))
                          (risk-Keeps req w.process body gate risk) in
                      rw (not_price, not_stats, risk) (rw risk at kept)
                  | inr not_risk ↦
                      absurd (nothing_given (rw (not_health, not_price, not_stats, not_risk) at e))
                ]
              ]
            ]
          ]
