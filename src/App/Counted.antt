-- ===== src/App/Counted.antt =====
-- Every response is counted once.
use obsidio.Prelude.{
  ◌≡◌, ap, is_some, refl, inl, inr, Option, none, some, Bool-cases, if◌then◌else◌,
}
use obsidio.Prelude.Env.{Bytes, codes}
use obsidio.Prelude.Text.{equal, is_empty}
use obsidio.Governor.{count_response, charge}
use obsidio.Prices.{
  Codec, Process, Response, Disk, handle_price_post, handle_price_get, post_decoded, accept_price,
  append_wal,
}
use obsidio.Raw.{Request}
use obsidio.Raw.Serve.{dispatch}
use obsidio.App.{
  World, Wire, app, handle_price, handle_stats, handle_risk, risk_seed, risk_response,
}

module _ (J : Codec) (W : World J) where
  -- The handler has counted the response that it hands over.
  abbrev Counts : Process J → Process J × Response → Type 0
  Counts x (x', r) = x'.counters ≡ count_response r.code x.counters

  -- The gate charges an error for a request that it refuses, and nothing for one that it answers.
  abbrev pub Charges : Type 0
  Charges =
      (seed : Bytes) (x : Process J)
      → (World.risk_submit W seed x).0.counters
        ≡ (if is_some (World.risk_submit W seed x).1 then x.counters else charge x.counters)

  accept_price-Counts :
      (disk : Disk) (s : Bytes) (p : Codec.Price J) (x : Process J)
      → Counts x (accept_price J disk s p x)
  unfolding accept_price
  accept_price-Counts disk s p x = elim (Bool-cases (append_wal J disk s p x.wal).1) [
    | inl durable ↦ rw durable refl
    | inr failed ↦ rw failed refl
  ]

  post-Counts :
      (disk : Disk) (body : Bytes) (x : Process J) → Counts x (handle_price_post J disk body x)
  unfolding handle_price_post
  post-Counts disk body x = decoded (Codec.decode J body)
    where
      decoded : (o : Option (Bytes × Option (Codec.Price J))) → Counts x (post_decoded J disk o x)
      decoded none = refl
      decoded (some (s, none)) = refl
      decoded (some (s, some p)) = elim (Bool-cases (is_empty s)) [
        | inl e ↦ rw e refl
        | inr e ↦ rw e (accept_price-Counts disk s p x)
      ]

  price-Counts :
      (req : Request) (body : Bytes) (x : Process J) → Counts x (handle_price J W x req body)
  unfolding handle_price handle_price_get
  price-Counts req body x = elim (Bool-cases (equal req.method (codes "POST"))) [
    | inl e ↦ rw e (post-Counts (World.disk W x) body x)
    | inr e ↦ rw e refl
  ]

  stats-Counts :
      (req : Request) (body : Bytes) (x : Process J) → Counts x (handle_stats J W x req body)
  unfolding handle_stats
  stats-Counts req body x = refl

  response-Counts :
      (seed : Bytes) (x x' : Process J) (o : Option Bytes)
      → x'.counters ≡ (if is_some o then x.counters else charge x.counters)
      → Counts x (risk_response J W seed (x', o))
  unfolding count_response
  response-Counts seed x x' none h = h
  response-Counts seed x x' (some d) h = ap (count_response 200) h

  risk-Counts :
      Charges
      → (req : Request) (body : Bytes) (x : Process J) → Counts x (handle_risk J W x req body)
  unfolding handle_risk
  risk-Counts gate req body x =
      let seed = risk_seed J W req.query in response-Counts seed x _ _ (gate seed x)

  -- If the gate charges one error for each request that it refuses and nothing for one that it
  -- answers, then for every request on any path the counters behind its handler are those before it
  -- with the response counted once, by its code.
  pub dispatch-counted :
      (w : Wire J W) (req : Request) (body : Bytes)
      → Charges
      → (dispatch (app J W) w req body).0.process.counters
        ≡ count_response (dispatch (app J W) w req body).1.code w.process.counters
  unfolding dispatch
  dispatch-counted w req body gate = elim (Bool-cases (equal req.path (codes "/price"))) [
    | inl price ↦ rw price (price-Counts req body w.process)
    | inr p ↦ elim (Bool-cases (equal req.path (codes "/stats"))) [
      | inl stats ↦ rw (p, stats) (stats-Counts req body w.process)
      | inr s ↦ elim (Bool-cases (equal req.path (codes "/risk"))) [
        | inl risk ↦ rw (p, s, risk) (risk-Counts gate req body w.process)
        | inr r ↦ elim (Bool-cases (equal req.path (codes "/health"))) [
          | inl health ↦ rw (p, s, r, health) refl
          | inr h ↦ rw (p, s, r, h) refl
        ]
      ]
    ]
  ]
