-- ===== src/Server/Handled.antt =====
-- What the handlers leave of the tables and the log, for a request that is no POST of a price.
use obsidio.Prelude.Text.{equal}
use obsidio.Prelude.{
  ◌≡◌, refl, sym, subst, inl, inr, Bool, true, false, ◌&&◌, Option, none, some, Bool-cases, [],
  arith,
}
use obsidio.Prelude.Env.{Bytes, codes}
use obsidio.Prices.{Codec, Process, Response, handle_price_get}
use obsidio.Raw.{Request}
use obsidio.Raw.Serve.{dispatch}
use obsidio.App.{World, Wire, app, handle_price, handle_stats, risk_response}
use obsidio.Server.{Server, is_post, refusing, returning, handled, seed_of, process_of}
use obsidio.Server.Refines.{handled-returning}

module _ (J : Codec) (W : World J) where
  -- The tables and the log as they were.
  abbrev pub Kept : Process J → Process J → Type 0
  Kept x y = (x.tables ≡ y.tables) × (x.wal ≡ y.wal)

  price-Kept :
      (V : World J) (x : Process J) (req : Request) (body : Bytes)
      → equal req.method (codes "POST") ≡ false
      → Kept (handle_price J V x req body).0 x
  unfolding handle_price handle_price_get
  price-Kept V x req body get = rw get (refl, refl)

  stats-Kept :
      (V : World J) (x : Process J) (req : Request) (body : Bytes)
      → Kept (handle_stats J V x req body).0 x
  unfolding handle_stats
  stats-Kept V x req body = (refl, refl)

  not_post : (a b : Bool) → a ≡ true → (a && b) ≡ false → b ≡ false
  not_post a b h k = ground arith

  dispatch-Kept :
      (V : World J) (w : Wire J V) (req : Request) (body : Bytes)
      → equal req.path (codes "/risk") ≡ false
      → is_post req ≡ false
      → Kept (dispatch (app J V) w req body).0.process w.process
  unfolding dispatch
  dispatch-Kept V w req body other get = elim (Bool-cases (equal req.path (codes "/price"))) [
    | inl price ↦
        rw price
          (price-Kept V w.process req body (not_post _ (equal req.method (codes "POST")) price get))
    | inr p ↦ elim (Bool-cases (equal req.path (codes "/stats"))) [
      | inl stats ↦ rw (p, stats) (stats-Kept V w.process req body)
      | inr s ↦ elim (Bool-cases (equal req.path (codes "/health"))) [
        | inl health ↦ rw (p, s, other, health) (refl, refl)
        | inr h ↦ rw (p, s, other, h) (refl, refl)
      ]
    ]
  ]

  pub handled-Kept :
      (req : Request) (body : Bytes) (s : Server J)
      → equal req.path (codes "/risk") ≡ false
      → is_post req ≡ false
      → Kept (handled J W (refusing J W) req body s).0 (process_of J s)
  handled-Kept req body s other get =
      dispatch-Kept (refusing J W) (record { process = process_of J s; out = [] }) req body other
        get

  response-Kept :
      (V : World J) (seed : Bytes) (o : Option Bytes) (x : Process J)
      → Kept (risk_response J V seed (x, o)).0 x
  response-Kept V seed none x = (refl, refl)
  response-Kept V seed (some h) x = (refl, refl)

  pub returned-Kept :
      (req : Request) (body : Bytes) (o : Option Bytes) (s : Server J)
      → equal req.path (codes "/risk") ≡ true
      → Kept (handled J W (returning J W (seed_of J W req) o) req body s).0 (process_of J s)
  returned-Kept req body o s risk =
      subst (λ (r : Process J × Response). Kept r.0 (process_of J s))
        (sym (handled-returning J W req body o s risk))
        (response-Kept (returning J W (seed_of J W req) o) (seed_of J W req) o (process_of J s))
