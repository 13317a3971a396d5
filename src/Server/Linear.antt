-- ===== src/Server/Linear.antt =====
-- The tables of the running process beside those of its requests, one after the other.
use obsidio.Prelude.{
  ◌≡◌, ◌⊎◌, refl, sym, ap, ◌∙◌, inl, inr, Bool, true, false, List, [], ◌∷◌, Option, All, All-at,
  arith,
}
use obsidio.Prelude.Env.{Bytes}
use obsidio.Kernel.Chain.{Sha256}
use obsidio.Prices.{
  Codec, Tables, Process, append_wal, store_price, build_price_resp, bad_request,
  persistence_failure,
}
use obsidio.Raw.{Request}
use obsidio.App.{World}
use obsidio.Worker.{Paths}
use obsidio.Gate.System.Defs.{System}
use obsidio.Server.{
  Exchange, Server, Step, Run, reject, append, publish, arrive, answer, send_digest, inner, start,
  next, listening, appended,
}
use obsidio.Server.Pending.{IsRisk, Step-IsRisk, IsPost, Step-IsPost}
use obsidio.Server.Handled.{handled-Kept, returned-Kept}
use obsidio.Server.Durable.{is_ack, not_ack, risk_path}

module _ (J : Codec) where
  open J use {Price}

  -- The tables behind the last of some exchanges, which are listed with the last one first.
  abbrev pub latest : Tables J → List (Exchange J) → Tables J
  latest t [] = t
  latest t (e ∷ es) = e.tables

  -- A request that leaves these tables as they are, or a POST that stored the price that its response has.
  abbrev pub Moves : Tables J → Exchange J → Type 0
  Moves t e =
      ((e.tables ≡ t) × (is_ack J e ≡ false))
      ⊎ ((s : Bytes) × (v : Price) × (e.tables ≡ store_price J s v t)
          × (e.response.body ≡ build_price_resp J s v)
          × (is_ack J e ≡ true))

  abbrev pub Chained : Tables J → List (Exchange J) → Type 0
  Chained t [] = Unit
  Chained t (e ∷ es) = Moves (latest t es) e × Chained t es

  record Linear (t : Tables J) (s : Server J) : Type 0 where
    ordered : Chained t s.exchanges
    now : s.tables ≡ latest t s.exchanges

  same-Linear :
      (t : Tables J) (s u : Server J)
      → u.tables ≡ s.tables
      → u.exchanges ≡ s.exchanges
      → Linear t s
      → Linear t u
  same-Linear t s u tables exchanges v = record {
    ordered = rw exchanges v.ordered;
    now = rw exchanges (tables ∙ v.now);
  }

  quiet-Linear :
      (t : Tables J) (s u : Server J) (e : Exchange J)
      → is_ack J e ≡ false
      → e.tables ≡ s.tables
      → u.tables ≡ s.tables
      → u.exchanges ≡ e ∷ s.exchanges
      → Linear t s
      → Linear t u
  quiet-Linear t s u e quiet mine tables exchanges v = record {
    ordered = rw exchanges (inl (mine ∙ v.now, quiet), v.ordered);
    now = rw exchanges (tables ∙ sym mine);
  }

  appended-Linear :
      (t : Tables J) (req : Request) (sy : Bytes) (v : Price) (r : Option Bytes × Bool)
      (s : Server J)
      → Linear t s
      → Linear t (appended J req sy v r s)
  appended-Linear t req sy v (wal, true) s l = same-Linear t s _ refl refl l
  appended-Linear t req sy v (wal, false) s l =
      quiet-Linear t s (appended J req sy v (wal, false) s)
        (record { request = req; tables = s.tables; response = persistence_failure J })
        (ground arith) refl refl refl l

  module _ (W : World J) where
    Step-Linear :
        {H : Sha256} {p : Paths} {s u : Server J} (t : Tables J)
        → Step J W H p s u
        → All (IsRisk J W) s.calls
        → All (IsPost J W) s.posts
        → Linear t s
        → Linear t u
    Step-Linear {s = s} {u = u} t (Step.handle req body other get) calls posts l =
        quiet-Linear t s u _ (not_ack J _ _ get) refl (handled-Kept J W req body s other get).0 refl
          l
    Step-Linear {s = s} {u = u} t (reject req body post bad) calls posts l =
        quiet-Linear t s u (record { request = req; tables = s.tables; response = bad_request J })
          (ground arith) refl refl refl l
    Step-Linear {s = s} t (append req body sy v disk post ok) calls posts l =
        appended-Linear t req sy v (append_wal J disk sy v s.wal) s l
    Step-Linear {s = s} t (publish before after q e) calls posts l =
        let post = All-at (IsPost J W) before q after (rw e at posts) in
        record {
          ordered = (
            inr (q.symbol, q.price, ap (store_price J q.symbol q.price) l.now, refl, rw post refl),
            l.ordered,
          );
          now = refl;
        }
    Step-Linear {s = s} {u = u} t (arrive now req body risk) calls posts l =
        same-Linear t s u refl refl l
    Step-Linear {s = s} {u = u} t (answer before after c o e got) calls posts l =
        let at_c = All-at (IsRisk J W) before c after (rw e at calls) in
        quiet-Linear t s u _ (not_ack J _ _ (risk_path J W c.request at_c)) refl
          (returned-Kept J W c.request c.body o s at_c).0 refl l
    Step-Linear {s = s} {u = u} t
          (send_digest before after ids i k w h batch rest es later wk at_i few d m ran sent) calls
          posts l =
        same-Linear t s u refl refl l
    Step-Linear {s = s} {u = u} t (inner i st) calls posts l = same-Linear t s u refl refl l

    Run-Linear :
        {H : Sha256} {p : Paths} {s u : Server J} (t : Tables J)
        → Run J W H p s u
        → All (IsRisk J W) s.calls
        → All (IsPost J W) s.posts
        → Linear t s
        → Linear t u × All (IsRisk J W) u.calls × All (IsPost J W) u.posts
    Run-Linear t start calls posts l = (l, calls, posts)
    Run-Linear t (next r st) calls posts l =
        let (m, risk, is_posts) = Run-Linear t r calls posts l in
        (Step-Linear t st risk is_posts m, Step-IsRisk J W st risk, Step-IsPost J W st is_posts)

    module _ (H : Sha256) (p : Paths) where
      -- The tables of the process, one request after the other.
      pub run-Chained :
          (x : Process J) (system : System) (s : Server J)
          → Run J W H p (listening J x system) s
          → Chained x.tables s.exchanges × (s.tables ≡ latest x.tables s.exchanges)
      run-Chained x system s run =
          let (l, _, _) = Run-Linear x.tables run tt tt (record { ordered = tt; now = refl }) in
          (l.ordered, l.now)
