-- ===== src/Server/Order.antt =====
-- The answers of the running process as those of one request at a time.
use obsidio.Prelude.Text.{equal}
use obsidio.Prelude.{
  ◌≡◌, ◌⊎◌, refl, subst, inl, inr, Bool, true, false, not, ◌&&◌, List, [], ◌∷◌, Option, none, some,
  All, All-map, and_true, arith,
}
use obsidio.Prelude.Env.{Bytes, codes}
use obsidio.Kernel.Chain.{Sha256}
use obsidio.Prices.{Codec, Tables, Response, store_price, build_price_resp}
use obsidio.Prices.Start.{LogFile}
use obsidio.Prices.Query.{GetsPlain, has_semicolon}
use obsidio.Boot.Cgroup.{Numbers, Files}
use obsidio.Main.{Settings, Calibration, Booted, boot}
use obsidio.Raw.{Request}
use obsidio.App.{World}
use obsidio.Worker.Boot.{Machine, Setup, Timing}
use obsidio.Worker.Boot.Booted.{Trusted}
use obsidio.Starter.{Reply, handle}
use obsidio.Starter.Printed.{Quotes, all_plain, all_plain-IsPlain}
use obsidio.Starter.Contract.{Keeps}
use obsidio.Server.{Exchange, Server, Run, listening}
use obsidio.Server.Keeps.{Origin}
use obsidio.Server.Durable.{is_ack}
use obsidio.Server.Linear.{Moves, Chained, latest, run-Chained}
use obsidio.Server.Contract.{Origin-Keeps, boot-Origin}

denied : (b : Bool) → not b ≡ true → b ≡ false
denied b h = ground arith

module _ (J : Codec) (W : World J) (H : Sha256) where
  open J use {Price}
  open W use {floats, base_prices, query_get, marshal_string}

  -- The requests that the starter is asked too: no POST, no semicolon, a symbol of plain text.
  abbrev pub is_asked : Request → Bool
  is_asked req =
      not (equal req.method (codes "POST"))
      && (not (has_semicolon req.query) && all_plain (query_get (codes "symbol") req.query))

  -- What the starter would answer, if it is asked and handles the path, is kept.
  abbrev pub Told : Bool → Option (Reply Price) → Response → Request → Type 0
  Told false o r req = Unit
  Told true none r req = Unit
  Told true (some reply) r req = Keeps J W H r reply req

  -- The response, beside a starter with the prices of these tables.
  abbrev pub Answers : Tables J → Exchange J → Type 0
  Answers t e =
      Told (is_asked e.request)
        (handle floats H query_get t.prices base_prices e.request.path e.request.query) e.response
        e.request

  -- One request that finds these tables: it is answered as the starter would answer, and the tables
  -- stay; or it is a POST that is answered with a success and the body of the price that it stores.
  abbrev pub Serves : Tables J → Exchange J → Type 0
  Serves t e =
      ((e.tables ≡ t) × (is_ack J e ≡ false) × Answers t e)
      ⊎ ((s : Bytes) × (v : Price) × (e.tables ≡ store_price J s v t)
          × (e.response.body ≡ build_price_resp J s v)
          × (is_ack J e ≡ true))

  abbrev pub InOrder : Tables J → List (Exchange J) → Type 0
  InOrder t [] = Unit
  InOrder t (e ∷ es) = Serves (latest J t es) e × InOrder t es

  Moves-Serves : (t : Tables J) (e : Exchange J) → Moves J t e → Answers e.tables e → Serves t e
  Moves-Serves t e (inl (same, quiet)) a = inl (same, quiet, subst (λ u. Answers u e) same a)
  Moves-Serves t e (inr stored) a = inr stored

  Chained-InOrder :
      (t : Tables J) (es : List (Exchange J))
      → Chained J t es
      → All (λ e. Answers e.tables e) es
      → InOrder t es
  Chained-InOrder t [] c a = tt
  Chained-InOrder t (e ∷ es) c a =
      (Moves-Serves (latest J t es) e c.0 a.0, Chained-InOrder t es c.1 a.1)

  module _ (quotes : Quotes marshal_string) (gets : GetsPlain (query_get (codes "symbol"))) where
    Origin-Answers : (e : Exchange J) → Origin J W H e → Answers e.tables e
    Origin-Answers e o =
        told (is_asked e.request)
          (handle floats H query_get e.tables.prices base_prices e.request.path e.request.query)
          refl refl
      where
        told :
            (b : Bool) (r : Option (Reply Price))
            → is_asked e.request ≡ b
            → handle floats H query_get e.tables.prices base_prices e.request.path e.request.query
              ≡ r
            → Told b r e.response e.request
        told false r asked said = tt
        told true none asked said = tt
        told true (some reply) asked said =
            let (get, more_) = and_true (not (equal e.request.method (codes "POST"))) _ asked in
            let (single, plain) = and_true (not (has_semicolon e.request.query)) _ more_ in
            Origin-Keeps J W H quotes gets e reply o (denied _ get) (denied _ single)
              (all_plain-IsPlain (query_get (codes "symbol") e.request.query) plain) said

    module _ (N : Numbers Price) (fields : Bytes → List Bytes) (trim_space : Bytes → Bytes)
        (env : Settings) (files : Files) (log : LogFile) (cal : Calibration) (m : Machine)
        (u : Setup) (t : Timing) where
      -- From the boot on and in every order of the steps, the requests, in the order in which they
      -- were answered, are a run of one request at a time from the tables of the boot: each finds
      -- the tables that the one before it left, and either leaves them and is answered as a starter
      -- with the prices of these tables answers, or by a 503 on /risk, if it is no POST, has no
      -- semicolon in its query, names a symbol of plain text and has a path of the starter, or is a
      -- POST that is answered with a success and the body of a symbol and a price, which it stores;
      -- and the tables of the process are those behind the last one; with the conditions on the
      -- kernels, net/url and json.Marshal under which the process keeps the contract of the
      -- starter: each kernel that passes its boot self-test is right, the pool gives 16 buffers of
      -- 64 bytes, a plain pair gets its value, and plain text only gets quotes.
      pub answers-InOrder :
          (b : Booted J) (s : Server J)
          → Trusted H m u
          → boot J H N fields trim_space base_prices env files log cal m u t ≡ some b
          → Run J W H b.paths (listening J b.process b.system) s
          → InOrder b.process.tables s.exchanges
            × (s.tables ≡ latest J b.process.tables s.exchanges)
      answers-InOrder b s trust boots run =
          let (chained, now) = run-Chained J W H b.paths b.process b.system s run in
          let origins =
            boot-Origin J W H quotes gets N fields trim_space env files log cal m u t b s trust
              boots run in
          (
            Chained-InOrder b.process.tables s.exchanges chained
                (All-map Origin-Answers s.exchanges origins),
            now,
          )
