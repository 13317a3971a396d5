-- ===== src/Server/Contract.antt =====
-- What the running process of app/ answers beside what the starter of starters/go answers.
use obsidio.Prelude.Text.{equal, equal_iff}
use obsidio.Prelude.{
  All, ℕ, Bool, ◌&&◌, arith, ◌≡◌, sym, ap, ◌∙◌, subst, inl, inr, true, false, List, Option, none,
  some, All-get, Bool-cases, get_elem?,
}
use obsidio.Prelude.Env.{Bytes, codes}
use obsidio.Kernel.Chain.{Sha256, starter_chain}
use obsidio.Prices.{Codec}
use obsidio.Prices.Start.{LogFile, init_price_wal-IsPrebuilt}
use obsidio.Prices.Query.{GetsPlain, has_semicolon}
use obsidio.Boot.Cgroup.{Numbers, Files}
use obsidio.Gate.System.Defs.{here}
use obsidio.Main.{Settings, Calibration, Booted, boot}
use obsidio.Main.Served.{booted, boot-booted}
use obsidio.App.{World}
use obsidio.Worker.Boot.{Machine, Setup, Timing}
use obsidio.Worker.Boot.Booted.{Trusted, boot_paths-PathsCorrect}
use obsidio.Starter.{Reply, handle}
use obsidio.Starter.Printed.{Quotes, IsPlain}
use obsidio.Starter.Contract.{AnswersChains, Keeps, dispatch-handle}
use obsidio.Server.{Exchange, Server, refusing, returning, Run, listening}
use obsidio.Server.Keeps.{Origin, posted, direct, returned, Run-Inv}

not_post_given : (a b : Bool) → (a && b) ≡ true → b ≡ false → ⊥
not_post_given a b h k = ground arith

module _ (J : Codec) (W : World J) (H : Sha256) where
  open W use {floats, base_prices, query_get, marshal_string}

  refusing-AnswersChains : AnswersChains J (refusing J W) H
  refusing-AnswersChains seed h x e = absurd cc

  returning-AnswersChains :
      (seed : Bytes) (o : Option Bytes)
      → ((h : Bytes) → o ≡ some h → h ≡ starter_chain H seed)
      → AnswersChains J (returning J W seed o) H
  returning-AnswersChains seed o fact seed' h x e = elim (Bool-cases (equal seed' seed)) [
    | inl same ↦ fact h (rw same at e) ∙ ap (starter_chain H) (sym ((equal_iff seed' seed).0 same))
    | inr other ↦ let bad : none ≡ some h = rw other at e in absurd cc
  ]

  module _ (quotes : Quotes marshal_string) (gets : GetsPlain (query_get (codes "symbol"))) where
    pub Origin-Keeps :
        (e : Exchange J) (reply : Reply (Codec.Price J))
        → Origin J W H e
        → equal e.request.method (codes "POST") ≡ false
        → has_semicolon e.request.query ≡ false
        → IsPlain (query_get (codes "symbol") e.request.query)
        → handle floats H query_get e.tables.prices base_prices e.request.path e.request.query
          ≡ some reply
        → Keeps J W H e.response reply e.request
    Origin-Keeps e reply (posted post) get single plain told = absurd (not_post_given _ _ post get)
    Origin-Keeps e reply (direct c wal body built same) get single plain told =
        subst (λ r. Keeps J W H r reply e.request) (sym same)
          (dispatch-handle J (refusing J W) H quotes gets e.request single plain _ body reply
            refusing-AnswersChains built get told)
    Origin-Keeps e reply (returned c wal body seed o built fact same) get single plain told =
        subst (λ r. Keeps J W H r reply e.request) (sym same)
          (dispatch-handle J (returning J W seed o) H quotes gets e.request single plain _ body
            reply (returning-AnswersChains seed o fact) built get told)

    module _ (N : Numbers (Codec.Price J)) (fields : Bytes → List Bytes)
        (trim_space : Bytes → Bytes) (env : Settings) (files : Files) (log : LogFile)
        (cal : Calibration) (m : Machine) (u : Setup) (t : Timing) where
      -- Where the responses of a run from the boot come from.
      pub boot-Origin :
          (b : Booted J) (s : Server J)
          → Trusted H m u
          → boot J H N fields trim_space base_prices env files log cal m u t ≡ some b
          → Run J W H b.paths (listening J b.process b.system) s
          → All (Origin J W H) s.exchanges
      boot-Origin b s trust boots run =
          let ((estimate, mask), same) =
            boot-booted J H N fields trim_space base_prices env files log cal m u t b boots in
          let c =
            booted J H N fields trim_space base_prices env files log cal m u t (estimate, mask) in
          let mine : Run J W H c.paths (listening J c.process c.system) s =
            subst (λ (d : Booted J). Run J W H d.paths (listening J d.process d.system) s)
              (sym same) run in
          let correct = boot_paths-PathsCorrect H trim_space m u t mask trust in
          let v = Run-Inv J W H c.paths _ _ _ _ correct mine (record {
            built = init_price_wal-IsPrebuilt J env.price_wal log base_prices;
            posts = tt;
            risk = tt;
            owns = tt;
            origins = tt;
            reached = here;
          }) in
          v.origins

      -- From the boot on, in every order of the steps of the handlers, of the requests parked in
      -- riskSubmit, of POST requests between their two critical sections, of the gate and of the
      -- digests that the workers send, each request that was answered, is no POST, has no semicolon
      -- in its query and names a symbol of plain text, got what a starter with the prices of that
      -- moment answers, the same status and a JSON object of the same names, strings and numbers in
      -- the order that the code of the starter names them, except that /risk may have been answered
      -- 503; if each kernel that passes its boot self-test is right, the pool gives 16 buffers of
      -- 64 bytes, net/url returns the value of a plain pair, and json.Marshal only puts quotes
      -- around plain text.
      pub boot-Keeps :
          (b : Booted J) (s : Server J) (k : ℕ) (e : Exchange J) (reply : Reply (Codec.Price J))
          → Trusted H m u
          → boot J H N fields trim_space base_prices env files log cal m u t ≡ some b
          → Run J W H b.paths (listening J b.process b.system) s
          → get_elem? s.exchanges k ≡ some e
          → equal e.request.method (codes "POST") ≡ false
          → has_semicolon e.request.query ≡ false
          → IsPlain (query_get (codes "symbol") e.request.query)
          → handle floats H query_get e.tables.prices base_prices e.request.path e.request.query
            ≡ some reply
          → Keeps J W H e.response reply e.request
      boot-Keeps b s k e reply trust boots run at_k get single plain told =
          let origins = boot-Origin b s trust boots run in
          Origin-Keeps e reply (All-get (Origin J W H) s.exchanges k e at_k origins) get single
            plain told
