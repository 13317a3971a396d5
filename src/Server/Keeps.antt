-- ===== src/Server/Keeps.antt =====
-- The answers of the running process beside those of the starter.
use obsidio.Prelude.{
  All-at, All-without, ℕ, ◌≡◌, refl, sym, ap, ◌∙◌, subst, Bool, true, false, List, [], ◌∷◌, ◌++◌,
  Option, some, All,
}
use obsidio.Prelude.Env.{Bytes}
use obsidio.Governor.{Counters}
use obsidio.Kernel.Chain.{Sha256, starter_chain}
use obsidio.Prices.{Codec, append_wal}
use obsidio.Prices.Prebuilt.{IsPrebuilt, store_price-IsPrebuilt}
use obsidio.Raw.{Request}
use obsidio.Raw.Serve.{dispatch}
use obsidio.App.{World, app}
use obsidio.Gate.{Entry, parked, shed}
use obsidio.Gate.System.Defs.{System, Reach, initial}
use obsidio.Gate.System.Digests.{served_digest}
use obsidio.Gate.System.Seeds.{HasSeed-waiter, EntrySeed, Reach-HasSeed, enter-EntrySeed}
use obsidio.Main.Served.{Reach-trans}
use obsidio.Worker.{Paths}
use obsidio.Worker.Batch.{PathsCorrect}
use obsidio.Server.{
  Exchange, Call, Server, Returned, is_post, refusing, returning, seed_of, appended, Step, Run,
  reject, append, publish, arrive, answer, send_digest, inner, start, next,
}
use obsidio.Server.Handled.{handled-Kept, returned-Kept}
use obsidio.Server.Pending.{IsRisk, IsPost, Step-IsPost, Step-IsRisk, appended-calls}
use obsidio.Server.Refines.{Step-Reach}

module _ (J : Codec) (W : World J) (H : Sha256) where
  -- Where the response of an exchange comes from: a POST of a price, or the handlers, with the digest of
  -- the request's seed if one was returned.
  pub data Origin (e : Exchange J) : Type 0 where
    posted : is_post e.request ≡ true → Origin e
    direct :
        (c : Counters) (wal : Option Bytes) (body : Bytes)
        → IsPrebuilt J e.tables
        → e.response
          ≡ (dispatch
              (app J (refusing J W))
              (record { process = record { tables = e.tables; wal = wal; counters = c }; out = [] })
              e.request
              body).1
        → Origin e
    returned :
        (c : Counters) (wal : Option Bytes) (body seed : Bytes) (o : Option Bytes)
        → IsPrebuilt J e.tables
        → ((h : Bytes) → o ≡ some h → h ≡ starter_chain H seed)
        → e.response
          ≡ (dispatch
              (app J (returning J W seed o))
              (record { process = record { tables = e.tables; wal = wal; counters = c }; out = [] })
              e.request
              body).1
        → Origin e

  abbrev OwnsSeed : System → Call → Type 0
  OwnsSeed s c = EntrySeed s.gate.heap (seed_of J W c.request) c.entry

  Reach-OwnsSeed :
      {chain : Bytes → Bytes} {s t : System} (calls : List Call)
      → Reach chain s t
      → All (OwnsSeed s) calls
      → All (OwnsSeed t) calls
  Reach-OwnsSeed [] r a = tt
  Reach-OwnsSeed {s = s} {t = t} (c ∷ calls) r a = (kept c.entry a.0, Reach-OwnsSeed calls r a.1)
    where
      kept :
          (entry : Entry)
          → EntrySeed s.gate.heap (seed_of J W c.request) entry
          → EntrySeed t.gate.heap (seed_of J W c.request) entry
      kept shed h = h
      kept (parked i) h = Reach-HasSeed (seed_of J W c.request) i r h

  module _ (p : Paths) (c0 : Counters) (budget patience slots : ℕ) where
    pub record Inv (s : Server J) : Type 0 where
      pub built : IsPrebuilt J s.tables
      pub posts : All (IsPost J W) s.posts
      pub risk : All (IsRisk J W) s.calls
      pub owns : All (OwnsSeed s.system) s.calls
      pub origins : All Origin s.exchanges
      pub reached : Reach (starter_chain H) (initial c0 budget patience slots) s.system

    -- The digest that a call returned.
    Returned-chain :
        (s : System) (entry : Entry) (seed h : Bytes)
        → Reach (starter_chain H) (initial c0 budget patience slots) s
        → EntrySeed s.gate.heap seed entry
        → Returned s.gate entry (some h)
        → h ≡ starter_chain H seed
    Returned-chain s shed seed h r own got = absurd got
    Returned-chain s (parked i) seed h r own (w, at_i, served) =
        let digest = served_digest c0 budget patience slots s r i w at_i h served in
        digest.0 ∙ ap (starter_chain H) (HasSeed-waiter s.gate.heap seed i w at_i own)

    appended-tables :
        (req : Request) (sym : Bytes) (v : Codec.Price J) (r : Option Bytes × Bool) (s : Server J)
        → (appended J req sym v r s).tables ≡ s.tables
    appended-tables req sym v (wal, true) s = refl
    appended-tables req sym v (wal, false) s = refl

    Step-built : {s t : Server J} → Step J W H p s t → Inv s → IsPrebuilt J t.tables
    Step-built {s} (Step.handle req body other get) v =
        subst (IsPrebuilt J) (sym ((handled-Kept J W req body s other get).0)) v.built
    Step-built (reject req body post bad) v = v.built
    Step-built {s} (append req body sy pr disk post ok) v =
        subst (IsPrebuilt J) (sym (appended-tables req sy pr (append_wal J disk sy pr s.wal) s))
          v.built
    Step-built {s} (publish before after q e) v =
        store_price-IsPrebuilt J q.symbol q.price s.tables v.built
    Step-built (arrive now req body risk) v = v.built
    Step-built {s} (answer before after c o e got) v =
        let at_c = All-at (IsRisk J W) before c after (rw e at v.risk) in
        subst (IsPrebuilt J) (sym ((returned-Kept J W c.request c.body o s at_c).0)) v.built
    Step-built (send_digest before after ids i k w h batch rest es later wk at_i few d m ran sent)
          v =
        v.built
    Step-built (inner i st) v = v.built

    appended-origins :
        (req : Request) (sym : Bytes) (v : Codec.Price J) (r : Option Bytes × Bool) (s : Server J)
        → is_post req ≡ true
        → All Origin s.exchanges
        → All Origin (appended J req sym v r s).exchanges
    appended-origins req sym v (wal, true) s post a = a
    appended-origins req sym v (wal, false) s post a = (posted post, a)

    Step-origins : {s t : Server J} → Step J W H p s t → Inv s → All Origin t.exchanges
    Step-origins {s} (Step.handle req body other get) v =
        (direct s.system.gate.counters s.wal body v.built refl, v.origins)
    Step-origins (reject req body post bad) v = (posted post, v.origins)
    Step-origins {s} (append req body sy pr disk post ok) v =
        appended-origins req sy pr (append_wal J disk sy pr s.wal) s post v.origins
    Step-origins (publish before after q e) v =
        (posted (All-at (IsPost J W) before q after (rw e at v.posts)), v.origins)
    Step-origins (arrive now req body risk) v = v.origins
    Step-origins {s} (answer before after c o e got) v =
        let own = All-at (OwnsSeed s.system) before c after (rw e at v.owns) in
        (
          returned s.system.gate.counters s.wal c.body (seed_of J W c.request) o v.built
              (λ h given.
                Returned-chain s.system c.entry (seed_of J W c.request) h v.reached own
                  (subst (Returned s.system.gate c.entry) given got))
              refl,
          v.origins,
        )
    Step-origins (send_digest before after ids i k w h batch rest es later wk at_i few d m ran sent)
          v =
        v.origins
    Step-origins (inner i st) v = v.origins

    Step-owns :
        {s t : Server J}
        → Step J W H p s t
        → Reach (starter_chain H) s.system t.system
        → All (OwnsSeed s.system) s.calls
        → All (OwnsSeed t.system) t.calls
    Step-owns {s} (Step.handle req body other get) r a = Reach-OwnsSeed s.calls r a
    Step-owns {s} (reject req body post bad) r a = Reach-OwnsSeed s.calls r a
    Step-owns {s} {t} (append req body sy pr disk post ok) r a =
        subst (All (OwnsSeed t.system))
          (sym (appended-calls J W req sy pr (append_wal J disk sy pr s.wal) s))
          (Reach-OwnsSeed s.calls r a)
    Step-owns {s} (publish before after q e) r a = Reach-OwnsSeed s.calls r a
    Step-owns {s} (arrive now req body risk) r a =
        (enter-EntrySeed now (seed_of J W req) s.system.gate, Reach-OwnsSeed s.calls r a)
    Step-owns {s} {t} (answer before after c o e got) r a =
        Reach-OwnsSeed (before ++ after) r
          (All-without (OwnsSeed s.system) before c after (rw e at a))
    Step-owns {s}
          (send_digest before after ids i k w h batch rest es later wk at_i few d m ran sent) r a =
        Reach-OwnsSeed s.calls r a
    Step-owns {s} (inner i st) r a = Reach-OwnsSeed s.calls r a

    Step-Inv : {s t : Server J} → PathsCorrect H p → Step J W H p s t → Inv s → Inv t
    Step-Inv correct st v =
        let r = Step-Reach J W H p correct v.risk st in
        record {
          built = Step-built st v;
          posts = Step-IsPost J W st v.posts;
          risk = Step-IsRisk J W st v.risk;
          owns = Step-owns st r v.owns;
          origins = Step-origins st v;
          reached = Reach-trans v.reached r;
        }

    pub Run-Inv : {s t : Server J} → PathsCorrect H p → Run J W H p s t → Inv s → Inv t
    Run-Inv correct start v = v
    Run-Inv correct (next r st) v = Step-Inv correct st (Run-Inv correct r v)
