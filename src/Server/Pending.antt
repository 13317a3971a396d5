-- ===== src/Server/Pending.antt =====
-- The requests of the running process that are inside: calls of `riskSubmit` are of /risk, and the entries
-- that are to be published are of POST requests.
use obsidio.Prelude.Text.{equal}
use obsidio.Prelude.{◌≡◌, refl, sym, Bool, true, false, ◌∷◌, ◌++◌, Option, All, All-without}
use obsidio.Prelude.Env.{Bytes, codes}
use obsidio.Kernel.Chain.{Sha256}
use obsidio.Prices.{Codec, append_wal}
use obsidio.Raw.{Request}
use obsidio.App.{World}
use obsidio.Worker.{Paths}
use obsidio.Server.{
  Call, Post, handle, reject, append, publish, arrive, answer, send_digest, inner, Server, Step,
  appended, is_post,
}

module _ (J : Codec) (W : World J) where
  pub appended-calls :
      (req : Request) (sym : Bytes) (v : Codec.Price J) (r : Option Bytes × Bool) (s : Server J)
      → (appended J req sym v r s).calls ≡ s.calls
  appended-calls req sym v (wal, true) s = refl
  appended-calls req sym v (wal, false) s = refl

  -- The calls are of requests for /risk.
  abbrev pub IsRisk : Call → Type 0
  IsRisk c = equal c.request.path (codes "/risk") ≡ true

  pub Step-IsRisk :
      {H : Sha256} {p : Paths} {s t : Server J}
      → Step J W H p s t
      → All IsRisk s.calls
      → All IsRisk t.calls
  Step-IsRisk (handle req body other get) a = a
  Step-IsRisk (reject req body post bad) a = a
  Step-IsRisk {s} (append req body sym v disk post ok) a =
      rw (appended-calls req sym v (append_wal J disk sym v s.wal) s) a
  Step-IsRisk (publish before after q e) a = a
  Step-IsRisk (arrive now req body risk) a = (risk, a)
  Step-IsRisk (answer before after c o e returned) a =
      let b : All IsRisk (before ++ c ∷ after) = rw e at a in All-without IsRisk before c after b
  Step-IsRisk (send_digest before after ids i k w h batch rest es later wk at few d m ran sent) a =
      a
  Step-IsRisk (inner i st) a = a

  -- The entries that are to be published are of POST requests.
  abbrev pub IsPost : Post J → Type 0
  IsPost q = is_post q.request ≡ true

  appended-IsPost :
      (req : Request) (sym : Bytes) (v : Codec.Price J) (r : Option Bytes × Bool) (s : Server J)
      → is_post req ≡ true
      → All IsPost s.posts
      → All IsPost (appended J req sym v r s).posts
  appended-IsPost req sym v (wal, true) s post a = (post, a)
  appended-IsPost req sym v (wal, false) s post a = a

  pub Step-IsPost :
      {H : Sha256} {p : Paths} {s t : Server J}
      → Step J W H p s t
      → All IsPost s.posts
      → All IsPost t.posts
  Step-IsPost (handle req body other get) a = a
  Step-IsPost (reject req body post bad) a = a
  Step-IsPost {s} (append req body sy pr disk post ok) a =
      appended-IsPost req sy pr (append_wal J disk sy pr s.wal) s post a
  Step-IsPost (publish before after q e) a = All-without IsPost before q after (rw e at a)
  Step-IsPost (arrive now req body risk) a = a
  Step-IsPost (answer before after c o e got) a = a
  Step-IsPost (send_digest before after ids i k w h batch rest es later wk at_i few d m ran sent)
        a =
      a
  Step-IsPost (inner i st) a = a
