-- ===== src/Server/Durable.antt =====
-- The log of the running process: what a POST that was answered 200 left in it.
use obsidio.Prelude.Text.{equal}
use obsidio.Prelude.{
  ℕ, ◌≡◌, ◌⊎◌, refl, sym, ap, subst, ◌∙◌, inl, inr, Bool, true, false, ◌&&◌, [], ◌∷◌, ◌++◌, Option,
  none, some, All, All-at, All-without, All-map, All-get, append-nil, append_assoc, get_elem?, ltb,
  arith, take,
}
use obsidio.Prelude.Env.{Bytes, codes}
use obsidio.Kernel.Chain.{Sha256}
use obsidio.Prices.{
  Codec, Process, Disk, fine, write_fails, sync_fails, append_wal, line_of, build_price_resp,
  bad_request, persistence_failure,
}
use obsidio.Raw.{Request}
use obsidio.App.{World}
use obsidio.Worker.{Paths}
use obsidio.Gate.System.Defs.{System}
use obsidio.Starter.Contract.{other_path}
use obsidio.Server.{
  Exchange, Post, Server, Step, Run, reject, append, publish, arrive, answer, send_digest, inner,
  start, next, is_post, listening, appended,
}
use obsidio.Server.Pending.{IsRisk, Step-IsRisk}
use obsidio.Server.Handled.{handled-Kept, returned-Kept}

module _ (J : Codec) where
  open J use {Price}

  -- The log has the whole line of an entry, if there is a log.
  abbrev pub Logged : Option Bytes → Bytes → Price → Type 0
  Logged none s v = Unit
  Logged (some file) s v = (a : Bytes) × (b : Bytes) × (file ≡ a ++ (line_of J s v ++ b))

  -- Nothing is taken out of the log.
  abbrev Grows : Option Bytes → Option Bytes → Type 0
  Grows none none = Unit
  Grows none (some g) = ⊥
  Grows (some f) none = ⊥
  Grows (some f) (some g) = (x : Bytes) × (g ≡ f ++ x)

  Grows-refl : (w : Option Bytes) → Grows w w
  Grows-refl none = tt
  Grows-refl (some f) = ([], sym (append-nil f))

  Logged-Grows :
      (s : Bytes) (v : Price) (w w' : Option Bytes) → Grows w w' → Logged w s v → Logged w' s v
  Logged-Grows s v none none g l = tt
  Logged-Grows s v none (some h) g l = absurd g
  Logged-Grows s v (some f) none g l = absurd g
  Logged-Grows s v (some f) (some h) (x, e) (a, b, at) =
      (a, b ++ x, e ∙ ap (λ t. t ++ x) at ∙ simp append_assoc)

  append_wal-Grows :
      (disk : Disk) (s : Bytes) (v : Price) (w : Option Bytes) → Grows w (append_wal J disk s v w).0
  unfolding append_wal
  append_wal-Grows disk s v none = tt
  append_wal-Grows fine s v (some f) = (line_of J s v, refl)
  append_wal-Grows (write_fails n) s v (some f) = (take n (line_of J s v), refl)
  append_wal-Grows sync_fails s v (some f) = (line_of J s v, refl)

  append_wal-Logged :
      (disk : Disk) (s : Bytes) (v : Price) (w : Option Bytes)
      → (append_wal J disk s v w).1 ≡ true
      → Logged (append_wal J disk s v w).0 s v
  unfolding append_wal
  append_wal-Logged disk s v none ok = tt
  append_wal-Logged fine s v (some f) ok =
      (f, [], ap (λ l. f ++ l) (sym (append-nil (line_of J s v))))
  append_wal-Logged (write_fails n) s v (some f) ok = cc
  append_wal-Logged sync_fails s v (some f) ok = cc

  -- The response of a POST names an entry that is in the log.
  abbrev pub Entered : Option Bytes → Exchange J → Type 0
  Entered w e =
      (s : Bytes) × (v : Price) × (e.response.body ≡ build_price_resp J s v) × Logged w s v

  abbrev pub is_ack : Exchange J → Bool
  is_ack e = is_post e.request && ltb e.response.code 400

  abbrev Acked : Option Bytes → Exchange J → Type 0
  Acked w e = (is_ack e ≡ false) ⊎ Entered w e

  abbrev Waits : Option Bytes → Post J → Type 0
  Waits w q = Logged w q.symbol q.price

  Acked-Grows : (w w' : Option Bytes) → Grows w w' → (e : Exchange J) → Acked w e → Acked w' e
  Acked-Grows w w' g e (inl other) = inl other
  Acked-Grows w w' g e (inr (s, v, body, l)) = inr (s, v, body, Logged-Grows s v w w' g l)

  record Durable (s : Server J) : Type 0 where
    waits : All (Waits s.wal) s.posts
    acked : All (Acked s.wal) s.exchanges

  pub not_ack : (a b : Bool) → a ≡ false → (a && b) ≡ false
  not_ack a b h = ground arith

  -- The log has grown, and nothing else happened that matters here.
  grown-Durable :
      (s : Server J) (t : Server J)
      → Grows s.wal t.wal
      → t.posts ≡ s.posts
      → t.exchanges ≡ s.exchanges
      → Durable s
      → Durable t
  grown-Durable s t g posts exchanges v = record {
    waits = rw posts (All-map (λ q. Logged-Grows q.symbol q.price s.wal t.wal g) s.posts v.waits);
    acked = rw exchanges (All-map (Acked-Grows s.wal t.wal g) s.exchanges v.acked);
  }

  -- One more exchange that is no POST answered with a success.
  other-Durable :
      (s : Server J) (t : Server J) (e : Exchange J)
      → is_ack e ≡ false
      → Grows s.wal t.wal
      → t.posts ≡ s.posts
      → t.exchanges ≡ e ∷ s.exchanges
      → Durable s
      → Durable t
  other-Durable s t e quiet g posts exchanges v = record {
    waits = rw posts (All-map (λ q. Logged-Grows q.symbol q.price s.wal t.wal g) s.posts v.waits);
    acked = rw exchanges (inl quiet, All-map (Acked-Grows s.wal t.wal g) s.exchanges v.acked);
  }

  appended-Durable :
      (req : Request) (sy : Bytes) (v : Price) (r : Option Bytes × Bool) (s : Server J)
      → Grows s.wal r.0
      → (r.1 ≡ true → Logged r.0 sy v)
      → Durable s
      → Durable (appended J req sy v r s)
  appended-Durable req sy v (wal, true) s g l d = record {
    waits = (l refl, All-map (λ q. Logged-Grows q.symbol q.price s.wal wal g) s.posts d.waits);
    acked = All-map (Acked-Grows s.wal wal g) s.exchanges d.acked;
  }
  appended-Durable req sy v (wal, false) s g l d =
      let e : Exchange J = record {
        request = req;
        tables = s.tables;
        response = persistence_failure J;
      } in
      other-Durable s (appended J req sy v (wal, false) s) e (ground arith) g refl refl d

  module _ (W : World J) where
    pub risk_path : (req : Request) → equal req.path (codes "/risk") ≡ true → is_post req ≡ false
    unfolding equal
    risk_path req risk =
        not_ack _ (equal req.method (codes "POST"))
          (other_path req.path (codes "/risk") (codes "/price") risk refl)

    same-Grows : (w w' : Option Bytes) → w' ≡ w → Grows w w'
    same-Grows w w' e = subst (Grows w) (sym e) (Grows-refl w)

    Step-Durable :
        {H : Sha256} {p : Paths} {s t : Server J}
        → Step J W H p s t
        → All (IsRisk J W) s.calls
        → Durable s
        → Durable t
    Step-Durable {s = s} {t = t} (Step.handle req body other get) calls d =
        other-Durable s t _ (not_ack _ _ get)
          (same-Grows s.wal t.wal (handled-Kept J W req body s other get).1) refl refl d
    Step-Durable {s = s} {t = t} (reject req body post bad) calls d =
        other-Durable s t (record { request = req; tables = s.tables; response = bad_request J })
          (ground arith) (Grows-refl s.wal) refl refl d
    Step-Durable {s = s} (append req body sy v disk post ok) calls d =
        appended-Durable req sy v (append_wal J disk sy v s.wal) s
          (append_wal-Grows disk sy v s.wal) (append_wal-Logged disk sy v s.wal) d
    Step-Durable {s = s} (publish before after q e) calls d =
        let ws = rw e at d.waits in
        record {
          waits = All-without (Waits s.wal) before q after ws;
          acked = (inr (q.symbol, q.price, refl, All-at (Waits s.wal) before q after ws), d.acked);
        }
    Step-Durable {s = s} {t = t} (arrive now req body risk) calls d =
        grown-Durable s t (Grows-refl s.wal) refl refl d
    Step-Durable {s = s} {t = t} (answer before after c o e got) calls d =
        let at_c = All-at (IsRisk J W) before c after (rw e at calls) in
        other-Durable s t _ (not_ack _ _ (risk_path c.request at_c))
          (same-Grows s.wal t.wal (returned-Kept J W c.request c.body o s at_c).1) refl refl d
    Step-Durable {s = s} {t = t}
          (send_digest before after ids i k w h batch rest es later wk at_i few l m ran sent) calls
          d =
        grown-Durable s t (Grows-refl s.wal) refl refl d
    Step-Durable {s = s} {t = t} (inner i st) calls d =
        grown-Durable s t (Grows-refl s.wal) refl refl d

    Run-Durable :
        {H : Sha256} {p : Paths} {s t : Server J}
        → Run J W H p s t
        → All (IsRisk J W) s.calls
        → Durable s
        → Durable t × All (IsRisk J W) t.calls
    Run-Durable start calls d = (d, calls)
    Run-Durable (next r st) calls d =
        let (v, risk) = Run-Durable r calls d in (Step-Durable st risk v, Step-IsRisk J W st risk)

    entered_if : (b : Bool) (A : Type 0) → b ≡ true → (b ≡ false) ⊎ A → A
    entered_if b A yes_ (inl bad) = absurd cc
    entered_if b A yes_ (inr a) = a

    module _ (H : Sha256) (p : Paths) where
      -- From any process before its first request, whatever the disk does at each append and in
      -- every order of the steps, each POST that was answered with a success was answered with the
      -- body of a symbol and a price whose whole line is in the log from then on, if a log is open.
      pub acknowledged_logged :
          (x : Process J) (system : System) (s : Server J) (k : ℕ) (e : Exchange J)
          → Run J W H p (listening J x system) s
          → get_elem? s.exchanges k ≡ some e
          → is_post e.request ≡ true
          → ltb e.response.code 400 ≡ true
          → Entered s.wal e
      acknowledged_logged x system s k e run at_k post ok =
          let (v, _) = Run-Durable run tt (record { waits = tt; acked = tt }) in
          entered_if (is_ack e) (Entered s.wal e) (both post ok)
            (All-get (Acked s.wal) s.exchanges k e at_k v.acked)
        where
          both : {a b : Bool} → a ≡ true → b ≡ true → (a && b) ≡ true
          both h k = rw (h, k) refl
