-- ===== src/Server/Accounting.antt =====
-- The counters of the running process beside the responses that it gave.
use obsidio.Prelude.Text.{equal}
use obsidio.Prelude.{
  All-at, ℕ, ◌+◌, ◌≡◌, refl, sym, ap, subst, ◌∙◌, ◌++◌, inl, inr, Bool, true, false, ◌∷◌, Option,
  none, some, All, sum_of, sum_of-cons, sum_of-nil, arith, if◌then◌else◌, ltb, and_true,
}
use obsidio.Prelude.Env.{Bytes, codes}
use obsidio.Governor.{Counters, count_response}
use obsidio.Prices.{
  Codec, Process, Response, append_wal, bad_request, persistence_failure, build_price_resp,
  store_price,
}
use obsidio.Raw.{Request}
use obsidio.App.{World, risk_response}
use obsidio.Gate.{enter, deliver}
use obsidio.Gate.Arrival.{enter_lem}
use obsidio.Gate.System.Defs.{System, Log, note_response, note_entry, initial}
use obsidio.Gate.System.Accounting.{owes, charged_once}
use obsidio.Worker.{Paths}
use obsidio.Worker.Batch.{PathsCorrect}
use obsidio.Kernel.Chain.{Sha256}
use obsidio.Starter.Contract.{other_path}
use obsidio.Server.{
  Exchange, Server, Step, Run, reject, append, publish, arrive, answer, send_digest, inner, start,
  next, is_post, listening, refusing, returning, handled, responded, appended, seed_of, process_of,
}
use obsidio.Server.Pending.{IsRisk, Step-IsRisk, IsPost, Step-IsPost}
use obsidio.Server.Refines.{Run-Reach, handled-counted, handled-returning}

abbrev ok_at : ℕ → ℕ
ok_at code = if ltb code 400 then 1 else 0

abbrev pub error_at : ℕ → ℕ
error_at code = if ltb code 400 then 0 else 1

count_response-ok : (code : ℕ) (c : Counters) → (count_response code c).ok ≡ c.ok + ok_at code
unfolding count_response
count_response-ok code c = ground arith

note_response-others :
    (code : ℕ) (l : Log) → (note_response code l).others ≡ l.others + error_at code
note_response-others code l = ground arith

pub post_path : (req : Request) → is_post req ≡ true → equal req.path (codes "/risk") ≡ false
unfolding equal
post_path req post =
    other_path req.path (codes "/price") (codes "/risk")
      (and_true _ (equal req.method (codes "POST")) post).0 refl

module _ (J : Codec) (W : World J) where
  -- A response below 400.
  abbrev pub ok_of : Exchange J → ℕ
  ok_of e = ok_at e.response.code

  -- An error of another path than /risk.
  abbrev pub error_of : Exchange J → ℕ
  error_of e = if equal e.request.path (codes "/risk") then 0 else error_at e.response.code

  -- `a` responses below 400 and `o` errors were counted before the exchanges.
  abbrev Counted : ℕ → ℕ → Server J → Type 0
  Counted a o s =
      (s.system.gate.counters.ok ≡ a + sum_of ok_of s.exchanges)
      × (s.system.log.others ≡ o + sum_of error_of s.exchanges)

  error_of-other :
      (e : Exchange J)
      → equal e.request.path (codes "/risk") ≡ false
      → error_of e ≡ error_at e.response.code
  error_of-other e other = rw other refl

  error_of-risk : (e : Exchange J) → equal e.request.path (codes "/risk") ≡ true → error_of e ≡ 0
  error_of-risk e risk = rw risk refl

  -- One more exchange, and what its handler left of the counters and the log.
  more-Counted :
      (a o : ℕ) (s : Server J) (e : Exchange J) (c : Counters) (l : Log)
      → c.ok ≡ s.system.gate.counters.ok + ok_of e
      → l.others ≡ s.system.log.others + error_of e
      → Counted a o s
      → (c.ok ≡ a + sum_of ok_of (e ∷ s.exchanges))
        × (l.others ≡ o + sum_of error_of (e ∷ s.exchanges))
  more-Counted a o s e c l ok others (h, k) = (
    omega (arith, sum_of-cons ok_of e s.exchanges),
    omega (arith, sum_of-cons error_of e s.exchanges),
  )

  responded-Counted :
      (a o : ℕ) (req : Request) (r : Response) (s : Server J)
      → equal req.path (codes "/risk") ≡ false
      → Counted a o s
      → Counted a o (responded J req r s)
  responded-Counted a o req r s other h =
      let e : Exchange J = record { request = req; tables = s.tables; response = r } in
      more-Counted a o s e (count_response r.code s.system.gate.counters)
        (note_response r.code s.system.log) (count_response-ok r.code s.system.gate.counters)
        (note_response-others r.code s.system.log
          ∙ ap (λ n. s.system.log.others + n) (sym (error_of-other e other)))
        h

  appended-Counted :
      (a o : ℕ) (req : Request) (sy : Bytes) (v : Codec.Price J) (r : Option Bytes × Bool)
      (s : Server J)
      → equal req.path (codes "/risk") ≡ false
      → Counted a o s
      → Counted a o (appended J req sy v r s)
  appended-Counted a o req sy v (wal, true) s other h = h
  appended-Counted a o req sy v (wal, false) s other h =
      responded-Counted a o req (persistence_failure J) (record s { wal = wal }) other h

  enter-Counted :
      (now : ℕ) (seed : Bytes) (s : System)
      → ((enter now seed s.gate).0.counters.ok ≡ s.gate.counters.ok)
        × ((note_entry (enter now seed s.gate).1 s.log).others ≡ s.log.others)
  enter-Counted now seed s = elim (enter_lem now seed s.gate) [
    | inl out ↦ rw out.0 (refl, refl)
    | inr into ↦ rw into.0 (refl, refl)
  ]

  deliver-counters :
      (i : ℕ) (h : Bytes) (s : System) → (deliver i h s.gate).counters.ok ≡ s.gate.counters.ok
  unfolding deliver
  deliver-counters i h s = refl

  response-ok :
      (V : World J) (seed : Bytes) (o : Option Bytes) (x : Process J)
      → (risk_response J V seed (x, o)).0.counters.ok
        ≡ x.counters.ok + ok_at (risk_response J V seed (x, o)).1.code
  response-ok V seed none x = omega arith
  response-ok V seed (some h) x = count_response-ok 200 x.counters

  returned-ok :
      (req : Request) (body : Bytes) (o : Option Bytes) (s : Server J)
      → equal req.path (codes "/risk") ≡ true
      → let r = handled J W (returning J W (seed_of J W req) o) req body s in
        r.0.counters.ok ≡ s.system.gate.counters.ok + ok_at r.1.code
  returned-ok req body o s risk =
      subst
        (λ (r : Process J × Response). r.0.counters.ok ≡ s.system.gate.counters.ok + ok_at r.1.code)
        (sym (handled-returning J W req body o s risk))
        (response-ok (returning J W (seed_of J W req) o) (seed_of J W req) o (process_of J s))

  Step-Counted :
      {H : Sha256} {p : Paths} {s t : Server J} (a o : ℕ)
      → Step J W H p s t
      → All (IsRisk J W) s.calls
      → All (IsPost J W) s.posts
      → Counted a o s
      → Counted a o t
  Step-Counted {s = s} a o (Step.handle req body other get) calls posts h =
      let r = handled J W (refusing J W) req body s in
      let e : Exchange J = record { request = req; tables = s.tables; response = r.1 } in
      more-Counted a o s e r.0.counters (note_response r.1.code s.system.log)
        (ap (λ (c : Counters). c.ok) (handled-counted J W req body s)
          ∙ count_response-ok r.1.code s.system.gate.counters)
        (note_response-others r.1.code s.system.log
          ∙ ap (λ n. s.system.log.others + n) (sym (error_of-other e other)))
        h
  Step-Counted {s = s} a o (reject req body post bad) calls posts h =
      responded-Counted a o req (bad_request J) s (post_path req post) h
  Step-Counted {s = s} a o (append req body sy v disk post ok) calls posts h =
      appended-Counted a o req sy v (append_wal J disk sy v s.wal) s (post_path req post) h
  Step-Counted {s = s} a o (publish before after q e) calls posts h =
      let post = All-at (IsPost J W) before q after (rw e at posts) in
      responded-Counted a o q.request
        (record { code = 200; body = build_price_resp J q.symbol q.price })
        (record s { tables = store_price J q.symbol q.price s.tables; posts = before ++ after })
        (post_path q.request post) h
  Step-Counted {s = s} a o (arrive now req body risk) calls posts (h, k) =
      let (ok, others) = enter-Counted now (seed_of J W req) s.system in (ok ∙ h, others ∙ k)
  Step-Counted {s = s} a o (answer before after c d e got) calls posts h =
      let at_c = All-at (IsRisk J W) before c after (rw e at calls) in
      let V = returning J W (seed_of J W c.request) d in
      let r = handled J W V c.request c.body s in
      let x : Exchange J = record { request = c.request; tables = s.tables; response = r.1 } in
      more-Counted a o s x r.0.counters s.system.log (returned-ok c.request c.body d s at_c)
        (omega (arith, error_of-risk x at_c)) h
  Step-Counted {s = s} a o
        (send_digest before after ids i k w d batch rest es later wk at_i few l m ran sent) calls
        posts h =
      (deliver-counters i d s.system ∙ h.0, h.1)
  Step-Counted {s = s} a o (inner i st) calls posts h = (i.1 ∙ h.0, i.3 ∙ h.1)

  Run-Counted :
      {H : Sha256} {p : Paths} {s t : Server J} (a o : ℕ)
      → Run J W H p s t
      → All (IsRisk J W) s.calls
      → All (IsPost J W) s.posts
      → Counted a o s
      → Counted a o t × All (IsRisk J W) t.calls × All (IsPost J W) t.posts
  Run-Counted a o start calls posts h = (h, calls, posts)
  Run-Counted a o (next r st) calls posts h =
      let (k, risk, is_posts) = Run-Counted a o r calls posts h in
      (Step-Counted a o st risk is_posts k, Step-IsRisk J W st risk, Step-IsPost J W st is_posts)

  module _ (H : Sha256) (p : Paths) where
    -- The successes, and the errors with what the gate charged for waiters.
    pub responses_counted :
        (x : Process J) (c : Counters) (budget patience slots : ℕ) (s : Server J)
        → PathsCorrect H p
        → Run J W H p (listening J x (initial c budget patience slots)) s
        → (s.system.gate.counters.ok ≡ c.ok + sum_of ok_of s.exchanges)
          × (s.system.gate.counters.err
              ≡ c.err
                + s.system.log.door
                + s.system.log.stale
                + sum_of error_of s.exchanges
                + sum_of owes s.system.gate.heap)
    responses_counted x c budget patience slots s correct run =
        let start_ : Counted c.ok 0 (listening J x (initial c budget patience slots)) =
          (omega (arith, sum_of-nil ok_of), omega (arith, sum_of-nil error_of)) in
        let ((ok, others), _, _) = Run-Counted c.ok 0 run tt tt start_ in
        let (reach, _) = Run-Reach J W H p correct tt run in
        (ok, omega (arith, charged_once c budget patience slots s.system reach))
