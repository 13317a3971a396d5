-- ===== src/Server/Refines.antt =====
-- The gate inside the running process, step by step.
use obsidio.Prelude.Text.{equal, equal_self}
use obsidio.Prelude.{
  ℕ, zero, suc, ◌≡◌, refl, sym, ap, ◌∙◌, subst, Bool, true, false, List, [], ◌∷◌, ◌++◌, map, drop,
  Option, none, some, length, All, All-at, ◌≤◌, if◌then◌else◌,
}
use obsidio.Prelude.Env.{Bytes, codes}
use obsidio.Governor.{Counters, count_response}
use obsidio.Kernel.Chain.{Sha256, starter_chain}
use obsidio.Prices.{Codec, Process, Response, append_wal}
use obsidio.Raw.{Request}
use obsidio.Raw.Serve.{dispatch}
use obsidio.App.{World, Wire, on_wire, app, handle_risk, risk_response}
use obsidio.App.Counted.{dispatch-counted}
use obsidio.Gate.{deliver}
use obsidio.Gate.System.Defs
use obsidio.Gate.System.Defs.{
  System, Phase, Log, Reach, here, more, send_result, respond, note_response,
}
use obsidio.Worker.{Paths, Job, Event, run_batch}
use obsidio.Worker.Batch.{PathsCorrect, sends, run_batch-Answers}
use obsidio.Worker.Batch
use obsidio.Starter.Contract.{other_path}
use obsidio.Main.Served.{Reach-trans}
use obsidio.Server.Pending.{IsRisk, Step-IsRisk}
use obsidio.Server.{
  handle, reject, append, publish, arrive, answer, send_digest, inner, start, next, Server, Step,
  Run, refusing, returning, handled, appended, seed_of, process_of,
}

drop-map {ℓ κ} :
    {A : Type ℓ} {B : Type κ} (f : A → B) (n : ℕ) (xs : List A)
    → drop n (map f xs) ≡ map f (drop n xs)
drop-map f zero xs = refl
drop-map f (suc n) [] = refl
drop-map f (suc n) (x ∷ xs) = drop-map f n xs

same_head {ℓ} : {A : Type ℓ} {x y : A} {xs ys : List A} → x ∷ xs ≡ y ∷ ys → x ≡ y
same_head e = cc

-- The digest of a batch is the starter's chain.
pub sends-starter_chain :
    (H : Sha256) (p : Paths) (k i : ℕ) (s h : Bytes) (batch rest later : List Job) (es : List Event)
    → PathsCorrect H p
    → length batch ≤ 16
    → drop k batch ≡ (i, s) ∷ rest
    → run_batch H p batch ≡ some es
    → drop k (sends es) ≡ (i, h) ∷ later
    → h ≡ starter_chain H s
sends-starter_chain H p k i s h batch rest later es correct few at ran sent =
    let (es', ran', all, _) = run_batch-Answers H p batch correct few in
    let same : es' ≡ es = given (sym ran' ∙ ran) in
    let here : drop k (sends es) ≡ (i, starter_chain H s) ∷ map (Batch.answer H) rest =
      ap (λ e. drop k (sends e)) (sym same)
      ∙ ap (drop k) all
      ∙ drop-map (Batch.answer H) k batch
      ∙ ap (map (Batch.answer H)) at in
    ap (λ q. q.1) (same_head (sym sent ∙ here))
  where
    given : {a b : List Event} → some a ≡ some b → a ≡ b
    given e = cc

module _ (J : Codec) (W : World J) where
  -- A request that does not get to `riskSubmit` is counted by its code.
  pub handled-counted :
      (req : Request) (body : Bytes) (s : Server J)
      → (handled J W (refusing J W) req body s).0.counters
        ≡ count_response (handled J W (refusing J W) req body s).1.code s.system.gate.counters
  handled-counted req body s = dispatch-counted J (refusing J W) _ req body (λ seed x. refl)

  -- The counters behind a call that returned.
  abbrev counted : Option Bytes → Counters → Counters
  counted none c = c
  counted (some h) c = count_response 200 c

  dispatch-handle_risk :
      (V : World J) (w : Wire J V) (req : Request) (body : Bytes)
      → equal req.path (codes "/risk") ≡ true
      → dispatch (app J V) w req body ≡ on_wire J V (handle_risk J V) w req body
  unfolding dispatch
  dispatch-handle_risk V w req body risk =
      let not_price = other_path req.path (codes "/risk") (codes "/price") risk refl in
      let not_stats = other_path req.path (codes "/risk") (codes "/stats") risk refl in
      rw (not_price, not_stats, risk) refl

  -- The handler of a call that returned goes on with what was returned.
  pub handled-returning :
      (req : Request) (body : Bytes) (o : Option Bytes) (s : Server J)
      → equal req.path (codes "/risk") ≡ true
      → let V = returning J W (seed_of J W req) o in
        handled J W V req body s ≡ risk_response J V (seed_of J W req) (process_of J s, o)
  unfolding handle_risk
  handled-returning req body o s risk =
      let V = returning J W (seed_of J W req) o in
      ap (λ r. (r.0.process, r.1))
        (dispatch-handle_risk V (record { process = process_of J s; out = [] }) req body risk)
      ∙ ap (λ b. risk_response J V (seed_of J W req) (process_of J s, (if b then o else none)))
          (equal_self (seed_of J W req))

  response-counted :
      (V : World J) (seed : Bytes) (o : Option Bytes) (x : Process J)
      → (risk_response J V seed (x, o)).0.counters ≡ counted o x.counters
  response-counted V seed none x = refl
  response-counted V seed (some h) x = refl

  module _ (H : Sha256) (p : Paths) where
    -- The system with other counters and another log.
    abbrev booked : Counters → Log → System → System
    booked c log s = record s { gate = record s.gate { counters = c }; log = log }

    -- A response of another handler is a step of the gate.
    respond-Reach :
        (code : ℕ) (c : Counters) (s : System)
        → c ≡ count_response code s.gate.counters
        → Reach (starter_chain H) s (booked c (note_response code s.log) s)
    respond-Reach code c s e =
        subst (λ d. Reach (starter_chain H) s (booked d (note_response code s.log) s)) (sym e)
          (more here (respond code))

    returned-Reach :
        (o : Option Bytes) (c : Counters) (s : System)
        → c ≡ counted o s.gate.counters
        → Reach (starter_chain H) s (booked c s.log s)
    returned-Reach none c s e =
        subst (λ d. Reach (starter_chain H) s (booked d s.log s)) (sym e) here
    returned-Reach (some h) c s e = respond-Reach 200 c s e

    appended-Reach :
        (req : Request) (sym : Bytes) (v : Codec.Price J) (r : Option Bytes × Bool) (s : Server J)
        → Reach (starter_chain H) s.system (appended J req sym v r s).system
    appended-Reach req sym v (wal, true) s = here
    appended-Reach req sym v (wal, false) s = more here (respond 500)

    pub Step-Reach :
        {s t : Server J}
        → PathsCorrect H p
        → All (IsRisk J W) s.calls
        → Step J W H p s t
        → Reach (starter_chain H) s.system t.system
    Step-Reach {s} correct calls (handle req body other get) =
        respond-Reach _ _ s.system (handled-counted req body s)
    Step-Reach {s} correct calls (reject req body post bad) = more here (respond 400)
    Step-Reach {s} correct calls (append req body sym v disk post ok) =
        appended-Reach req sym v (append_wal J disk sym v s.wal) s
    Step-Reach {s} correct calls (publish before after q e) = more here (respond 200)
    Step-Reach {s} correct calls (arrive now req body risk) =
        more here (Defs.arrive now (seed_of J W req))
    Step-Reach {s} correct calls (answer before after c o e returned) =
        let risk : All (IsRisk J W) (before ++ c ∷ after) = rw e at calls in
        let at_c = All-at (IsRisk J W) before c after risk in
        returned-Reach o _ s.system (
          ap (λ (r : Process J × Response). r.0.counters)
            (handled-returning c.request c.body o s at_c)
          ∙ response-counted (returning J W (seed_of J W c.request) o) (seed_of J W c.request) o
              (process_of J s))
    Step-Reach {s} correct calls
          (send_digest before after ids i k w h batch rest es later wk at_i few d m ran sent) =
        let digest =
          sends-starter_chain H p k i w.seed h batch rest later es correct few d ran sent in
        subst
          (λ g. Reach (starter_chain H) s.system (record s.system {
            gate = deliver i g s.system.gate;
            workers = before ++ Phase.running ids ∷ after;
          }))
          (sym digest) (more here (send_result before after i ids w wk at_i))
    Step-Reach correct calls (inner i st) = more here (st (starter_chain H))

    -- A run of the process is one of the gate.
    pub Run-Reach :
        {s t : Server J}
        → PathsCorrect H p
        → All (IsRisk J W) s.calls
        → Run J W H p s t
        → Reach (starter_chain H) s.system t.system × All (IsRisk J W) t.calls
    Run-Reach correct calls start = (here, calls)
    Run-Reach correct calls (next r st) =
        let (reach, risk) = Run-Reach correct calls r in
        (Reach-trans reach (Step-Reach correct risk st), Step-IsRisk J W st risk)
