-- ===== src/Server/Ledger/Runs.antt =====
-- The ledger of the goroutines in `riskSubmit` in a run of the process.
use obsidio.Prelude.Text.{equal}
use obsidio.Prelude.{
  All-at, ℕ, ◌≡◌, refl, ap, ◌∙◌, true, List, [], ◌∷◌, ◌++◌, Option, All, sum_of-nil, below-zero,
  length, length-modify, arith,
}
use obsidio.Prelude.Env.{Bytes, codes}
use obsidio.Kernel.Chain.{Sha256}
use obsidio.Governor.{Counters}
use obsidio.Prices.{
  Codec, Process, Response, append_wal, bad_request, build_price_resp, store_price,
}
use obsidio.App.{World}
use obsidio.Gate.{Gate, deliver}
use obsidio.Gate.System.Defs
use obsidio.Gate.System.Defs.{System, Phase, running, Log, note_entry, note_response, initial}
use obsidio.Gate.System.Ended.{deliver-Ended, Step-Ended}
use obsidio.Worker.{Paths}
use obsidio.Server.{
  IsInner, Call, Server, Step, Run, reject, append, publish, arrive, answer, send_digest, inner,
  start, next, listening, refusing, returning, handled, seed_of, process_of,
}
use obsidio.Server.Pending.{IsRisk, IsPost, Step-IsRisk, Step-IsPost}
use obsidio.Server.Refines.{handled-returning}
use obsidio.Server.Accounting.{error_at, post_path}
use obsidio.Server.Ledger.{call_weight, if_none, keep-Placed}
use obsidio.Server.Ledger.Steps.{
  note_response-door, Ledger, risk_error_of, other-Ledger, responded-Ledger, appended-Ledger,
  entered-Ledger, answered-Ledger, response-error,
}

module _ (J : Codec) (W : World J) where
  inner-Ledger :
      {u : System} (s : Server J)
      → IsInner s.system u
      → ((chain : Bytes → Bytes) → Defs.Step chain s.system u)
      → Ledger J W s
      → Ledger J W (record s { system = u })
  inner-Ledger {u} s i st v = record {
    done = v.done;
    out = v.out;
    placed =
        keep-Placed s.calls s.system.gate.heap u.gate.heap v.done v.out i.0
          (λ f j a h. Step-Ended f j a (st (λ b. b)) h) v.placed;
    told = omega (arith, v.told, i.2);
  }

  deliver-length : (i : ℕ) (d : Bytes) (g : Gate) → length (deliver i d g).heap ≡ length g.heap
  unfolding deliver
  deliver-length i d g = length-modify _ g.heap i

  delivered-Ledger :
      (i : ℕ) (d : Bytes) (workers : List Phase) (s : Server J)
      → Ledger J W s
      → Ledger J W (record s {
        system = record s.system { gate = deliver i d s.system.gate; workers = workers };
      })
  delivered-Ledger i d workers s v = record {
    done = v.done;
    out = v.out;
    placed =
        keep-Placed s.calls s.system.gate.heap (deliver i d s.system.gate).heap v.done v.out
          (deliver-length i d s.system.gate) (λ f j a h. deliver-Ended f j i d s.system.gate h)
          v.placed;
    told = v.told;
  }

  returned-error :
      (c : Call) (o : Option Bytes) (s : Server J)
      → equal c.request.path (codes "/risk") ≡ true
      → risk_error_of J W (record {
        request = c.request;
        tables = s.tables;
        response = (handled J W (returning J W (seed_of J W c.request) o) c.request c.body s).1;
      })
        ≡ if_none o
  returned-error c o s risk =
      let V = returning J W (seed_of J W c.request) o in
      rw risk (
        ap (λ (r : Process J × Response). error_at r.1.code)
          (handled-returning J W c.request c.body o s risk)
        ∙ response-error J W V (seed_of J W c.request) o (process_of J s))

  Step-Ledger :
      {H : Sha256} {p : Paths} {s t : Server J}
      → Step J W H p s t
      → All (IsRisk J W) s.calls
      → All (IsPost J W) s.posts
      → Ledger J W s
      → Ledger J W t
  Step-Ledger {s = s} {t = t} (Step.handle req body other get) calls posts v =
      let r = handled J W (refusing J W) req body s in
      other-Ledger J W s t (record { request = req; tables = s.tables; response = r.1 }) other refl
        refl (note_response-door r.1.code s.system.log) refl v
  Step-Ledger {s = s} (reject req body post bad) calls posts v =
      responded-Ledger J W req (bad_request J) s (post_path req post) v
  Step-Ledger {s = s} (append req body sy pr disk post ok) calls posts v =
      appended-Ledger J W req sy pr (append_wal J disk sy pr s.wal) s (post_path req post) v
  Step-Ledger {s = s} {t = t} (publish before after q e) calls posts v =
      let post = All-at (IsPost J W) before q after (rw e at posts) in
      let r : Response = record { code = 200; body = build_price_resp J q.symbol q.price } in
      other-Ledger J W s t
        (record {
          request = q.request;
          tables = store_price J q.symbol q.price s.tables;
          response = r;
        })
        (post_path q.request post) refl refl (note_response-door 200 s.system.log) refl v
  Step-Ledger {s = s} (arrive now req body risk) calls posts v = entered-Ledger J W now req body s v
  Step-Ledger {s = s} {t = t} (answer before after c o e got) calls posts v =
      let at_c = All-at (IsRisk J W) before c after (rw e at calls) in
      answered-Ledger J W before after c o s t _ e got (returned-error c o s at_c) refl refl refl
        refl v
  Step-Ledger {s = s}
        (send_digest before after ids i k w d batch rest es later wk at_i few l m ran sent) calls
        posts v =
      delivered-Ledger i d (before ++ running ids ∷ after) s v
  Step-Ledger {s = s} (inner i st) calls posts v = inner-Ledger s i st v

  pub no_calls :
      (x : Process J) (c : Counters) (budget patience slots : ℕ)
      → Ledger J W (listening J x (initial c budget patience slots))
  no_calls x c budget patience slots = record {
    done = [];
    out = [];
    placed = record {
      each = λ f. omega (arith, sum_of-nil (call_weight 0 f), sum_of-nil f, below-zero f);
      done_served = tt;
      out_refused = tt;
    };
    told = omega (arith, sum_of-nil (call_weight 1 (λ i. 0)), sum_of-nil (risk_error_of J W));
  }

  pub Run-Ledger :
      {H : Sha256} {p : Paths} {s t : Server J}
      → Run J W H p s t
      → All (IsRisk J W) s.calls
      → All (IsPost J W) s.posts
      → Ledger J W s
      → Ledger J W t × All (IsRisk J W) t.calls × All (IsPost J W) t.posts
  Run-Ledger start calls posts v = (v, calls, posts)
  Run-Ledger (next r st) calls posts v =
      let (w, risk, is_posts) = Run-Ledger r calls posts v in
      (Step-Ledger st risk is_posts w, Step-IsRisk J W st risk, Step-IsPost J W st is_posts)
