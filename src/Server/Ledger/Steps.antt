-- ===== src/Server/Ledger/Steps.antt =====
-- The ledger of the goroutines in `riskSubmit`, step by step of the running process.
use obsidio.Prelude.Text.{equal}
use obsidio.Prelude.{
  ℕ, ◌+◌, ◌≡◌, refl, ap, ◌∙◌, Bool, true, false, List, ◌∷◌, ◌++◌, Option, none, some, sum_of,
  sum_of-cons, length, arith, if◌then◌else◌,
}
use obsidio.Prelude.Env.{Bytes, codes}
use obsidio.Prices.{Codec, Process, Response, persistence_failure}
use obsidio.Raw.{Request}
use obsidio.App.{World, risk_response}
use obsidio.Gate.{Entry, parked, shed, enter}
use obsidio.Gate.System.Defs.{Log, note_entry, note_response}
use obsidio.Server.{Exchange, Call, Server, Returned, responded, appended, entered, seed_of}
use obsidio.Server.Accounting.{error_at}
use obsidio.Server.Ledger.{call_weight, Placed, if_none, leaves, sum_of-out, enter-Placed}

pub note_response-door : (code : ℕ) (l : Log) → (note_response code l).door ≡ l.door
note_response-door code l = ground arith

module _ (J : Codec) (W : World J) where
  -- An error of /risk.
  abbrev pub risk_error_of : Exchange J → ℕ
  risk_error_of e = if equal e.request.path (codes "/risk") then error_at e.response.code else 0

  pub record Ledger (s : Server J) : Type 0 where
    pub done : List ℕ
    pub out : List ℕ
    pub placed : Placed s.calls s.system.gate.heap done out
    pub told :
        s.system.log.door + length out
        ≡ sum_of (call_weight 1 (λ i. 0)) s.calls + sum_of risk_error_of s.exchanges

  -- An exchange of another path, and nothing else of what the ledger is about.
  pub other-Ledger :
      (s t : Server J) (e : Exchange J)
      → equal e.request.path (codes "/risk") ≡ false
      → t.calls ≡ s.calls
      → t.system.gate.heap ≡ s.system.gate.heap
      → t.system.log.door ≡ s.system.log.door
      → t.exchanges ≡ e ∷ s.exchanges
      → Ledger s
      → Ledger t
  other-Ledger s t e other calls heap door exchanges v =
      let free : risk_error_of e ≡ 0 = rw other refl in
      record {
        done = v.done;
        out = v.out;
        placed = rw (calls, heap) v.placed;
        told =
            rw (calls, exchanges)
              (omega (arith, v.told, door, free, sum_of-cons risk_error_of e s.exchanges));
      }

  pub responded-Ledger :
      (req : Request) (r : Response) (s : Server J)
      → equal req.path (codes "/risk") ≡ false
      → Ledger s
      → Ledger (responded J req r s)
  responded-Ledger req r s other v =
      other-Ledger s (responded J req r s)
        (record { request = req; tables = s.tables; response = r }) other refl refl
        (note_response-door r.code s.system.log) refl v

  pub appended-Ledger :
      (req : Request) (sy : Bytes) (p : Codec.Price J) (r : Option Bytes × Bool) (s : Server J)
      → equal req.path (codes "/risk") ≡ false
      → Ledger s
      → Ledger (appended J req sy p r s)
  appended-Ledger req sy p (wal, true) s other v = record {
    done = v.done;
    out = v.out;
    placed = v.placed;
    told = v.told;
  }
  appended-Ledger req sy p (wal, false) s other v =
      responded-Ledger req (persistence_failure J) (record s { wal = wal }) other
        (record { done = v.done; out = v.out; placed = v.placed; told = v.told })

  pub entered-Ledger :
      (now : ℕ) (req : Request) (body : Bytes) (s : Server J)
      → Ledger s
      → Ledger (entered J req body (enter now (seed_of J W req) s.system.gate) s)
  entered-Ledger now req body s v = record {
    done = v.done;
    out = v.out;
    placed =
        enter-Placed now (seed_of J W req) s.system.gate req body s.calls v.done v.out v.placed;
    told = entered_told (enter now (seed_of J W req) s.system.gate).1;
  }
    where
      entered_told :
          (entry : Entry)
          → (note_entry entry s.system.log).door + length v.out
            ≡ sum_of
                (call_weight 1 (λ i. 0))
                (record { request = req; body = body; entry = entry } ∷ s.calls)
              + sum_of risk_error_of s.exchanges
      entered_told shed =
          let c : Call = record { request = req; body = body; entry = shed } in
          omega (arith, v.told, sum_of-cons (call_weight 1 (λ i. 0)) c s.calls)
      entered_told (parked i) =
          let c : Call = record { request = req; body = body; entry = parked i } in
          omega (arith, v.told, sum_of-cons (call_weight 1 (λ i. 0)) c s.calls)

  pub response-error :
      (V : World J) (seed : Bytes) (o : Option Bytes) (x : Process J)
      → error_at (risk_response J V seed (x, o)).1.code ≡ if_none o
  response-error V seed none x = refl
  response-error V seed (some h) x = refl

  -- A goroutine returns and its request is answered.
  pub answered-Ledger :
      (before after : List Call) (c : Call) (o : Option Bytes) (s t : Server J) (e : Exchange J)
      → s.calls ≡ before ++ c ∷ after
      → Returned s.system.gate c.entry o
      → risk_error_of e ≡ if_none o
      → t.calls ≡ before ++ after
      → t.system.gate.heap ≡ s.system.gate.heap
      → t.system.log.door ≡ s.system.log.door
      → t.exchanges ≡ e ∷ s.exchanges
      → Ledger s
      → Ledger t
  answered-Ledger before after c o s t e at_c got error calls heap door exchanges v =
      let l =
        leaves s.system.gate c.entry o v.done v.out got v.placed.done_served v.placed.out_refused in
      let gone : (f : Call → ℕ) → sum_of f s.calls ≡ f c + sum_of f (before ++ after) =
        λ f. ap (sum_of f) at_c ∙ sum_of-out f before c after in
      record {
        done = l.done';
        out = l.out';
        placed =
            rw (calls, heap)
              (record {
                each = λ f. omega (arith, l.moved f, gone (call_weight 0 f), v.placed.each f);
                done_served = l.served_;
                out_refused = l.refused_;
              });
        told =
            rw (calls, exchanges)
              (omega (
                arith,
                v.told,
                door,
                error,
                l.charged,
                gone (call_weight 1 (λ i. 0)),
                sum_of-cons risk_error_of e s.exchanges,
              ));
      }
