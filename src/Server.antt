-- ===== src/Server.antt =====
-- The running process of app/: requests in the handlers, requests parked in `riskSubmit`, POST
-- requests between their two critical sections, and the workers, in any order of their steps. What
-- a connection does before and behind a handler is in Raw. A handler is one step from its locks to
-- the count of its response, but for the POST of a price and `riskSubmit`, which are as many as
-- they have sections. `exchanges` and the observer's log of the gate are not in the program.
pub mod Pending
pub mod Refines
pub mod Handled
pub mod Keeps
pub mod Contract
pub mod Accounting
pub mod Ledger
pub mod Charged
pub mod Alone
pub mod Durable
pub mod Linear
pub mod Order
mod Tests
use obsidio.Prelude.Text.{equal, is_empty}
use obsidio.Prelude.{
  ℕ, ◌+◌, ◌≡◌, Bool, true, false, ◌&&◌, List, [], ◌∷◌, ◌++◌, Option, none, some, if◌then◌else◌,
  length, get_elem?, drop, map, ◌≤◌,
}
use obsidio.Prelude.Env.{Bytes, codes}
use obsidio.Governor.{count_response, charge}
use obsidio.Kernel.Chain.{Sha256}
use obsidio.Prices.{
  Codec, Tables, Process, Response, Disk, append_wal, store_price, build_price_resp, bad_request,
  persistence_failure,
}
use obsidio.Raw.{Request}
use obsidio.Raw.Serve.{dispatch}
use obsidio.App.{World, app, risk_seed}
use obsidio.Gate.{Gate, Waiter, Entry, parked, shed, enter, deliver, served, refused}
use obsidio.Gate.System.Defs
use obsidio.Gate.System.Defs.{System, Phase, Log, running, note_entry, note_response}
use obsidio.Worker.{Paths, Job, Event, run_batch}
use obsidio.Worker.Batch.{sends}

-- A request that was answered, and the tables that it was answered from.
pub record Exchange (J : Codec) : Type 0 where
  pub request : Request
  pub tables : Tables J
  pub response : Response

-- A POST of a price that is in the log and not yet in the tables.
pub record Post (J : Codec) : Type 0 where
  pub request : Request
  pub symbol : Bytes
  pub price : Codec.Price J

-- A goroutine in `riskSubmit`, and what its first critical section gave.
pub record Call : Type 0 where
  pub request : Request
  pub body : Bytes
  pub entry : Entry

pub record Server (J : Codec) : Type 0 where
  pub tables : Tables J
  pub wal : Option Bytes
  pub system : System
  pub posts : List (Post J)
  pub calls : List Call
  pub exchanges : List (Exchange J)

-- What `riskSubmit` returned to a goroutine, with a digest or without.
abbrev pub Returned : Gate → Entry → Option Bytes → Type 0
Returned g shed none = Unit
Returned g shed (some h) = ⊥
Returned g (parked i) none = (w : Waiter) × (get_elem? g.heap i ≡ some w) × (w.pc ≡ refused)
Returned g (parked i) (some h) = (w : Waiter) × (get_elem? g.heap i ≡ some w) × (w.pc ≡ served h)

-- A step of the gate in which no request arrives and no response is counted.
abbrev pub IsInner : System → System → Type 0
IsInner s t =
    (length t.gate.heap ≡ length s.gate.heap)
    × (t.gate.counters.ok ≡ s.gate.counters.ok)
    × (t.log.door ≡ s.log.door)
    × (t.log.others ≡ s.log.others)

abbrev pub is_post : Request → Bool
is_post req = equal req.path (codes "/price") && equal req.method (codes "POST")

module _ (J : Codec) where
  open J use {Price, decode}

  -- A symbol and a price that `handlePricePost` accepts.
  abbrev pub accepted : Option (Bytes × Option Price) → Option (Bytes × Price)
  accepted none = none
  accepted (some (s, none)) = none
  accepted (some (s, some p)) = if is_empty s then none else some (s, p)

  abbrev pub process_of : Server J → Process J
  process_of s = record { tables = s.tables; wal = s.wal; counters = s.system.gate.counters }

  -- `writeJSON` of a handler that leaves the tables and the log as they are.
  abbrev pub responded : Request → Response → Server J → Server J
  responded req r s = record s {
    system = record s.system {
      gate = record s.system.gate { counters = count_response r.code s.system.gate.counters };
      log = note_response r.code s.system.log;
    };
    exchanges = record { request = req; tables = s.tables; response = r } ∷ s.exchanges;
  }

  -- The end of a POST request whose entry was written or not.
  abbrev pub appended : Request → Bytes → Price → Option Bytes × Bool → Server J → Server J
  appended req sym p (wal, true) s = record s {
    wal = wal;
    posts = record { request = req; symbol = sym; price = p } ∷ s.posts;
  }
  appended req sym p (wal, false) s = responded req (persistence_failure J) (record s { wal = wal })

  -- The first critical section of `riskSubmit`.
  abbrev pub entered : Request → Bytes → Gate × Entry → Server J → Server J
  entered req body (g, entry) s = record s {
    system = record s.system { gate = g; log = note_entry entry s.system.log };
    calls = record { request = req; body = body; entry = entry } ∷ s.calls;
  }

  module _ (W : World J) where
    -- The world of a request that does not get to `riskSubmit`.
    abbrev pub refusing : World J
    refusing = record W {
      risk_submit = λ seed x. (record x { counters = charge x.counters }, none);
    }

    -- The world of a request whose call of `riskSubmit` with this seed returns.
    abbrev pub returning : Bytes → Option Bytes → World J
    returning seed o = record W {
      risk_submit = λ seed' x. (x, (if equal seed' seed then o else none));
    }

    abbrev pub seed_of : Request → Bytes
    seed_of req = risk_seed J W req.query

    -- What a handler makes of the process and the response of its request.
    abbrev pub handled : World J → Request → Bytes → Server J → Process J × Response
    handled V req body s =
        let r = dispatch (app J V) (record { process = process_of s; out = [] }) req body in
        (r.0.process, r.1)

    abbrev pub settled : Log → Request → Process J × Response → Server J → Server J
    settled log req (x, r) s = record s {
      tables = x.tables;
      wal = x.wal;
      system = record s.system { gate = record s.system.gate { counters = x.counters }; log = log };
      exchanges = record { request = req; tables = s.tables; response = r } ∷ s.exchanges;
    }

    abbrev pub noted : Request → Bytes → Server J → Log
    noted req body s = note_response (handled refusing req body s).1.code s.system.log

    pub data Step (H : Sha256) (p : Paths) (s : Server J) : Server J → Type 0 where
      -- A request for anything but /risk and a POST of a price is answered.
      handle :
          (req : Request) (body : Bytes)
          → equal req.path (codes "/risk") ≡ false
          → is_post req ≡ false
          → Step H p s (settled (noted req body s) req (handled refusing req body s) s)
      -- A POST of a price is refused, or appended to the log, and published.
      reject :
          (req : Request) (body : Bytes)
          → is_post req ≡ true
          → accepted (decode body) ≡ none
          → Step H p s (responded req (bad_request J) s)
      append :
          (req : Request) (body sym : Bytes) (v : Price) (disk : Disk)
          → is_post req ≡ true
          → accepted (decode body) ≡ some (sym, v)
          → Step H p s (appended req sym v (append_wal J disk sym v s.wal) s)
      publish :
          (before after : List (Post J)) (q : Post J)
          → s.posts ≡ before ++ q ∷ after
          → Step H p s (
              responded q.request
                (record { code = 200; body = build_price_resp J q.symbol q.price })
                (record s {
                  tables = store_price J q.symbol q.price s.tables;
                  posts = before ++ after;
                }))
      -- A request for /risk enters `riskSubmit`, and what that returns is answered.
      arrive :
          (now : ℕ) (req : Request) (body : Bytes)
          → equal req.path (codes "/risk") ≡ true
          → Step H p s (entered req body (enter now (seed_of req) s.system.gate) s)
      answer :
          (before after : List Call) (c : Call) (o : Option Bytes)
          → s.calls ≡ before ++ c ∷ after
          → Returned s.system.gate c.entry o
          → Step H p s
              (record (settled s.system.log c.request
                (handled (returning (seed_of c.request) o) c.request c.body s)
                s) { calls = before ++ after })
      -- A worker sends a digest that running its batch gave, for the waiter that is next.
      send_digest :
          (before after : List Phase) (ids : List ℕ) (i k : ℕ) (w : Waiter) (h : Bytes)
          (batch rest : List Job) (es : List Event) (later : List Job)
          → s.system.workers ≡ before ++ running (i ∷ ids) ∷ after
          → get_elem? s.system.gate.heap i ≡ some w
          → length batch ≤ 16
          → drop k batch ≡ (i, w.seed) ∷ rest
          → map (λ q. q.0) rest ≡ ids
          → run_batch H p batch ≡ some es
          → drop k (sends es) ≡ (i, h) ∷ later
          → Step H p s (record s {
            system = record s.system {
              gate = deliver i h s.system.gate;
              workers = before ++ running ids ∷ after;
            };
          })
      -- A waiter or a worker goes on in the gate.
      inner :
          {t : System}
          → IsInner s.system t
          → ((chain : Bytes → Bytes) → Defs.Step chain s.system t)
          → Step H p s (record s { system = t })

    pub data Run (H : Sha256) (p : Paths) (s : Server J) : Server J → Type 0 where
      start : Run H p s s
      next : {t u : Server J} → Run H p s t → Step H p t u → Run H p s u

  -- Before the first request.
  abbrev pub listening : Process J → System → Server J
  listening x system = record {
    tables = x.tables;
    wal = x.wal;
    system = system;
    posts = [];
    calls = [];
    exchanges = [];
  }
