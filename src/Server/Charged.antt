-- ===== src/Server/Charged.antt =====
-- The counters of the running process beside all the responses that it gave.
use obsidio.Prelude.Text.{equal}
use obsidio.Prelude.{
  ℕ, ◌+◌, ◌≡◌, refl, inl, inr, true, List, Option, none, some, Bool-cases, weigh, sum_of-below,
  sum_of-parts, sum_of-none, sum_of-one, sum_of, get_elem?, arith,
}
use obsidio.Prelude.Env.{codes}
use obsidio.Kernel.Chain.{Sha256}
use obsidio.Governor.{Counters}
use obsidio.Gate.System.Accounting.{owes, owes_at}
use obsidio.Worker.Batch.{PathsCorrect}
use obsidio.Prices.{Codec, Process}
use obsidio.App.{World}
use obsidio.Gate.{
  Waiter, Entry, Pc, waking, waiting, leaving, collecting, parked, shed, served, refused,
}
use obsidio.Gate.System.Defs.{initial}
use obsidio.Gate.System.Ended.{Ended, ends, is_refused, is_served}
use obsidio.Worker.{Paths}
use obsidio.Server.{Exchange, Call, Server, Run, listening}
use obsidio.Server.Accounting.{error_at, ok_of, error_of, responses_counted}
use obsidio.Server.Ledger.{entry_weight, call_weight}
use obsidio.Server.Ledger.Steps.{Ledger, risk_error_of}
use obsidio.Server.Ledger.Runs.{no_calls, Run-Ledger}

module _ (J : Codec) (W : World J) where
  -- An error that was answered.
  abbrev pub any_error_of : Exchange J → ℕ
  any_error_of e = error_at e.response.code

  -- What a goroutine in `riskSubmit` has charged so far and not taken back.
  abbrev pub owes_in : List Waiter → ℕ → ℕ
  owes_in heap i = weigh owes (get_elem? heap i)

  any_error-parts : (e : Exchange J) → any_error_of e ≡ error_of J W e + risk_error_of J W e
  any_error-parts e = elim (Bool-cases (equal e.request.path (codes "/risk"))) [
    | inl risk ↦ rw risk (omega arith)
    | inr other ↦ rw other (omega arith)
  ]

  call_weight-parts :
      (f : ℕ → ℕ) (c : Call) → call_weight 1 f c ≡ call_weight 0 f c + call_weight 1 (λ i. 0) c
  call_weight-parts f c = parts c.entry
    where
      parts : (e : Entry) → entry_weight 1 f e ≡ entry_weight 0 f e + entry_weight 1 (λ i. 0) e
      parts shed = refl
      parts (parked i) = omega arith

  served-owes : (heap : List Waiter) (i : ℕ) → Ended is_served heap i → owes_in heap i ≡ 0
  served-owes heap i h = owes_nothing (get_elem? heap i) h
    where
      owes_nothing : (o : Option Waiter) → ends is_served o ≡ true → weigh owes o ≡ 0
      owes_nothing none h = refl
      owes_nothing (some w) h = at w.pc h
        where
          at : (p : Pc) → is_served p ≡ true → owes_at p ≡ 0
          at (served d) h = refl
          at waking h = cc
          at waiting h = cc
          at (leaving r) h = cc
          at collecting h = cc
          at refused h = cc

  refused-owes : (heap : List Waiter) (i : ℕ) → Ended is_refused heap i → owes_in heap i ≡ 1
  refused-owes heap i h = owes_one (get_elem? heap i) h
    where
      owes_one : (o : Option Waiter) → ends is_refused o ≡ true → weigh owes o ≡ 1
      owes_one none h = cc
      owes_one (some w) h = at w.pc h
        where
          at : (p : Pc) → is_refused p ≡ true → owes_at p ≡ 1
          at refused h = refl
          at (served d) h = cc
          at waking h = cc
          at waiting h = cc
          at (leaving r) h = cc
          at collecting h = cc

  owed-Ledger :
      (s : Server J)
      → Ledger J W s
      → s.system.log.door + sum_of owes s.system.gate.heap
        ≡ sum_of (risk_error_of J W) s.exchanges
          + sum_of (call_weight 1 (owes_in s.system.gate.heap)) s.calls
  owed-Ledger s v =
      let f = owes_in s.system.gate.heap in
      omega (
        arith,
        sum_of-below owes s.system.gate.heap,
        v.placed.each f,
        sum_of-none f v.done (served-owes s.system.gate.heap) v.placed.done_served,
        sum_of-one f v.out (refused-owes s.system.gate.heap) v.placed.out_refused,
        v.told,
        sum_of-parts _ _ _ s.calls (call_weight-parts f),
      )

  module _ (H : Sha256) (p : Paths) where
    -- With correct batch paths, from the boot on and in every order of the steps of the process,
    -- the counter of successes is its value at the boot plus the responses below 400, and the error
    -- counter is its value at the boot plus one for each stale waiter that was skipped, one for
    -- each response from 400 on, on any path, and what the requests that are inside riskSubmit
    -- hold: one for each that was refused or holds a reservation.
    pub counters_balance :
        (x : Process J) (c : Counters) (budget patience slots : ℕ) (s : Server J)
        → PathsCorrect H p
        → Run J W H p (listening J x (initial c budget patience slots)) s
        → (s.system.gate.counters.ok ≡ c.ok + sum_of (ok_of J W) s.exchanges)
          × (s.system.gate.counters.err
              ≡ c.err
                + s.system.log.stale
                + sum_of any_error_of s.exchanges
                + sum_of (call_weight 1 (owes_in s.system.gate.heap)) s.calls)
    counters_balance x c budget patience slots s correct run =
        let (ok, err) = responses_counted J W H p x c budget patience slots s correct run in
        let (v, _, _) = Run-Ledger J W run tt tt (no_calls J W x c budget patience slots) in
        (ok, omega (arith, err, owed-Ledger s v, sum_of-parts _ _ _ s.exchanges any_error-parts))
