-- ===== src/Gate/System/Digests.antt =====
-- Who gets an answer, and which: a served request has the digest of its own seed, and a refused
-- one was never taken by a worker.
use obsidio.Prelude.{ℕ, ◌≡◌, refl, true, false, [], Option, none, some, get_elem?, All-get}
use obsidio.Prelude.Env.{Bytes}
use obsidio.Governor.{Counters}
use obsidio.Gate.System.Defs.{System, Reach, initial}
use obsidio.Gate.{served, refused, Waiter}
use obsidio.Gate.System.Owned.{ResultOk, WaiterOk}
use obsidio.Gate.System.Delivery.{Reach-Inv, scanning-BatchOk}

module _ {chain : Bytes → Bytes} (c : Counters) (budget patience slots : ℕ) (t : System)
    (r : Reach chain (initial c budget patience slots) t) (i : ℕ) (w : Waiter)
    (at_i : get_elem? t.gate.heap i ≡ some w) where
  reached : WaiterOk chain w
  reached =
      All-get (WaiterOk chain) t.gate.heap i w at_i
        (Reach-Inv (record { waiters = tt; batches = scanning-BatchOk [] slots }) r).waiters

  -- In every interleaving from boot a request answered with a digest is answered with the chain of
  -- its own seed and was not abandoned.
  pub served_digest : (h : Bytes) → w.pc ≡ served h → (h ≡ chain w.seed) × (w.abandoned ≡ false)
  served_digest h e =
      let p : (w.abandoned ≡ false) × (w.result ≡ some h) = rw e at reached.0 in
      let d : ResultOk chain w.seed (some h) w.taken = rw p.1 at reached.1 in (d.1, p.0)

  -- In every interleaving from boot a request refused after it parked was never taken by a worker
  -- and got no digest.
  pub refused_untaken : w.pc ≡ refused → (w.taken ≡ false) × (w.result ≡ none)
  refused_untaken e =
      let p : (w.abandoned ≡ true) × (w.taken ≡ false) = rw e at reached.0 in
      (p.1, undelivered w.result (rw p.1 at reached.1))
    where
      undelivered : (o : Option Bytes) → ResultOk chain w.seed o false → o ≡ none
      undelivered none k = refl
      undelivered (some h) k = cc
