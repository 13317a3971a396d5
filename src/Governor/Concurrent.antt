-- ===== src/Governor/Concurrent.antt =====
-- `shedReserveError` as any number of goroutines run it at once: each of its atomic operations
-- is a step, and other code counts responses in between.
use obsidio.Prelude.{
  ℕ, zero, suc, ◌+◌, ◌-◌, ◌*◌, ◌≤◌, ◌≡◌, ◌≢◌, inl, inr, Bool, true, false, arith, Bool-cases, ◌==◌,
  if◌then◌else◌,
}
use native.Mathlib.Nat.{mul-le-mul_right, le-add_right, zero-sub}
use obsidio.Governor.{Counters, may_shed}
use obsidio.Governor.Budget.{WithinBudget, charge-WithinBudget, may_shed_iff}

-- Where a goroutine stands: before the load of `ok`, before the load of `er`, before the swap.
pub data Pc : Type 0 where
  start : Pc
  loaded_ok : ℕ → Pc
  loaded : ℕ → ℕ → Pc
  returned : Bool → Pc

pub record System : Type 0 where
  pub counters : Counters
  pub pc : ℕ → Pc

abbrev pub update : (ℕ → Pc) → ℕ → Pc → ℕ → Pc
update f i p j = if i == j then p else f j

abbrev pub at_pc : System → ℕ → Pc → System
at_pc s i p = record s { pc = update s.pc i p }

-- The second load and the two tests after it.
unfoldable pub after_load : ℕ → ℕ → ℕ → Pc
after_load budget ok er = if may_shed budget ok er then loaded ok er else returned false

-- With `others` set, errors other than sheds are counted too.
pub data Step (budget : ℕ) (others : Bool) (s : System) : System → Type 0 where
  load_ok : (i : ℕ) → s.pc i ≡ start → Step budget others s (at_pc s i (loaded_ok s.counters.ok))
  load_err :
      (i ok : ℕ)
      → s.pc i ≡ loaded_ok ok
      → Step budget others s (at_pc s i (after_load budget ok s.counters.err))
  swap :
      (i ok er : ℕ)
      → s.pc i ≡ loaded ok er
      → s.counters.err ≡ er
      → Step budget others s (record {
        counters = record { ok = s.counters.ok; err = er + 1 };
        pc = update s.pc i (returned true);
      })
  swap_failed :
      (i ok er : ℕ)
      → s.pc i ≡ loaded ok er
      → s.counters.err ≢ er
      → Step budget others s (at_pc s i (loaded_ok ok))
  again : (i : ℕ) (b : Bool) → s.pc i ≡ returned b → Step budget others s (at_pc s i start)
  success :
      Step budget others s
        (record s { counters = record { ok = s.counters.ok + 1; err = s.counters.err } })
  failure :
      others ≡ true
      → Step budget others s
          (record s { counters = record { ok = s.counters.ok; err = s.counters.err + 1 } })
  undo :
      Step budget others s
        (record s { counters = record { ok = s.counters.ok; err = s.counters.err - 1 } })

pub data Reach (budget : ℕ) (others : Bool) (s : System) : System → Type 0 where
  here : Reach budget others s s
  more : {t u : System} → Reach budget others s t → Step budget others t u → Reach budget others s u

-- What a goroutine knows: its `ok` was counted at some time, and its `er` passed the tests.
abbrev Knows : ℕ → ℕ → Pc → Type 0
Knows budget ok start = Unit
Knows budget ok (loaded_ok o) = o ≤ ok
Knows budget ok (loaded o er) = (o ≤ ok) × (may_shed budget o er ≡ true)
Knows budget ok (returned b) = Unit

abbrev Inv : ℕ → System → Type 0
Inv budget s = (i : ℕ) → Knows budget s.counters.ok (s.pc i)

Knows-mono : (budget : ℕ) {m n : ℕ} (p : Pc) → m ≤ n → Knows budget m p → Knows budget n p
Knows-mono budget start h k = tt
Knows-mono budget (loaded_ok o) h k = omega arith
Knows-mono budget (loaded o er) h k = (omega arith, k.1)
Knows-mono budget (returned b) h k = tt

update-Knows :
    (budget ok : ℕ) (f : ℕ → Pc) (i : ℕ) (p : Pc)
    → ((j : ℕ) → Knows budget ok (f j))
    → Knows budget ok p
    → (j : ℕ) → Knows budget ok (update f i p j)
update-Knows budget ok f i p all k j = elim (Bool-cases (i == j)) [
  | inl e ↦ rw e k
  | inr e ↦ rw e (all j)
]

after_load-Knows : (budget n ok er : ℕ) → ok ≤ n → Knows budget n (after_load budget ok er)
unfolding after_load
after_load-Knows budget n ok er h = elim (Bool-cases (may_shed budget ok er)) [
  | inl e ↦ rw e (h, e)
  | inr e ↦ rw e tt
]

Step-Inv :
    {budget : ℕ} {others : Bool} {s t : System}
    → Step budget others s t
    → Inv budget s
    → Inv budget t
Step-Inv {budget} {others} {s} (load_ok i e) v =
    update-Knows budget s.counters.ok s.pc i (loaded_ok s.counters.ok) v (omega arith)
Step-Inv {budget} {others} {s} (load_err i ok e) v =
    update-Knows budget s.counters.ok s.pc i _ v
      (after_load-Knows budget s.counters.ok ok s.counters.err (rw e at (v i)))
Step-Inv {budget} {others} {s} (swap i ok er e c) v =
    update-Knows budget s.counters.ok s.pc i (returned true) v tt
Step-Inv {budget} {others} {s} (swap_failed i ok er e c) v =
    let k : Knows budget s.counters.ok (loaded ok er) = rw e at (v i) in
    update-Knows budget s.counters.ok s.pc i (loaded_ok ok) v k.0
Step-Inv {budget} {others} {s} (again i b e) v = update-Knows budget s.counters.ok s.pc i start v tt
Step-Inv {budget} {others} {s} success v = λ i. Knows-mono budget (s.pc i) (omega arith) (v i)
Step-Inv (failure o) v = v
Step-Inv undo v = v

Reach-Inv :
    {budget : ℕ} {others : Bool} {s t : System}
    → Inv budget s
    → Reach budget others s t
    → Inv budget t
Reach-Inv v here = v
Reach-Inv v (more r st) = Step-Inv st (Reach-Inv v r)

-- No goroutine is inside `shedReserveError`.
abbrev pub quiet : Counters → System
quiet c = record { counters = c; pc = λ i. start }

quiet-Inv : (budget : ℕ) (c : Counters) → Inv budget (quiet c)
quiet-Inv budget c i = tt

-- In every interleaving with any other errors, when a goroutine's swap in shedReserveError
-- succeeds, at least 500 responses are counted and the errors with the new one are within the
-- budget.
swap-WithinBudget :
    (budget : ℕ) (others : Bool) (c : Counters) (s : System) (i ok er : ℕ)
    → Reach budget others (quiet c) s
    → s.pc i ≡ loaded ok er
    → s.counters.err ≡ er
    → (500 ≤ s.counters.ok + s.counters.err)
      × WithinBudget budget (record { ok = s.counters.ok; err = er + 1 })
swap-WithinBudget budget others c s i ok er r e same =
    let k : Knows budget s.counters.ok (loaded ok er) =
      rw e at (Reach-Inv (quiet-Inv budget c) r i) in
    let tests = (may_shed_iff budget ok er).0 k.1 in
    let le : (ok + er) * budget ≤ (s.counters.ok + er) * budget =
      mul-le-mul_right budget (omega arith) in
    (omega arith, omega arith)

undo-WithinBudget :
    (budget ok err : ℕ)
    → budget ≤ 10000
    → WithinBudget budget (record { ok = ok; err = err })
    → WithinBudget budget (record { ok = ok; err = err - 1 })
undo-WithinBudget budget ok zero small w = rw zero-sub w
undo-WithinBudget budget ok (suc err) small w =
    let e : suc err - 1 ≡ err = omega arith in rw e (omega arith)

Step-WithinBudget :
    {budget : ℕ} {s t : System}
    → budget ≤ 10000
    → Inv budget s
    → WithinBudget budget s.counters
    → Step budget false s t
    → WithinBudget budget t.counters
Step-WithinBudget small v w (load_ok i e) = w
Step-WithinBudget small v w (load_err i ok e) = w
Step-WithinBudget {budget} {s} small v w (swap i ok er e same) =
    let k : Knows budget s.counters.ok (loaded ok er) = rw e at (v i) in
    charge-WithinBudget budget ok (record { ok = s.counters.ok; err = er }) k.0 k.1
Step-WithinBudget small v w (swap_failed i ok er e ne) = w
Step-WithinBudget small v w (again i b e) = w
Step-WithinBudget {budget} {s} small v w success =
    let le = mul-le-mul_right budget (le-add_right (s.counters.ok + s.counters.err) 1) in
    omega (arith, le)
Step-WithinBudget small v w (failure o) = cc
Step-WithinBudget {budget} {s} small v w undo =
    undo-WithinBudget budget s.counters.ok s.counters.err small w

-- For a budget of at most 10000 basis points and counters within it at the start, while sheds are
-- the only errors, the errors stay within the budget in every interleaving of the loads and swaps
-- of any number of goroutines and of the reservations given back.
pub Reach-WithinBudget :
    {budget : ℕ} {c : Counters} {t : System}
    → budget ≤ 10000
    → WithinBudget budget c
    → Reach budget false (quiet c) t
    → WithinBudget budget t.counters
Reach-WithinBudget small w here = w
Reach-WithinBudget {budget} {c} small w (more r st) =
    Step-WithinBudget small (Reach-Inv (quiet-Inv budget c) r) (Reach-WithinBudget small w r) st
