-- ===== src/Governor/Budget.antt =====
-- What the shed budget guarantees, for `shedReserveError` and `initShedBudget` of app/main.go.
use obsidio.Prelude.{
  ℕ, ◌+◌, ◌*◌, ◌≤◌, ◌<◌, ◌≡◌, ◌↔◌, inl, inr, Bool, true, List, [], ◌∷◌, Option, none, some, arith,
  Bool-cases, ltb, if◌then◌else◌,
}
use native.Mathlib.Nat.{mul-le-mul_left, mul-le-mul_right, mul-pos, le-add_right, le_trans}
use obsidio.Prelude.Env.{Bytes, ℤ, pos, negsuc, atoi}
use obsidio.Governor.{
  Counters, count_response, may_shed, shed_reserve_error, gate_bp, init_shed_budget, env_between,
}

-- The errors counted so far stay within the budget, in basis points of all responses.
abbrev pub WithinBudget : ℕ → Counters → Type 0
WithinBudget budget c = c.err * 10000 ≤ (c.ok + c.err) * budget

pub may_shed_iff :
    (budget ok er : ℕ)
    → (may_shed budget ok er ≡ true) ↔ ((500 ≤ ok + er) × ((er + 1) * 10000 ≤ (ok + er) * budget))
unfolding may_shed
may_shed_iff budget ok er = ground arith

-- One more error that passed the test leaves the counters within the budget, also when more
-- responses succeeded since the test's load of `ok`.
pub charge-WithinBudget :
    (budget ok : ℕ) (c : Counters)
    → ok ≤ c.ok
    → may_shed budget ok c.err ≡ true
    → WithinBudget budget (record c { err = c.err + 1 })
charge-WithinBudget budget ok c le h = grind (arith, (may_shed_iff budget ok c.err).0 h)

-- A reservation succeeds exactly when at least 500 responses were counted and one more error keeps
-- the errors within the budget of those; it then counts exactly that error, and otherwise changes
-- no counter.
pub shed_reserve_error_lem :
    (budget : ℕ) (c : Counters)
    → (((shed_reserve_error budget c).1 ≡ true)
        ↔ ((500 ≤ c.ok + c.err) × ((c.err + 1) * 10000 ≤ (c.ok + c.err) * budget)))
      × ((shed_reserve_error budget c).0
          ≡ (if (shed_reserve_error budget c).1 then record { ok = c.ok; err = c.err + 1 } else c))
unfolding shed_reserve_error may_shed
shed_reserve_error_lem budget c = ground arith

-- What a process does to its counters when sheds are its only errors.
pub data Event : Type 0 where
  respond : ℕ → Event
  shed : Event

abbrev pub is_success : Event → Bool
is_success (respond code) = ltb code 400
is_success shed = true

abbrev pub next : ℕ → Event → Counters → Counters
next budget (respond code) c = count_response code c
next budget shed c = (shed_reserve_error budget c).0

abbrev pub run : ℕ → List Event → Counters → Counters
run budget [] c = c
run budget (e ∷ es) c = run budget es (next budget e c)

abbrev pub AllSucceed : List Event → Type 0
AllSucceed [] = Unit
AllSucceed (e ∷ es) = (is_success e ≡ true) × AllSucceed es

pub shed-WithinBudget :
    (budget : ℕ) (c : Counters)
    → WithinBudget budget c
    → WithinBudget budget (shed_reserve_error budget c).0
unfolding shed_reserve_error
shed-WithinBudget budget c w = elim (Bool-cases (may_shed budget c.ok c.err)) [
  | inl h ↦ rw h (charge-WithinBudget budget c.ok c (omega arith) h)
  | inr h ↦ rw h w
]

count_response-WithinBudget :
    (budget code : ℕ) (c : Counters)
    → ltb code 400 ≡ true
    → WithinBudget budget c
    → WithinBudget budget (count_response code c)
unfolding count_response
count_response-WithinBudget budget code c s w =
    rw s (omega (arith, mul-le-mul_right budget (le-add_right (c.ok + c.err) 1)))

next-WithinBudget :
    (budget : ℕ) (e : Event) (c : Counters)
    → is_success e ≡ true
    → WithinBudget budget c
    → WithinBudget budget (next budget e c)
next-WithinBudget budget (respond code) c s w = count_response-WithinBudget budget code c s w
next-WithinBudget budget shed c s w = shed-WithinBudget budget c w

-- From counters within the budget, however successful responses and shed attempts follow one
-- another, the errors stay within the budget.
pub run-WithinBudget :
    (budget : ℕ) (es : List Event) (c : Counters)
    → AllSucceed es
    → WithinBudget budget c
    → WithinBudget budget (run budget es c)
run-WithinBudget budget [] c s w = w
run-WithinBudget budget (e ∷ es) c s w =
    run-WithinBudget budget es (next budget e c) s.1 (next-WithinBudget budget e c s.0 w)

gate_bp_bounds : (s : Bytes) → (10 ≤ gate_bp s) × (gate_bp s ≤ 1000)
unfolding gate_bp
gate_bp_bounds s = go (atoi s)
  where
    go : (v : Option ℤ) → (10 ≤ env_between 10 1000 100 v) × (env_between 10 1000 100 v ≤ 1000)
    go none = omega arith
    go (some (pos v)) = ground arith
    go (some (negsuc v)) = omega arith

-- Whatever the two environment variables hold, the error gate lies between 10 and 1000 basis points
-- and the budget is at most 95% of it.
pub init_shed_budget-le :
    (gate_env budget_env : Bytes)
    → (10 ≤ gate_bp gate_env)
      × (gate_bp gate_env ≤ 1000)
      × (init_shed_budget gate_env budget_env * 100 ≤ gate_bp gate_env * 95)
unfolding init_shed_budget
init_shed_budget-le g b = let bounds = gate_bp_bounds g in (bounds.0, bounds.1, ground arith)

below_gate :
    (e t budget gate : ℕ)
    → e * 10000 ≤ t * budget
    → budget * 100 ≤ gate * 95
    → 10 ≤ gate
    → 0 < t
    → e * 10000 < t * gate
below_gate e t budget gate w le ten some_t =
    omega (arith, mul-le-mul_left t le, mul-pos some_t (le_trans le_one ten))
  where
    le_one : 1 ≤ 10
    le_one = omega arith

-- With the budget that initShedBudget derives from any environment, from zero counters, with sheds
-- as the only errors, fewer errors than the gate allows are counted at any time after the first
-- response.
pub run-below_gate :
    (gate_env budget_env : Bytes) (es : List Event)
    → let c = run (init_shed_budget gate_env budget_env) es (record { ok = 0; err = 0 }) in
      AllSucceed es → 0 < c.ok + c.err → c.err * 10000 < (c.ok + c.err) * gate_bp gate_env
run-below_gate g b es s h =
    let le = init_shed_budget-le g b in
    below_gate _ _ (init_shed_budget g b) (gate_bp g)
      (run-WithinBudget (init_shed_budget g b) es _ s (omega arith)) le.2 le.0 h
