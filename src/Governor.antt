-- ===== src/Governor.antt =====
-- The error budget of app/main.go: the response counters, the shed budget and the reservation
-- of one error. Counters are `int64` in the source and count responses of one process.
pub mod Budget
pub mod Concurrent
mod Tests
use obsidio.Prelude.{
  ℕ, ◌+◌, ◌*◌, ◌/◌, Bool, true, false, ◌&&◌, Option, none, some, ltb, leb, if◌then◌else◌,
}
use obsidio.Prelude.Env.{Bytes, ℤ, pos, negsuc, atoi}

-- `respOK` and `respErr`.
pub record Counters : Type 0 where
  pub ok : ℕ
  pub err : ℕ

-- What `writeJSON` adds for a response with this status.
unfoldable pub count_response : ℕ → Counters → Counters
count_response code c =
    if ltb code 400 then record c { ok = c.ok + 1 } else record c { err = c.err + 1 }

-- `atomic.AddInt64(&respErr, 1)`.
abbrev pub charge : Counters → Counters
charge c = record c { err = c.err + 1 }

-- The two tests of the loop in `shedReserveError`, on the values that it loaded.
unfoldable pub may_shed : ℕ → ℕ → ℕ → Bool
may_shed budget ok er =
    let total = ok + er in
    if ltb total 500 then false else if ltb (total * budget) ((er + 1) * 10000) then false else true

-- `shedReserveError` when no other goroutine writes between its loads and its swap.
unfoldable pub shed_reserve_error : ℕ → Counters → Counters × Bool
unfolding may_shed
shed_reserve_error budget c =
    if may_shed budget c.ok c.err then (record c { err = c.err + 1 }, true) else (c, false)

-- `v, err := strconv.Atoi(s); err == nil && lo <= v && v <= hi`; "" is no number.
abbrev pub env_between : ℕ → ℕ → ℕ → Option ℤ → ℕ
env_between lo hi otherwise (some (pos v)) = if leb lo v && leb v hi then v else otherwise
env_between lo hi otherwise (some (negsuc v)) = otherwise
env_between lo hi otherwise none = otherwise

abbrev pub env_from : ℕ → ℕ → Option ℤ → ℕ
env_from lo otherwise (some (pos v)) = if leb lo v then v else otherwise
env_from lo otherwise (some (negsuc v)) = otherwise
env_from lo otherwise none = otherwise

-- The error gate in basis points, from RISK_ERR_GATE_BP.
unfoldable pub gate_bp : Bytes → ℕ
unfolding atoi
gate_bp s = env_between 10 1000 100 (atoi s)

-- `initShedBudget`, from RISK_ERR_GATE_BP and RISK_SHED_BUDGET_BP.
unfoldable pub init_shed_budget : Bytes → Bytes → ℕ
unfolding gate_bp atoi
init_shed_budget gate_env budget_env =
    let gate = gate_bp gate_env in
    let budget = env_from 0 (gate * 88 / 100) (atoi budget_env) in
    let max = gate * 95 / 100 in if ltb max budget then max else budget
