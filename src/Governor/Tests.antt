-- ===== src/Governor/Tests.antt =====
-- The theorems on the error budget at concrete counters.
use obsidio.Prelude.{◌+◌, ◌*◌, ◌<◌, ◌≡◌, refl, true, List, [], ◌∷◌, arith}
use obsidio.Prelude.Env.{codes}
use obsidio.Governor.Budget.{Event, respond, shed, run, WithinBudget, run-below_gate}
use obsidio.Governor.Concurrent.{
  System, Reach, here, more, load_ok, load_err, loaded_ok, quiet, Reach-WithinBudget, at_pc,
  after_load,
}
use obsidio.Governor.{Counters, shed_reserve_error, gate_bp, init_shed_budget, count_response}

abbrev thousand : Counters
thousand = record { ok = 1000; err = 3 }

default_budget : init_shed_budget (codes "") (codes "") ≡ 88
unfolding init_shed_budget
default_budget = refl

clamped_budget : init_shed_budget (codes "50") (codes "+9999") ≡ 47
unfolding init_shed_budget
clamped_budget = refl

abbrev events : List Event
events = respond 200 ∷ shed ∷ shed ∷ respond 200 ∷ []

run-below_gate_example :
    let c = run (init_shed_budget (codes "") (codes "5000")) events (record { ok = 0; err = 0 }) in
    c.err * 10000 < (c.ok + c.err) * gate_bp (codes "")
unfolding init_shed_budget count_response shed_reserve_error
run-below_gate_example =
    run-below_gate (codes "") (codes "5000") events (refl, (refl, (refl, (refl, tt)))) (omega arith)

-- One goroutine has loaded both counters.
abbrev one_loaded : System
one_loaded = at_pc (at_pc (quiet thousand) 7 (loaded_ok 1000)) 7 (after_load 88 1000 3)

one_loaded-Reach : Reach 88 true (quiet thousand) one_loaded
one_loaded-Reach = more (more here (load_ok 7 refl)) (load_err 7 1000 refl)

Reach-WithinBudget_example :
    WithinBudget 88
      (at_pc (at_pc (quiet thousand) 7 (loaded_ok 1000)) 7 (after_load 88 1000 3)).counters
Reach-WithinBudget_example =
    Reach-WithinBudget {budget = 88} {c = thousand} {t = one_loaded} (omega arith) (omega arith)
      (more (more here (load_ok 7 refl)) (load_err 7 1000 refl))
