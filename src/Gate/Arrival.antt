-- ===== src/Gate/Arrival.antt =====
-- What `riskSubmit` decides on arrival.
use obsidio.Prelude.{
  ℕ, ◌≤◌, ◌<◌, ◌≡◌, ◌⊎◌, refl, inl, inr, true, false, ◌&&◌, arith, Bool-cases, ltb, leb, ◌==◌,
  length,
}
use obsidio.Prelude.Env.{Bytes}
use obsidio.Governor.{charge, may_shed, shed_reserve_error}
use obsidio.Gate.{Gate, parked, shed, push, front_door, enter}

-- An arrival is refused exactly when the stack is at its backstop, or when somebody already waits,
-- no worker is idle and the budget allows one more error; a refusal charges one error and changes
-- nothing else, and otherwise the request is on top of the stack and the counters are as before.
pub enter_lem :
    (now : ℕ) (seed : Bytes) (g : Gate)
    → ((enter now seed g ≡ (record g { counters = charge g.counters }, shed))
        × ((2048 ≤ g.depth)
            ⊎ ((0 < g.depth)
                × (g.idle ≡ 0)
                × (may_shed g.budget g.counters.ok g.counters.err ≡ true))))
      ⊎ ((enter now seed g ≡ (push now seed g, parked (length g.heap)))
          × (g.depth < 2048)
          × ((g.depth ≡ 0)
              ⊎ ((0 < g.idle) ⊎ (may_shed g.budget g.counters.ok g.counters.err ≡ false))))
unfolding enter front_door shed_reserve_error
enter_lem now seed g = elim (Bool-cases (leb 2048 g.depth)) [
  | inl full ↦ inl (rw full refl, inl (ground arith))
  | inr room ↦ elim (Bool-cases (ltb 0 g.depth && g.idle == 0)) [
    | inr calm ↦ inr (rw (room, calm) refl, ground arith, ground arith)
    | inl busy ↦ elim (Bool-cases (may_shed g.budget g.counters.ok g.counters.err)) [
      | inl allowed ↦ inl (rw (room, busy, allowed) refl, inr (ground arith, ground arith, allowed))
      | inr over ↦ inr (rw (room, busy, over) refl, ground arith, inr (inr over))
    ]
  ]
]
