-- ===== src/Gate/System/Ended.antt =====
-- A goroutine that returned from `riskSubmit` stays where it is.
use obsidio.Prelude.{
  ℕ, ◌≡◌, refl, ap, ◌∙◌, inl, inr, Bool, true, false, List, [], ◌∷◌, Option, none, some, get_elem?,
  get_elem?-modify, get_elem?-set_keeps, get_elem?-append_keeps, modify, set, arith,
}
use obsidio.Prelude.Env.{Bytes}
use obsidio.Gate.{
  Gate, Waiter, Pc, waking, waiting, leaving, collecting, served, refused, enter, wake, deliver,
  mark_taken, take_work,
}
use obsidio.Gate.Arrival.{enter_lem}
use obsidio.Gate.Take.{mark_all, take_work-Takes}
use obsidio.Gate.System.Defs.{
  System, Step, after_signal, after_leave, arrive, send_wake, signal, depart, collect, cancel,
  take_some, send_result, finish, sleep, rouse, resume, respond, retune,
}

abbrev pub ends : (Pc → Bool) → Option Waiter → Bool
ends f none = false
ends f (some w) = f w.pc

-- The waiter at an address is at a position that the test accepts.
abbrev pub Ended : (Pc → Bool) → List Waiter → ℕ → Type 0
Ended f heap i = ends f (get_elem? heap i) ≡ true

abbrev pub is_refused : Pc → Bool
is_refused refused = true
is_refused waking = false
is_refused waiting = false
is_refused (leaving reserved) = false
is_refused collecting = false
is_refused (served h) = false

abbrev pub is_served : Pc → Bool
is_served (served h) = true
is_served refused = false
is_served waking = false
is_served waiting = false
is_served (leaving reserved) = false
is_served collecting = false

-- A test that accepts no position from which a goroutine goes on.
abbrev pub AtEnd : (Pc → Bool) → Type 0
AtEnd f =
    (f waking ≡ false)
    × (f waiting ≡ false)
    × ((reserved : Bool) → f (leaving reserved) ≡ false)
    × (f collecting ≡ false)

pub wake-heap : (g : Gate) → (wake g).heap ≡ g.heap
unfolding wake
wake-heap g = ground arith

module _ (f : Pc → Bool) (i : ℕ) where
  -- A waiter from which the goroutine goes on is not the one that ended.
  put-Ended :
      (heap : List Waiter) (j : ℕ) (w w' : Waiter)
      → get_elem? heap j ≡ some w
      → f w.pc ≡ false
      → Ended f heap i
      → Ended f (set heap j w') i
  put-Ended heap j w w' e busy h = get_elem?-set_keeps (ends f) heap i j w w' e (λ k. cc) h

  modify-Ended :
      (heap : List Waiter) (j : ℕ) (g : Waiter → Waiter)
      → ((w : Waiter) → (g w).pc ≡ w.pc)
      → Ended f heap i
      → Ended f (modify heap j g) i
  modify-Ended heap j g same h = get_elem?-modify (ends f) g heap j i (λ w. ap f (same w)) ∙ h

  mark_all-Ended :
      (ids : List ℕ) (heap : List Waiter) → Ended f heap i → Ended f (mark_all ids heap) i
  mark_all-Ended [] heap h = h
  mark_all-Ended (j ∷ ids) heap h =
      mark_all-Ended ids (modify heap j mark_taken) (modify-Ended heap j mark_taken (λ w. refl) h)

  pub enter-Ended :
      (now : ℕ) (seed : Bytes) (g : Gate) → Ended f g.heap i → Ended f (enter now seed g).0.heap i
  enter-Ended now seed g h = elim (enter_lem now seed g) [
    | inl out ↦ rw out.0 h
    | inr into ↦ rw into.0 (get_elem?-append_keeps (ends f) g.heap _ i refl h)
  ]

  pub deliver-Ended :
      (j : ℕ) (d : Bytes) (g : Gate) → Ended f g.heap i → Ended f (deliver j d g).heap i
  unfolding deliver
  deliver-Ended j d g h = modify-Ended g.heap j _ (λ w. refl) h

  pub Step-Ended :
      {chain : Bytes → Bytes} {s t : System}
      → AtEnd f
      → Step chain s t
      → Ended f s.gate.heap i
      → Ended f t.gate.heap i
  unfolding after_signal after_leave
  Step-Ended {s = s} a (arrive now new) h = enter-Ended now new s.gate h
  Step-Ended {s = s} a (send_wake j w e at_pc) h =
      rw wake-heap (put-Ended s.gate.heap j w _ e (ap f at_pc ∙ a.0) h)
  Step-Ended {s = s} a (signal j w sig e at_pc ready) h =
      put-Ended s.gate.heap j w _ e (ap f at_pc ∙ a.1) h
  Step-Ended {s = s} a (depart j w reserved e at_pc) h =
      put-Ended s.gate.heap j w _ e (ap f at_pc ∙ a.2 reserved) h
  Step-Ended {s = s} a (collect j w d e at_pc got) h =
      put-Ended s.gate.heap j w _ e (ap f at_pc ∙ a.3) h
  Step-Ended {s = s} a (cancel j w e) h =
      get_elem?-set_keeps (ends f) s.gate.heap i j w _ e (λ k. k) h
  Step-Ended {s = s} a (take_some before after want now scans some_) h =
      rw (take_work-Takes want now s.gate).marks
        (mark_all-Ended (take_work want now s.gate).0 s.gate.heap h)
  Step-Ended {chain = chain} {s = s} a (send_result before after j ids w e at_j) h =
      deliver-Ended j (chain w.seed) s.gate h
  Step-Ended a (finish before after e) h = h
  Step-Ended a (sleep before after e) h = h
  Step-Ended a (rouse before after e tokens) h = h
  Step-Ended a (resume before after e) h = h
  Step-Ended a (respond code) h = h
  Step-Ended a (retune patience) h = h
