-- ===== src/Gate/System/Seeds.antt =====
-- A waiter keeps its address and its seed.
use obsidio.Prelude.{
  ℕ, ◌≡◌, refl, ap, ◌∙◌, inl, inr, Bool, true, false, List, [], ◌∷◌, ◌++◌, Option, none, some,
  Bool-cases, get_elem?, get_elem?-modify, get_elem?-set_keeps, get_elem?-append_keeps, modify, set,
  length,
}
use obsidio.Prelude.Env.{Bytes}
use obsidio.Prelude.Text.{equal, equal_self, equal_iff}
use obsidio.Governor.{Counters}
use obsidio.Gate.{
  Gate, Waiter, Entry, parked, shed, new_waiter, enter, leave, take_work, deliver, mark_taken,
}
use obsidio.Gate.Arrival.{enter_lem}
use obsidio.Gate.Take.{mark_all, take_work-Takes}
use obsidio.Gate.System.Ended.{wake-heap}
use obsidio.Gate.System.Defs
use obsidio.Gate.System.Defs.{System, Reach, here, more, after_signal, after_leave}

abbrev has_seed : Bytes → Option Waiter → Bool
has_seed seed none = false
has_seed seed (some w) = equal w.seed seed

-- The waiter at an address has a seed.
abbrev pub HasSeed : List Waiter → Bytes → ℕ → Type 0
HasSeed heap seed i = has_seed seed (get_elem? heap i) ≡ true

pub HasSeed-waiter :
    (heap : List Waiter) (seed : Bytes) (i : ℕ) (w : Waiter)
    → get_elem? heap i ≡ some w
    → HasSeed heap seed i
    → w.seed ≡ seed
HasSeed-waiter heap seed i w e h = (equal_iff w.seed seed).0 (rw e at h)

module _ (seed : Bytes) (i : ℕ) where
  put-HasSeed :
      (heap : List Waiter) (j : ℕ) (w w' : Waiter)
      → get_elem? heap j ≡ some w
      → w'.seed ≡ w.seed
      → HasSeed heap seed i
      → HasSeed (set heap j w') seed i
  put-HasSeed heap j w w' e same h =
      get_elem?-set_keeps (has_seed seed) heap i j w w' e (λ k. ap (λ s. equal s seed) same ∙ k) h

  modify-HasSeed :
      (heap : List Waiter) (j : ℕ) (g : Waiter → Waiter)
      → ((w : Waiter) → (g w).seed ≡ w.seed)
      → HasSeed heap seed i
      → HasSeed (modify heap j g) seed i
  modify-HasSeed heap j g same h =
      get_elem?-modify (has_seed seed) g heap j i (λ w. ap (λ s. equal s seed) (same w)) ∙ h

  mark_all-HasSeed :
      (ids : List ℕ) (heap : List Waiter) → HasSeed heap seed i → HasSeed (mark_all ids heap) seed i
  mark_all-HasSeed [] heap h = h
  mark_all-HasSeed (j ∷ ids) heap h =
      mark_all-HasSeed ids (modify heap j mark_taken)
        (modify-HasSeed heap j mark_taken (λ w. refl) h)

  leave-seed : (reserved : Bool) (c : Counters) (w : Waiter) → (leave reserved c w).1.seed ≡ w.seed
  unfolding leave
  leave-seed reserved c w = elim (Bool-cases w.taken) [
    | inl taken ↦ rw taken refl
    | inr free ↦ rw free refl
  ]

  enter-HasSeed :
      (now : ℕ) (new : Bytes) (g : Gate)
      → HasSeed g.heap seed i
      → HasSeed (enter now new g).0.heap seed i
  enter-HasSeed now new g h = elim (enter_lem now new g) [
    | inl out ↦ rw out.0 h
    | inr into ↦ rw into.0 (get_elem?-append_keeps (has_seed seed) g.heap _ i refl h)
  ]

  Step-HasSeed :
      {chain : Bytes → Bytes} {s t : System}
      → Defs.Step chain s t
      → HasSeed s.gate.heap seed i
      → HasSeed t.gate.heap seed i
  unfolding after_signal after_leave deliver
  Step-HasSeed {s} (Defs.arrive now new) h = enter-HasSeed now new s.gate h
  Step-HasSeed {s} (Defs.send_wake j w e at_pc) h =
      rw wake-heap (put-HasSeed s.gate.heap j w _ e refl h)
  Step-HasSeed {s} (Defs.signal j w sig e at_pc ready) h = put-HasSeed s.gate.heap j w _ e refl h
  Step-HasSeed {s} (Defs.depart j w reserved e at_pc) h =
      put-HasSeed s.gate.heap j w _ e (leave-seed reserved s.gate.counters w) h
  Step-HasSeed {s} (Defs.collect j w d e at_pc got) h = put-HasSeed s.gate.heap j w _ e refl h
  Step-HasSeed {s} (Defs.cancel j w e) h = put-HasSeed s.gate.heap j w _ e refl h
  Step-HasSeed {s} (Defs.take_some before after want now scans some_) h =
      rw (take_work-Takes want now s.gate).marks
        (mark_all-HasSeed (take_work want now s.gate).0 s.gate.heap h)
  Step-HasSeed {s} (Defs.send_result before after j ids w e at_j) h =
      modify-HasSeed s.gate.heap j _ (λ w. refl) h
  Step-HasSeed (Defs.finish before after e) h = h
  Step-HasSeed (Defs.sleep before after e) h = h
  Step-HasSeed (Defs.rouse before after e tokens) h = h
  Step-HasSeed (Defs.resume before after e) h = h
  Step-HasSeed (Defs.respond code) h = h
  Step-HasSeed (Defs.retune patience) h = h

  pub Reach-HasSeed :
      {chain : Bytes → Bytes} {s t : System}
      → Reach chain s t
      → HasSeed s.gate.heap seed i
      → HasSeed t.gate.heap seed i
  Reach-HasSeed here h = h
  Reach-HasSeed (more r st) h = Step-HasSeed st (Reach-HasSeed r h)

-- A parked request has its seed at the address that it got.
abbrev pub EntrySeed : List Waiter → Bytes → Entry → Type 0
EntrySeed heap seed shed = Unit
EntrySeed heap seed (parked i) = HasSeed heap seed i

new-HasSeed : (heap : List Waiter) (w : Waiter) → HasSeed (heap ++ w ∷ []) w.seed (length heap)
new-HasSeed [] w = equal_self w.seed
new-HasSeed (v ∷ heap) w = new-HasSeed heap w

pub enter-EntrySeed :
    (now : ℕ) (seed : Bytes) (g : Gate)
    → EntrySeed (enter now seed g).0.heap seed (enter now seed g).1
enter-EntrySeed now seed g = elim (enter_lem now seed g) [
  | inl out ↦ rw out.0 tt
  | inr into ↦ rw into.0 (new-HasSeed g.heap (new_waiter now seed))
]
