-- ===== src/Gate/System/Depth.antt =====
-- The stack and its counter: the depth is the length, the backstop bounds it, and the waiters lie
-- in the order of their arrival, newest first.
use obsidio.Prelude.{
  ℕ, ◌≤◌, ◌<◌, ◌≡◌, refl, sym, ap, ◌∙◌, inl, inr, List, [], ◌∷◌, ◌++◌, arith, length, length-append,
  length-set, modify, length-modify, subst,
}
use obsidio.Prelude.Env.{Bytes}
use obsidio.Governor.{Counters}
use obsidio.Gate.Take.{take_work-Takes, mark_all}
use obsidio.Gate.Arrival.{enter_lem}
use obsidio.Gate.System.Defs.{
  System, after_signal, after_leave, Step, Reach, initial, arrive, send_wake, signal, depart,
  collect, cancel, take_some, send_result, finish, sleep, rouse, resume, respond, retune, here,
  more,
}
use obsidio.Gate.{Waiter, Gate, enter, wake, mark_taken, deliver, new_waiter, take_work}

-- Addresses that fall along the stack, all below `n`.
abbrev pub Below : ℕ → List ℕ → Type 0
Below n [] = Unit
Below n (i ∷ st) = (i < n) × Below i st

Below-mono : (m n : ℕ) (st : List ℕ) → m ≤ n → Below m st → Below n st
Below-mono m n [] h b = tt
Below-mono m n (i ∷ st) h b = (omega arith, b.1)

Below-suffix : (n : ℕ) (popped rest : List ℕ) → Below n (popped ++ rest) → Below n rest
Below-suffix n [] rest b = b
Below-suffix n (i ∷ popped) rest b =
    Below-mono i n rest (omega arith) (Below-suffix i popped rest b.1)

pub record IsStack (g : Gate) : Type 0 where
  pub depth_is : g.depth ≡ length g.stack
  pub bounded : g.depth ≤ 2048
  pub newest_first : Below (length g.heap) g.stack

-- An operation that leaves the stack and the size of the store alone.
same-IsStack :
    (g g' : Gate)
    → g'.depth ≡ g.depth
    → g'.stack ≡ g.stack
    → length g'.heap ≡ length g.heap
    → IsStack g
    → IsStack g'
same-IsStack g g' d st hp v = record {
  depth_is = d ∙ v.depth_is ∙ ap length (sym st);
  bounded = omega (arith, v.bounded);
  newest_first = rw (hp, st) v.newest_first;
}

arrive-IsStack : (now : ℕ) (seed : Bytes) (g : Gate) → IsStack g → IsStack (enter now seed g).0
arrive-IsStack now seed g v = elim (enter_lem now seed g) [
  | inl (eq, _) ↦ rw eq (same-IsStack g _ refl refl refl v)
  | inr (eq, room, _) ↦
      let grown = length-append g.heap (new_waiter now seed ∷ []) in
      rw eq (record {
        depth_is = omega (arith, v.depth_is);
        bounded = omega arith;
        newest_first = (omega (arith, grown), v.newest_first);
      })
]

length-mark_all : (ids : List ℕ) (heap : List Waiter) → length (mark_all ids heap) ≡ length heap
length-mark_all [] heap = refl
length-mark_all (i ∷ ids) heap =
    length-mark_all ids (modify heap i mark_taken) ∙ length-modify mark_taken heap i

take-IsStack : (want now : ℕ) (g : Gate) → IsStack g → IsStack (take_work want now g).1
take-IsStack want now g v =
    let t = take_work-Takes want now g in
    let rest = (take_work want now g).1.stack in
    let parts = ap length t.splits ∙ length-append t.popped rest in
    record {
      depth_is = omega (arith, t.depth_is, v.depth_is, parts);
      bounded = omega (arith, t.depth_is, v.bounded);
      newest_first =
          rw (t.marks, length-mark_all (take_work want now g).0 g.heap)
            (Below-suffix (length g.heap) t.popped rest
              (subst (Below (length g.heap)) t.splits v.newest_first));
    }

wake-IsStack : (g : Gate) → IsStack g → IsStack (wake g)
unfolding wake
wake-IsStack g v = same-IsStack g (wake g) (ground arith) (ground arith) (ground arith) v

Step-IsStack :
    {chain : Bytes → Bytes} {s t : System} → Step chain s t → IsStack s.gate → IsStack t.gate
unfolding after_signal after_leave deliver
Step-IsStack {chain} {s} (arrive now seed) v = arrive-IsStack now seed s.gate v
Step-IsStack {chain} {s} (send_wake i w h p) v =
    wake-IsStack _ (same-IsStack s.gate _ refl refl (length-set s.gate.heap i _) v)
Step-IsStack {chain} {s} (signal i w sig h p r) v =
    same-IsStack s.gate _ refl refl (length-set s.gate.heap i _) v
Step-IsStack {chain} {s} (depart i w b h p) v =
    same-IsStack s.gate _ refl refl (length-set s.gate.heap i _) v
Step-IsStack {chain} {s} (collect i w d h p r) v =
    same-IsStack s.gate _ refl refl (length-set s.gate.heap i _) v
Step-IsStack {chain} {s} (cancel i w h) v =
    same-IsStack s.gate _ refl refl (length-set s.gate.heap i _) v
Step-IsStack {chain} {s} (take_some before after want now h lt) v = take-IsStack want now s.gate v
Step-IsStack {chain} {s} (send_result before after i ids w h at_i) v =
    same-IsStack s.gate _ refl refl (length-modify _ s.gate.heap i) v
Step-IsStack (finish before after h) v = v
Step-IsStack {chain} {s} (sleep before after h) v = same-IsStack s.gate _ refl refl refl v
Step-IsStack {chain} {s} (rouse before after h lt) v = same-IsStack s.gate _ refl refl refl v
Step-IsStack {chain} {s} (resume before after h) v = same-IsStack s.gate _ refl refl refl v
Step-IsStack {chain} {s} (respond code) v = same-IsStack s.gate _ refl refl refl v
Step-IsStack {chain} {s} (retune patience) v = same-IsStack s.gate _ refl refl refl v

Reach-IsStack :
    {chain : Bytes → Bytes} {s t : System} → IsStack s.gate → Reach chain s t → IsStack t.gate
Reach-IsStack v here = v
Reach-IsStack v (more r st) = Step-IsStack st (Reach-IsStack v r)

-- In every interleaving from boot riskStackDepth is the length of the stack and at most the
-- backstop, no waiter is on it twice, and they lie in the order of arrival, newest on top.
pub initial-IsStack :
    {chain : Bytes → Bytes} (c : Counters) (budget patience slots : ℕ) (t : System)
    → Reach chain (initial c budget patience slots) t
    → IsStack t.gate
initial-IsStack c budget patience slots t r =
    Reach-IsStack (record { depth_is = refl; bounded = omega arith; newest_first = tt }) r
