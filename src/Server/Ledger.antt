-- ===== src/Server/Ledger.antt =====
-- The goroutines in `riskSubmit` beside the waiters of the gate and the 503s of /risk: who is still
-- inside, and who returned.
pub mod Steps
pub mod Runs
use obsidio.Prelude.{
  ℕ, suc, ◌+◌, ◌≡◌, refl, sym, ap, ◌∙◌, inl, inr, Bool, List, [], ◌∷◌, ◌++◌, Option, none, some,
  All, sum_of, sum_of-cons, sum_of-append, below, below-suc, length, length-append, get_elem?,
  get_elem?-append_keeps, All-map, arith,
}
use obsidio.Prelude.Env.{Bytes}
use obsidio.Raw.{Request}
use obsidio.Gate.{Gate, Waiter, Entry, Pc, new_waiter, parked, shed, enter, served, refused}
use obsidio.Gate.Arrival.{enter_lem}
use obsidio.Gate.System.Ended.{Ended, AtEnd, ends, is_refused, is_served}
use obsidio.Server.{Call, Returned}

-- `n` for a request that was refused on arrival, `f` of the address for one that parked.
abbrev pub entry_weight : ℕ → (ℕ → ℕ) → Entry → ℕ
entry_weight n f shed = n
entry_weight n f (parked i) = f i

abbrev pub call_weight : ℕ → (ℕ → ℕ) → Call → ℕ
call_weight n f c = entry_weight n f c.entry

-- Each waiter is that of one goroutine: one inside, one of `done` that has its digest, or one of `out`
-- that was refused.
pub record Placed (calls : List Call) (heap : List Waiter) (done out : List ℕ) : Type 0 where
  pub each :
      (f : ℕ → ℕ)
      → sum_of (call_weight 0 f) calls + sum_of f done + sum_of f out ≡ below f (length heap)
  pub done_served : All (Ended is_served heap) done
  pub out_refused : All (Ended is_refused heap) out

abbrev pub if_none : Option Bytes → ℕ
if_none none = 1
if_none (some h) = 0

-- One goroutine leaves, and what that adds to the lists.
pub record Leaves (heap : List Waiter) (entry : Entry) (o : Option Bytes) (done out : List ℕ)
    : Type 0 where
  pub done' : List ℕ
  pub out' : List ℕ
  pub moved :
      (f : ℕ → ℕ)
      → entry_weight 0 f entry + sum_of f done + sum_of f out ≡ sum_of f done' + sum_of f out'
  pub served_ : All (Ended is_served heap) done'
  pub refused_ : All (Ended is_refused heap) out'
  pub charged : length out' + entry_weight 1 (λ i. 0) entry ≡ length out + (if_none o)

refused-Ended :
    (heap : List Waiter) (i : ℕ) (w : Waiter)
    → get_elem? heap i ≡ some w
    → w.pc ≡ refused
    → Ended is_refused heap i
refused-Ended heap i w e at_pc = rw (e, at_pc) refl

served-Ended :
    (heap : List Waiter) (i : ℕ) (w : Waiter) (h : Bytes)
    → get_elem? heap i ≡ some w
    → w.pc ≡ served h
    → Ended is_served heap i
served-Ended heap i w h e at_pc = rw (e, at_pc) refl

pub leaves :
    (g : Gate) (entry : Entry) (o : Option Bytes) (done out : List ℕ)
    → Returned g entry o
    → All (Ended is_served g.heap) done
    → All (Ended is_refused g.heap) out
    → Leaves g.heap entry o done out
leaves g shed none done out r a b = record {
  done' = done;
  out' = out;
  moved = λ f. omega arith;
  served_ = a;
  refused_ = b;
  charged = refl;
}
leaves g shed (some h) done out r a b = absurd r
leaves g (parked i) none done out (w, at_i, at_pc) a b = record {
  done' = done;
  out' = i ∷ out;
  moved = λ f. omega (arith, sum_of-cons f i out);
  served_ = a;
  refused_ = (refused-Ended g.heap i w at_i at_pc, b);
  charged = omega arith;
}
leaves g (parked i) (some h) done out (w, at_i, at_pc) a b = record {
  done' = i ∷ done;
  out' = out;
  moved = λ f. omega (arith, sum_of-cons f i done);
  served_ = (served-Ended g.heap i w h at_i at_pc, a);
  refused_ = b;
  charged = omega arith;
}

pub sum_of-out :
    (f : Call → ℕ) (before : List Call) (c : Call) (after : List Call)
    → sum_of f (before ++ c ∷ after) ≡ f c + sum_of f (before ++ after)
sum_of-out f before c after =
    omega (
      arith,
      sum_of-append f before (c ∷ after),
      sum_of-append f before after,
      sum_of-cons f c after,
    )

refused-AtEnd : AtEnd is_refused
refused-AtEnd = (refl, refl, λ r. refl, refl)

served-AtEnd : AtEnd is_served
served-AtEnd = (refl, refl, λ r. refl, refl)

-- A step in which nobody arrives or leaves.
pub keep-Placed :
    (calls : List Call) (heap heap' : List Waiter) (done out : List ℕ)
    → length heap' ≡ length heap
    → ((f : Pc → Bool) (i : ℕ) → AtEnd f → Ended f heap i → Ended f heap' i)
    → Placed calls heap done out
    → Placed calls heap' done out
keep-Placed calls heap heap' done out same keep v = record {
  each = λ f. v.each f ∙ ap (below f) (sym same);
  done_served = All-map (λ i. keep is_served i served-AtEnd) done v.done_served;
  out_refused = All-map (λ i. keep is_refused i refused-AtEnd) out v.out_refused;
}

pub enter-Placed :
    (now : ℕ) (seed : Bytes) (g : Gate) (req : Request) (body : Bytes) (calls : List Call)
    (done out : List ℕ)
    → Placed calls g.heap done out
    → let r = enter now seed g in
      let c : Call = record { request = req; body = body; entry = r.1 } in
      Placed (c ∷ calls) r.0.heap done out
enter-Placed now seed g req body calls done out v = elim (enter_lem now seed g) [
  | inl refusal ↦
      let c : Call = record { request = req; body = body; entry = shed } in
      rw refusal.0 (record {
        each = λ f. omega (arith, v.each f, sum_of-cons (call_weight 0 f) c calls);
        done_served = v.done_served;
        out_refused = v.out_refused;
      })
  | inr into ↦
      let i = length g.heap in
      let c : Call = record { request = req; body = body; entry = parked i } in
      let w = new_waiter now seed in
      let one_more : length (g.heap ++ w ∷ []) ≡ suc i =
        omega (arith, length-append g.heap (w ∷ [])) in
      let still : (f : Pc → Bool) (j : ℕ) → Ended f g.heap j → Ended f (g.heap ++ w ∷ []) j =
        λ f j h. get_elem?-append_keeps (ends f) g.heap (w ∷ []) j refl h in
      rw into.0 (record {
        each = λ f.
            omega (arith, v.each f, sum_of-cons (call_weight 0 f) c calls, below-suc f i)
            ∙ ap (below f) (sym one_more);
        done_served = All-map (still is_served) done v.done_served;
        out_refused = All-map (still is_refused) out v.out_refused;
      })
]
