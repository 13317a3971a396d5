-- ===== src/Gate/Take.antt =====
-- What `riskTakeWork` takes off the stack, and what it leaves.
use obsidio.Prelude.{
  ℕ, zero, suc, ◌+◌, ◌-◌, ◌<◌, ◌≡◌, refl, sym, ap, ◌∙◌, ◌⊎◌, inl, inr, false, List, [], ◌∷◌, ◌++◌,
  Option, none, some, arith, length, get_elem?, modify, get_elem?-modify,
}
use obsidio.Governor.{charge}
use obsidio.Gate.{
  Waiter, Gate, Fate, dead, stale, live, fate, mark_taken, unlink, take_loop, take_work,
}

-- The specification: the live waiters of a stack, in its order, and its stale ones.
pub live_of : ℕ → ℕ → List Waiter → List ℕ → List ℕ
live_of now patience heap [] = []
live_of now patience heap (i ∷ rest) = elim (fate now patience (get_elem? heap i)) [
  | live ↦ i ∷ live_of now patience heap rest
  | _ ↦ live_of now patience heap rest
]

pub stale_count : ℕ → ℕ → List Waiter → List ℕ → ℕ
stale_count now patience heap [] = 0
stale_count now patience heap (i ∷ rest) = elim (fate now patience (get_elem? heap i)) [
  | stale ↦ 1 + stale_count now patience heap rest
  | _ ↦ stale_count now patience heap rest
]

abbrev pub mark_all : List ℕ → List Waiter → List Waiter
mark_all [] heap = heap
mark_all (i ∷ ids) heap = mark_all ids (modify heap i mark_taken)

pub Fate-cases : (f : Fate) → (f ≡ live) ⊎ ((f ≡ stale) ⊎ (f ≡ dead))
Fate-cases live = inl refl
Fate-cases stale = inr (inl refl)
Fate-cases dead = inr (inr refl)

pub fate-mark_taken :
    (now patience : ℕ) (heap : List Waiter) (i j : ℕ)
    → fate now patience (get_elem? (modify heap i mark_taken) j)
      ≡ fate now patience (get_elem? heap j)
unfolding fate
fate-mark_taken now patience heap i j =
    get_elem?-modify (fate now patience) mark_taken heap i j (λ w. refl)

live_of-mark_taken :
    (now patience : ℕ) (heap : List Waiter) (i : ℕ) (st : List ℕ)
    → live_of now patience (modify heap i mark_taken) st ≡ live_of now patience heap st
unfolding live_of
live_of-mark_taken now patience heap i [] = refl
live_of-mark_taken now patience heap i (j ∷ rest) =
    ground
      (arith, fate-mark_taken now patience heap i j, live_of-mark_taken now patience heap i rest)

stale_count-mark_taken :
    (now patience : ℕ) (heap : List Waiter) (i : ℕ) (st : List ℕ)
    → stale_count now patience (modify heap i mark_taken) st ≡ stale_count now patience heap st
unfolding stale_count
stale_count-mark_taken now patience heap i [] = refl
stale_count-mark_taken now patience heap i (j ∷ rest) =
    ground (
      arith,
      fate-mark_taken now patience heap i j,
      stale_count-mark_taken now patience heap i rest,
    )

-- Induction along the loop.
pub take_ind {κ} :
    (now patience : ℕ) (P : ℕ → List ℕ → Gate → List ℕ × Gate → Type κ)
    → ((st : List ℕ) (g : Gate) → P zero st g ([], record g { stack = st }))
    → ((k : ℕ) (g : Gate) → P (suc k) [] g ([], record g { stack = [] }))
    → ((k i : ℕ) (rest : List ℕ) (g : Gate) (r : List ℕ × Gate)
        → fate now patience (get_elem? g.heap i) ≡ dead
        → P (suc k) rest (unlink g) r
        → P (suc k) (i ∷ rest) g r)
    → ((k i : ℕ) (rest : List ℕ) (g : Gate) (r : List ℕ × Gate)
        → fate now patience (get_elem? g.heap i) ≡ stale
        → P (suc k) rest (record (unlink g) { counters = charge g.counters }) r
        → P (suc k) (i ∷ rest) g r)
    → ((k i : ℕ) (rest : List ℕ) (g : Gate) (r : List ℕ × Gate)
        → fate now patience (get_elem? g.heap i) ≡ live
        → P k rest (record (unlink g) { heap = modify g.heap i mark_taken }) r
        → P (suc k) (i ∷ rest) g (i ∷ r.0, r.1))
    → (k : ℕ) (st : List ℕ) (g : Gate) → P k st g (take_loop k now patience st g)
unfolding take_loop
take_ind now patience P full empty on_dead on_stale on_live zero st g = full st g
take_ind now patience P full empty on_dead on_stale on_live (suc k) [] g = empty k g
take_ind now patience P full empty on_dead on_stale on_live (suc k) (i ∷ rest) g =
    elim (Fate-cases (fate now patience (get_elem? g.heap i))) [
      | inl e ↦
          rw (e, take_loop)
            (on_live k i rest g _ e
              (take_ind now patience P full empty on_dead on_stale on_live k rest _))
      | inr (inl e) ↦
          rw (e, take_loop)
            (on_stale k i rest g _ e
              (take_ind now patience P full empty on_dead on_stale on_live (suc k) rest _))
      | inr (inr e) ↦
          rw (e, take_loop)
            (on_dead k i rest g _ e
              (take_ind now patience P full empty on_dead on_stale on_live (suc k) rest _))
    ]

-- The last of the waiters popped, if there is one, is live.
abbrev pub EndsLive : ℕ → ℕ → List Waiter → List ℕ → Type 0
EndsLive now patience heap [] = Unit
EndsLive now patience heap (i ∷ []) = fate now patience (get_elem? heap i) ≡ live
EndsLive now patience heap (i ∷ j ∷ ids) = EndsLive now patience heap (j ∷ ids)

EndsLive-mark_taken :
    (now patience : ℕ) (heap : List Waiter) (i : ℕ) (ids : List ℕ)
    → EndsLive now patience (modify heap i mark_taken) ids
    → EndsLive now patience heap ids
EndsLive-mark_taken now patience heap i [] h = tt
EndsLive-mark_taken now patience heap i (j ∷ []) h = sym (fate-mark_taken now patience heap i j) ∙ h
EndsLive-mark_taken now patience heap i (j ∷ l ∷ ids) h =
    EndsLive-mark_taken now patience heap i (l ∷ ids) h

EndsLive-live :
    (now patience : ℕ) (heap : List Waiter) (i : ℕ) (ids : List ℕ)
    → fate now patience (get_elem? heap i) ≡ live
    → EndsLive now patience (modify heap i mark_taken) ids
    → EndsLive now patience heap (i ∷ ids)
EndsLive-live now patience heap i [] e h = e
EndsLive-live now patience heap i (j ∷ ids) e h =
    EndsLive-mark_taken now patience heap i (j ∷ ids) h

-- A waiter that is skipped is followed by a live one, or the stack ends.
skipped :
    (now patience k i : ℕ) (heap : List Waiter) (popped taken : List ℕ) (A : Type 0)
    → taken ≡ live_of now patience heap popped
    → (length taken ≡ suc k) ⊎ (A × (length taken < suc k))
    → (A × (length taken < suc k)) ⊎ EndsLive now patience heap popped
    → (A × (length taken < suc k)) ⊎ EndsLive now patience heap (i ∷ popped)
unfolding live_of
skipped now patience k i heap [] taken A takes (inl full) ends =
    let none_taken : length taken ≡ 0 = rw takes refl in absurd (omega arith)
skipped now patience k i heap [] taken A takes (inr short) ends = inl short
skipped now patience k i heap (j ∷ popped) taken A takes stops (inl short) = inl short
skipped now patience k i heap (j ∷ popped) taken A takes stops (inr h) = inr h

-- What a call that may take `k` waiters does with the stack `st`.
pub record Takes (now patience k : ℕ) (st : List ℕ) (g : Gate) (r : List ℕ × Gate) : Type 0 where
  pub popped : List ℕ
  pub splits : st ≡ popped ++ r.1.stack
  pub takes : r.0 ≡ live_of now patience g.heap popped
  pub marks : r.1.heap ≡ mark_all r.0 g.heap
  pub same_ok : r.1.counters.ok ≡ g.counters.ok
  pub charges : r.1.counters.err ≡ g.counters.err + stale_count now patience g.heap popped
  pub depth_is : r.1.depth ≡ g.depth - length popped
  pub same_settings : (r.1.budget ≡ g.budget) × (r.1.patience ≡ g.patience)
  pub same_workers : (r.1.idle ≡ g.idle) × (r.1.tokens ≡ g.tokens)
  pub stops : (length r.0 ≡ k) ⊎ ((r.1.stack ≡ []) × (length r.0 < k))
  pub prompt : ((r.1.stack ≡ []) × (length r.0 < k)) ⊎ EndsLive now patience g.heap popped

pub take_loop-Takes :
    (now patience k : ℕ) (st : List ℕ) (g : Gate)
    → Takes now patience k st g (take_loop k now patience st g)
unfolding live_of stale_count
take_loop-Takes now patience =
    take_ind now patience (Takes now patience)
      (λ st g. record {
        popped = [];
        splits = refl;
        takes = refl;
        marks = refl;
        same_ok = refl;
        charges = omega arith;
        depth_is = omega arith;
        same_settings = (refl, refl);
        same_workers = (refl, refl);
        stops = inl refl;
        prompt = inr tt;
      })
      (λ k g. record {
        popped = [];
        splits = refl;
        takes = refl;
        marks = refl;
        same_ok = refl;
        charges = omega arith;
        depth_is = omega arith;
        same_settings = (refl, refl);
        same_workers = (refl, refl);
        stops = inr (refl, omega arith);
        prompt = inr tt;
      })
      (λ k i rest g r e ih. record {
        popped = i ∷ ih.popped;
        splits = ap (◌∷◌ i) ih.splits;
        takes = rw (e, live_of) ih.takes;
        marks = ih.marks;
        same_ok = ih.same_ok;
        charges = rw (e, stale_count) ih.charges;
        depth_is = omega (arith, ih.depth_is);
        same_settings = ih.same_settings;
        same_workers = ih.same_workers;
        stops = ih.stops;
        prompt =
            skipped now patience k i g.heap ih.popped r.0 (r.1.stack ≡ []) ih.takes ih.stops
              ih.prompt;
      })
      (λ k i rest g r e ih. record {
        popped = i ∷ ih.popped;
        splits = ap (◌∷◌ i) ih.splits;
        takes = rw (e, live_of) ih.takes;
        marks = ih.marks;
        same_ok = ih.same_ok;
        charges = rw (e, stale_count) (omega (arith, ih.charges));
        depth_is = omega (arith, ih.depth_is);
        same_settings = ih.same_settings;
        same_workers = ih.same_workers;
        stops = ih.stops;
        prompt =
            skipped now patience k i g.heap ih.popped r.0 (r.1.stack ≡ []) ih.takes ih.stops
              ih.prompt;
      })
      (λ k i rest g r e ih. record {
        popped = i ∷ ih.popped;
        splits = ap (◌∷◌ i) ih.splits;
        takes =
            rw (e, live_of)
              (ap (◌∷◌ i) (ih.takes ∙ live_of-mark_taken now patience g.heap i ih.popped));
        marks = ih.marks;
        same_ok = ih.same_ok;
        charges =
            rw (e, stale_count)
              (omega (arith, ih.charges, stale_count-mark_taken now patience g.heap i ih.popped));
        depth_is = omega (arith, ih.depth_is);
        same_settings = ih.same_settings;
        same_workers = ih.same_workers;
        stops = ground (arith, ih.stops);
        prompt = elim ih.prompt [
          | inl (empty, few) ↦ inl (empty, omega arith)
          | inr ends ↦ inr (EndsLive-live now patience g.heap i ih.popped e ends)
        ];
      })

-- riskTakeWork, for every number wanted, time and state, pops from the top until it has as many
-- live waiters as it wants, and then no further, so that the last one popped is live, or until the
-- stack is empty and it has fewer; it takes the live ones newest first, marks exactly those,
-- charges one error for each stale one, and changes nothing else.
pub take_work-Takes :
    (want now : ℕ) (g : Gate) → Takes now g.patience want g.stack g (take_work want now g)
unfolding take_work
take_work-Takes want now g = take_loop-Takes now g.patience want g.stack g

abbrev pub AllLive : ℕ → ℕ → List Waiter → List ℕ → Type 0
AllLive now patience heap [] = Unit
AllLive now patience heap (i ∷ ids) =
    (fate now patience (get_elem? heap i) ≡ live) × AllLive now patience heap ids

pub live_of-AllLive :
    (now patience : ℕ) (heap : List Waiter) (st : List ℕ)
    → AllLive now patience heap (live_of now patience heap st)
unfolding live_of
live_of-AllLive now patience heap [] = tt
live_of-AllLive now patience heap (i ∷ rest) =
    ground (arith, live_of-AllLive now patience heap rest)

pub AllLive-mark_taken :
    (now patience : ℕ) (heap : List Waiter) (i : ℕ) (ids : List ℕ)
    → AllLive now patience heap ids
    → AllLive now patience (modify heap i mark_taken) ids
AllLive-mark_taken now patience heap i [] h = tt
AllLive-mark_taken now patience heap i (j ∷ ids) h =
    (fate-mark_taken now patience heap i j ∙ h.0, AllLive-mark_taken now patience heap i ids h.1)

-- A live waiter is one that has not left.
pub live-waiter :
    (now patience : ℕ) (o : Option Waiter)
    → fate now patience o ≡ live
    → (w : Waiter) × (o ≡ some w) × (w.abandoned ≡ false)
unfolding fate
live-waiter now patience none e = cc
live-waiter now patience (some w) e = (w, refl, ground arith)
