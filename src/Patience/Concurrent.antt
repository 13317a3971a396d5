-- ===== src/Patience/Concurrent.antt =====
-- `observeChainCost` of app/main.go as any number of goroutines run it at once: its load and its two stores are steps,
-- and another goroutine's may come in between.
use obsidio.Prelude.{ℕ, ◌+◌, ◌*◌, ◌≤◌, ◌≡◌, refl, inl, inr, arith, Bool-cases, ◌==◌, if◌then◌else◌}
use obsidio.Patience.{
  millisecond, risk_latency_budget, risk_safety_margin, Estimate, clamp_sample, fold_sample,
  patience_for,
}
use obsidio.Patience.Window.{InRange, IsTuned, clamp_bounds, fold_sample-InRange}

-- Where a goroutine stands: not in `observeChainCost`, behind the load of the estimate, behind its
-- store.
pub data Pc : Type 0 where
  outside : Pc
  loaded : ℕ → ℕ → Pc
  stored : ℕ → Pc

pub record System : Type 0 where
  pub estimate : Estimate
  pub pc : ℕ → Pc

abbrev pub update : (ℕ → Pc) → ℕ → Pc → ℕ → Pc
update f i p j = if i == j then p else f j

pub data Step (s : System) : System → Type 0 where
  load :
      (i d : ℕ)
      → s.pc i ≡ outside
      → Step s (record s { pc = update s.pc i (loaded (clamp_sample d) s.estimate.ewma) })
  store_ewma :
      (i d old : ℕ)
      → s.pc i ≡ loaded d old
      → Step s (record {
        estimate = record { ewma = fold_sample old d; patience = s.estimate.patience };
        pc = update s.pc i (stored (fold_sample old d));
      })
  store_patience :
      (i ewma : ℕ)
      → s.pc i ≡ stored ewma
      → Step s (record {
        estimate = record { ewma = s.estimate.ewma; patience = patience_for ewma };
        pc = update s.pc i outside;
      })

pub data Reach (s : System) : System → Type 0 where
  here : Reach s s
  more : {t u : System} → Reach s t → Step t u → Reach s u

-- No goroutine is inside.
abbrev pub quiet : Estimate → System
quiet e = record { estimate = e; pc = λ i. outside }

-- What a goroutine carries is in range.
abbrev Carries : Pc → Type 0
Carries outside = Unit
Carries (loaded d old) = InRange d × InRange old
Carries (stored ewma) = InRange ewma

-- The window of some estimate in range.
abbrev pub IsWindow : ℕ → Type 0
IsWindow p = (c : ℕ) × InRange c × (p + c + risk_safety_margin ≡ risk_latency_budget)

abbrev Inv : System → Type 0
Inv s = InRange s.estimate.ewma × IsWindow s.estimate.patience × ((i : ℕ) → Carries (s.pc i))

update-Carries :
    (f : ℕ → Pc) (i : ℕ) (p : Pc)
    → ((j : ℕ) → Carries (f j))
    → Carries p
    → (j : ℕ) → Carries (update f i p j)
update-Carries f i p all k j = elim (Bool-cases (i == j)) [ inl e ↦ rw e k | inr e ↦ rw e (all j) ]

patience_for-IsWindow : (c : ℕ) → InRange c → IsWindow (patience_for c)
unfolding patience_for
patience_for-IsWindow c r = (c, r, ground arith)

Step-Inv : {s t : System} → Step s t → Inv s → Inv t
Step-Inv {s} (load i d e) (range, window, carry) =
    (range, window, update-Carries s.pc i _ carry (clamp_bounds d, range))
Step-Inv {s} (store_ewma i d old e) (range, window, carry) =
    let k : Carries (loaded d old) = rw e at (carry i) in
    let next = fold_sample-InRange old d k.1 k.0 in
    (next, window, update-Carries s.pc i _ carry next)
Step-Inv {s} (store_patience i ewma e) (range, window, carry) =
    let k : Carries (stored ewma) = rw e at (carry i) in
    (range, patience_for-IsWindow ewma k, update-Carries s.pc i outside carry tt)

Reach-Inv : {s t : System} → Inv s → Reach s t → Inv t
Reach-Inv v here = v
Reach-Inv v (more r st) = Step-Inv st (Reach-Inv v r)

window_bounds : (p : ℕ) → IsWindow p → (700 * millisecond ≤ p) × (p ≤ 1199 * millisecond)
window_bounds p (c, range, sum) = (omega arith, omega arith)

-- From a tuned estimate, in every interleaving of the loads and the two stores of any number of
-- goroutines in observeChainCost, the chain cost estimate lies between 1 ms and 500 ms and the
-- patience window between 700 ms and 1199 ms.
pub Reach-InRange :
    {e : Estimate} {t : System}
    → IsTuned e
    → Reach (quiet e) t
    → InRange t.estimate.ewma
      × (700 * millisecond ≤ t.estimate.patience)
      × (t.estimate.patience ≤ 1199 * millisecond)
Reach-InRange {e} tuned r =
    let v = Reach-Inv (tuned.0, (e.ewma, tuned.0, tuned.1), (λ i. tt)) r in
    let (range, window, carry) = v in
    let bounds = window_bounds _ window in (range, bounds.0, bounds.1)

-- For any two samples that two goroutines report at once there is an order of their steps that
-- ends, with no goroutine inside observeChainCost, with the estimate of the one sample and the
-- patience window of the other, each folded into the estimate at the start alone.
pub late_window :
    (e : Estimate) (d d' : ℕ)
    → (t : System) × Reach (quiet e) t
      × ((i : ℕ) → t.pc i ≡ outside)
      × (t.estimate.ewma ≡ fold_sample e.ewma (clamp_sample d'))
      × (t.estimate.patience ≡ patience_for (fold_sample e.ewma (clamp_sample d)))
late_window e d d' =
    let stores =
      more
        (more (more (more here (load 0 d refl)) (load 1 d' refl))
          (store_ewma 0 (clamp_sample d) e.ewma refl))
        (store_ewma 1 (clamp_sample d') e.ewma refl) in
    let windows =
      more (more stores (store_patience 1 (fold_sample e.ewma (clamp_sample d')) refl))
        (store_patience 0 (fold_sample e.ewma (clamp_sample d)) refl) in
    (_, windows, (λ i. ground arith), refl, refl)
