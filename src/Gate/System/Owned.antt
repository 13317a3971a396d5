-- ===== src/Gate/System/Owned.antt =====
-- What holds of a waiter at each position of its goroutine, and of the waiters that a worker owns.
use obsidio.Prelude.{
  ℕ, zero, suc, ◌≡◌, refl, Bool, true, false, List, [], ◌∷◌, ◌++◌, Option, none, some, get_elem?,
  set, modify, All, All-get, All-set, get_elem?-set_keeps, modify-set,
}
use obsidio.Prelude.Env.{Bytes}
use obsidio.Gate.Take.{mark_all, AllLive, AllLive-mark_taken, live-waiter}
use obsidio.Gate.System.Defs.{Phase, scanning, running, drained, asleep, woken}
use obsidio.Gate.{Pc, waking, waiting, leaving, collecting, served, refused, Waiter, mark_taken}

-- What holds of `abandoned`, `taken` and `result` at each position.
abbrev pub PcOk : Pc → Bool → Bool → Option Bytes → Type 0
PcOk waking a t r = a ≡ false
PcOk waiting a t r = a ≡ false
PcOk (leaving b) a t r = a ≡ false
PcOk collecting a t r = (a ≡ false) × (t ≡ true)
PcOk (served h) a t r = (a ≡ false) × (r ≡ some h)
PcOk refused a t r = (a ≡ true) × (t ≡ false)

abbrev pub ResultOk : (Bytes → Bytes) → Bytes → Option Bytes → Bool → Type 0
ResultOk chain seed none t = Unit
ResultOk chain seed (some h) t = (t ≡ true) × (h ≡ chain seed)

abbrev pub WaiterOk : (Bytes → Bytes) → Waiter → Type 0
WaiterOk chain w = PcOk w.pc w.abandoned w.taken w.result × ResultOk chain w.seed w.result w.taken

abbrev pub is_taken : Option Waiter → Bool
is_taken none = false
is_taken (some w) = w.taken

-- The waiters of a batch are taken.
abbrev pub Owned : List Waiter → List ℕ → Type 0
Owned heap [] = Unit
Owned heap (i ∷ ids) = (is_taken (get_elem? heap i) ≡ true) × Owned heap ids

abbrev pub BatchOk : List Waiter → Phase → Type 0
BatchOk heap scanning = Unit
BatchOk heap (running ids) = Owned heap ids
BatchOk heap drained = Unit
BatchOk heap asleep = Unit
BatchOk heap woken = Unit

-- Every waiter that is taken in one store is taken in the other.
abbrev KeepsTaken : List Waiter → List Waiter → Type 0
KeepsTaken heap heap' =
    (i : ℕ) → is_taken (get_elem? heap i) ≡ true → is_taken (get_elem? heap' i) ≡ true

Owned-keeps :
    (heap heap' : List Waiter) (ids : List ℕ)
    → KeepsTaken heap heap'
    → Owned heap ids
    → Owned heap' ids
Owned-keeps heap heap' [] k o = tt
Owned-keeps heap heap' (i ∷ ids) k o = (k i o.0, Owned-keeps heap heap' ids k o.1)

BatchOk-keeps :
    (heap heap' : List Waiter) (p : Phase)
    → KeepsTaken heap heap'
    → BatchOk heap p
    → BatchOk heap' p
BatchOk-keeps heap heap' scanning k b = tt
BatchOk-keeps heap heap' (running ids) k b = Owned-keeps heap heap' ids k b
BatchOk-keeps heap heap' drained k b = tt
BatchOk-keeps heap heap' asleep k b = tt
BatchOk-keeps heap heap' woken k b = tt

pub All-keeps :
    (heap heap' : List Waiter) (ws : List Phase)
    → KeepsTaken heap heap'
    → All (BatchOk heap) ws
    → All (BatchOk heap') ws
All-keeps heap heap' [] k b = tt
All-keeps heap heap' (p ∷ ws) k b =
    (BatchOk-keeps heap heap' p k b.0, All-keeps heap heap' ws k b.1)

-- One phase in place of another.
pub All-middle {ℓ κ} :
    {A : Type ℓ} (P : A → Type κ) (xs ys : List A) (x y : A)
    → All P (xs ++ x ∷ ys)
    → (P x → P y)
    → All P (xs ++ y ∷ ys)
All-middle P [] ys x y h f = (f h.0, h.1)
All-middle P (z ∷ xs) ys x y h f = (h.0, All-middle P xs ys x y h.1 f)

pub All-at {ℓ κ} :
    {A : Type ℓ} (P : A → Type κ) (xs ys : List A) (x : A) → All P (xs ++ x ∷ ys) → P x
All-at P [] ys x h = h.0
All-at P (z ∷ xs) ys x h = All-at P xs ys x h.1

pub KeepsTaken-set :
    (heap : List Waiter) (j : ℕ) (w v : Waiter)
    → get_elem? heap j ≡ some w
    → (w.taken ≡ true → v.taken ≡ true)
    → KeepsTaken heap (set heap j v)
KeepsTaken-set heap j w v e keep i = get_elem?-set_keeps is_taken heap i j w v e keep

-- `mark_taken` on a waiter makes it taken and leaves the others.
KeepsTaken-mark : (heap : List Waiter) (j : ℕ) → KeepsTaken heap (modify heap j mark_taken)
KeepsTaken-mark [] j i h = h
KeepsTaken-mark (w ∷ heap) zero zero h = refl
KeepsTaken-mark (w ∷ heap) zero (suc i) h = h
KeepsTaken-mark (w ∷ heap) (suc j) zero h = h
KeepsTaken-mark (w ∷ heap) (suc j) (suc i) h = KeepsTaken-mark heap j i h

mark_taken-is_taken :
    (heap : List Waiter) (j : ℕ) (w : Waiter)
    → get_elem? heap j ≡ some w
    → is_taken (get_elem? (modify heap j mark_taken) j) ≡ true
mark_taken-is_taken [] j w e = cc
mark_taken-is_taken (x ∷ heap) zero w e = refl
mark_taken-is_taken (x ∷ heap) (suc j) w e = mark_taken-is_taken heap j w e

pub KeepsTaken-mark_all : (ids : List ℕ) (heap : List Waiter) → KeepsTaken heap (mark_all ids heap)
KeepsTaken-mark_all [] heap i h = h
KeepsTaken-mark_all (j ∷ ids) heap i h =
    KeepsTaken-mark_all ids (modify heap j mark_taken) i (KeepsTaken-mark heap j i h)

module _ (chain : Bytes → Bytes) where
  mark_taken-WaiterOk :
      (w : Waiter) → w.abandoned ≡ false → WaiterOk chain w → WaiterOk chain (mark_taken w)
  mark_taken-WaiterOk w stays (p, r) = (pc w.pc w.abandoned stays p, res w.result r)
    where
      pc : (q : Pc) (a : Bool) → a ≡ false → PcOk q a w.taken w.result → PcOk q a true w.result
      pc waking a e k = k
      pc waiting a e k = k
      pc (leaving b) a e k = k
      pc collecting a e k = (k.0, refl)
      pc (served h) a e k = k
      pc refused a e k = cc

      res : (o : Option Bytes) → ResultOk chain w.seed o w.taken → ResultOk chain w.seed o true
      res none k = tt
      res (some h) k = (refl, k.1)

  pub mark_all-WaiterOk :
      (now patience : ℕ) (ids : List ℕ) (heap : List Waiter)
      → AllLive now patience heap ids
      → All (WaiterOk chain) heap
      → All (WaiterOk chain) (mark_all ids heap)
  mark_all-WaiterOk now patience [] heap l h = h
  mark_all-WaiterOk now patience (i ∷ ids) heap l h =
      let (w, at_i, stays) = live-waiter now patience (get_elem? heap i) l.0 in
      mark_all-WaiterOk now patience ids (modify heap i mark_taken)
        (AllLive-mark_taken now patience heap i ids l.1)
        (rw (modify-set mark_taken heap i w at_i) (
          All-set (WaiterOk chain) heap i (mark_taken w)
            (mark_taken-WaiterOk w stays (All-get (WaiterOk chain) heap i w at_i h)) h))

pub mark_all-Owned :
    (now patience : ℕ) (ids : List ℕ) (heap : List Waiter)
    → AllLive now patience heap ids
    → Owned (mark_all ids heap) ids
mark_all-Owned now patience [] heap l = tt
mark_all-Owned now patience (i ∷ ids) heap l =
    let (w, at_i, _) = live-waiter now patience (get_elem? heap i) l.0 in
    (
      KeepsTaken-mark_all ids _ i (mark_taken-is_taken heap i w at_i),
      mark_all-Owned now patience ids _ (AllLive-mark_taken now patience heap i ids l.1),
    )
