-- ===== src/Main/Served.antt =====
-- What a process that `main` started answers.
use obsidio.Prelude.{
  ℕ, suc, ◌*◌, ◌≤◌, ◌<◌, ◌≡◌, refl, sym, subst, ◌∙◌, inl, inr, false, List, [], ◌∷◌, none, some,
  get_elem?, Option-cases, All, length, length-replicate, arith,
}
use obsidio.Prelude.Env.{Bytes}
use obsidio.Governor.{init_shed_budget}
use obsidio.Kernel.Chain.{Sha256, starter_chain}
use obsidio.Prices.{Codec}
use obsidio.Prices.Start.{LogFile, fresh, init_price_wal}
use obsidio.Boot.Cgroup.{Numbers, Files, boot_slots}
use obsidio.Boot.Slots.{boot_slots_lem}
use obsidio.Boot.Calibrate.{calibrate_risk, alone_samples, contended_samples}
use obsidio.Boot.Calibrate.Measured.{contended_samples-All, length-contended_samples}
use obsidio.Boot.Tuned.{calibrate_risk-IsTuned}
use obsidio.Patience.{millisecond, Estimate}
use obsidio.Patience.Window.{InRange}
use obsidio.Gate.{Waiter, Pc, waking, waiting, leaving, collecting, served, refused}
use obsidio.Gate.System.Defs.{System, Reach, here, more, scanning, initial}
use obsidio.Gate.System.Digests.{served_digest}
use obsidio.Worker.{Paths}
use obsidio.Worker.Batch.{PathsCorrect}
use obsidio.Worker.Boot.{Machine, Setup, Timing, boot_paths}
use obsidio.Worker.Boot.Booted.{Trusted, boot_paths-PathsCorrect}
use obsidio.Worker.Turn.Simulates.{turn-Reach}
use obsidio.Main.{Settings, Calibration, Booted, boot, Move, work, other, Runs, start, next}

pub Reach-trans :
    {chain : Bytes → Bytes} {s t u : System} → Reach chain s t → Reach chain t u → Reach chain s u
Reach-trans r here = r
Reach-trans r (more q st) = more (Reach-trans r q) st

given {ℓ} : {A : Type ℓ} {x y : A} → some x ≡ some y → x ≡ y
given h = cc

-- A goroutine that returned a digest returned the starter's chain of its seed, to a client that had not
-- been given up.
abbrev pub Answered : Sha256 → Waiter → Pc → Type 0
Answered H w (served h) = (h ≡ starter_chain H w.seed) × (w.abandoned ≡ false)
Answered H w waking = Unit
Answered H w waiting = Unit
Answered H w (leaving reserved) = Unit
Answered H w collecting = Unit
Answered H w refused = Unit

abbrev pub IsAnswered : Sha256 → Waiter → Type 0
IsAnswered H w = Answered H w w.pc

Answered-served :
    (H : Sha256) (w : Waiter) (pc : Pc)
    → ((h : Bytes) → pc ≡ served h → (h ≡ starter_chain H w.seed) × (w.abandoned ≡ false))
    → Answered H w pc
Answered-served H w (served h) k = k h refl
Answered-served H w waking k = tt
Answered-served H w waiting k = tt
Answered-served H w (leaving reserved) k = tt
Answered-served H w collecting k = tt
Answered-served H w refused k = tt

All-of {ℓ ℓ'} :
    {A : Type ℓ} (P : A → Type ℓ') (xs : List A)
    → ((i : ℕ) (x : A) → get_elem? xs i ≡ some x → P x)
    → All P xs
All-of P [] h = tt
All-of P (x ∷ xs) h = (h 0 x refl, All-of P xs (λ i y e. h (suc i) y e))

module _ (H : Sha256) (p : Paths) (tune : ℕ → ℕ) where
  Move-Reach : {s t : System} → PathsCorrect H p → Move H p tune s t → Reach (starter_chain H) s t
  Move-Reach {s} {t} correct (work before after now scans done) =
      let (u, run, r) = turn-Reach H p tune before after s now correct scans in
      subst (Reach (starter_chain H) s) (given (sym run ∙ done)) r
  Move-Reach correct (other step) = more here (step (starter_chain H))

  Runs-Reach : {s t : System} → PathsCorrect H p → Runs H p tune s t → Reach (starter_chain H) s t
  Runs-Reach correct start = here
  Runs-Reach correct (next r m) = Reach-trans (Runs-Reach correct r) (Move-Reach correct m)

module _ (J : Codec) (H : Sha256) (N : Numbers (Codec.Price J)) (fields : Bytes → List Bytes)
    (trim_space : Bytes → Bytes) (base : List (Bytes × Codec.Price J)) (env : Settings)
    (files : Files) (log : LogFile) (cal : Calibration) (m : Machine) (u : Setup) (t : Timing) where
  -- What the boot leaves for an estimate and a yield mask.
  abbrev pub booted : Estimate × ℕ → Booted J
  booted (e, mask) =
      let x = init_price_wal J env.price_wal log (fresh J base) in
      record {
        process = x;
        system =
            initial x.counters (init_shed_budget env.err_gate env.shed_budget) e.patience
              (boot_slots N fields trim_space files env.risk_slots);
        paths = boot_paths H trim_space m u t mask;
      }

  pub boot-booted :
      (b : Booted J)
      → boot J H N fields trim_space base env files log cal m u t ≡ some b
      → (r : Estimate × ℕ) × (booted r ≡ b)
  unfolding boot
  boot-booted b e =
      let samples =
        contended_samples cal.contended (boot_slots N fields trim_space files env.risk_slots) in
      elim (Option-cases
        (calibrate_risk cal.within (alone_samples cal.alone) samples env.yield_stride)) [
          | inl stuck ↦ let bad : none ≡ some b = rw stuck at e in absurd cc
          | inr (r, tuned) ↦ (r, given (rw tuned at e))
        ]

  -- If each kernel that passes its boot self-test is right and the pool gives 16 buffers of 64
  -- bytes, then with what main sets up, for any processor flags, environment, files, durations and
  -- log, and in any sequence of whole turns of the workers and steps of the gate that make no
  -- digest, every request that is answered with a digest gets the starter chain of its own seed and
  -- was not abandoned.
  pub boot_served :
      (b : Booted J) (tune : ℕ → ℕ) (s : System)
      → Trusted H m u
      → boot J H N fields trim_space base env files log cal m u t ≡ some b
      → Runs H b.paths tune b.system s
      → All (IsAnswered H) s.gate.heap
  boot_served b tune s trust e runs =
      let ((estimate, mask), same) = boot-booted b e in
      let mine : Runs H (booted (estimate, mask)).paths tune (booted (estimate, mask)).system s =
        subst (λ (c : Booted J). Runs H c.paths tune c.system s) (sym same) runs in
      let correct = boot_paths-PathsCorrect H trim_space m u t mask trust in
      All-of (IsAnswered H) s.gate.heap (λ i w there. Answered-served H w w.pc (λ h answered.
        served_digest _ _ _ _ s (Runs-Reach H _ tune correct mine) i w there h answered))

  -- If each contended chain of the calibration takes between 1 ms and 500 ms, the boot ends,
  -- whatever the environment, the files, the log and the processor, with one to four workers and a
  -- patience window between 700 ms and 1199 ms.
  pub boot_lem :
      ((r c : ℕ) → InRange (cal.contended r c))
      → (b : Booted J) × (boot J H N fields trim_space base env files log cal m u t ≡ some b)
        × (1 ≤ length b.system.workers)
        × (length b.system.workers ≤ 4)
        × (700 * millisecond ≤ b.system.gate.patience)
        × (b.system.gate.patience ≤ 1199 * millisecond)
  unfolding boot
  boot_lem range =
      let n = boot_slots N fields trim_space files env.risk_slots in
      let slots = boot_slots_lem N fields trim_space files env.risk_slots in
      let samples = contended_samples cal.contended n in
      let some_ : 0 < length samples =
        omega (arith, length-contended_samples cal.contended n, slots.0) in
      let (e, mask, eq, tuned, fits) =
        calibrate_risk-IsTuned cal.within (alone_samples cal.alone) samples env.yield_stride some_
          (contended_samples-All InRange cal.contended n range) in
      let workers = length-replicate n scanning in
      (
        booted (e, mask),
        rw eq refl,
        rw workers slots.0,
        rw workers slots.1,
        omega arith,
        omega arith,
      )
