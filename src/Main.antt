-- ===== src/Main.antt =====
-- `main` of app/main.go up to the point where it listens: what each step of the boot sets, in the order of
-- the code, and the process that runs from there.
pub mod Served
pub mod Listen
pub mod End
pub mod Samples
mod Tests
use obsidio.Prelude.{ℕ, Bool, List, [], ◌∷◌, ◌++◌, Option, none, some, ◌≡◌, ◌>>=◌}
use obsidio.Prelude.Env.{Bytes}
use obsidio.Governor.{Counters, init_shed_budget}
use obsidio.Kernel.Chain.{Sha256}
use obsidio.Prices.{Codec, Process}
use obsidio.Prices.Start.{LogFile, fresh, init_price_wal}
use obsidio.Boot.Cgroup.{Numbers, Files, boot_slots}
use obsidio.Boot.Calibrate.{calibrate_risk, alone_samples, round_samples, contended_samples}
use obsidio.Gate.System.Defs.{System, Phase, Step, scanning, initial}
use obsidio.Worker.{Paths}
use obsidio.Worker.Boot.{Machine, Setup, Timing, boot_paths}
use obsidio.Worker.Turn.{turn}

-- RISK_SLOTS, RISK_ERR_GATE_BP, RISK_SHED_BUDGET_BP, PRICE_WAL and RISK_YIELD_STRIDE.
pub record Settings : Type 0 where
  pub risk_slots : Bytes
  pub err_gate : Bytes
  pub shed_budget : Bytes
  pub price_wal : Bytes
  pub yield_stride : Bytes

-- What `calibrateRisk` measures, chain by chain, alone and by round and goroutine, and its comparison of
-- floating-point numbers.
pub record Calibration : Type 0 where
  pub within : ℕ → ℕ → Bool
  pub alone : ℕ → ℕ
  pub contended : ℕ → ℕ → ℕ

-- What the process listens with. The counters of the process and those of the gate are the same variables.
pub record Booted (J : Codec) : Type 0 where
  pub process : Process J
  pub system : System
  pub paths : Paths

module _ (J : Codec) (H : Sha256) (N : Numbers (Codec.Price J)) (fields : Bytes → List Bytes)
    (trim_space : Bytes → Bytes) where
  -- `none` is a calibration that ran out of fuel.
  unfoldable pub boot :
      List (Bytes × Codec.Price J)
      → Settings
      → Files
      → LogFile
      → Calibration
      → Machine
      → Setup
      → Timing
      → Option (Booted J)
  unfolding boot_slots init_shed_budget init_price_wal calibrate_risk round_samples boot_paths
  boot base env files log cal m u t =
      let slots = boot_slots N fields trim_space files env.risk_slots in
      let budget = init_shed_budget env.err_gate env.shed_budget in
      let x = init_price_wal J env.price_wal log (fresh J base) in
      calibrate_risk cal.within (alone_samples cal.alone) (contended_samples cal.contended slots)
        env.yield_stride
      >>= λ (e, mask). some (record {
        process = x;
        system = initial x.counters budget e.patience slots;
        paths = boot_paths H trim_space m u t mask;
      })

-- The /risk path of the running process: a worker's turn with the paths of the boot, or any step in
-- which no digest is made, whatever the chain.
pub data Move (H : Sha256) (p : Paths) (tune : ℕ → ℕ) (s : System) : System → Type 0 where
  work :
      {t : System} (before after : List Phase) (now : ℕ)
      → s.workers ≡ before ++ scanning ∷ after
      → turn H p tune before after now s ≡ some t
      → Move H p tune s t
  other : {t : System} → ((chain : Bytes → Bytes) → Step chain s t) → Move H p tune s t

pub data Runs (H : Sha256) (p : Paths) (tune : ℕ → ℕ) (s : System) : System → Type 0 where
  start : Runs H p tune s s
  next : {t u : System} → Runs H p tune s t → Move H p tune t u → Runs H p tune s u
