-- ===== src/Worker/Boot.antt =====
-- The paths that `main` of app/main.go sets up for the workers: the kernels, the race that may take the
-- pair kernel away, and the two batch paths, in the order of the code.
pub mod Booted
use obsidio.Prelude.Text.{equal}
use obsidio.Prelude.{
  ℕ, zero, suc, ◌+◌, ◌*◌, ◌/◌, ◌%◌, Bool, true, false, not, ◌&&◌, ◌||◌, List, [], ◌∷◌, ◌++◌, map,
  Option, none, some, leb, ltb, ◌==◌, if◌then◌else◌, length, get_or, replicate, is_some,
}
use obsidio.Prelude.Env.{Bytes, codes}
use obsidio.Kernel.Hex.{hex_encode64}
use obsidio.Kernel.Chain.{
  Sha256, Kernels, Pair, Quad, iterate, sum_round, zero_buf, risk_chain, risk_chain_pair,
  risk_chain_quad_kernel,
}
use obsidio.Kernel.X16.{sha_pad64, lane_sum, step, x16_chain_run}
use obsidio.Kernel.Install.{Asm, Vectors, passes, init_risk_kernel, kernel_use_shani}
use obsidio.Kernel.Install.Flags.{cpuinfo_flags, has_flag}
use obsidio.Kernel.Install.Tested.{stdlib_kernels}
use obsidio.Raw.Write.{decimal}
use obsidio.Boot.{x16_min_batch}
use obsidio.Worker.{Paths}
use obsidio.Worker.Race.{race_kernel_pairing}
use obsidio.Worker.X4.{quad_ok, init_risk_kernel_x4}
use obsidio.Worker.X16.{init_risk_kernel_x16}

-- The processor: the assembly routines, what the buffers of `x16Pool` hold, and the text of
-- /proc/cpuinfo, if it can be read.
pub record Machine : Type 0 where
  pub asm : Asm
  pub chain4x : Quad → ℕ → Quad
  pub x16 : List Bytes → Bytes
  pub bufs : List Bytes
  pub cpuinfo : Option Bytes

-- The vectors of the three self-tests, and RISK_KERNEL, RISK_KERNEL_V3, RISK_X4 and RISK_X16.
pub record Setup : Type 0 where
  pub kernel_vectors : Vectors
  pub quad_vectors : Vectors
  pub x16_vectors : Vectors
  pub risk_kernel : Bytes
  pub risk_kernel_v3 : Bytes
  pub risk_x4 : Bytes
  pub risk_x16 : Bytes

-- The durations of the boot races.
pub record Timing : Type 0 where
  pub serial : List ℕ
  pub paired : List ℕ
  pub pair2 : List ℕ
  pub quad : List ℕ
  pub batch : ℕ
  pub timed : ℕ

module _ (H : Sha256) (trim_space : Bytes → Bytes) (m : Machine) (u : Setup) (t : Timing)
    (mask : ℕ) where
  -- `has(f)`.
  abbrev pub has : Bytes → Bool
  has f = has_flag (cpuinfo_flags trim_space m.cpuinfo) f

  -- The kernels after `raceKernelPairing`.
  unfoldable pub boot_kernels : Kernels
  unfolding init_risk_kernel race_kernel_pairing
  boot_kernels = race_kernel_pairing t.serial t.paired (
      init_risk_kernel H m.asm u.kernel_vectors u.risk_kernel u.risk_kernel_v3 has
        (stdlib_kernels H mask))

  abbrev pub boot_shani : Bool
  boot_shani = kernel_use_shani H m.asm u.kernel_vectors u.risk_kernel has

  abbrev pub quad_path : Bool → Option (Quad → Option Quad)
  quad_path won = if won then some (risk_chain_quad_kernel H m.chain4x mask) else none

  unfoldable pub boot_quad : Option (Quad → Option Quad)
  unfolding boot_kernels init_risk_kernel_x4 quad_ok kernel_use_shani
  boot_quad = quad_path (
      init_risk_kernel_x4 H u.risk_x4 boot_shani boot_kernels (quad_ok H u.quad_vectors m.chain4x)
        t.pair2 t.quad)

  unfoldable pub boot_x16 : Option ℕ
  unfolding boot_kernels init_risk_kernel_x16 kernel_use_shani
  boot_x16 =
      init_risk_kernel_x16 H u.risk_kernel u.risk_x16 has boot_shani boot_kernels u.x16_vectors
        m.x16 m.bufs t.batch t.timed

  unfoldable pub x16_paths : Option ℕ → Paths
  unfolding boot_kernels boot_quad
  x16_paths none = record {
    kernels = boot_kernels;
    chain_quad = boot_quad;
    chain_x16 = none;
    x16_min_batch = 8;
  }
  x16_paths (some floor) = record {
    kernels = boot_kernels;
    chain_quad = boot_quad;
    chain_x16 = some (x16_chain_run H m.x16 m.bufs);
    x16_min_batch = floor;
  }

  -- What the workers start with.
  unfoldable pub boot_paths : Paths
  unfolding boot_x16 x16_paths
  boot_paths = x16_paths boot_x16
