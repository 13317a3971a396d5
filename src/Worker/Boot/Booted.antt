-- ===== src/Worker/Boot/Booted.antt =====
-- What the boot code installs answers every batch.
use obsidio.Prelude.{
  and_true, ℕ, ◌≤◌, ◌≡◌, ◌*◌, refl, inl, inr, Bool, true, false, ◌&&◌, List, Option, none, some,
  Bool-cases, is_some, leb, if◌then◌else◌, length,
}
use obsidio.Prelude.Env.{Bytes}
use obsidio.Kernel.Chain.{Sha256, Kernels}
use obsidio.Kernel.Chain.Correct.{
  KernelsCorrect, Chain4xCorrect, risk_chain_quad_kernel-starter_chain,
}
use obsidio.Kernel.X16.Correct.{AreLanes, X16KernelCorrect, x16_chain_run-starter_chain}
use obsidio.Kernel.Install.{Vectors}
use obsidio.Kernel.Install.Meets.{Gives}
use obsidio.Kernel.Install.Trusted.{correct, init_risk_kernel-KernelsCorrect}
use obsidio.Worker.{Job, run_batch}
use obsidio.Worker.Batch.{Answers, PathsCorrect, QuadCorrect, run_batch-Answers}
use obsidio.Boot.Sort.{median3}
use obsidio.Worker.Race.{race_kernel_pairing}
use obsidio.Worker.X4.{quad_ok, init_risk_kernel_x4}
use obsidio.Worker.X16.{x16_eligible, x16_sums_ok, init_risk_kernel_x16}
use obsidio.Worker.Boot.{
  Machine, Setup, Timing, boot_shani, has, quad_path, boot_kernels, boot_quad, boot_x16, x16_paths,
  boot_paths,
}

-- A kernel that passes its self-test is right, for each kernel that there is a self-test of.
pub record Trusted (H : Sha256) (m : Machine) (u : Setup) : Type 0 where
  pub kernels : Gives H m.asm u.kernel_vectors (correct H)
  pub quad : quad_ok H u.quad_vectors m.chain4x ≡ true → Chain4xCorrect H m.chain4x
  pub x16 : x16_sums_ok H u.x16_vectors m.x16 ≡ true → X16KernelCorrect H m.x16
  pub bufs : AreLanes m.bufs

race-KernelsCorrect :
    (H : Sha256) (serial paired : List ℕ) (k : Kernels)
    → KernelsCorrect H k
    → KernelsCorrect H (race_kernel_pairing serial paired k)
unfolding race_kernel_pairing
race-KernelsCorrect H serial paired k c =
    elim (Bool-cases (is_some k.sum_pair && leb (median3 serial * 95) (median3 paired * 100))) [
      | inr keep ↦ rw keep c
      | inl drop_ ↦ rw drop_ (record {
        sum64 = c.sum64;
        sum_pair = tt;
        pair_iter = c.pair_iter;
        iter1 = c.iter1;
        pair_iter_n = c.pair_iter_n;
        iter1_n = c.iter1_n;
      })
    ]

x4_passed :
    (H : Sha256) (mode : Bytes) (use_shani : Bool) (k : Kernels) (ok : Bool) (pair2 quad : List ℕ)
    → init_risk_kernel_x4 H mode use_shani k ok pair2 quad ≡ true
    → ok ≡ true
unfolding init_risk_kernel_x4
x4_passed H mode use_shani k ok pair2 quad h =
    (and_true ok _ (and_true _ _ (and_true use_shani _ (and_true _ _ h).1).1).1).0

chosen {ℓ} : {A : Type ℓ} → (b : Bool) (x y : A) → (if b then some x else none) ≡ some y → b ≡ true
chosen true x y h = refl
chosen false x y h = cc

x16_passed :
    (H : Sha256) (kernel_mode mode : Bytes) (has : Bytes → Bool) (use_shani : Bool) (k : Kernels)
    (rnd : Vectors) (x16 : List Bytes → Bytes) (bufs : List Bytes) (batch timed floor : ℕ)
    → init_risk_kernel_x16 H kernel_mode mode has use_shani k rnd x16 bufs batch timed ≡ some floor
    → x16_sums_ok H rnd x16 ≡ true
unfolding init_risk_kernel_x16
x16_passed H kernel_mode mode has use_shani k rnd x16 bufs batch timed floor h =
    (and_true _ _ (and_true (x16_eligible H kernel_mode mode has use_shani) _ (chosen _ _ _ h)).1).0

module _ (H : Sha256) (trim_space : Bytes → Bytes) (m : Machine) (u : Setup) (t : Timing) (mask : ℕ)
    (trust : Trusted H m u) where
  boot_kernels-KernelsCorrect : KernelsCorrect H (boot_kernels H trim_space m u t mask)
  unfolding boot_kernels
  boot_kernels-KernelsCorrect = race-KernelsCorrect H t.serial t.paired _ (
      init_risk_kernel-KernelsCorrect H m.asm u.kernel_vectors u.risk_kernel u.risk_kernel_v3
        (has H trim_space m u t mask) mask trust.kernels)

  boot_x16_passed :
      (floor : ℕ)
      → boot_x16 H trim_space m u t mask ≡ some floor
      → x16_sums_ok H u.x16_vectors m.x16 ≡ true
  unfolding boot_x16
  boot_x16_passed floor h =
      x16_passed H u.risk_kernel u.risk_x16 (has H trim_space m u t mask) _ _ u.x16_vectors m.x16
        m.bufs t.batch t.timed floor h

  quad_path-QuadCorrect :
      (won : Bool)
      → init_risk_kernel_x4 H u.risk_x4
          (boot_shani H trim_space m u t mask)
          (boot_kernels H trim_space m u t mask)
          (quad_ok H u.quad_vectors m.chain4x)
          t.pair2
          t.quad
        ≡ won
      → QuadCorrect H (quad_path H trim_space m u t mask won)
  quad_path-QuadCorrect false h = tt
  quad_path-QuadCorrect true h = λ a b c d.
      risk_chain_quad_kernel-starter_chain H m.chain4x mask a b c d
        (trust.quad (x4_passed H u.risk_x4 _ _ _ t.pair2 t.quad h))

  boot_quad-QuadCorrect : QuadCorrect H (boot_quad H trim_space m u t mask)
  unfolding boot_quad
  boot_quad-QuadCorrect = quad_path-QuadCorrect _ refl

  x16_paths-PathsCorrect :
      (floor : Option ℕ)
      → boot_x16 H trim_space m u t mask ≡ floor
      → PathsCorrect H (x16_paths H trim_space m u t mask floor)
  unfolding x16_paths
  x16_paths-PathsCorrect none h = record {
    kernels = boot_kernels-KernelsCorrect;
    quad = boot_quad-QuadCorrect;
    x16 = tt;
  }
  x16_paths-PathsCorrect (some floor) h = record {
    kernels = boot_kernels-KernelsCorrect;
    quad = boot_quad-QuadCorrect;
    x16 = λ seeds le.
        x16_chain_run-starter_chain H m.x16 (trust.x16 (boot_x16_passed floor h)) m.bufs seeds
          trust.bufs le;
  }

  pub boot_paths-PathsCorrect : PathsCorrect H (boot_paths H trim_space m u t mask)
  unfolding boot_paths
  boot_paths-PathsCorrect = x16_paths-PathsCorrect _ refl

  -- If a scalar, four-lane or 16-lane routine that passes its boot self-test is right, and the pool
  -- gives 16 buffers of 64 bytes, then with whatever paths the boot code installs, for any
  -- processor flags, environment, vectors and durations, a worker that took at most 16 waiters
  -- sends each the starter chain of its own seed, once and in the order taken, and reports one wall
  -- time for each.
  pub booted-Answers :
      (work : List Job)
      → length work ≤ 16
      → Answers H work (run_batch H (boot_paths H trim_space m u t mask) work)
  booted-Answers work le = run_batch-Answers H _ work boot_paths-PathsCorrect le
