-- ===== src/Kernel/Install/Meets.antt =====
-- What every installed kernel meets, if each test that passes gives it for the kernel that it lets in.
use obsidio.Prelude.{
  and_true, ℕ, ◌≡◌, inl, inr, Bool, true, false, ◌&&◌, Option, none, some, Bool-cases,
  if◌then◌else◌,
}
use obsidio.Prelude.Env.{Bytes}
use obsidio.Kernel.Chain.{Sha256, Kernels, Pair}
use obsidio.Kernel.Install.{
  Asm, Vectors, kernel_sum64, kernel_sum64_pair, sum64_ok, pair_ok, fused_ok, single_ok, v3_ok,
  install_v3, install_single, install_fused, install_pair, install_sum64, init_risk_kernel,
}

-- A demand on each function variable; nil meets it.
pub record Demand : Type 1 where
  pub sum64 : (Bytes → Bytes) → Type 0
  pub sum_pair : (Pair → Pair) → Type 0
  pub pair_iter : (Pair → Pair) → Type 0
  pub iter1 : (Bytes → Bytes) → Type 0
  pub pair_iter_n : (Pair → ℕ → Pair) → Type 0
  pub iter1_n : (Bytes → ℕ → Bytes) → Type 0

abbrev pub OrNil : {A : Type 0} → (A → Type 0) → Option A → Type 0
OrNil P none = Unit
OrNil P (some a) = P a

pub record Meets (d : Demand) (k : Kernels) : Type 0 where
  pub sum64 : d.sum64 k.sum64
  pub sum_pair : OrNil d.sum_pair k.sum_pair
  pub pair_iter : OrNil d.pair_iter k.pair_iter
  pub iter1 : OrNil d.iter1 k.iter1
  pub pair_iter_n : OrNil d.pair_iter_n k.pair_iter_n
  pub iter1_n : OrNil d.iter1_n k.iter1_n

-- Each test gives what is demanded of the kernels behind it.
pub record Gives (H : Sha256) (asm : Asm) (rnd : Vectors) (d : Demand) : Type 0 where
  pub sum64 :
      (use_shani : Bool)
      → sum64_ok H asm rnd use_shani ≡ true
      → d.sum64 (kernel_sum64 use_shani asm)
  pub pair : pair_ok H asm rnd ≡ true → d.sum_pair (kernel_sum64_pair asm)
  pub fused : fused_ok H asm rnd ≡ true → pair_ok H asm rnd ≡ true → d.pair_iter asm.pair_hash_hex
  pub single :
      single_ok H asm rnd true ≡ true → sum64_ok H asm rnd true ≡ true → d.iter1 asm.hash_hex1
  pub rounds :
      v3_ok H asm rnd ≡ true
      → d.pair_iter asm.pair_hash_hex
      → d.iter1 asm.hash_hex1
      → d.pair_iter_n asm.pair_hash_hex_n × d.iter1_n asm.hash_hex1_n

module _ (H : Sha256) (asm : Asm) (rnd : Vectors) (d : Demand) (gives : Gives H asm rnd d) where
  v3-Meets :
      (on : Bool) (k : Kernels)
      → Meets d k
      → d.pair_iter asm.pair_hash_hex
      → d.iter1 asm.hash_hex1
      → Meets d (install_v3 H asm rnd on (v3_ok H asm rnd) k)
  v3-Meets on k m p s = elim (Bool-cases (on && v3_ok H asm rnd)) [
    | inr off ↦ rw off m
    | inl passed ↦
        let both = gives.rounds (and_true on _ passed).1 p s in
        rw passed (record {
          sum64 = m.sum64;
          sum_pair = m.sum_pair;
          pair_iter = m.pair_iter;
          iter1 = m.iter1;
          pair_iter_n = both.0;
          iter1_n = both.1;
        })
  ]

  single-Meets :
      (on : Bool) (k : Kernels)
      → Meets d k
      → d.pair_iter asm.pair_hash_hex
      → sum64_ok H asm rnd true ≡ true
      → Meets d (install_single H asm rnd on (single_ok H asm rnd true) k)
  single-Meets on k m p s64 = elim (Bool-cases (single_ok H asm rnd true)) [
    | inr failed ↦ rw failed m
    | inl passed ↦
        let one = gives.single passed s64 in
        rw passed (
          v3-Meets on (record k { iter1 = some asm.hash_hex1 })
            (record {
              sum64 = m.sum64;
              sum_pair = m.sum_pair;
              pair_iter = m.pair_iter;
              iter1 = one;
              pair_iter_n = m.pair_iter_n;
              iter1_n = m.iter1_n;
            })
            p one)
  ]

  fused-Meets :
      (on : Bool) (k : Kernels)
      → Meets d k
      → pair_ok H asm rnd ≡ true
      → sum64_ok H asm rnd true ≡ true
      → Meets d (install_fused H asm rnd on true (fused_ok H asm rnd) k)
  fused-Meets on k m p s64 = elim (Bool-cases (fused_ok H asm rnd)) [
    | inr failed ↦ rw failed m
    | inl passed ↦
        let iter = gives.fused passed p in
        rw passed (
          single-Meets on (record k { pair_iter = some asm.pair_hash_hex })
            (record {
              sum64 = m.sum64;
              sum_pair = m.sum_pair;
              pair_iter = iter;
              iter1 = m.iter1;
              pair_iter_n = m.pair_iter_n;
              iter1_n = m.iter1_n;
            })
            iter s64)
  ]

  pair-Meets :
      (on use_shani : Bool) (k : Kernels)
      → Meets d k
      → sum64_ok H asm rnd use_shani ≡ true
      → Meets d (install_pair H asm rnd on use_shani (pair_ok H asm rnd) k)
  pair-Meets on false k m s64 = m
  pair-Meets on true k m s64 = elim (Bool-cases (pair_ok H asm rnd)) [
    | inr failed ↦ rw failed m
    | inl passed ↦ rw passed (
        fused-Meets on (record k { sum_pair = some (kernel_sum64_pair asm) })
          (record {
            sum64 = m.sum64;
            sum_pair = gives.pair passed;
            pair_iter = m.pair_iter;
            iter1 = m.iter1;
            pair_iter_n = m.pair_iter_n;
            iter1_n = m.iter1_n;
          })
          passed s64)
  ]

  sum64-Meets :
      (on use_shani : Bool) (k : Kernels)
      → Meets d k
      → Meets d (install_sum64 H asm rnd on use_shani (sum64_ok H asm rnd use_shani) k)
  sum64-Meets on use_shani k m = elim (Bool-cases (sum64_ok H asm rnd use_shani)) [
    | inr failed ↦ rw failed m
    | inl passed ↦ rw passed (
        pair-Meets on use_shani (record k { sum64 = kernel_sum64 use_shani asm })
          (record {
            sum64 = gives.sum64 use_shani passed;
            sum_pair = m.sum_pair;
            pair_iter = m.pair_iter;
            iter1 = m.iter1;
            pair_iter_n = m.pair_iter_n;
            iter1_n = m.iter1_n;
          })
          passed)
  ]

  or_stays : (b : Bool) (k k' : Kernels) → Meets d k → Meets d k' → Meets d (if b then k else k')
  or_stays true k k' m m' = m
  or_stays false k k' m m' = m'

  pub init_risk_kernel-Meets :
      (mode v3 : Bytes) (has : Bytes → Bool) (k : Kernels)
      → Meets d k
      → Meets d (init_risk_kernel H asm rnd mode v3 has k)
  unfolding init_risk_kernel
  init_risk_kernel-Meets mode v3 has k m = or_stays _ k _ m (sum64-Meets _ _ k m)
