-- ===== src/Kernel/Install/Trusted.antt =====
-- If a kernel that passes its self-test is right, then the installed kernels are.
use obsidio.Prelude.{ℕ, ◌≡◌, Bool, refl, some, none, Option}
use obsidio.Prelude.Env.{Bytes}
use obsidio.Kernel.Chain.{Sha256, Kernels, Pair, starter_chain, risk_chain}
use obsidio.Kernel.Chain.Correct.{
  KernelsCorrect, Sum64Correct, SumPairCorrect, PairIterCorrect, Iter1Correct, PairIterNCorrect,
  Iter1NCorrect, risk_chain-starter_chain,
}
use obsidio.Kernel.Install.{Asm, Vectors, init_risk_kernel}
use obsidio.Kernel.Install.Meets.{Demand, Meets, Gives, OrNil, init_risk_kernel-Meets}
use obsidio.Kernel.Install.Tested.{stdlib_kernels}

abbrev pub correct : Sha256 → Demand
correct H = record {
  sum64 = Sum64Correct H;
  sum_pair = λ f. SumPairCorrect H (some f);
  pair_iter = λ f. PairIterCorrect H (some f);
  iter1 = λ f. Iter1Correct H (some f);
  pair_iter_n = λ f. PairIterNCorrect H (some f);
  iter1_n = λ f. Iter1NCorrect H (some f);
}

Meets-KernelsCorrect : (H : Sha256) (k : Kernels) → Meets (correct H) k → KernelsCorrect H k
Meets-KernelsCorrect H k m = record {
  sum64 = m.sum64;
  sum_pair = pair k.sum_pair m.sum_pair;
  pair_iter = iter k.pair_iter m.pair_iter;
  iter1 = one k.iter1 m.iter1;
  pair_iter_n = iter_n k.pair_iter_n m.pair_iter_n;
  iter1_n = one_n k.iter1_n m.iter1_n;
}
  where
    pair :
        (o : Option (Pair → Pair)) → OrNil (λ f. SumPairCorrect H (some f)) o → SumPairCorrect H o
    pair none h = tt
    pair (some f) h = h

    iter :
        (o : Option (Pair → Pair)) → OrNil (λ f. PairIterCorrect H (some f)) o → PairIterCorrect H o
    iter none h = tt
    iter (some f) h = h

    one : (o : Option (Bytes → Bytes)) → OrNil (λ f. Iter1Correct H (some f)) o → Iter1Correct H o
    one none h = tt
    one (some f) h = h

    iter_n :
        (o : Option (Pair → ℕ → Pair))
        → OrNil (λ f. PairIterNCorrect H (some f)) o
        → PairIterNCorrect H o
    iter_n none h = tt
    iter_n (some f) h = h

    one_n :
        (o : Option (Bytes → ℕ → Bytes))
        → OrNil (λ f. Iter1NCorrect H (some f)) o
        → Iter1NCorrect H o
    one_n none h = tt
    one_n (some f) h = h

pub init_risk_kernel-KernelsCorrect :
    (H : Sha256) (asm : Asm) (rnd : Vectors) (mode v3 : Bytes) (has : Bytes → Bool) (mask : ℕ)
    → Gives H asm rnd (correct H)
    → KernelsCorrect H (init_risk_kernel H asm rnd mode v3 has (stdlib_kernels H mask))
init_risk_kernel-KernelsCorrect H asm rnd mode v3 has mask gives = Meets-KernelsCorrect H _ (
    init_risk_kernel-Meets H asm rnd (correct H) gives mode v3 has (stdlib_kernels H mask) (record {
      sum64 = λ b l. refl;
      sum_pair = tt;
      pair_iter = tt;
      iter1 = tt;
      pair_iter_n = tt;
      iter1_n = tt;
    }))

-- If each routine that passes its self-test is right, then riskChain over the kernels that
-- initRiskKernel installs, for any flags and environment, returns the starter chain of the seed.
init_risk_kernel-starter_chain :
    (H : Sha256) (asm : Asm) (rnd : Vectors) (mode v3 : Bytes) (has : Bytes → Bool) (mask : ℕ)
    (seed : Bytes)
    → Gives H asm rnd (correct H)
    → risk_chain H (init_risk_kernel H asm rnd mode v3 has (stdlib_kernels H mask)) seed
      ≡ some (starter_chain H seed)
init_risk_kernel-starter_chain H asm rnd mode v3 has mask seed gives =
    risk_chain-starter_chain H _ seed
      (init_risk_kernel-KernelsCorrect H asm rnd mode v3 has mask gives)
