-- ===== src/Kernel/Install/Tested.antt =====
-- An installed kernel agrees with its reference on every vector of its self-test.
use obsidio.Prelude.{
  and_true, ℕ, zero, suc, ◌+◌, ◌<◌, ◌≡◌, refl, ap, ap₂, ◌∙◌, Bool, true, List, [], ◌∷◌, none, arith,
}
use obsidio.Prelude.Text.{equal, equal_iff}
use obsidio.Prelude.Env.{Bytes}
use obsidio.Kernel.Hex.{hex_encode64}
use obsidio.Kernel.Chain.{Sha256, Kernels, Pair, iterate, zero_buf}
use obsidio.Kernel.Install.{
  Asm, Vectors, kernel_sum64, kernel_sum64_pair, passes, equal_pair, drawn_pair, sum64_case,
  pair_case, fused_case, single_case, sum64_ok, pair_ok, fused_ok, single_ok, rounds_ok,
  all_rounds_ok, init_risk_kernel,
}
use obsidio.Kernel.Install.Meets.{Demand, Meets, Gives, init_risk_kernel-Meets}

passes_all :
    (n i : ℕ) (test : ℕ → Bool) → passes n i test ≡ true → (j : ℕ) → j < n → test (i + j) ≡ true
unfolding passes
passes_all zero i test h j lt = absurd (omega arith)
passes_all (suc n) i test h zero lt = ap test (omega arith) ∙ (and_true (test i) _ h).0
passes_all (suc n) i test h (suc j) lt =
    ap test (omega arith) ∙ passes_all n (i + 1) test (and_true (test i) _ h).1 j (omega arith)

passes-case : (n : ℕ) (test : ℕ → Bool) → passes n 0 test ≡ true → (j : ℕ) → j < n → test j ≡ true
passes-case n test h j lt =
    let e : j ≡ 0 + j = omega arith in ap test e ∙ passes_all n 0 test h j lt

equal_pair_sound : (a b : Pair) → equal_pair a b ≡ true → a ≡ b
equal_pair_sound (a, b) (c, d) h =
    let (p, q) = and_true (equal a c) (equal b d) h in
    ap₂ (λ x y. (x, y)) ((equal_iff a c).0 p) ((equal_iff b d).0 q)

module _ (H : Sha256) (asm : Asm) (rnd : Vectors) where
  -- The loops in assembly, after each number of rounds, on the vectors from `base` on.
  pub PairRounds : (Pair → ℕ → Pair) → ℕ → List ℕ → Type 0
  PairRounds f base [] = Unit
  PairRounds f base (n ∷ ns) =
      ((c : ℕ)
        → c < 128
        → f (drawn_pair H asm rnd base c) n
          ≡ iterate n asm.pair_hash_hex (drawn_pair H asm rnd base c))
      × PairRounds f (base + 256) ns

  pub SingleRounds : (Bytes → ℕ → Bytes) → ℕ → List ℕ → Type 0
  SingleRounds f base [] = Unit
  SingleRounds f base (n ∷ ns) =
      ((c : ℕ)
        → c < 128
        → f (drawn_pair H asm rnd base c).0 n
          ≡ iterate n asm.hash_hex1 (drawn_pair H asm rnd base c).0)
      × SingleRounds f (base + 256) ns

  abbrev pub rounds : List ℕ
  rounds = 1 ∷ 2 ∷ 3 ∷ 17 ∷ 256 ∷ []

  -- Agreement on all the vectors of a test: with crypto/sha256, with the unfused kernels and the hex
  -- encoder, or with as many single iterations.
  abbrev pub tested : Demand
  tested = record {
    sum64 = λ f. (i : ℕ) → i < 512 → f (rnd.draw i) ≡ H.sum256 (rnd.draw i);
    sum_pair = λ f.
        (i : ℕ)
        → i < 256
        → f (drawn_pair H asm rnd 512 i)
          ≡ (H.sum256 (drawn_pair H asm rnd 512 i).0, H.sum256 (drawn_pair H asm rnd 512 i).1);
    pair_iter = λ f.
        (i : ℕ)
        → i < 512
        → f (drawn_pair H asm rnd 1024 i) ≡ (
          hex_encode64 zero_buf (kernel_sum64_pair asm (drawn_pair H asm rnd 1024 i)).0,
          hex_encode64 zero_buf (kernel_sum64_pair asm (drawn_pair H asm rnd 1024 i)).1,
        );
    iter1 = λ f.
        (i : ℕ)
        → i < 512
        → f (rnd.draw (2048 + i))
          ≡ hex_encode64 zero_buf (kernel_sum64 true asm (rnd.draw (2048 + i)));
    pair_iter_n = λ f. PairRounds f 2560 rounds;
    iter1_n = λ f. SingleRounds f 2560 rounds;
  }

  rounds_tested :
      (base : ℕ) (ns : List ℕ)
      → all_rounds_ok H asm rnd base ns ≡ true
      → PairRounds asm.pair_hash_hex_n base ns × SingleRounds asm.hash_hex1_n base ns
  unfolding all_rounds_ok rounds_ok PairRounds SingleRounds
  rounds_tested base [] h = (tt, tt)
  rounds_tested base (n ∷ ns) h =
      let (here, later) = and_true _ _ h in
      let (ps, ss) = rounds_tested (base + 256) ns later in
      let case_ : (c : ℕ) → c < 128 → rounds_ok H asm rnd n (drawn_pair H asm rnd base c) ≡ true =
        λ c lt.
          passes-case 128 (λ c. rounds_ok H asm rnd n (drawn_pair H asm rnd base c)) here c lt in
      (
        ((λ c lt. equal_pair_sound _ _ (and_true _ _ (case_ c lt)).0), ps),
        ((λ c lt. (equal_iff _ _).0 (and_true _ _ (case_ c lt)).1), ss),
      )

  tested-Gives : Gives H asm rnd tested
  unfolding sum64_ok pair_ok fused_ok single_ok
  tested-Gives = record {
    sum64 = λ u ok i lt. (equal_iff _ _).0 (passes-case 512 (sum64_case H asm rnd u) ok i lt);
    pair = λ ok i lt. equal_pair_sound _ _ (passes-case 256 (pair_case H asm rnd) ok i lt);
    fused = λ ok p i lt. equal_pair_sound _ _ (passes-case 512 (fused_case H asm rnd) ok i lt);
    single = λ ok s i lt. (equal_iff _ _).0 (passes-case 512 (single_case H asm rnd true) ok i lt);
    rounds = λ ok p s. rounds_tested 2560 rounds ok;
  }

-- The kernels before `initRiskKernel`.
abbrev pub stdlib_kernels : Sha256 → ℕ → Kernels
stdlib_kernels H mask = record {
  sum64 = H.sum256;
  sum_pair = none;
  pair_iter = none;
  iter1 = none;
  pair_iter_n = none;
  iter1_n = none;
  yield_mask = mask;
}

-- Whatever the assembly routines do, and for any flags and environment, every kernel that
-- initRiskKernel installs agrees with its reference on every vector of its self-test:
-- crypto/sha256, or the unfused kernels with the hex encoder, or as many single iterations.
pub init_risk_kernel-tested :
    (H : Sha256) (asm : Asm) (rnd : Vectors) (mode v3 : Bytes) (has : Bytes → Bool) (mask : ℕ)
    → Meets (tested H asm rnd) (init_risk_kernel H asm rnd mode v3 has (stdlib_kernels H mask))
init_risk_kernel-tested H asm rnd mode v3 has mask =
    init_risk_kernel-Meets H asm rnd (tested H asm rnd) (tested-Gives H asm rnd) mode v3 has
      (stdlib_kernels H mask)
      (record {
        sum64 = λ i lt. refl;
        sum_pair = tt;
        pair_iter = tt;
        iter1 = tt;
        pair_iter_n = tt;
        iter1_n = tt;
      })
