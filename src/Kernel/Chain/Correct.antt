-- ===== src/Kernel/Chain/Correct.antt =====
-- Every path through `riskChain`, `riskChainPair` and `riskChainQuadKernel` computes the chain of
-- starters/go/main.go, given kernels that compute what their comments say.
use obsidio.Prelude.{ℕ, zero, suc, ◌≡◌, refl, sym, ap, ap₂, ◌∙◌, Option, none, some, arith, length}
use obsidio.Prelude.Env.{Bytes}
use obsidio.Kernel.Hex.{hex_encode64, hex_encode64-eq, length-encode_to_string}
use obsidio.Kernel.Chain.{
  Sha256, iterate, hash_hex, starter_chain, Pair, Quad, Kernels, stride_of, zero_buf, first_round,
  sum_round, run_single, risk_chain, pair_round, run_pair, risk_chain_pair, risk_chain_quad_kernel,
}
use obsidio.Kernel.Chain.Loops.{iterate-pred, iterate-eq, chunked-Finishes}

abbrev pub IsBuf : Bytes → Type 0
IsBuf b = length b ≡ 64

abbrev both : (Bytes → Bytes) → Pair → Pair
both f (a, b) = (f a, f b)

abbrev all_four : (Bytes → Bytes) → Quad → Quad
all_four f (a, b, c, d) = (f a, f b, f c, f d)

-- What the comments on the function variables promise of the routines behind them, on 64-byte
-- buffers: the digest, one iteration in place, or `n` of them.
abbrev pub Sum64Correct : Sha256 → (Bytes → Bytes) → Type 0
Sum64Correct H f = (b : Bytes) → IsBuf b → f b ≡ H.sum256 b

abbrev pub SumPairCorrect : Sha256 → Option (Pair → Pair) → Type 0
SumPairCorrect H none = Unit
SumPairCorrect H (some f) = (a b : Bytes) → IsBuf a → IsBuf b → f (a, b) ≡ (H.sum256 a, H.sum256 b)

abbrev pub Iter1Correct : Sha256 → Option (Bytes → Bytes) → Type 0
Iter1Correct H none = Unit
Iter1Correct H (some f) = (b : Bytes) → IsBuf b → f b ≡ hash_hex H b

abbrev pub PairIterCorrect : Sha256 → Option (Pair → Pair) → Type 0
PairIterCorrect H none = Unit
PairIterCorrect H (some f) =
    (a b : Bytes) → IsBuf a → IsBuf b → f (a, b) ≡ (hash_hex H a, hash_hex H b)

abbrev pub Iter1NCorrect : Sha256 → Option (Bytes → ℕ → Bytes) → Type 0
Iter1NCorrect H none = Unit
Iter1NCorrect H (some f) = (b : Bytes) (n : ℕ) → IsBuf b → f b n ≡ iterate n (hash_hex H) b

abbrev pub PairIterNCorrect : Sha256 → Option (Pair → ℕ → Pair) → Type 0
PairIterNCorrect H none = Unit
PairIterNCorrect H (some f) =
    (a b : Bytes) (n : ℕ)
    → IsBuf a
    → IsBuf b
    → f (a, b) n ≡ (iterate n (hash_hex H) a, iterate n (hash_hex H) b)

abbrev pub Chain4xCorrect : Sha256 → (Quad → ℕ → Quad) → Type 0
Chain4xCorrect H f =
    (a b c d : Bytes) (n : ℕ)
    → IsBuf a
    → IsBuf b
    → IsBuf c
    → IsBuf d
    → f (a, b, c, d) n ≡ (
      iterate n (hash_hex H) a,
      iterate n (hash_hex H) b,
      iterate n (hash_hex H) c,
      iterate n (hash_hex H) d,
    )

pub record KernelsCorrect (H : Sha256) (k : Kernels) : Type 0 where
  pub sum64 : Sum64Correct H k.sum64
  pub sum_pair : SumPairCorrect H k.sum_pair
  pub pair_iter : PairIterCorrect H k.pair_iter
  pub iter1 : Iter1Correct H k.iter1
  pub pair_iter_n : PairIterNCorrect H k.pair_iter_n
  pub iter1_n : Iter1NCorrect H k.iter1_n

module _ (H : Sha256) where
  pub hash_hex-IsBuf : (m : Bytes) → IsBuf (hash_hex H m)
  hash_hex-IsBuf m = omega (arith, length-encode_to_string (H.sum256 m), H.length_sum m)

  pub encode_sum : (buf m : Bytes) → IsBuf buf → hex_encode64 buf (H.sum256 m) ≡ hash_hex H m
  encode_sum buf m b = hex_encode64-eq buf (H.sum256 m) b (H.length_sum m) (H.bytes_sum m)

  first_round-eq : (seed : Bytes) → first_round H seed ≡ hash_hex H seed
  first_round-eq seed = encode_sum zero_buf seed refl

  run_single-eq :
      (o_n : Option (Bytes → ℕ → Bytes)) (o : Option (Bytes → Bytes)) (sum64 : Bytes → Bytes)
      (mask : ℕ) (b : Bytes)
      → Iter1NCorrect H o_n
      → Iter1Correct H o
      → Sum64Correct H sum64
      → IsBuf b
      → run_single o_n o sum64 mask b ≡ some (iterate 49999 (hash_hex H) b)
  unfolding run_single
  run_single-eq (some f) o sum64 mask b cn c c64 h =
      let fin =
        chunked-Finishes IsBuf (hash_hex H) f 50000 (stride_of mask) (λ s _. hash_hex-IsBuf s) cn
          (omega arith) 50000 1 b (omega arith) (omega arith) h in
      rw fin.1 refl
  run_single-eq none (some f) sum64 mask b cn c c64 h =
      ap some (iterate-eq (hash_hex H) IsBuf f (λ s _. hash_hex-IsBuf s) c 49999 b h)
  run_single-eq none none sum64 mask b cn c c64 h = ap some (
      iterate-eq (hash_hex H) IsBuf (sum_round sum64) (λ s _. hash_hex-IsBuf s)
        (λ s p. rw (c64 s p) (encode_sum s s p)) 49999 b h)

  -- With kernels that compute what their boot self-tests check, and whichever of them is installed,
  -- riskChain ends within its fuel and returns the 50,000-round chain of the starter, for every
  -- seed and every yield mask.
  pub risk_chain-starter_chain :
      (k : Kernels) (seed : Bytes)
      → KernelsCorrect H k
      → risk_chain H k seed ≡ some (starter_chain H seed)
  unfolding risk_chain starter_chain
  risk_chain-starter_chain k seed c =
      let start : IsBuf (first_round H seed) = rw (first_round-eq seed) (hash_hex-IsBuf seed) in
      run_single-eq k.iter1_n k.iter1 k.sum64 k.yield_mask _ c.iter1_n c.iter1 c.sum64 start
      ∙ rw (first_round-eq seed)
          (ap some (sym (iterate-pred (hash_hex H) 50000 seed (omega arith))))

  both-iterate :
      (f : Bytes → Bytes) (n : ℕ) (a b : Bytes)
      → iterate n (both f) (a, b) ≡ (iterate n f a, iterate n f b)
  unfolding iterate
  both-iterate f zero a b = refl
  both-iterate f (suc n) a b = both-iterate f n (f a) (f b)

  all_four-iterate :
      (f : Bytes → Bytes) (n : ℕ) (a b c d : Bytes)
      → iterate n (all_four f) (a, b, c, d)
        ≡ (iterate n f a, iterate n f b, iterate n f c, iterate n f d)
  unfolding iterate
  all_four-iterate f zero a b c d = refl
  all_four-iterate f (suc n) a b c d = all_four-iterate f n (f a) (f b) (f c) (f d)

  abbrev ArePairBufs : Pair → Type 0
  ArePairBufs s = IsBuf s.0 × IsBuf s.1

  both-ArePairBufs : (s : Pair) → ArePairBufs s → ArePairBufs (both (hash_hex H) s)
  both-ArePairBufs (a, b) p = (hash_hex-IsBuf a, hash_hex-IsBuf b)

  pair_round-eq :
      (f : Pair → Pair)
      → SumPairCorrect H (some f)
      → (s : Pair) → ArePairBufs s
      → pair_round f s ≡ both (hash_hex H) s
  pair_round-eq f c (a, b) (la, lb) =
      rw (c a b la lb) (ap₂ (λ x y. (x, y)) (encode_sum a a la) (encode_sum b b lb))

  -- Two lanes run as two chains, on the fused path and the composed one alike.
  run_pair-eq :
      (o_n : Option (Pair → ℕ → Pair)) (o p : Option (Pair → Pair)) (g : Pair → Pair) (mask : ℕ)
      (a b : Bytes)
      → PairIterNCorrect H o_n
      → PairIterCorrect H o
      → SumPairCorrect H p
      → p ≡ some g
      → IsBuf a
      → IsBuf b
      → run_pair o_n o p mask (a, b)
        ≡ some (iterate 49999 (hash_hex H) a, iterate 49999 (hash_hex H) b)
  unfolding run_pair
  run_pair-eq (some f) o p g mask a b cn c cp e la lb =
      let eq : (s : Pair) (n : ℕ) → ArePairBufs s → f s n ≡ iterate n (both (hash_hex H)) s =
        λ (x, y) n h. cn x y n h.0 h.1 ∙ sym (both-iterate (hash_hex H) n x y) in
      let fin =
        chunked-Finishes ArePairBufs (both (hash_hex H)) f 50000 (stride_of mask) both-ArePairBufs
          eq (omega arith) 50000 1 (a, b) (omega arith) (omega arith) (la, lb) in
      rw fin.1 (ap some (both-iterate (hash_hex H) 49999 a b))
  run_pair-eq none (some f) p g mask a b cn c cp e la lb = ap some (
      iterate-eq (both (hash_hex H)) ArePairBufs f both-ArePairBufs (λ (x, y) h. c x y h.0 h.1)
        49999 (a, b) (la, lb)
      ∙ both-iterate (hash_hex H) 49999 a b)
  run_pair-eq none none (some f) g mask a b cn c cp e la lb = ap some (
      iterate-eq (both (hash_hex H)) ArePairBufs (pair_round f) both-ArePairBufs
        (pair_round-eq f cp) 49999 (a, b) (la, lb)
      ∙ both-iterate (hash_hex H) 49999 a b)
  run_pair-eq none none none g mask a b cn c cp e la lb = cc

  last_rounds :
      (seed : Bytes) → iterate 49999 (hash_hex H) (first_round H seed) ≡ starter_chain H seed
  unfolding starter_chain
  last_rounds seed =
      rw (first_round-eq seed) (sym (iterate-pred (hash_hex H) 50000 seed (omega arith)))

  first_round-IsBuf : (seed : Bytes) → IsBuf (first_round H seed)
  first_round-IsBuf seed = rw (first_round-eq seed) (hash_hex-IsBuf seed)

  -- With correct kernels and a pair kernel installed, riskChainPair ends within its fuel and
  -- returns the two starter chains, for every two seeds and every yield mask.
  pub risk_chain_pair-starter_chain :
      (k : Kernels) (f : Pair → Pair) (seed_a seed_b : Bytes)
      → KernelsCorrect H k
      → k.sum_pair ≡ some f
      → risk_chain_pair H k seed_a seed_b ≡ some (starter_chain H seed_a, starter_chain H seed_b)
  unfolding risk_chain_pair
  risk_chain_pair-starter_chain k f seed_a seed_b c e =
      run_pair-eq k.pair_iter_n k.pair_iter k.sum_pair f k.yield_mask _ _ c.pair_iter_n c.pair_iter
        c.sum_pair e (first_round-IsBuf seed_a) (first_round-IsBuf seed_b)
      ∙ ap₂ (λ x y. some (x, y)) (last_rounds seed_a) (last_rounds seed_b)

  abbrev AreQuadBufs : Quad → Type 0
  AreQuadBufs s = IsBuf s.0 × IsBuf s.1 × IsBuf s.2 × IsBuf s.3

  -- Around a correct riskChain4x, riskChainQuadKernel ends within its fuel and returns the four
  -- starter chains, for every four seeds and every yield mask.
  pub risk_chain_quad_kernel-starter_chain :
      (risk_chain4x : Quad → ℕ → Quad) (mask : ℕ) (s0 s1 s2 s3 : Bytes)
      → Chain4xCorrect H risk_chain4x
      → risk_chain_quad_kernel H risk_chain4x mask (s0, s1, s2, s3)
        ≡ some (starter_chain H s0, starter_chain H s1, starter_chain H s2, starter_chain H s3)
  unfolding risk_chain_quad_kernel
  risk_chain_quad_kernel-starter_chain f mask s0 s1 s2 s3 c =
      let eq : (s : Quad) (n : ℕ) → AreQuadBufs s → f s n ≡ iterate n (all_four (hash_hex H)) s =
        λ (x, y, z, w) n h.
          c x y z w n h.0 h.1 h.2 h.3 ∙ sym (all_four-iterate (hash_hex H) n x y z w) in
      let keep : (s : Quad) → AreQuadBufs s → AreQuadBufs (all_four (hash_hex H) s) =
        λ (x, y, z, w) _.
          (hash_hex-IsBuf x, hash_hex-IsBuf y, hash_hex-IsBuf z, hash_hex-IsBuf w) in
      let fin =
        chunked-Finishes AreQuadBufs (all_four (hash_hex H)) f 50000 (stride_of mask) keep eq
          (omega arith) 50000 1
          (first_round H s0, first_round H s1, first_round H s2, first_round H s3) (omega arith)
          (omega arith)
          (
            first_round-IsBuf s0,
            first_round-IsBuf s1,
            first_round-IsBuf s2,
            first_round-IsBuf s3,
          ) in
      rw (fin.1, all_four-iterate)
        (rw (last_rounds s0, last_rounds s1, last_rounds s2, last_rounds s3) refl)
