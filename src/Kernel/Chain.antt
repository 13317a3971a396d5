-- ===== src/Kernel/Chain.antt =====
-- `riskChain`, `riskChainPair` of app/main.go and `riskChainQuadKernel` of app/sha4lane_amd64.go,
-- with the function variables that the boot code installs, beside the plain loop of
-- starters/go/main.go. `sha256` and the assembly routines are parameters.
pub mod Loops
pub mod Correct
use obsidio.Prelude.{
  ℕ, zero, suc, ◌+◌, ◌-◌, ◌^◌, ◌%◌, ◌≡◌, Bool, true, false, not, ◌&&◌, List, [], ◌∷◌, Option, none,
  some, ltb, ◌==◌, if◌then◌else◌, length, replicate, ◌>>=◌,
}
use obsidio.Prelude.Env.{Bytes}
use obsidio.Kernel.Hex.{hex_encode64, encode_to_string, AreBytes}

-- `sha256.Sum256` of crypto/sha256: every message has a digest of 32 bytes.
pub record Sha256 : Type 0 where
  pub sum256 : Bytes → Bytes
  pub length_sum : (m : Bytes) → length (sum256 m) ≡ 32
  pub bytes_sum : (m : Bytes) → AreBytes (sum256 m)

-- A loop that runs `f` a number of times.
unfoldable pub iterate {ℓ} : {A : Type ℓ} → ℕ → (A → A) → A → A
iterate zero f a = a
iterate (suc n) f a = iterate n f (f a)

-- The body of the starter's loop: `sum := sha256.Sum256([]byte(h)); h = hex.EncodeToString(sum[:])`.
abbrev pub hash_hex : Sha256 → Bytes → Bytes
hash_hex H h = encode_to_string (H.sum256 h)

-- The starter's /risk loop, the contract that the engineered chain is measured against.
unfoldable pub starter_chain : Sha256 → Bytes → Bytes
starter_chain H seed = iterate 50000 (hash_hex H) seed

abbrev pub Pair : Type 0
Pair = Bytes × Bytes

abbrev pub Quad : Type 0
Quad = Bytes × Bytes × Bytes × Bytes

-- The function variables of app/main.go; `none` is nil. A kernel that works in place returns
-- what it leaves in its buffers.
pub record Kernels : Type 0 where
  pub sum64 : Bytes → Bytes
  pub sum_pair : Option (Pair → Pair)
  pub pair_iter : Option (Pair → Pair)
  pub iter1 : Option (Bytes → Bytes)
  pub pair_iter_n : Option (Pair → ℕ → Pair)
  pub iter1_n : Option (Bytes → ℕ → Bytes)
  pub yield_mask : ℕ

-- `n := total - done; if stride != 0 && n > stride { n = stride }`.
unfoldable pub chunk_size : ℕ → ℕ → ℕ
chunk_size stride left = if not (stride == 0) && ltb stride left then stride else left

-- The loop of the kernels that run many iterations in one call, from `done` iterations on: the
-- buffers at the end, and the rounds that each call was given. `none` means that the fuel ran out.
pub chunked {ℓ} : {S : Type ℓ} → (S → ℕ → S) → ℕ → ℕ → ℕ → ℕ → S → Option (S × List ℕ)
chunked iter_n total stride zero done s = none
chunked iter_n total stride (suc fuel) done s =
    let n = chunk_size stride (total - done) in
    let rest = chunked iter_n total stride fuel ((done + n) % 2 ^ 32) (iter_n s n) in
    if ltb done total then rest >>= (λ r. some (r.0, n ∷ r.1)) else some (s, [])

-- `mask + 1` in uint32: 0 if yielding is disabled.
abbrev pub stride_of : ℕ → ℕ
stride_of mask = (mask + 1) % 2 ^ 32

abbrev result {ℓ} : {S : Type ℓ} → Option (S × List ℕ) → Option S
result none = none
result (some (s, calls)) = some s

abbrev pub zero_buf : Bytes
zero_buf = replicate 64 0

-- `var buf [64]byte; sum := sha256.Sum256([]byte(seed)); hexEncode64(&buf, &sum)`.
abbrev pub first_round : Sha256 → Bytes → Bytes
first_round H seed = hex_encode64 zero_buf (H.sum256 seed)

abbrev pub sum_round : (Bytes → Bytes) → Bytes → Bytes
sum_round sum64 buf = hex_encode64 buf (sum64 buf)

-- The three loops of `riskChain`, by which of the variables is set.
pub run_single :
    Option (Bytes → ℕ → Bytes) → Option (Bytes → Bytes) → (Bytes → Bytes) → ℕ → Bytes → Option Bytes
run_single (some it_n) it sum64 mask buf = result (chunked it_n 50000 (stride_of mask) 50000 1 buf)
run_single none (some it) sum64 mask buf = some (iterate 49999 it buf)
run_single none none sum64 mask buf = some (iterate 49999 (sum_round sum64) buf)

pub risk_chain : Sha256 → Kernels → Bytes → Option Bytes
risk_chain H k seed = run_single k.iter1_n k.iter1 k.sum64 k.yield_mask (first_round H seed)

abbrev pub pair_round : (Pair → Pair) → Pair → Pair
pair_round sum_pair (a, b) =
    (hex_encode64 a (sum_pair (a, b)).0, hex_encode64 b (sum_pair (a, b)).1)

-- The three loops of `riskChainPair`; it is called only where `riskSumPair` is set, and calls a
-- nil function otherwise, which is `none` here.
pub run_pair :
    Option (Pair → ℕ → Pair) → Option (Pair → Pair) → Option (Pair → Pair) → ℕ → Pair → Option Pair
run_pair (some iter_n) iter pair mask bufs =
    result (chunked iter_n 50000 (stride_of mask) 50000 1 bufs)
run_pair none (some iter) pair mask bufs = some (iterate 49999 iter bufs)
run_pair none none (some pair) mask bufs = some (iterate 49999 (pair_round pair) bufs)
run_pair none none none mask bufs = none

pub risk_chain_pair : Sha256 → Kernels → Bytes → Bytes → Option Pair
risk_chain_pair H k seed_a seed_b =
    run_pair k.pair_iter_n k.pair_iter k.sum_pair k.yield_mask
      (first_round H seed_a, first_round H seed_b)

-- `riskChainQuadKernel`, around the assembly routine `riskChain4x`.
pub risk_chain_quad_kernel : Sha256 → (Quad → ℕ → Quad) → ℕ → Quad → Option Quad
risk_chain_quad_kernel H risk_chain4x mask (s0, s1, s2, s3) = result (
    chunked risk_chain4x 50000 (stride_of mask) 50000 1
      (first_round H s0, first_round H s1, first_round H s2, first_round H s3))
