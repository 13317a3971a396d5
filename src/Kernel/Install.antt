-- ===== src/Kernel/Install.antt =====
-- `initRiskKernel` of app/shakernel_amd64.go: which kernels pass their self-tests and are installed,
-- and `kernelSum64` and `kernelSum64Pair`. The assembly routines, the vectors that math/rand draws and
-- the environment are parameters.
pub mod Flags
pub mod Meets
pub mod Tested
pub mod Trusted
use obsidio.Prelude.Text.{equal}
use obsidio.Prelude.{
  ℕ, zero, suc, ◌+◌, ◌*◌, Bool, true, false, not, ◌&&◌, ◌||◌, List, [], ◌∷◌, Option, none, some,
  if◌then◌else◌, length, ◌≡◌,
}
use obsidio.Prelude.Env.{Bytes, codes}
use obsidio.Kernel.Hex.{hex_encode64}
use obsidio.Kernel.Chain.{Sha256, Kernels, Pair, iterate, zero_buf}
use obsidio.Kernel.X16.{sha_pad64, put_be_uint32}

-- The eight words of `shaDigest`.
abbrev pub Words : Type 0
Words = List ℕ

abbrev pub sha_iv : Words
sha_iv =
    0x6a09e667 ∷ 0xbb67ae85 ∷ 0x3c6ef372 ∷ 0xa54ff53a ∷ 0x510e527f ∷ 0x9b05688c ∷ 0x1f83d9ab
    ∷ 0x5be0cd19 ∷ []

-- The routines in assembly. One that works in place returns what it leaves.
pub record Asm : Type 0 where
  pub block_avx2 : Words → Bytes → Words
  pub block_shani : Words → Bytes → Words
  pub block_shani2 : Words × Words → Pair → Words × Words
  pub pair_hash_hex : Pair → Pair
  pub hash_hex1 : Bytes → Bytes
  pub pair_hash_hex_n : Pair → ℕ → Pair
  pub hash_hex1_n : Bytes → ℕ → Bytes

-- `rnd.Read`, the n-th time; every buffer is 64 bytes.
pub record Vectors : Type 0 where
  pub draw : ℕ → Bytes
  pub length_draw : (n : ℕ) → length (draw n) ≡ 64

-- The words of a digest, most significant byte first.
unfoldable pub put_words : Words → Bytes
put_words [] = []
put_words (v ∷ vs) = put_be_uint32 v (put_words vs)

abbrev pub block_of : Bool → Asm → Words → Bytes → Words
block_of use_shani asm = if use_shani then asm.block_shani else asm.block_avx2

-- `kernelSum64`.
unfoldable pub kernel_sum64 : Bool → Asm → Bytes → Bytes
unfolding put_words
kernel_sum64 use_shani asm msg =
    let block = block_of use_shani asm in put_words (block (block sha_iv msg) sha_pad64)

-- `kernelSum64Pair`.
unfoldable pub kernel_sum64_pair : Asm → Pair → Pair
unfolding put_words
kernel_sum64_pair asm msgs =
    let d = asm.block_shani2 (asm.block_shani2 (sha_iv, sha_iv) msgs) (sha_pad64, sha_pad64) in
    (put_words d.0, put_words d.1)

-- `for i := 0; i < n; i++ { … }` that breaks at the first case that fails, from case `i` on.
unfoldable pub passes : ℕ → ℕ → (ℕ → Bool) → Bool
passes zero i test = true
passes (suc n) i test = test i && passes n (i + 1) test

abbrev pub equal_pair : Pair → Pair → Bool
equal_pair a b = equal a.0 b.0 && equal a.1 b.1

module _ (H : Sha256) (asm : Asm) (rnd : Vectors) where
  abbrev pub drawn_pair : ℕ → ℕ → Pair
  drawn_pair base i = (rnd.draw (base + i * 2), rnd.draw (base + i * 2 + 1))

  -- One case of each test: against crypto/sha256, or against the unfused kernels and the hex encoder.
  abbrev pub sum64_case : Bool → ℕ → Bool
  sum64_case use_shani i = equal (kernel_sum64 use_shani asm (rnd.draw i)) (H.sum256 (rnd.draw i))

  abbrev pub pair_case : ℕ → Bool
  pair_case i =
      equal_pair (kernel_sum64_pair asm (drawn_pair 512 i))
        (H.sum256 (drawn_pair 512 i).0, H.sum256 (drawn_pair 512 i).1)

  abbrev pub fused_case : ℕ → Bool
  fused_case i =
      let sums = kernel_sum64_pair asm (drawn_pair 1024 i) in
      equal_pair (asm.pair_hash_hex (drawn_pair 1024 i))
        (hex_encode64 zero_buf sums.0, hex_encode64 zero_buf sums.1)

  abbrev pub single_case : Bool → ℕ → Bool
  single_case use_shani i =
      equal (asm.hash_hex1 (rnd.draw (2048 + i)))
        (hex_encode64 zero_buf (kernel_sum64 use_shani asm (rnd.draw (2048 + i))))

  unfoldable pub sum64_ok : Bool → Bool
  unfolding equal passes
  sum64_ok use_shani = passes 512 0 (sum64_case use_shani)

  unfoldable pub pair_ok : Bool
  unfolding equal passes
  pair_ok = passes 256 0 pair_case

  unfoldable pub fused_ok : Bool
  unfolding equal passes
  fused_ok = passes 512 0 fused_case

  unfoldable pub single_ok : Bool → Bool
  unfolding equal passes
  single_ok use_shani = passes 512 0 (single_case use_shani)

  -- One case of the test of the loops in assembly, with `n` rounds, on the case's two vectors.
  unfoldable pub rounds_ok : ℕ → Pair → Bool
  unfolding equal
  rounds_ok n p =
      equal_pair (asm.pair_hash_hex_n p n) (iterate n asm.pair_hash_hex p)
      && equal (asm.hash_hex1_n p.0 n) (iterate n asm.hash_hex1 p.0)

  -- For each number of rounds, 128 cases.
  unfoldable pub all_rounds_ok : ℕ → List ℕ → Bool
  unfolding rounds_ok passes
  all_rounds_ok base [] = true
  all_rounds_ok base (n ∷ ns) =
      passes 128 0 (λ c. rounds_ok n (drawn_pair base c)) && all_rounds_ok (base + 256) ns

  abbrev pub v3_ok : Bool
  v3_ok = all_rounds_ok 2560 (1 ∷ 2 ∷ 3 ∷ 17 ∷ 256 ∷ [])

  -- What each passed test installs.
  abbrev pub install_v3 : Bool → Bool → Kernels → Kernels
  install_v3 on ok k =
      if on && ok
      then record k { pair_iter_n = some asm.pair_hash_hex_n; iter1_n = some asm.hash_hex1_n }
      else k

  abbrev pub install_single : Bool → Bool → Kernels → Kernels
  install_single on ok k =
      if ok then install_v3 on v3_ok (record k { iter1 = some asm.hash_hex1 }) else k

  abbrev pub install_fused : Bool → Bool → Bool → Kernels → Kernels
  install_fused on use_shani ok k =
      if ok
      then install_single on (single_ok use_shani) (record k { pair_iter = some asm.pair_hash_hex })
      else k

  abbrev pub install_pair : Bool → Bool → Bool → Kernels → Kernels
  install_pair on use_shani ok k =
      if use_shani && ok
      then install_fused on use_shani fused_ok
          (record k { sum_pair = some (kernel_sum64_pair asm) })
      else k

  abbrev pub install_sum64 : Bool → Bool → Bool → Kernels → Kernels
  install_sum64 on use_shani ok k =
      if ok
      then install_pair on use_shani pair_ok (record k { sum64 = kernel_sum64 use_shani asm })
      else k

  -- `kernelUseSHANI` before the self-test.
  abbrev pub shani_flags : Bytes → (Bytes → Bool) → Bool
  shani_flags mode has =
      has (codes "sha_ni")
      && (has (codes "avx")
          && (has (codes "sse4_1") && (has (codes "ssse3") && not (equal mode (codes "avx512")))))

  abbrev pub avx2_flags : Bytes → (Bytes → Bool) → Bool
  avx2_flags mode has =
      not (shani_flags mode has)
      && (has (codes "avx") && (has (codes "avx2") && has (codes "bmi2")))

  -- `initRiskKernel`, from RISK_KERNEL, RISK_KERNEL_V3 and the processor's flags.
  unfoldable pub init_risk_kernel : Bytes → Bytes → (Bytes → Bool) → Kernels → Kernels
  unfolding equal
  init_risk_kernel mode v3 has k =
      let use_shani = shani_flags mode has in
      if equal mode (codes "off") || not (use_shani || avx2_flags mode has)
      then k
      else install_sum64 (equal v3 (codes "on")) use_shani (sum64_ok use_shani) k

  -- `kernelUseSHANI` behind it.
  unfoldable pub kernel_use_shani : Bytes → (Bytes → Bool) → Bool
  unfolding equal
  kernel_use_shani mode has =
      not (equal mode (codes "off")) && (shani_flags mode has && sum64_ok (shani_flags mode has))
