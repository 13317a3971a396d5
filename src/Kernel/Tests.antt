-- ===== src/Kernel/Tests.antt =====
-- The theorems on the chains at concrete inputs, and the hex encoder on a digest.
use obsidio.Prelude.{suc, List, replicate, ℕ, ◌≡◌, refl, ◌∷◌, some, Bool, true}
use obsidio.Prelude.Env.{codes}
use obsidio.Kernel.Install.{init_risk_kernel}
use obsidio.Kernel.Install.Meets.{Meets}
use obsidio.Kernel.Install.Tested.{tested, stdlib_kernels, init_risk_kernel-tested}
use obsidio.Kernel.Hex.{hex_encode64, encode_from, hex_pair}
use obsidio.Kernel.Chain.{iterate, starter_chain, risk_chain}
use obsidio.Kernel.Chain.Correct.{risk_chain-starter_chain}
use obsidio.Kernel.Samples.{
  length_digest, chunked_kernels, chunked_kernels-KernelsCorrect, flat_asm, flat_vectors,
}

encodes :
    hex_encode64 (replicate 64 7) (0xde ∷ 0xad ∷ replicate 30 0)
    ≡ codes "dead000000000000000000000000000000000000000000000000000000000000"
unfolding hex_encode64 encode_from hex_pair
encodes = refl

abbrev count_up : ℕ → ℕ → ℕ
count_up s n = iterate n suc s

risk_chain-starter_chain_example :
    risk_chain length_digest chunked_kernels (codes "seed")
    ≡ some (starter_chain length_digest (codes "seed"))
risk_chain-starter_chain_example =
    risk_chain-starter_chain length_digest chunked_kernels (codes "seed")
      chunked_kernels-KernelsCorrect

abbrev all_flags : List ℕ → Bool
all_flags f = true

init_risk_kernel-tested_example : Meets (tested length_digest flat_asm flat_vectors) (
    init_risk_kernel length_digest flat_asm flat_vectors
      (codes "on")
      (codes "on")
      all_flags
      (stdlib_kernels length_digest 4095))
init_risk_kernel-tested_example =
    init_risk_kernel-tested length_digest flat_asm flat_vectors (codes "on") (codes "on") all_flags
      4095
