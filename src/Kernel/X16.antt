-- ===== src/Kernel/X16.antt =====
-- `x16Chains.step` and `x16ChainRun` of app/shakernel_x16_amd64.go, with `shaPad64` of
-- app/shakernel_amd64.go: up to 16 chains in lockstep. `sha256X16Avx512` is a parameter: from the
-- 16 inputs to the 512 bytes that it leaves in `digests`.
pub mod Correct
use obsidio.Prelude.{
  ℕ, zero, suc, ◌+◌, ◌-◌, ◌*◌, ◌/◌, ◌%◌, ◌^◌, List, [], ◌∷◌, ◌++◌, map, Option, none, some, ltb,
  if◌then◌else◌, length, get_or, take, replicate,
}
use obsidio.Prelude.Env.{Bytes}
use obsidio.Kernel.Hex.{hex_encode64}
use obsidio.Kernel.Chain.{Sha256, iterate, zero_buf}

-- The second block of a 64-byte message.
abbrev pub sha_pad64 : Bytes
sha_pad64 = 128 ∷ (replicate 61 0 ++ 2 ∷ 0 ∷ [])

-- `binary.LittleEndian.Uint32(d[o:])`.
unfoldable pub le_uint32 : Bytes → ℕ → ℕ
le_uint32 d o =
    get_or d o 0
    + get_or d (o + 1) 0 * 2 ^ 8
    + get_or d (o + 2) 0 * 2 ^ 16
    + get_or d (o + 3) 0 * 2 ^ 24

-- `binary.BigEndian.PutUint32`, in front of what follows.
unfoldable pub put_be_uint32 : ℕ → Bytes → Bytes
put_be_uint32 v out = v / 2 ^ 24 % 2 ^ 8 ∷ v / 2 ^ 16 % 2 ^ 8 ∷ v / 2 ^ 8 % 2 ^ 8 ∷ v % 2 ^ 8 ∷ out

-- `sum` of lane `i` from word `w` on, with `n` words left.
pub lane_sum : ℕ → ℕ → ℕ → Bytes → Bytes
lane_sum i w zero d = []
lane_sum i w (suc n) d = put_be_uint32 (le_uint32 d (i * 4 + w * 64)) (lane_sum i (w + 1) n d)

-- The loop of `step` over the lanes, from lane `i` on.
pub encode_lanes : ℕ → Bytes → List Bytes → List Bytes
encode_lanes i d [] = []
encode_lanes i d (lane ∷ lanes) =
    hex_encode64 lane (lane_sum i 0 8 d) ∷ encode_lanes (i + 1) d lanes

-- `step` on the 64-byte windows of the lanes.
unfoldable pub step : (List Bytes → Bytes) → List Bytes → List Bytes
step x16 lanes = encode_lanes 0 (x16 (map (λ lane. lane ++ sha_pad64) lanes)) lanes

-- The lanes before the first step: `bufs` is what the pool's buffers hold.
pub seed_lanes : Sha256 → List Bytes → List Bytes → List Bytes
seed_lanes H [] seeds = []
seed_lanes H (buf ∷ bufs) [] = zero_buf ∷ seed_lanes H bufs []
seed_lanes H (buf ∷ bufs) (seed ∷ seeds) =
    hex_encode64 buf (H.sum256 seed) ∷ seed_lanes H bufs seeds

-- `x16ChainRun`; more seeds than lanes are an index out of range.
unfoldable pub x16_chain_run :
    Sha256 → (List Bytes → Bytes) → List Bytes → List Bytes → Option (List Bytes)
unfolding step seed_lanes
x16_chain_run H x16 bufs seeds =
    if ltb (length bufs) (length seeds)
    then none
    else some (take (length seeds) (iterate 49999 (step x16) (seed_lanes H bufs seeds)))
