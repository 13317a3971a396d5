-- ===== src/Worker/X16.antt =====
-- `initRiskKernelX16` and `x16Sum64` of app/shakernel_x16_amd64.go: the conditions, the self-tests, the
-- race and the batch floor. The AVX-512 routine, the vectors of math/rand and the durations are
-- arguments.
use obsidio.Prelude.Text.{equal}
use obsidio.Prelude.{
  ℕ, zero, suc, ◌+◌, ◌*◌, ◌%◌, Bool, true, false, not, ◌&&◌, List, [], ◌∷◌, ◌++◌, map, Option, none,
  some, leb, ◌==◌, if◌then◌else◌, get_or, replicate, is_some,
}
use obsidio.Prelude.Env.{Bytes, codes}
use obsidio.Kernel.Hex.{hex_encode64}
use obsidio.Kernel.Chain.{
  Sha256, Kernels, Pair, iterate, sum_round, zero_buf, risk_chain, risk_chain_pair,
}
use obsidio.Kernel.X16.{sha_pad64, lane_sum, step, x16_chain_run}
use obsidio.Kernel.Install.{Vectors, passes}
use obsidio.Raw.Write.{decimal}
use obsidio.Boot.{x16_min_batch}

module _ (H : Sha256) where
  -- `x16Sum64`, from lane `i` on.
  pub lane_sums : ℕ → Bytes → List Bytes → List Bytes
  lane_sums i d [] = []
  lane_sums i d (lane ∷ lanes) = lane_sum i 0 8 d ∷ lane_sums (i + 1) d lanes

  unfoldable pub x16_sum64 : (List Bytes → Bytes) → List Bytes → List Bytes
  unfolding lane_sums
  x16_sum64 x16 lanes = lane_sums 0 (x16 (map (λ lane. lane ++ sha_pad64) lanes)) lanes

  pub equal_all : List Bytes → List Bytes → Bool
  equal_all [] [] = true
  equal_all [] (y ∷ ys) = false
  equal_all (x ∷ xs) [] = false
  equal_all (x ∷ xs) (y ∷ ys) = equal x y && equal_all xs ys

  -- The 16 inputs of case `c`; in every eighth two of them are equal.
  abbrev pub drawn_lane : Vectors → ℕ → ℕ → Bytes
  drawn_lane rnd c i = rnd.draw (c * 16 + (if c % 8 == 7 && i == 3 then 12 else i))

  pub drawn_lanes : Vectors → ℕ → ℕ → ℕ → List Bytes
  drawn_lanes rnd c i zero = []
  drawn_lanes rnd c i (suc n) = drawn_lane rnd c i ∷ drawn_lanes rnd c (i + 1) n

  unfoldable pub x16_sums_ok : Vectors → (List Bytes → Bytes) → Bool
  unfolding passes x16_sum64 equal_all drawn_lanes
  x16_sums_ok rnd x16 = passes 64 0 (λ c.
      let lanes = drawn_lanes rnd c 0 16 in equal_all (x16_sum64 x16 lanes) (map H.sum256 lanes))

  -- 299 rounds in all lanes, against the active scalar kernel.
  unfoldable pub x16_chain_ok : (List Bytes → Bytes) → Kernels → Bool
  unfolding step equal
  x16_chain_ok x16 k =
      let start = hex_encode64 zero_buf (H.sum256 (codes "x16-boot")) in
      let want = iterate 299 (sum_round k.sum64) start in
      let lanes = iterate 299 (step x16) (replicate 16 start) in
      equal (get_or lanes 0 []) want && equal (get_or lanes 15 []) want

  abbrev pub race_seed : ℕ → Bytes
  race_seed i = codes "x16-race-" ++ decimal i

  abbrev pub race_seeds : List Bytes
  race_seeds =
      map race_seed (0 ∷ 1 ∷ 2 ∷ 3 ∷ 4 ∷ 5 ∷ 6 ∷ 7 ∷ 8 ∷ 9 ∷ 10 ∷ 11 ∷ 12 ∷ 13 ∷ 14 ∷ 15 ∷ [])

  abbrev pub same_string : Option Bytes → Bytes → Bool
  same_string none b = false
  same_string (some a) b = equal a b

  abbrev pub same_pair : Option Pair → Bytes → Bytes → Bool
  same_pair none b c = false
  same_pair (some p) b c = equal p.0 b && equal p.1 c

  -- The digests of the race, against the pair path or the serial one; the batch's may be missing
  -- where it panics.
  pub pairs_agree : Kernels → ℕ → ℕ → List Bytes → Bool
  pairs_agree k i zero outs = true
  pairs_agree k i (suc n) outs =
      same_pair (risk_chain_pair H k (race_seed i) (race_seed (i + 1))) (get_or outs i [])
        (get_or outs (i + 1) [])
      && pairs_agree k (i + 2) n outs

  pub serial_agrees : Kernels → ℕ → ℕ → List Bytes → Bool
  serial_agrees k i zero outs = true
  serial_agrees k i (suc n) outs =
      same_string (risk_chain H k (race_seed i)) (get_or outs i [])
      && serial_agrees k (i + 1) n outs

  abbrev pub race_agrees : Kernels → Option (List Bytes) → Bool
  race_agrees k none = false
  race_agrees k (some outs) =
      if is_some k.sum_pair then pairs_agree k 0 4 outs else serial_agrees k 0 4 outs

  -- The conditions before the self-tests, from RISK_KERNEL, RISK_X16, the flags and `kernelUseSHANI`.
  unfoldable pub x16_eligible : Bytes → Bytes → (Bytes → Bool) → Bool → Bool
  unfolding equal
  x16_eligible kernel_mode mode has use_shani =
      let forced = equal kernel_mode (codes "avx512") in
      not (equal mode (codes "off"))
      && ((has (codes "avx512f")
            && (has (codes "avx512dq") && (has (codes "avx512bw") && has (codes "avx512vl"))))
          && (not (not forced && equal kernel_mode (codes "off"))
              && not (use_shani && (not forced && not (equal mode (codes "on"))))))

  -- The race of a batch against what it displaces, from the batch's duration and that of the pairs
  -- or chains that were timed.
  unfoldable pub x16_displaced : Kernels → ℕ → ℕ
  x16_displaced k timed = if is_some k.sum_pair then timed * 2 else timed * 4

  unfoldable pub x16_wins : Kernels → ℕ → ℕ → Bool
  x16_wins k batch displaced =
      let num = if is_some k.sum_pair then 11 else 13 in not (leb (displaced * 10) (batch * num))

  -- `initRiskKernelX16`: the batch floor, if `riskChainX16` is installed.
  unfoldable pub init_risk_kernel_x16 :
      Bytes
      → Bytes
      → (Bytes → Bool)
      → Bool
      → Kernels
      → Vectors
      → (List Bytes → Bytes)
      → List Bytes
      → ℕ
      → ℕ
      → Option ℕ
  unfolding x16_eligible x16_sums_ok x16_chain_ok x16_wins x16_displaced pairs_agree serial_agrees
      x16_chain_run x16_min_batch
  init_risk_kernel_x16 kernel_mode mode has use_shani k rnd x16 bufs batch timed =
      if x16_eligible kernel_mode mode has use_shani
        && (x16_sums_ok rnd x16
            && (x16_chain_ok x16 k
                && (race_agrees k (x16_chain_run H x16 bufs race_seeds)
                    && x16_wins k batch (x16_displaced k timed))))
      then some (x16_min_batch batch (x16_displaced k timed))
      else none
