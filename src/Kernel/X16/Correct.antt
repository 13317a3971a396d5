-- ===== src/Kernel/X16/Correct.antt =====
-- The 16-lane chains compute the starter's chains, given the kernel's lane layout.
use obsidio.Prelude.{
  ℕ, zero, suc, ◌+◌, ◌-◌, ◌*◌, ◌/◌, ◌%◌, ◌≤◌, ◌<◌, ◌≡◌, refl, sym, ap, ap₂, ◌∙◌, List, [], ◌∷◌,
  ◌++◌, map, some, arith, Bool-cases, inl, inr, ltb, length, get_or, take, All, length-map,
}
use obsidio.Prelude.Env.{Bytes}
use obsidio.Kernel.Hex.{AreBytes, hex_encode64}
use obsidio.Kernel.Chain.{Sha256, iterate, hash_hex, starter_chain}
use obsidio.Kernel.Chain.Loops.{iterate-eq, iterate-pred}
use obsidio.Kernel.Chain.Correct.{IsBuf, encode_sum, hash_hex-IsBuf}
use obsidio.Kernel.X16.{
  sha_pad64, le_uint32, put_be_uint32, lane_sum, encode_lanes, step, seed_lanes, x16_chain_run,
}

-- Word `w` of lane `i` is the little-endian number at offset `i*4 + w*64`; the digest has the words
-- with their most significant byte first.
abbrev pub LaneOf : Bytes → ℕ → Bytes → Type 0
LaneOf d i sum =
    (w k : ℕ) → w < 8 → k < 4 → get_or d (i * 4 + w * 64 + k) 0 ≡ get_or sum (w * 4 + (3 - k)) 0

abbrev pub LanesOf : Sha256 → Bytes → ℕ → List Bytes → Type 0
LanesOf H d i [] = Unit
LanesOf H d i (lane ∷ lanes) = LaneOf d i (H.sum256 lane) × LanesOf H d (i + 1) lanes

abbrev pub AreLanes : List Bytes → Type 0
AreLanes lanes = (length lanes ≡ 16) × All IsBuf lanes

-- What the kernel leaves for 16 messages of 64 bytes, each with its padding block.
abbrev pub X16KernelCorrect : Sha256 → (List Bytes → Bytes) → Type 0
X16KernelCorrect H x16 =
    (lanes : List Bytes)
    → AreLanes lanes
    → LanesOf H (x16 (map (λ lane. lane ++ sha_pad64) lanes)) 0 lanes

top_byte :
    (a b c e : ℕ)
    → a < 256
    → b < 256
    → c < 256
    → e < 256
    → (e + c * 256 + b * 65536 + a * 16777216) / 16777216 % 256 ≡ a
top_byte a b c e ha hb hc he = omega arith

third_byte :
    (a b c e : ℕ)
    → a < 256
    → b < 256
    → c < 256
    → e < 256
    → (e + c * 256 + b * 65536 + a * 16777216) / 65536 % 256 ≡ b
third_byte a b c e ha hb hc he = omega arith

second_byte :
    (a b c e : ℕ)
    → a < 256
    → b < 256
    → c < 256
    → e < 256
    → (e + c * 256 + b * 65536 + a * 16777216) / 256 % 256 ≡ c
second_byte a b c e ha hb hc he = omega arith

first_byte :
    (a b c e : ℕ)
    → a < 256
    → b < 256
    → c < 256
    → e < 256
    → (e + c * 256 + b * 65536 + a * 16777216) % 256 ≡ e
first_byte a b c e ha hb hc he = omega arith

-- Four bytes through a little-endian read and a big-endian write come out reversed.
swap_bytes :
    (d out : Bytes) (o a b c e : ℕ)
    → a < 256
    → b < 256
    → c < 256
    → e < 256
    → get_or d o 0 ≡ e
    → get_or d (o + 1) 0 ≡ c
    → get_or d (o + 2) 0 ≡ b
    → get_or d (o + 3) 0 ≡ a
    → put_be_uint32 (le_uint32 d o) out ≡ a ∷ b ∷ c ∷ e ∷ out
unfolding put_be_uint32 le_uint32
swap_bytes d out o a b c e ha hb hc he e0 e1 e2 e3 =
    rw (e0, e1, e2, e3)
      (ap₂ (◌∷◌) (top_byte a b c e ha hb hc he) (
        ap₂ (◌∷◌) (third_byte a b c e ha hb hc he) (
          ap₂ (◌∷◌) (second_byte a b c e ha hb hc he)
            (ap (λ x. x ∷ out) (first_byte a b c e ha hb hc he)))))

lane_sum-eq :
    (d : Bytes) (i w n : ℕ) (sum : Bytes)
    → length sum ≡ n * 4
    → AreBytes sum
    → ((v k : ℕ)
        → v < n
        → k < 4
        → get_or d (i * 4 + (w + v) * 64 + k) 0 ≡ get_or sum (v * 4 + (3 - k)) 0)
    → lane_sum i w n d ≡ sum
unfolding lane_sum
lane_sum-eq d i w zero [] l h g = refl
lane_sum-eq d i w zero (x ∷ sum) l h g = absurd (omega arith)
lane_sum-eq d i w (suc n) [] l h g = absurd (omega arith)
lane_sum-eq d i w (suc n) (a ∷ []) l h g = absurd (omega arith)
lane_sum-eq d i w (suc n) (a ∷ b ∷ []) l h g = absurd (omega arith)
lane_sum-eq d i w (suc n) (a ∷ b ∷ c ∷ []) l h g = absurd (omega arith)
lane_sum-eq d i w (suc n) (a ∷ b ∷ c ∷ e ∷ sum) l h g =
    let here : (k : ℕ)
        → k < 4
        → get_or d (i * 4 + w * 64 + k) 0 ≡ get_or (a ∷ b ∷ c ∷ e ∷ sum) (3 - k) 0 =
      λ k lt.
        ap (λ o. get_or d o 0) (omega arith)
        ∙ g 0 k (omega arith) lt
        ∙ ap (λ j. get_or (a ∷ b ∷ c ∷ e ∷ sum) j 0) (omega arith) in
    let shift : (v j : ℕ)
        → get_or (a ∷ b ∷ c ∷ e ∷ sum) (suc v * 4 + j) 0 ≡ get_or sum (v * 4 + j) 0 =
      λ v j.
        let q : suc v * 4 + j ≡ suc (suc (suc (suc (v * 4 + j)))) = omega arith in
        ap (λ o. get_or (a ∷ b ∷ c ∷ e ∷ sum) o 0) q in
    let later = lane_sum-eq d i (w + 1) n sum (omega arith) h.1.1.1.1 (λ v k lv lk.
      ap (λ o. get_or d o 0) (omega arith) ∙ g (suc v) k (omega arith) lk ∙ shift v (3 - k)) in
    swap_bytes d _ (i * 4 + w * 64) a b c e h.0 h.1.0 h.1.1.0 h.1.1.1.0
      (ap (λ o. get_or d o 0) (omega arith) ∙ here 0 (omega arith)) (here 1 (omega arith))
      (here 2 (omega arith)) (here 3 (omega arith))
    ∙ ap (λ x. a ∷ b ∷ c ∷ e ∷ x) later

module _ (H : Sha256) (x16 : List Bytes → Bytes) (correct : X16KernelCorrect H x16) where
  encode_lanes-eq :
      (d : Bytes) (i : ℕ) (lanes : List Bytes)
      → All IsBuf lanes
      → LanesOf H d i lanes
      → encode_lanes i d lanes ≡ map (hash_hex H) lanes
  unfolding encode_lanes
  encode_lanes-eq d i [] b l = refl
  encode_lanes-eq d i (lane ∷ lanes) b l =
      let sum =
        lane_sum-eq d i 0 8 (H.sum256 lane) (H.length_sum lane) (H.bytes_sum lane)
          (λ v k lv lk. ap (λ o. get_or d o 0) (omega arith) ∙ l.0 v k lv lk) in
      ap₂ (◌∷◌) (ap (hex_encode64 lane) sum ∙ encode_sum H lane lane b.0)
        (encode_lanes-eq d (i + 1) lanes b.1 l.1)

  step-eq : (lanes : List Bytes) → AreLanes lanes → step x16 lanes ≡ map (hash_hex H) lanes
  unfolding step
  step-eq lanes a = encode_lanes-eq _ 0 lanes a.1 (correct lanes a)

  map-AreLanes : (lanes : List Bytes) → AreLanes lanes → AreLanes (map (hash_hex H) lanes)
  map-AreLanes lanes a = (length-map lanes (hash_hex H) ∙ a.0, bufs lanes)
    where
      bufs : (lanes : List Bytes) → All IsBuf (map (hash_hex H) lanes)
      bufs [] = tt
      bufs (lane ∷ lanes) = (hash_hex-IsBuf H lane, bufs lanes)

  iterate-map :
      (n : ℕ) (lanes : List Bytes)
      → iterate n (map (hash_hex H)) lanes ≡ map (iterate n (hash_hex H)) lanes
  unfolding iterate
  iterate-map zero [] = refl
  iterate-map zero (lane ∷ lanes) = ap (◌∷◌ lane) (iterate-map zero lanes)
  iterate-map (suc n) lanes = iterate-map n (map (hash_hex H) lanes) ∙ map_map lanes
    where
      map_map :
          (lanes : List Bytes)
          → map (iterate n (hash_hex H)) (map (hash_hex H) lanes)
            ≡ map (iterate (suc n) (hash_hex H)) lanes
      map_map [] = refl
      map_map (lane ∷ lanes) = ap (◌∷◌ (iterate n (hash_hex H) (hash_hex H lane))) (map_map lanes)

  seed_lanes-AreLanes :
      (bufs seeds : List Bytes)
      → All IsBuf bufs
      → (length (seed_lanes H bufs seeds) ≡ length bufs) × All IsBuf (seed_lanes H bufs seeds)
  unfolding seed_lanes
  seed_lanes-AreLanes [] seeds b = (refl, tt)
  seed_lanes-AreLanes (buf ∷ bufs) [] b =
      let ih = seed_lanes-AreLanes bufs [] b.1 in (ap suc ih.0, (refl, ih.1))
  seed_lanes-AreLanes (buf ∷ bufs) (seed ∷ seeds) b =
      let ih = seed_lanes-AreLanes bufs seeds b.1 in
      (ap suc ih.0, (rw (encode_sum H buf seed b.0) (hash_hex-IsBuf H seed), ih.1))

  take-seed_lanes :
      (f : Bytes → Bytes) (bufs seeds : List Bytes)
      → All IsBuf bufs
      → length seeds ≤ length bufs
      → take (length seeds) (map f (seed_lanes H bufs seeds)) ≡ map (λ s. f (hash_hex H s)) seeds
  unfolding seed_lanes
  take-seed_lanes f bufs [] b le = refl
  take-seed_lanes f [] (seed ∷ seeds) b le = absurd (omega arith)
  take-seed_lanes f (buf ∷ bufs) (seed ∷ seeds) b le =
      ap₂ (◌∷◌) (ap f (encode_sum H buf seed b.0)) (take-seed_lanes f bufs seeds b.1 (omega arith))

  starter_rounds :
      (seeds : List Bytes)
      → map (λ s. iterate 49999 (hash_hex H) (hash_hex H s)) seeds ≡ map (starter_chain H) seeds
  unfolding starter_chain
  starter_rounds [] = refl
  starter_rounds (seed ∷ seeds) =
      ap₂ (◌∷◌) (sym (iterate-pred (hash_hex H) 50000 seed (omega arith))) (starter_rounds seeds)

  -- Around an AVX-512 kernel that leaves the digest words of its 16 padded messages where the
  -- source says, for at most 16 seeds and whatever 64-byte buffers the pool gives, x16ChainRun
  -- returns the starter chain of each seed, in order.
  pub x16_chain_run-starter_chain :
      (bufs seeds : List Bytes)
      → AreLanes bufs
      → length seeds ≤ 16
      → x16_chain_run H x16 bufs seeds ≡ some (map (starter_chain H) seeds)
  unfolding x16_chain_run
  x16_chain_run-starter_chain bufs seeds a le =
      let start = seed_lanes-AreLanes bufs seeds a.1 in
      let runs =
        iterate-eq (map (hash_hex H)) AreLanes (step x16) map-AreLanes step-eq 49999
          (seed_lanes H bufs seeds) (start.0 ∙ a.0, start.1)
        ∙ iterate-map 49999 (seed_lanes H bufs seeds) in
      elim (Bool-cases (ltb (length bufs) (length seeds))) [
        | inl more ↦ absurd (ground arith)
        | inr fits ↦
            rw (fits, runs)
              (ap some (
                take-seed_lanes (iterate 49999 (hash_hex H)) bufs seeds a.1 (omega arith)
                ∙ starter_rounds seeds))
      ]
