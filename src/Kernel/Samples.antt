-- ===== src/Kernel/Samples.antt =====
-- A digest function and kernels to run the model with.
use obsidio.Prelude.{
  ℕ, zero, suc, ◌%◌, ◌<◌, ◌≡◌, refl, none, some, arith, length, replicate, length-replicate, get_or,
  ◌≤◌, ◌+◌, ◌*◌, ◌-◌, List, [], ◌∷◌, ◌∙◌, sym, All, Bool, true, false, ap₂,
}
use obsidio.Prelude.Env.{Bytes}
use obsidio.Kernel.Hex.{AreBytes}
use obsidio.Kernel.Install.{Words, Asm, Vectors, put_words, kernel_sum64, kernel_sum64_pair}
use obsidio.Kernel.Install.Meets.{Gives}
use obsidio.Kernel.Install.Trusted.{correct}
use obsidio.Kernel.X16.{put_be_uint32}
use obsidio.Kernel.Chain.{Sha256, iterate, hash_hex, Kernels}
use obsidio.Kernel.Chain.Correct.{KernelsCorrect, IsBuf}
use obsidio.Kernel.X16.Correct.{LaneOf, LanesOf, AreLanes, X16KernelCorrect}

replicate-AreBytes : (n b : ℕ) → b < 256 → AreBytes (replicate n b)
replicate-AreBytes zero b h = tt
replicate-AreBytes (suc n) b h = (h, replicate-AreBytes n b h)

pub length-AreBytes : (m : Bytes) → AreBytes (replicate 32 (length m % 256))
length-AreBytes m = replicate-AreBytes 32 (length m % 256) (omega arith)

pub length-digest : (m : Bytes) → length (replicate 32 (length m % 256)) ≡ 32
length-digest m = length-replicate 32 (length m % 256)

-- Not SHA-256, but a function with digests of its shape.
abbrev pub length_digest : Sha256
length_digest = record {
  sum256 = λ m. replicate 32 (length m % 256);
  length_sum = length-digest;
  bytes_sum = length-AreBytes;
}

-- Kernels that run many iterations in one call, for one chain and for two.
abbrev pub chunked_kernels : Kernels
chunked_kernels = record {
  sum64 = length_digest.sum256;
  sum_pair = some (λ (a, b). (length_digest.sum256 a, length_digest.sum256 b));
  pair_iter = none;
  iter1 = none;
  pair_iter_n =
      some
        (λ (a, b) n. (iterate n (hash_hex length_digest) a, iterate n (hash_hex length_digest) b));
  iter1_n = some (λ b n. iterate n (hash_hex length_digest) b);
  yield_mask = 4095;
}

pub chunked_kernels-KernelsCorrect : KernelsCorrect length_digest chunked_kernels
chunked_kernels-KernelsCorrect = record {
  sum64 = λ b h. refl;
  sum_pair = λ a b h k. refl;
  pair_iter = tt;
  iter1 = tt;
  pair_iter_n = λ a b n h k. refl;
  iter1_n = λ b n h. refl;
}

get_or-replicate : (n i a d : ℕ) → i < n → get_or (replicate n a) i d ≡ a
get_or-replicate zero i a d h = absurd (omega arith)
get_or-replicate (suc n) zero a d h = refl
get_or-replicate (suc n) (suc i) a d h = get_or-replicate n i a d (omega arith)

-- On messages of 64 bytes the sample digest is one byte over and over.
abbrev pub flat_kernel : List Bytes → Bytes
flat_kernel inputs = replicate 512 64

flat_lanes :
    (i : ℕ) (lanes : List Bytes)
    → i + length lanes ≤ 16
    → All IsBuf lanes
    → LanesOf length_digest (replicate 512 64) i lanes
flat_lanes i [] h b = tt
flat_lanes i (lane ∷ lanes) h b = (lane_of, flat_lanes (i + 1) lanes (omega arith) b.1)
  where
    lane_of : LaneOf (replicate 512 64) i (length_digest.sum256 lane)
    lane_of w k lw lk =
        let byte : length lane % 256 ≡ 64 = omega (arith, b.0) in
        get_or-replicate 512 (i * 4 + w * 64 + k) 64 0 (omega arith)
        ∙ sym (get_or-replicate 32 (w * 4 + (3 - k)) (length lane % 256) 0 (omega arith) ∙ byte)

pub flat_kernel-X16KernelCorrect : X16KernelCorrect length_digest flat_kernel
flat_kernel-X16KernelCorrect lanes a = flat_lanes 0 lanes (omega (arith, a.0)) a.1

pub zero_bufs-AreLanes : AreLanes (replicate 16 (replicate 64 0))
zero_bufs-AreLanes = (refl, all_bufs 16)
  where
    all_bufs : (n : ℕ) → All IsBuf (replicate n (replicate 64 0))
    all_bufs zero = tt
    all_bufs (suc n) = (refl, all_bufs n)

-- Assembly that computes the sample digest, and vectors of one byte over and over.
abbrev flat_words : Words
flat_words = replicate 8 0x40404040

abbrev pub flat_asm : Asm
flat_asm = record {
  block_avx2 = λ d b. flat_words;
  block_shani = λ d b. flat_words;
  block_shani2 = λ d b. (flat_words, flat_words);
  pair_hash_hex = λ (a, b). (hash_hex length_digest a, hash_hex length_digest b);
  hash_hex1 = hash_hex length_digest;
  pair_hash_hex_n =
      λ (a, b) n. (iterate n (hash_hex length_digest) a, iterate n (hash_hex length_digest) b);
  hash_hex1_n = λ b n. iterate n (hash_hex length_digest) b;
}

abbrev pub flat_vectors : Vectors
flat_vectors = record {
  draw = λ n. replicate 64 (n % 256);
  length_draw = λ n. length-replicate 64 (n % 256);
}

flat_digest : (b : Bytes) → IsBuf b → replicate 32 64 ≡ length_digest.sum256 b
flat_digest b h = rw h refl

flat_put : put_words flat_words ≡ replicate 32 64
unfolding put_words put_be_uint32
flat_put = refl

pub flat_asm-Gives : Gives length_digest flat_asm flat_vectors (correct length_digest)
unfolding kernel_sum64 kernel_sum64_pair
flat_asm-Gives = record {
  sum64 = λ u ok b h. sum u b ∙ flat_digest b h;
  pair =
      λ ok a b h k. ap₂ (λ x y. (x, y)) (flat_put ∙ flat_digest a h) (flat_put ∙ flat_digest b k);
  fused = λ ok p a b h k. refl;
  single = λ ok s b h. refl;
  rounds = λ ok p s. ((λ a b n h k. refl), (λ b n h. refl));
}
  where
    sum : (u : Bool) (b : Bytes) → kernel_sum64 u flat_asm b ≡ replicate 32 64
    sum true b = flat_put
    sum false b = flat_put
