-- ===== src/Worker/Samples.antt =====
-- A processor whose kernels are all right, to run the model with.
use obsidio.Prelude.{refl, ◌∷◌, [], some, ℕ, replicate}
use obsidio.Prelude.Env.{codes}
use obsidio.Kernel.Samples.{
  flat_asm, flat_vectors, flat_asm-Gives, length_digest, flat_kernel, flat_kernel-X16KernelCorrect,
  zero_bufs-AreLanes,
}
use obsidio.Kernel.Chain.{Quad, iterate, hash_hex}
use obsidio.Worker.Boot.{Machine, Setup, Timing}
use obsidio.Worker.Boot.Booted.{Trusted}

abbrev pub quad_kernel : Quad → ℕ → Quad
quad_kernel (a, b, c, d) n = (
  iterate n (hash_hex length_digest) a,
  iterate n (hash_hex length_digest) b,
  iterate n (hash_hex length_digest) c,
  iterate n (hash_hex length_digest) d,
)

abbrev pub flat_machine : Machine
flat_machine = record {
  asm = flat_asm;
  chain4x = quad_kernel;
  x16 = flat_kernel;
  bufs = replicate 16 (replicate 64 0);
  cpuinfo =
      some
        (codes "processor: 0\nflags: sha_ni avx sse4_1 ssse3 avx512f avx512dq avx512bw avx512vl\n");
}

abbrev pub forced_on : Setup
forced_on = record {
  kernel_vectors = flat_vectors;
  quad_vectors = flat_vectors;
  x16_vectors = flat_vectors;
  risk_kernel = codes "on";
  risk_kernel_v3 = codes "on";
  risk_x4 = codes "on";
  risk_x16 = codes "on";
}

abbrev pub fast_batch : Timing
fast_batch = record {
  serial = 5 ∷ 7 ∷ 6 ∷ [];
  paired = 3 ∷ 4 ∷ 3 ∷ [];
  pair2 = 6 ∷ 7 ∷ 6 ∷ [];
  quad = 5 ∷ 5 ∷ 5 ∷ [];
  batch = 9;
  timed = 10;
}

pub flat_machine-Trusted : Trusted length_digest flat_machine forced_on
flat_machine-Trusted = record {
  kernels = flat_asm-Gives;
  quad = λ ok a b c d n h h' h'' h'''. refl;
  x16 = λ ok. flat_kernel-X16KernelCorrect;
  bufs = zero_bufs-AreLanes;
}
