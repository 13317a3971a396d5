-- ===== src/Worker/Tests.antt =====
-- The worker's theorems at a batch of three.
use obsidio.Prelude.{refl, List, [], ◌∷◌, none, ◌≡◌, arith, some}
use obsidio.Prelude.Env.{codes}
use obsidio.Kernel.Samples.{length_digest, chunked_kernels, chunked_kernels-KernelsCorrect}
use obsidio.Kernel.Chain.{starter_chain}
use obsidio.Worker.Boot.{boot_paths}
use obsidio.Worker.Boot.Booted.{booted-Answers}
use obsidio.Worker.Samples.{flat_machine, forced_on, fast_batch, flat_machine-Trusted}
use obsidio.Worker.Batch.{Answers, PathsCorrect}
use obsidio.Gate.{enter}
use obsidio.Gate.System.Defs.{System, Reach, initial, scanning}
use obsidio.Worker.Turn.{turn}
use obsidio.Worker.Turn.Simulates.{turn-Reach}
use obsidio.Worker.{Paths, Job, run_batch}

abbrev pair_paths : Paths
pair_paths = record {
  kernels = chunked_kernels;
  chain_quad = none;
  chain_x16 = none;
  x16_min_batch = 8;
}

abbrev three_jobs : List Job
three_jobs = (4, codes "x") ∷ (2, codes "yy") ∷ (1, codes "zzz") ∷ []

pair_paths-PathsCorrect : PathsCorrect length_digest pair_paths
pair_paths-PathsCorrect = record { kernels = chunked_kernels-KernelsCorrect; quad = tt; x16 = tt }

booted-Answers_example : Answers length_digest three_jobs (
    run_batch length_digest
      (boot_paths length_digest (λ s. s) flat_machine forced_on fast_batch 4095)
      three_jobs)
booted-Answers_example =
    booted-Answers length_digest (λ s. s) flat_machine forced_on fast_batch 4095
      flat_machine-Trusted three_jobs (omega arith)

-- One request is parked and two workers look for one.
abbrev empty : System
empty = initial (record { ok = 0; err = 0 }) 88 1_000_000_000 2

abbrev one_parked : System
one_parked = record empty { gate = (enter 5 (codes "x") empty.gate).0 }

turn-Reach_example :
    (t : System) × (turn length_digest pair_paths (λ n. 900_000_000) [] (scanning ∷ []) 9 one_parked
      ≡ some t)
    × Reach (starter_chain length_digest) one_parked t
turn-Reach_example =
    turn-Reach length_digest pair_paths (λ n. 900_000_000) [] (scanning ∷ []) one_parked 9
      pair_paths-PathsCorrect refl
