-- ===== src/Main/Tests.antt =====
-- A process with one worker that gets one request.
use obsidio.Prelude.{
  some, none, Option, Bool, List, ◌∷◌, All, is_some, not, ◌&&◌, false, ltb, if◌then◌else◌, ℕ, ◌≤◌,
  ◌≡◌, ◌*◌, refl, true, [], some, arith, length,
}
use obsidio.Prelude.Env.{Bytes, codes}
use obsidio.Kernel.Samples.{length_digest}
use obsidio.Prices.{Response}
use obsidio.Prices.Samples.{toy}
use obsidio.Prices.Start.{fresh}
use obsidio.Patience.Window.{InRange}
use obsidio.Patience.{millisecond}
use obsidio.Gate.System.Defs.{initial}
use obsidio.Boot.Samples.{rough, no_files}
use obsidio.Worker.Samples.{flat_machine, forced_on, fast_batch}
use obsidio.Worker.Boot.{boot_paths}
use obsidio.Main.{Booted, boot}
use obsidio.Main.End.{Ending, signalled, main_end, Reason, main_end-ends}
use obsidio.Main.Listen.{
  front_answer, front_of, lookup, last_of, is_slash, is_plain_pattern, raw_front, fronts_agree,
}
use obsidio.Prelude.Text.{equal, after_prefix}
use obsidio.Starter.Samples.{starter_world, get_price}
use obsidio.Main.Served.{boot_lem}
use obsidio.Main.Samples.{one_worker, no_log, two_chains}

abbrev small : Booted toy
small = record {
  process = fresh toy [];
  system = initial (record { ok = 0; err = 0 }) 88 1_191_000_000 1;
  paths = boot_paths length_digest (λ s. s) flat_machine forced_on fast_batch 4095;
}

small_boots :
    boot toy length_digest rough
      (λ s. [])
      (λ s. s)
      []
      one_worker
      no_files
      no_log
      two_chains
      flat_machine
      forced_on
      fast_batch
    ≡ some small
unfolding boot
small_boots = refl

nine_milliseconds : (r c : ℕ) → InRange 9_000_000
nine_milliseconds r c = (omega arith, omega arith)

boot_lem_example :
    (b : Booted toy) × (boot toy length_digest rough
        (λ s. [])
        (λ s. s)
        []
        one_worker
        no_files
        no_log
        two_chains
        flat_machine
        forced_on
        fast_batch
      ≡ some b)
    × (1 ≤ length b.system.workers)
    × (length b.system.workers ≤ 4)
    × (700 * millisecond ≤ b.system.gate.patience)
    × (b.system.gate.patience ≤ 1199 * millisecond)
boot_lem_example =
    boot_lem toy length_digest rough (λ s. []) (λ s. s) [] one_worker no_files no_log two_chains
      flat_machine forced_on fast_batch nine_milliseconds

-- A mux of net/http's kind: a pattern that ends with a slash stands for all that is below it.
abbrev matches : Bytes → Bytes → Bool
matches pattern path =
    if is_slash (last_of pattern) then is_some (after_prefix pattern path) else equal path pattern

find_handler {ℓ} : {A : Type ℓ} → List (Bytes × A) → Bytes → Option A
find_handler [] path = none
find_handler ((p, h) ∷ rs) path = if matches p path then some h else find_handler rs path

plain_not_slash : (a b c : Bool) → (a && (not b && not c)) ≡ true → b ≡ false
plain_not_slash a b c h = ground arith

find_handler-lookup {ℓ} :
    {A : Type ℓ} (rs : List (Bytes × A)) (path : Bytes)
    → All (λ r. is_plain_pattern r.0 ≡ true) rs
    → find_handler rs path ≡ lookup path rs
unfolding find_handler lookup
find_handler-lookup [] path plain = refl
find_handler-lookup ((p, h) ∷ rs) path plain =
    let no_slash : is_slash (last_of p) ≡ false = plain_not_slash _ _ _ plain.0 in
    rw (no_slash, find_handler-lookup rs path plain.1) refl

fronts_agree_example :
    let r : Response = record { code = 404; body = [] } in
    front_answer toy starter_world find_handler r
      (front_of (codes "std"))
      (fresh toy starter_world.base_prices)
      get_price
      []
    ≡ front_answer toy starter_world find_handler r raw_front
        (fresh toy starter_world.base_prices)
        get_price
        []
unfolding lookup equal
fronts_agree_example =
    fronts_agree toy starter_world find_handler (record { code = 404; body = [] }) (λ path. true)
      (codes "std") (fresh toy starter_world.base_prices) get_price []
      (λ rs path plain clean. find_handler-lookup rs path plain) refl refl

-- One connection, which closes 250 ms after the start.
abbrev closes_later : ℕ → ℕ
closes_later t = if ltb t 250_000_000 then 1 else 0

main_end-ends_example :
    (r : Ending) × (main_end (front_of []) true signalled (λ t. t) closes_later (λ t. 100_000_000) 7
      ≡ some r)
    × Reason (front_of []) true signalled closes_later 7 r
main_end-ends_example =
    main_end-ends (λ t. t) closes_later (λ t. 100_000_000) (λ t. omega arith) (λ t. omega arith) []
      true signalled 7
