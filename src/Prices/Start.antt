-- ===== src/Prices/Start.antt =====
-- `initPriceWAL` of app/main.go with what comes before the replay, and what a restart finds.
use obsidio.Prelude.Text.{is_empty}
use obsidio.Prelude.{
  ℕ, ◌<◌, ◌≡◌, refl, ap, Bool-cases, inl, inr, ◌∙◌, true, false, List, ◌++◌, none, some, Bool,
  length, take, if◌then◌else◌,
}
use obsidio.Prelude.Env.{Bytes}
use obsidio.Prices.{Codec, Process, replay, init_tables, line_of}
use obsidio.Prices.Prebuilt.{IsPrebuilt, init_tables-IsPrebuilt, replay-IsPrebuilt}
use obsidio.Prices.Replay.{IsAligned}
use obsidio.Prices.Durable.{Recovers, run_posts, killed-Recovers}

-- The file of PRICE_WAL: whether it was opened, what is in it (nothing if it was made), and whether
-- `os.ReadFile` returned it.
pub record LogFile : Type 0 where
  pub opened : Bool
  pub bytes : Bytes
  pub readable : Bool

module _ (J : Codec) where
  open J use {Price, marshal}

  -- The process before `initPriceWAL`.
  abbrev pub fresh : List (Bytes × Price) → Process J
  fresh base = record {
    tables = init_tables J base;
    wal = none;
    counters = record { ok = 0; err = 0 };
  }

  -- `initPriceWAL`, from PRICE_WAL.
  unfoldable pub init_price_wal : Bytes → LogFile → Process J → Process J
  unfolding replay
  init_price_wal path f x =
      if is_empty path
      then x
      else if f.opened
      then record x {
        tables = if f.readable then replay J f.bytes x.tables else x.tables;
        wal = some f.bytes;
      }
      else x

  abbrev pub readable_log : Bytes → LogFile
  readable_log file = record { opened = true; bytes = file; readable = true }

  init_price_wal-replay :
      (path file : Bytes) (x : Process J)
      → is_empty path ≡ false
      → init_price_wal path (readable_log file) x
        ≡ record x { tables = replay J file x.tables; wal = some file }
  unfolding init_price_wal
  init_price_wal-replay path file x set = rw set refl

  pub init_price_wal-IsPrebuilt :
      (path : Bytes) (f : LogFile) (base : List (Bytes × Price))
      → IsPrebuilt J (init_price_wal path f (fresh base)).tables
  unfolding init_price_wal
  init_price_wal-IsPrebuilt path f base = elim (Bool-cases (is_empty path)) [
    | inl unset ↦ rw unset (init_tables-IsPrebuilt J base)
    | inr set ↦ elim (Bool-cases f.opened) [
      | inr closed ↦ rw (set, closed) (init_tables-IsPrebuilt J base)
      | inl opened ↦ elim (Bool-cases f.readable) [
        | inl readable ↦
            rw (set, opened, readable)
              (replay-IsPrebuilt J f.bytes (init_tables J base) (init_tables-IsPrebuilt J base))
        | inr bad ↦ rw (set, opened, bad) (init_tables-IsPrebuilt J base)
      ]
    ]
  ]

  init_price_wal-Recovers :
      (base : List (Bytes × Price)) (path file : Bytes)
      → is_empty path ≡ false
      → IsAligned file
      → Recovers J (init_tables J base) (init_price_wal path (readable_log file) (fresh base))
  init_price_wal-Recovers base path file set whole =
      rw (init_price_wal-replay path file (fresh base) set) (file, refl, whole, refl)

  -- If PRICE_WAL names a file that is opened and read, which is empty or ends with a line, then
  -- after the boot, any POST requests on a disk that works and a kill that leaves a proper part of
  -- one more entry in the log, the next boot has exactly the tables that the process answered from.
  pub restart_after_kill :
      (base : List (Bytes × Price)) (path file : Bytes) (bodies : List Bytes) (s : Bytes)
      (p : Price) (n : ℕ)
      → is_empty path ≡ false
      → IsAligned file
      → n < length (marshal s p)
      → let x = run_posts J bodies (init_price_wal path (readable_log file) (fresh base)) in
        (left : Bytes) × (x.wal ≡ some left)
        × ((init_price_wal path (readable_log (left ++ take n (line_of J s p))) (fresh base)).tables
            ≡ x.tables)
  restart_after_kill base path file bodies s p n set whole cut =
      let (left, log, same) =
        killed-Recovers J (init_tables J base) bodies _ s p n
          (init_price_wal-Recovers base path file set whole) cut in
      (
        left,
        log,
        ap (λ (x : Process J). x.tables) (init_price_wal-replay path _ (fresh base) set) ∙ same,
      )
