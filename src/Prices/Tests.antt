-- ===== src/Prices/Tests.antt =====
-- The theorems on the log with two prices and one symbol.
use obsidio.Prelude.Text.{after_prefix}
use obsidio.Prelude.{◌≡◌, refl, inl, true, false, [], ◌∷◌, ◌++◌, Option, none, some, arith, take}
use obsidio.Prelude.Env.{Bytes, codes}
use obsidio.Prices.Durable.{Answered, run_posts, torn_line_loses, handle_price_post-Answered}
use obsidio.Prices.Start.{fresh, readable_log, init_price_wal, restart_after_kill}
use obsidio.Prices.Race.{Shared, append_entry, publish, interleave, restart_reorders}
use obsidio.Prices.Query.{key, symbol_param, symbol_param_lem, GetsPlain}
use obsidio.Prices.{replay, line_of, fine, sync_fails, accept_price, handle_price_post}
use obsidio.Prices.Samples.{toy, no_prices, process_with}

handle_price_post-Answered_example :
    Answered toy sync_fails
      (codes "low")
      (process_with [])
      []
      (handle_price_post toy sync_fails (codes "low") (process_with []))
handle_price_post-Answered_example =
    handle_price_post-Answered toy sync_fails (codes "low") (process_with []) [] refl

torn_line_loses_example :
    ((accept_price toy fine (codes "A") true (process_with (codes "{L"))).1.code ≡ 200)
    × ((log : Bytes) × ((accept_price toy fine (codes "A") true (process_with (codes "{L"))).0.wal
          ≡ some log)
        × (replay toy log no_prices ≡ replay toy [] no_prices))
torn_line_loses_example =
    torn_line_loses toy no_prices (process_with (codes "{L")) [] (codes "A") (codes "A") false true
      2 (inl refl) (omega arith) (omega arith) refl

abbrev quiet : Shared toy
quiet = record { tables = no_prices; log = [] }

restart_reorders_example :
    let y =
      interleave toy
        (append_entry (codes "A") true
          ∷ append_entry (codes "A") false
          ∷ publish (codes "A") false
          ∷ publish (codes "A") true
          ∷ [])
        quiet in
    (y.tables.prices (codes "A") ≡ some true)
    × ((replay toy y.log no_prices).prices (codes "A") ≡ some false)
restart_reorders_example =
    restart_reorders toy no_prices quiet (codes "A") true false refl refl (inl refl)

abbrev or_empty : Option Bytes → Bytes
or_empty none = []
or_empty (some v) = v

-- A parser of one pair.
abbrev read_query : Bytes → Bytes
read_query q = or_empty (after_prefix key q)

read_query-GetsPlain : GetsPlain read_query
unfolding after_prefix
read_query-GetsPlain v plain = refl

symbol_param_lem_example :
    symbol_param read_query (codes "symbol=AAPL") ≡ read_query (codes "symbol=AAPL")
symbol_param_lem_example =
    symbol_param_lem read_query (codes "symbol=AAPL") read_query-GetsPlain refl

restart_after_kill_example :
    let x =
      run_posts toy
        (codes "high" ∷ [])
        (init_price_wal toy (codes "wal") (readable_log toy []) (fresh toy [])) in
    (left : Bytes) × (x.wal ≡ some left)
    × ((init_price_wal toy
          (codes "wal")
          (readable_log toy (left ++ take 2 (line_of toy (codes "A") false)))
          (fresh toy [])).tables
        ≡ x.tables)
restart_after_kill_example =
    restart_after_kill toy [] (codes "wal") [] (codes "high" ∷ []) (codes "A") false 2 refl
      (inl refl) (omega arith)
