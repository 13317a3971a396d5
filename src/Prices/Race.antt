-- ===== src/Prices/Race.antt =====
-- Two POST requests at once: `appendWAL` and the update of the tables are under different locks.
use obsidio.Prelude.Text.{equal_self, is_empty}
use obsidio.Prelude.{◌≡◌, refl, ap, ◌∙◌, false, List, [], ◌∷◌, ◌++◌, some}
use obsidio.Prelude.Env.{Bytes}
use obsidio.Prices.Replay.{IsAligned, IsAligned-line, replay-append}
use obsidio.Prices.Durable.{replay_entry}
use obsidio.Prices.{Codec, Tables, store_price, replay, line_of}

module _ (J : Codec) where
  open J use {Price, IsText}

  -- What the requests share: the tables and the log.
  pub record Shared : Type 0 where
    pub tables : Tables J
    pub log : Bytes

  -- The critical sections of `handlePricePost`: the append under `walMu`, the update under `mu`.
  pub data Section : Type 0 where
    append_entry publish : Bytes → Price → Section

  abbrev pub enter_section : Section → Shared → Shared
  enter_section (append_entry s p) x = record x { log = x.log ++ line_of J s p }
  enter_section (publish s p) x = record x { tables = store_price J s p x.tables }

  abbrev pub interleave : List Section → Shared → Shared
  interleave [] x = x
  interleave (c ∷ cs) x = interleave cs (enter_section c x)

  latest : (s : Bytes) (p : Price) (t : Tables J) → (store_price J s p t).prices s ≡ some p
  unfolding store_price
  latest s p t = rw (equal_self s) refl

  -- For a whole log, if the second of two requests for one symbol appends later and publishes
  -- earlier than the first, the tables hold the first price and the log replays to the second.
  pub restart_reorders :
      (base : Tables J) (x : Shared) (s : Bytes) (p q : Price)
      → IsText s
      → is_empty s ≡ false
      → IsAligned x.log
      → let y =
          interleave (append_entry s p ∷ append_entry s q ∷ publish s q ∷ publish s p ∷ []) x in
        (y.tables.prices s ≡ some p) × ((replay J y.log base).prices s ≡ some q)
  restart_reorders base x s p q v e al =
      let first = IsAligned-line x.log (J.marshal s p) in
      let again = replay-append J (x.log ++ line_of J s p) (line_of J s q) base first in
      (latest s p _, ap (λ t. t.prices s) (again ∙ replay_entry J s q _ v e) ∙ latest s q _)
