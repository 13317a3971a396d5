-- ===== src/Prices.antt =====
-- Prices of app/main.go: GET and POST /price, the price tables, and the write-ahead log with its
-- replay at boot. encoding/json, strconv.AppendFloat and net/url are parameters.
pub mod Replay
pub mod Durable
pub mod Race
pub mod Query
pub mod Reads
pub mod Prebuilt
pub mod Start
pub mod Samples
mod Tests
use obsidio.Prelude.Text.{newline, split_onto, equal, is_empty}
use obsidio.Prelude.{
  ℕ, zero, suc, ◌+◌, ◌<◌, ◌≡◌, ◌≢◌, Bool, true, false, not, ◌&&◌, ◌||◌, List, [], ◌∷◌, ◌++◌, Option,
  none, some, ◌==◌, if◌then◌else◌, length, take, All,
}
use obsidio.Prelude.Env.{Bytes, codes}
use obsidio.Governor.{Counters, count_response}

-- What the code calls of encoding/json and strconv, on the values that it passes. `IsText` is the
-- symbols that the decoder returns, which are valid UTF-8.
pub record Codec : Type 1 where
  pub Price : Type 0
  pub IsText : Bytes → Type 0
  -- strconv.AppendFloat(b, p, 'g', -1, 64)
  pub format_float : Price → Bytes
  -- json.Marshal(walEntry{Symbol: s, Price: p})
  pub marshal : Bytes → Price → Bytes
  -- json.Unmarshal into a walEntry; `none` is an error
  pub unmarshal : Bytes → Option (Bytes × Price)
  -- json.NewDecoder(r.Body).Decode(&req): the symbol, and the price if one was given
  pub decode : Bytes → Option (Bytes × Option Price)
  pub decode_text : (body s : Bytes) (p : Option Price) → decode body ≡ some (s, p) → IsText s
  pub unmarshal-marshal : (s : Bytes) (p : Price) → IsText s → unmarshal (marshal s p) ≡ some (s, p)
  -- A marshalled entry is not empty and on one line, and a part of it is no JSON text.
  pub marshal_not_empty : (s : Bytes) (p : Price) → is_empty (marshal s p) ≡ false
  pub one_line : (s : Bytes) (p : Price) → All (λ c. (c == newline) ≡ false) (marshal s p)
  pub unmarshal_part :
      (s : Bytes) (p : Price) (n : ℕ)
      → n < length (marshal s p)
      → unmarshal (take n (marshal s p)) ≡ none
  -- Nor is a part of an entry with a whole one behind it.
  pub unmarshal_merged :
      (s t : Bytes) (p q : Price) (n : ℕ)
      → 0 < n
      → n < length (marshal s p)
      → unmarshal (take n (marshal s p) ++ marshal t q) ≡ none

-- A Go map with string keys.
abbrev pub Table : Type 0 → Type 0
Table A = Bytes → Option A

abbrev pub insert : {A : Type 0} → Bytes → A → Table A → Table A
insert k v t j = if equal k j then some v else t j

-- Whether the write and the sync of one append succeed; a write that fails has put some bytes out.
pub data Disk : Type 0 where
  fine : Disk
  write_fails : ℕ → Disk
  sync_fails : Disk

pub record Response : Type 0 where
  pub code : ℕ
  pub body : Bytes

module _ (J : Codec) where
  open J use {Price, format_float, marshal, unmarshal, decode}

  -- `buildPriceResp`.
  unfoldable pub build_price_resp : Bytes → Price → Bytes
  build_price_resp sym p =
      codes "{\"symbol\":\"" ++ (sym ++ (codes "\",\"price\":" ++ (format_float p ++ codes "}")))

  -- `prices` and `priceResp`.
  pub record Tables : Type 0 where
    pub prices : Table Price
    pub price_resp : Table Bytes

  unfoldable pub store_price : Bytes → Price → Tables → Tables
  store_price s p t = record {
    prices = insert s p t.prices;
    price_resp = insert s (build_price_resp s p) t.price_resp;
  }

  -- `init`, over the entries of `basePrices`.
  pub init_tables : List (Bytes × Price) → Tables
  init_tables [] = record { prices = λ s. none; price_resp = λ s. none }
  init_tables ((s, p) ∷ base) = store_price s p (init_tables base)

  -- One line of the log in `initPriceWAL`.
  abbrev pub apply_entry : Option (Bytes × Price) → Tables → Tables
  apply_entry none t = t
  apply_entry (some (s, p)) t = if is_empty s then t else store_price s p t

  abbrev pub apply_line : Bytes → Tables → Tables
  apply_line line t = if is_empty line then t else apply_entry (unmarshal line) t

  abbrev pub apply_lines : List Bytes → Tables → Tables
  apply_lines [] t = t
  apply_lines (line ∷ lines) t = apply_lines lines (apply_line line t)

  -- `initPriceWAL` on the bytes of the log.
  unfoldable pub replay : Bytes → Tables → Tables
  unfolding split_onto
  replay file t = apply_lines (split_onto [] file) t

  -- The process: its tables, its response counters, and the bytes of the log if one is open.
  pub record Process : Type 0 where
    pub tables : Tables
    pub wal : Option Bytes
    pub counters : Counters

  abbrev pub line_of : Bytes → Price → Bytes
  line_of s p = marshal s p ++ newline ∷ []

  -- `appendWAL`: what the file reads as afterwards, and whether the entry is durable. A sync that fails leaves
  -- the bytes that were written, which a kill of the process does not take back.
  unfoldable pub append_wal : Disk → Bytes → Price → Option Bytes → Option Bytes × Bool
  append_wal disk s p none = (none, true)
  append_wal fine s p (some file) = (some (file ++ line_of s p), true)
  append_wal (write_fails n) s p (some file) = (some (file ++ take n (line_of s p)), false)
  append_wal sync_fails s p (some file) = (some (file ++ line_of s p), false)

  abbrev pub bad_request : Response
  bad_request = record {
    code = 400;
    body = codes "{\"error\":\"symbol and numeric price required\"}";
  }

  abbrev pub persistence_failure : Response
  persistence_failure = record { code = 500; body = codes "{\"error\":\"persistence failure\"}" }

  abbrev pub not_found : Response
  not_found = record { code = 404; body = codes "{\"error\":\"unknown symbol\"}" }

  -- `writeJSON`.
  abbrev pub write_json : Response → Process → Process × Response
  write_json r x = (record x { counters = count_response r.code x.counters }, r)

  -- `handlePricePost` behind its guard.
  unfoldable pub accept_price : Disk → Bytes → Price → Process → Process × Response
  unfolding append_wal
  accept_price disk s p x =
      let (wal, durable) = append_wal disk s p x.wal in
      if durable
      then write_json (record { code = 200; body = build_price_resp s p })
          (record x { tables = store_price s p x.tables; wal = wal })
      else write_json persistence_failure (record x { wal = wal })

  -- `handlePricePost` on a request body.
  abbrev pub post_decoded : Disk → Option (Bytes × Option Price) → Process → Process × Response
  post_decoded disk none x = write_json bad_request x
  post_decoded disk (some (s, none)) x = write_json bad_request x
  post_decoded disk (some (s, some p)) x =
      if is_empty s then write_json bad_request x else accept_price disk s p x

  unfoldable pub handle_price_post : Disk → Bytes → Process → Process × Response
  handle_price_post disk body x = post_decoded disk (decode body) x

  abbrev pub found : Option Bytes → Response
  found none = not_found
  found (some body) = record { code = 200; body = body }

  -- `handlePrice` for a method other than POST and a symbol.
  unfoldable pub handle_price_get : Bytes → Process → Process × Response
  handle_price_get sym x = write_json (found (x.tables.price_resp sym)) x
