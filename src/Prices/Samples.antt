-- ===== src/Prices/Samples.antt =====
-- A codec of two prices to run the model with.
use obsidio.Prelude.Text.{newline, equal, is_empty}
use obsidio.Prelude.{
  ℕ, zero, suc, ◌<◌, ◌≡◌, refl, Bool, true, false, [], ◌++◌, Option, none, some, arith, ◌==◌,
  if◌then◌else◌, length, take, All,
}
use obsidio.Prelude.Env.{Bytes, codes}
use obsidio.Prices.{Codec, init_tables, replay, Tables, Process}

-- `A` is the only symbol, and its price is high or low.
abbrev pub entry : Bytes → Bool → Bytes
entry s true = codes "{H}"
entry s false = codes "{L}"

abbrev pub read_entry : Bytes → Option (Bytes × Bool)
read_entry line =
    if equal line (codes "{H}")
    then some (codes "A", true)
    else if equal line (codes "{L}")
    then some (codes "A", false)
    else none

abbrev pub read_request : Bytes → Option (Bytes × Option Bool)
read_request body =
    if equal body (codes "high")
    then some (codes "A", some true)
    else if equal body (codes "low")
    then some (codes "A", some false)
    else none

abbrev pub IsA : Bytes → Type 0
IsA s = s ≡ codes "A"

pub read_request-IsA : (body s : Bytes) (p : Option Bool) → read_request body ≡ some (s, p) → IsA s
read_request-IsA body s p e = ground arith

pub read_entry-entry : (s : Bytes) (p : Bool) → IsA s → read_entry (entry s p) ≡ some (s, p)
unfolding equal
read_entry-entry s true a = rw a refl
read_entry-entry s false a = rw a refl

pub entry_not_empty : (s : Bytes) (p : Bool) → is_empty (entry s p) ≡ false
entry_not_empty s true = refl
entry_not_empty s false = refl

pub entry_one_line : (s : Bytes) (p : Bool) → All (λ c. (c == newline) ≡ false) (entry s p)
entry_one_line s true = (refl, (refl, (refl, tt)))
entry_one_line s false = (refl, (refl, (refl, tt)))

pub read_part :
    (s : Bytes) (p : Bool) (n : ℕ) → n < length (entry s p) → read_entry (take n (entry s p)) ≡ none
unfolding equal
read_part s true zero h = refl
read_part s true (suc zero) h = refl
read_part s true (suc (suc zero)) h = refl
read_part s true (suc (suc (suc n))) h = absurd (omega arith)
read_part s false zero h = refl
read_part s false (suc zero) h = refl
read_part s false (suc (suc zero)) h = refl
read_part s false (suc (suc (suc n))) h = absurd (omega arith)

pub read_merged :
    (s t : Bytes) (p q : Bool) (n : ℕ)
    → 0 < n
    → n < length (entry s p)
    → read_entry (take n (entry s p) ++ entry t q) ≡ none
unfolding equal
read_merged s t p q zero l h = absurd (omega arith)
read_merged s t true true (suc zero) l h = refl
read_merged s t true false (suc zero) l h = refl
read_merged s t false true (suc zero) l h = refl
read_merged s t false false (suc zero) l h = refl
read_merged s t true true (suc (suc zero)) l h = refl
read_merged s t true false (suc (suc zero)) l h = refl
read_merged s t false true (suc (suc zero)) l h = refl
read_merged s t false false (suc (suc zero)) l h = refl
read_merged s t true q (suc (suc (suc n))) l h = absurd (omega arith)
read_merged s t false q (suc (suc (suc n))) l h = absurd (omega arith)

abbrev pub toy : Codec
toy = record {
  Price = Bool;
  IsText = IsA;
  format_float = λ p. if p then codes "9.5" else codes "1";
  marshal = entry;
  unmarshal = read_entry;
  decode = read_request;
  decode_text = read_request-IsA;
  unmarshal-marshal = read_entry-entry;
  marshal_not_empty = entry_not_empty;
  one_line = entry_one_line;
  unmarshal_part = read_part;
  unmarshal_merged = read_merged;
}

abbrev pub no_prices : Tables toy
no_prices = init_tables toy []

abbrev pub process_with : Bytes → Process toy
process_with file = record {
  tables = replay toy file no_prices;
  wal = some file;
  counters = record { ok = 0; err = 0 };
}
