-- ===== src/Starter/Printed.antt =====
-- A reply as the JSON text that the engineered backend writes by hand, and which strings json.Marshal
-- only puts into quotes.
use obsidio.Prelude.{
  and_true, ℕ, ◌/◌, ◌%◌, ◌<◌, ◌≡◌, sym, subst, Bool, true, not, ◌&&◌, List, [], ◌∷◌, ◌++◌, arith,
  leb, ◌==◌, get_or, All,
}
use obsidio.Prelude.Env.{Bytes, codes}
use obsidio.Kernel.Hex.{AreBytes, digits, encode_to_string}
use obsidio.Kernel.Chain.{Sha256, hash_hex, starter_chain}
use obsidio.Kernel.Chain.Loops.{iterate-pred, iterate-keeps}
use obsidio.Prices.{Response}
use obsidio.Starter.{Field, text, number, Reply}

module _ {Float : Type 0} (marshal_string : Bytes → Bytes) (format_float : Float → Bytes) where
  abbrev pub print_value : Field Float → Bytes
  print_value (text s) = marshal_string s
  print_value (number p) = format_float p

  -- `"name":value`, and each further one behind a comma.
  abbrev pub print_field : Bytes × Field Float → Bytes
  print_field (name, v) = codes "\"" ++ (name ++ (codes "\":" ++ print_value v))

  abbrev pub print_more : List (Bytes × Field Float) → Bytes
  print_more [] = codes "}"
  print_more (f ∷ fs) = codes "," ++ (print_field f ++ print_more fs)

  abbrev pub print_fields : List (Bytes × Field Float) → Bytes
  print_fields [] = codes "{}"
  print_fields (f ∷ fs) = codes "{" ++ (print_field f ++ print_more fs)

  abbrev pub print_reply : Reply Float → Response
  print_reply r = record { code = r.code; body = print_fields r.fields }

-- The characters that json.Marshal writes as they are: printable ASCII but `"`, `\`, `<`, `>` and `&`.
abbrev pub is_plain : ℕ → Bool
is_plain c =
    leb 32 c
    && (leb c 126
        && (not (c == 34)
            && (not (c == 92) && (not (c == 60) && (not (c == 62) && not (c == 38))))))

abbrev pub IsPlain : Bytes → Type 0
IsPlain = All (λ c. is_plain c ≡ true)

unfoldable pub all_plain : Bytes → Bool
all_plain [] = true
all_plain (c ∷ s) = is_plain c && all_plain s

pub all_plain-IsPlain : (s : Bytes) → all_plain s ≡ true → IsPlain s
unfolding all_plain
all_plain-IsPlain [] h = tt
all_plain-IsPlain (c ∷ s) h =
    let (here, later) = and_true (is_plain c) (all_plain s) h in (here, all_plain-IsPlain s later)

-- What json.Marshal documents of a string of such characters.
abbrev pub Quotes : (Bytes → Bytes) → Type 0
Quotes marshal_string = (s : Bytes) → IsPlain s → marshal_string s ≡ codes "\"" ++ (s ++ codes "\"")

digit-IsPlain : (d : ℕ) → d < 16 → is_plain (get_or digits d 0) ≡ true
digit-IsPlain d h = ground arith

encode_to_string-IsPlain : (s : Bytes) → AreBytes s → IsPlain (encode_to_string s)
encode_to_string-IsPlain [] a = tt
encode_to_string-IsPlain (b ∷ s) a = (
  digit-IsPlain (b / 16) (omega (arith, a.0)),
  (digit-IsPlain (b % 16) (omega arith), encode_to_string-IsPlain s a.1),
)

pub starter_chain-IsPlain : (H : Sha256) (seed : Bytes) → IsPlain (starter_chain H seed)
unfolding starter_chain
starter_chain-IsPlain H seed =
    let plain : (m : Bytes) → IsPlain (hash_hex H m) =
      λ m. encode_to_string-IsPlain (H.sum256 m) (H.bytes_sum m) in
    subst IsPlain (sym (iterate-pred (hash_hex H) 50000 seed (omega arith)))
      (iterate-keeps (hash_hex H) IsPlain (λ m p. plain m) 49999 (hash_hex H seed) (plain seed))
