-- ===== src/Kernel/Hex.antt =====
-- `hexPairs` and `hexEncode64` of app/main.go, against the lowercase hex of encoding/hex.
use Prim.Native.Nat.{bit_and, bit_or}
use obsidio.Prelude.{
  ℕ, zero, suc, ◌+◌, ◌*◌, ◌/◌, ◌%◌, ◌^◌, ◌<◌, ◌≡◌, refl, sym, ◌∙◌, Bool, true, ◌&&◌, [], ◌∷◌, ◌++◌,
  append-nil, append_assoc, arith, ◌==◌, ==_iff, length, get_or, set, length-append, get_or-append,
  set-set-append,
}
use obsidio.Prelude.Env.{Bytes, codes}

abbrev pub digits : Bytes
digits = codes "0123456789abcdef"

-- One entry of `hexPairs`: the high nibble's digit in the low byte of a uint16.
unfoldable pub hex_pair : ℕ → ℕ
hex_pair b =
    bit_or (get_or digits (b / 2 ^ 4) 0) ((get_or digits (bit_and b 15) 0 * 2 ^ 8) % 2 ^ 16)

-- The loop of `hexEncode64` from index `j`, with `k` rounds left.
unfoldable pub encode_from : ℕ → ℕ → Bytes → Bytes → Bytes
encode_from zero j buf sum = buf
encode_from (suc k) j buf sum =
    let p = hex_pair (get_or sum j 0) in
    encode_from k (j + 1) (set (set buf (2 * j) (p % 2 ^ 8)) (2 * j + 1) (p / 2 ^ 8 % 2 ^ 8)) sum

-- `hexEncode64`: a 64-byte buffer is overwritten from a 32-byte sum.
unfoldable pub hex_encode64 : Bytes → Bytes → Bytes
hex_encode64 buf sum = encode_from 32 0 buf sum

-- `hex.EncodeToString` of encoding/hex: two digits for each byte, high nibble first.
abbrev pub encode_to_string : Bytes → Bytes
encode_to_string [] = []
encode_to_string (b ∷ bs) =
    get_or digits (b / 16) 0 ∷ get_or digits (b % 16) 0 ∷ encode_to_string bs

abbrev pub AreBytes : Bytes → Type 0
AreBytes [] = Unit
AreBytes (b ∷ bs) = (b < 256) × AreBytes bs

-- Both bytes of a table entry are the digits of encoding/hex; checked at every byte.
holds_for : (ℕ → Bool) → ℕ → Bool
holds_for test zero = true
holds_for test (suc top) = holds_for test top && test top

from_table : (test : ℕ → Bool) (top b : ℕ) → b < top → holds_for test top ≡ true → test b ≡ true
unfolding holds_for
from_table test zero b h table = absurd (omega arith)
from_table test (suc top) b h table = ground (arith, from_table test top b)

abbrev low_agrees : ℕ → Bool
low_agrees b = hex_pair b % 2 ^ 8 == get_or digits (b / 16) 0

abbrev high_agrees : ℕ → Bool
high_agrees b = hex_pair b / 2 ^ 8 % 2 ^ 8 == get_or digits (b % 16) 0

low_table : holds_for low_agrees 256 ≡ true
unfolding holds_for hex_pair
low_table = refl

high_table : holds_for high_agrees 256 ≡ true
unfolding holds_for hex_pair
high_table = refl

low_digit : (b : ℕ) → b < 256 → hex_pair b % 2 ^ 8 ≡ get_or digits (b / 16) 0
low_digit b h = (==_iff _ _).0 (from_table low_agrees 256 b h low_table)

high_digit : (b : ℕ) → b < 256 → hex_pair b / 2 ^ 8 % 2 ^ 8 ≡ get_or digits (b % 16) 0
high_digit b h = (==_iff _ _).0 (from_table high_agrees 256 b h high_table)

pub length-encode_to_string : (bs : Bytes) → length (encode_to_string bs) ≡ 2 * length bs
length-encode_to_string [] = omega arith
length-encode_to_string (b ∷ bs) = omega (arith, length-encode_to_string bs)

encode_to_string-append :
    (xs ys : Bytes) → encode_to_string (xs ++ ys) ≡ encode_to_string xs ++ encode_to_string ys
encode_to_string-append [] ys = refl
encode_to_string-append (x ∷ xs) ys = simp (encode_to_string-append xs ys)

-- One round of the loop, behind the output of the rounds before it.
encode_from_round :
    (k j b x y : ℕ) (done bs out rest : Bytes)
    → j ≡ length done
    → 2 * j ≡ length out
    → b < 256
    → encode_from (suc k) j (out ++ x ∷ y ∷ rest) (done ++ b ∷ bs)
      ≡ encode_from k (j + 1) (out ++ (encode_to_string (b ∷ []) ++ rest)) (done ++ b ∷ bs)
unfolding encode_from
encode_from_round k j b x y done bs out rest at_j at_out h =
    rw (get_or-append done bs b 0 j at_j, low_digit b h, high_digit b h)
      (rw (set-set-append out rest x y _ _ (2 * j) at_out))

encode_from-append :
    (todo done rest : Bytes) (j : ℕ)
    → j ≡ length done
    → length rest ≡ 2 * length todo
    → AreBytes todo
    → encode_from (length todo) j (encode_to_string done ++ rest) (done ++ todo)
      ≡ encode_to_string (done ++ todo)
unfolding encode_from
encode_from-append [] done [] j at_j len h =
    rw (append-nil (encode_to_string done), append-nil done)
encode_from-append [] done (x ∷ rest) j at_j len h = absurd (omega arith)
encode_from-append (b ∷ bs) done [] j at_j len h = absurd (omega arith)
encode_from-append (b ∷ bs) done (x ∷ []) j at_j len h = absurd (omega arith)
encode_from-append (b ∷ bs) done (x ∷ y ∷ rest) j at_j len h =
    let out = encode_to_string done in
    let at_out = length-encode_to_string done in
    let next =
      encode_from-append bs (done ++ b ∷ []) rest (j + 1)
        (omega (arith, length-append done (b ∷ []))) (omega arith) h.1 in
    encode_from_round (length bs) j b x y done bs out rest at_j (omega arith) h.0
    ∙ rw
        (
          ← append_assoc out (encode_to_string (b ∷ [])) rest,
          ← encode_to_string-append done (b ∷ []),
          ← append_assoc done (b ∷ []) bs,
        )
        next

encode_all :
    (n : ℕ) (buf sum : Bytes)
    → n ≡ length sum
    → length buf ≡ 2 * length sum
    → AreBytes sum
    → encode_from n 0 buf sum ≡ encode_to_string sum
encode_all n buf sum e b h = rw e (encode_from-append sum [] buf 0 refl b h)

-- For a 64-byte buffer and a digest of 32 bytes, hexEncode64 leaves in the buffer the string that
-- encoding/hex makes, whatever the buffer held.
pub hex_encode64-eq :
    (buf sum : Bytes)
    → length buf ≡ 64
    → length sum ≡ 32
    → AreBytes sum
    → hex_encode64 buf sum ≡ encode_to_string sum
unfolding hex_encode64
hex_encode64-eq buf sum b s h = encode_all 32 buf sum (sym s) (omega arith) h
