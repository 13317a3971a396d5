-- ===== src/Raw/Head.antt =====
-- The request line and the header lines.
use obsidio.Prelude.Text.{cut_first, is_empty}
use obsidio.Prelude.{
  not, ◌&&◌, Bool, Bool-cases, inl, inr, ℕ, ◌≡◌, refl, sym, ap, ◌∙◌, true, false, List, [], ◌∷◌,
  ◌++◌, none, some, ◌==◌, All, map, append-nil, append_assoc,
}
use obsidio.Prelude.Env.{Bytes, codes}
use obsidio.Raw.Fields.{AllOws, NoOws, trim_ows_lem, ascii_equal_fold_iff}
use obsidio.Raw.{
  lower, content_length, Framing, set_length, apply_field, apply_header, cut_last, request_line,
  split_head, header_lines, read_request, parse_head,
}

-- No byte of the string is `c`.
abbrev pub Lacks : ℕ → Bytes → Type 0
Lacks c = All (λ x. (x == c) ≡ false)

-- The same as a test, for literals.
unfoldable pub lacking : ℕ → Bytes → Bool
lacking c [] = true
lacking c (x ∷ s) = not (x == c) && lacking c s

pub lacking-Lacks : (c : ℕ) (s : Bytes) → lacking c s ≡ true → Lacks c s
unfolding lacking
lacking-Lacks c [] h = tt
lacking-Lacks c (x ∷ s) h = elim (Bool-cases (x == c)) [
  | inl e ↦ let bad : false ≡ true = simp e at h in absurd cc
  | inr e ↦ (e, lacking-Lacks c s (simp e at h))
]

cut_first-append :
    (c : ℕ) (a b : Bytes) → (c == c) ≡ true → Lacks c a → cut_first c (a ++ c ∷ b) ≡ some (a, b)
unfolding cut_first
cut_first-append c [] b r h = rw r refl
cut_first-append c (x ∷ a) b r h = rw (h.0, cut_first-append c a b r h.1) refl

cut_first-none : (c : ℕ) (a : Bytes) → Lacks c a → cut_first c a ≡ none
unfolding cut_first
cut_first-none c [] h = refl
cut_first-none c (x ∷ a) h = rw (h.0, cut_first-none c a h.1) refl

cut_last-none : (c : ℕ) (a : Bytes) → Lacks c a → cut_last c a ≡ none
unfolding cut_last
cut_last-none c [] h = refl
cut_last-none c (x ∷ a) h = rw (cut_last-none c a h.1, h.0) refl

cut_last-append :
    (c : ℕ) (a b : Bytes) → (c == c) ≡ true → Lacks c b → cut_last c (a ++ c ∷ b) ≡ some (a, b)
unfolding cut_last
cut_last-append c [] b r h = rw (cut_last-none c b h, r) refl
cut_last-append c (x ∷ a) b r h = rw (cut_last-append c a b r h) refl

-- A request line as a client writes it.
abbrev pub print_line : Bytes → Bytes → Bytes → Bytes
print_line m t v = m ++ b' ' ∷ (t ++ b' ' ∷ v)

request_line-print_line :
    (m t v : Bytes) → Lacks b' ' m → Lacks b' ' v → request_line (print_line m t v) ≡ some (m, t, v)
unfolding request_line
request_line-print_line m t v hm hv =
    rw (cut_first-append b' ' m (t ++ b' ' ∷ v) refl hm, cut_last-append b' ' t v refl hv) refl

-- Header lines as a client writes them, each behind the end of the line before.
unfoldable pub print_lines : List Bytes → Bytes
print_lines [] = []
print_lines (line ∷ lines) = b'\r' ∷ b'\n' ∷ (line ++ print_lines lines)

-- The lines behind the first one's end.
abbrev pub tail_lines : List Bytes → Bytes
tail_lines [] = []
tail_lines (line ∷ lines) = line ++ print_lines lines

abbrev pub IsLine : Bytes → Type 0
IsLine line = (is_empty line ≡ false) × Lacks b'\r' line

line_onto :
    (cur line : Bytes) (lines : List Bytes)
    → (is_empty (cur ++ line) ≡ false)
    → Lacks b'\r' line
    → header_lines cur (line ++ print_lines lines)
      ≡ (cur ++ line) ∷ header_lines [] (tail_lines lines)
unfolding header_lines print_lines
line_onto cur [] [] ne h = let e : cur ++ [] ≡ cur = append-nil cur in rw (e, (rw e at ne)) refl
line_onto cur [] (next ∷ lines) ne h =
    ap (λ x. x ∷ header_lines [] (next ++ print_lines lines)) (sym (append-nil cur))
line_onto cur (c ∷ []) [] ne h = refl
line_onto cur (c ∷ []) (next ∷ lines) ne h = rw h.0 refl
line_onto cur (c ∷ d ∷ line) lines ne h =
    let whole = append_assoc cur (c ∷ []) (d ∷ line) in
    rw h.0 (
      line_onto (cur ++ c ∷ []) (d ∷ line) lines (ap is_empty whole ∙ ne) h.1
      ∙ ap (λ x. x ∷ header_lines [] (tail_lines lines)) whole)

pub header_lines-tail_lines :
    (lines : List Bytes) → All IsLine lines → header_lines [] (tail_lines lines) ≡ lines
unfolding header_lines print_lines
header_lines-tail_lines [] h = refl
header_lines-tail_lines (line ∷ lines) h =
    line_onto [] line lines h.0.0 h.0.1 ∙ ap (◌∷◌ line) (header_lines-tail_lines lines h.1)

pub Lacks-append : (c : ℕ) (a b : Bytes) → Lacks c a → Lacks c b → Lacks c (a ++ b)
Lacks-append c [] b ha hb = hb
Lacks-append c (x ∷ a) b ha hb = (ha.0, Lacks-append c a b ha.1 hb)

pub split_head-print :
    (line : Bytes) (lines : List Bytes)
    → Lacks b'\r' line
    → split_head (line ++ print_lines lines) ≡ (line, tail_lines lines)
unfolding split_head print_lines
split_head-print line [] h =
    let e : line ++ [] ≡ line = append-nil line in rw (e, cut_first-none b'\r' line h) refl
split_head-print line (next ∷ lines) h =
    rw (cut_first-append b'\r' line (b'\n' ∷ (next ++ print_lines lines)) refl h) refl

-- For a method and a version without spaces, a request line without carriage returns and header
-- lines that are not empty and without carriage returns, the parser of serveRawConn reads the
-- printed head as that method, target and version, spaces in the target included, and those header
-- lines.
pub parse_head-print :
    (m t v : Bytes) (lines : List Bytes)
    → Lacks b' ' m
    → Lacks b' ' v
    → Lacks b'\r' (print_line m t v)
    → All IsLine lines
    → parse_head (print_line m t v ++ print_lines lines) ≡ read_request m t v lines
unfolding parse_head
parse_head-print m t v lines hm hv hc hl =
    rw
      (
        split_head-print (print_line m t v) lines hc,
        request_line-print_line m t v hm hv,
        header_lines-tail_lines lines hl,
      )
      refl

-- A header whose name is content-length in any case and without a colon sets the length of the body
-- to its value, or closes the connection if the value is refused, whatever optional white space
-- stands around a value that has none inside.
pub apply_header-content_length :
    (name left val right : Bytes) (f : Framing)
    → Lacks b':' name
    → map lower name ≡ codes "content-length"
    → AllOws left
    → NoOws val
    → AllOws right
    → apply_header (name ++ b':' ∷ (left ++ (val ++ right))) f ≡ set_length f (content_length val)
unfolding apply_header apply_field
apply_header-content_length name left val right f hn e l n r =
    rw
      (
        cut_first-append b':' name (left ++ (val ++ right)) refl hn,
        (ascii_equal_fold_iff name (codes "content-length")).1 e,
        trim_ows_lem left val right l n r,
      )
      refl
