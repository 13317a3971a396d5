-- ===== src/Raw/Write/ReadBack.antt =====
-- A client that frames a response by its Content-Length reads what `writeResponse` was given.
use obsidio.Prelude.{
  ℕ, ◌^◌, ◌<◌, ◌≡◌, refl, sym, ap, ◌∙◌, inl, inr, Bool, true, false, not, List, [], ◌∷◌, ◌++◌,
  Option, none, some, arith, Bool-cases, leb, ◌==◌, if◌then◌else◌, length, length-append, take,
  take-length-append, drop, drop-length-append, All, append-nil, append_assoc, ◌>>=◌,
}
use obsidio.Prelude.Env.{Bytes, codes}
use obsidio.Prelude.Text.{cut_first}
use obsidio.Raw.{
  Framing, split_head, header_lines, trim_left, trim_right, apply_header, apply_headers, set_length,
  apply_field, ascii_equal_fold,
}
use obsidio.Raw.Head.{
  lacking, lacking-Lacks, Lacks, Lacks-append, IsLine, print_lines, split_head-print,
  header_lines-tail_lines, apply_header-content_length,
}
use obsidio.Raw.Stream.{blank, cut_blank}
use obsidio.Raw.Stream.Printed.{cut_blank-print}
use obsidio.Raw.Write.{decimal, status_line, write_response}
use obsidio.Raw.Write.Decimal.{decimal-NoOws, decimal-Lacks, content_length-decimal}

-- A client reads the head up to the blank line and then as many bytes as it names; it gets whether
-- the connection stays open, the body, and what follows.
abbrev pub framed : Bytes → Framing → Option (Bool × Bytes × Bytes)
framed rest f =
    if leb f.content_len (length rest)
    then some (f.keep_alive, take f.content_len rest, drop f.content_len rest)
    else none

abbrev pub read_cut : Option (Bytes × Bytes) → Option (Bool × Bytes × Bytes)
read_cut none = none
read_cut (some (head, rest)) =
    apply_headers (header_lines [] (split_head head).1)
      (record { content_len = 0; keep_alive = true })
    >>= framed rest

unfoldable pub read_response : Bytes → Option (Bool × Bytes × Bytes)
read_response s = read_cut (cut_blank s)

-- The header lines of a response.
abbrev response_lines : Bool → ℕ → List Bytes
response_lines close_after n =
    codes "Content-Type: application/json"
    ∷ (codes "Content-Length: " ++ decimal n)
    ∷ (if close_after then codes "Connection: close" ∷ [] else [])

response_lines-AreLines : (close_after : Bool) (n : ℕ) → All IsLine (response_lines close_after n)
unfolding lacking
response_lines-AreLines close_after n = (
  (refl, lacking-Lacks b'\r' (codes "Content-Type: application/json") refl),
  (
    (
      refl,
      Lacks-append b'\r' (codes "Content-Length: ") (decimal n)
          (lacking-Lacks b'\r' (codes "Content-Length: ") refl) (decimal-Lacks n),
    ),
    last_line close_after,
  ),
)
  where
    last_line :
        (close_after : Bool)
        → All IsLine (if close_after then codes "Connection: close" ∷ [] else [])
    last_line true = ((refl, lacking-Lacks b'\r' (codes "Connection: close") refl), tt)
    last_line false = tt

status_line-Lacks :
    (status_text : ℕ → Bytes) (code : ℕ)
    → ((c : ℕ) → Lacks b'\r' (status_text c))
    → Lacks b'\r' (status_line status_text code)
unfolding status_line lacking
status_line-Lacks status_text code h = elim (Bool-cases (code == 200)) [
  | inl e ↦ rw e (lacking-Lacks b'\r' (codes "HTTP/1.1 200 OK") refl)
  | inr n200 ↦ elim (Bool-cases (code == 404)) [
    | inl e ↦ rw (n200, e) (lacking-Lacks b'\r' (codes "HTTP/1.1 404 Not Found") refl)
    | inr n404 ↦ elim (Bool-cases (code == 503)) [
      | inl e ↦
          rw (n200, n404, e) (lacking-Lacks b'\r' (codes "HTTP/1.1 503 Service Unavailable") refl)
      | inr n503 ↦ elim (Bool-cases (code == 400)) [
        | inl e ↦
            rw (n200, n404, n503, e) (lacking-Lacks b'\r' (codes "HTTP/1.1 400 Bad Request") refl)
        | inr n400 ↦ elim (Bool-cases (code == 500)) [
          | inl e ↦
              rw (n200, n404, n503, n400, e)
                (lacking-Lacks b'\r' (codes "HTTP/1.1 500 Internal Server Error") refl)
          | inr n500 ↦
              rw (n200, n404, n503, n400, n500)
                (Lacks-append b'\r' (codes "HTTP/1.1 ") (decimal code ++ b' ' ∷ status_text code)
                  (lacking-Lacks b'\r' (codes "HTTP/1.1 ") refl)
                  (Lacks-append b'\r' (decimal code) (b' ' ∷ status_text code) (decimal-Lacks code)
                    (refl, h code)))
        ]
      ]
    ]
  ]
]

write_response-print :
    (status_text : ℕ → Bytes) (close_after : Bool) (code : ℕ) (body rest : Bytes)
    → write_response status_text close_after code body ++ rest
      ≡ (status_line status_text code ++ print_lines (response_lines close_after (length body)))
        ++ (blank ++ (body ++ rest))
unfolding write_response print_lines
write_response-print status_text true code body rest = simp (append_assoc, append-nil)
write_response-print status_text false code body rest = simp (append_assoc, append-nil)

type_header : (f : Framing) → apply_header (codes "Content-Type: application/json") f ≡ some f
unfolding apply_header apply_field cut_first ascii_equal_fold
type_header f = refl

close_header :
    (f : Framing)
    → apply_header (codes "Connection: close") f ≡ some (record f { keep_alive = false })
unfolding apply_header apply_field cut_first ascii_equal_fold trim_left trim_right
close_header f = refl

length_header :
    (n : ℕ) (f : Framing)
    → n < 10 ^ 9
    → apply_header (codes "Content-Length: " ++ decimal n) f ≡ some (record f { content_len = n })
unfolding lacking
length_header n f h =
    ap (λ v. apply_header (codes "Content-Length: " ++ v) f) (sym (append-nil (decimal n)))
    ∙ apply_header-content_length (codes "Content-Length") (codes " ") (decimal n) [] f
        (lacking-Lacks b':' (codes "Content-Length") refl) refl (refl, tt) (decimal-NoOws n) tt
    ∙ ap (set_length f) (content_length-decimal n h)

apply_response_lines :
    (close_after : Bool) (n : ℕ)
    → n < 10 ^ 9
    → apply_headers (response_lines close_after n) (record { content_len = 0; keep_alive = true })
      ≡ some (record { content_len = n; keep_alive = not close_after })
unfolding apply_headers
apply_response_lines true n h =
    rw
      (type_header, length_header n (record { content_len = 0; keep_alive = true }) h, close_header)
      refl
apply_response_lines false n h =
    rw (type_header, length_header n (record { content_len = 0; keep_alive = true }) h) refl

framed-body :
    (alive : Bool) (body rest : Bytes)
    → framed (body ++ rest) (record { content_len = length body; keep_alive = alive })
      ≡ some (alive, body, rest)
framed-body alive body rest =
    let fits : leb (length body) (length (body ++ rest)) ≡ true =
      ground (arith, length-append body rest) in
    rw
      (
        fits,
        take-length-append body rest (length body) refl,
        drop-length-append body rest (length body) refl,
      )
      refl

-- For status texts without carriage returns and a body shorter than ten to the power of nine, a
-- client that frames a response by its Content-Length reads from what writeResponse wrote, and what
-- follows it, whether the connection closes, the body, and what follows.
pub read_response-write_response :
    (status_text : ℕ → Bytes) (close_after : Bool) (code : ℕ) (body rest : Bytes)
    → ((c : ℕ) → Lacks b'\r' (status_text c))
    → length body < 10 ^ 9
    → read_response (write_response status_text close_after code body ++ rest)
      ≡ some (not close_after, body, rest)
unfolding read_response
read_response-write_response status_text close_after code body rest plain small =
    let line = status_line status_text code in
    let lines = response_lines close_after (length body) in
    let good = response_lines-AreLines close_after (length body) in
    let l = status_line-Lacks status_text code plain in
    rw
      (
        write_response-print status_text close_after code body rest,
        cut_blank-print line lines (body ++ rest) l good,
        split_head-print line lines l,
        header_lines-tail_lines lines good,
        apply_response_lines close_after (length body) small,
      )
      (framed-body (not close_after) body rest)
