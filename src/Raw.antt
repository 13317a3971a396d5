-- ===== src/Raw.antt =====
-- The request head of app/rawserver.go: the part of `serveRawConn` from the request line to the
-- framing of the body, `asciiEqualFold` and `trimOWS`. A head is the bytes before the first blank
-- line. `none` is a return that closes the connection without a response.
pub mod Fields
pub mod Head
pub mod Stream
pub mod Serve
pub mod Accept
pub mod Write
pub mod Response
mod Tests
use obsidio.Prelude.Text.{cut_first, equal, is_empty}
use obsidio.Prelude.{
  ℕ, zero, suc, ◌+◌, ◌-◌, ◌*◌, Bool, true, false, ◌&&◌, ◌||◌, List, [], ◌∷◌, ◌++◌, Option, none,
  some, ltb, leb, ◌==◌, if◌then◌else◌, length, drop, ◌>>=◌,
}
use obsidio.Prelude.Env.{Bytes, codes, is_digit}

abbrev pub last_or : ℕ → ℕ → Bytes → Option (Bytes × Bytes) → Option (Bytes × Bytes)
last_or c x s none = if x == c then some ([], s) else none
last_or c x s (some (a, b)) = some (x ∷ a, b)

-- `bytes.LastIndexByte`, likewise.
unfoldable pub cut_last : ℕ → Bytes → Option (Bytes × Bytes)
cut_last c [] = none
cut_last c (x ∷ s) = last_or c x s (cut_last c s)

-- METHOD SP TARGET SP VERSION.
unfoldable pub request_line : Bytes → Option (Bytes × Bytes × Bytes)
request_line line = cut_first b' ' line >>= λ r. cut_last b' ' r.1 >>= λ q. some (r.0, q.0, q.1)

-- The version that is accepted, and whether it keeps the connection open.
unfoldable pub keeps_alive : Bytes → Option Bool
unfolding equal
keeps_alive version =
    if equal version (codes "HTTP/1.1")
    then some true
    else if equal version (codes "HTTP/1.0")
    then some false
    else none

abbrev pub split_at : Bytes → Option (Bytes × Bytes) → Bytes × Bytes
split_at head none = (head, [])
split_at head (some (line, after)) = (line, drop 1 after)

-- `head[:lineEnd]` and `head[min(lineEnd+2, len(head)):]`.
unfoldable pub split_head : Bytes → Bytes × Bytes
split_head head = split_at head (cut_first b'\r' head)

-- The lines of the loop over `rest`, with the current line in front.
unfoldable pub header_lines : Bytes → Bytes → List Bytes
header_lines line [] = if is_empty line then [] else line ∷ []
header_lines line (c ∷ []) = (line ++ c ∷ []) ∷ []
header_lines line (c ∷ d ∷ cs) =
    let next = header_lines [] cs in
    let on = header_lines (line ++ c ∷ []) (d ∷ cs) in
    if c == b'\r' && d == b'\n' then line ∷ next else on

abbrev pub lower : ℕ → ℕ
lower c = if leb b'A' c && leb c b'Z' then c + (b'a' - b'A') else c

pub same_folded : Bytes → Bytes → Bool
same_folded [] ls = true
same_folded (c ∷ cs) [] = true
same_folded (c ∷ cs) (l ∷ ls) = lower c == l && same_folded cs ls

-- `asciiEqualFold`.
unfoldable pub ascii_equal_fold : Bytes → Bytes → Bool
unfolding same_folded
ascii_equal_fold b l = length b == length l && same_folded b l

abbrev pub is_ows : ℕ → Bool
is_ows c = (c == b' ') || (c == b'\t')

-- The first loop of `trimOWS`.
unfoldable pub trim_left : Bytes → Bytes
trim_left [] = []
trim_left (c ∷ s) = let rest = trim_left s in if is_ows c then rest else c ∷ s

-- The second loop of `trimOWS`.
unfoldable pub trim_right : Bytes → Bytes
trim_right [] = []
trim_right (c ∷ s) = let t = trim_right s in if is_empty t && is_ows c then [] else c ∷ t

abbrev pub trim_ows : Bytes → Bytes
trim_ows s = trim_right (trim_left s)

pub length_from : ℕ → Bytes → Option ℕ
length_from n [] = some n
length_from n (d ∷ ds) =
    let rest = length_from (n * 10 + (d - b'0')) ds in if is_digit d then rest else none

-- The value of a Content-Length header.
unfoldable pub content_length : Bytes → Option ℕ
unfolding length_from
content_length val = if is_empty val || ltb 9 (length val) then none else length_from 0 val

-- `contentLen` and `keepAlive`.
pub record Framing : Type 0 where
  pub content_len : ℕ
  pub keep_alive : Bool

abbrev pub connection : Bytes → Framing → Framing
connection val f =
    if ascii_equal_fold val (codes "close")
    then record f { keep_alive = false }
    else if ascii_equal_fold val (codes "keep-alive")
    then record f { keep_alive = true }
    else f

abbrev pub set_length : Framing → Option ℕ → Option Framing
set_length f none = none
set_length f (some n) = some (record f { content_len = n })

-- The switch over a header's name.
unfoldable pub apply_field : Bytes → Bytes → Framing → Option Framing
apply_field name val f =
    if ascii_equal_fold name (codes "content-length")
    then set_length f (content_length val)
    else if ascii_equal_fold name (codes "connection")
    then some (connection val f)
    else if ascii_equal_fold name (codes "transfer-encoding")
    then none
    else some f

abbrev pub apply_cut : Option (Bytes × Bytes) → Framing → Option Framing
apply_cut none f = some f
apply_cut (some (name, val)) f = apply_field name (trim_ows val) f

unfoldable pub apply_header : Bytes → Framing → Option Framing
apply_header line f = apply_cut (cut_first b':' line) f

unfoldable pub apply_headers : List Bytes → Framing → Option Framing
apply_headers [] f = some f
apply_headers (line ∷ lines) f = apply_header line f >>= apply_headers lines

pub record Request : Type 0 where
  pub method : Bytes
  pub path : Bytes
  pub query : Bytes
  pub framing : Framing

abbrev pub split_query : Bytes → Option (Bytes × Bytes) → Bytes × Bytes
split_query target none = (target, [])
split_query target (some (path, query)) = (path, query)

-- What the handlers are given for a request line and header lines. A body above `rawBodyLimit`
-- closes the connection.
unfoldable pub read_request : Bytes → Bytes → Bytes → List Bytes → Option Request
read_request method target version lines = keeps_alive version >>= λ k.
    apply_headers lines (record { content_len = 0; keep_alive = k }) >>= λ f.
    let (path, query) = split_query target (cut_first b'?' target) in
    if ltb 3072 f.content_len
    then none
    else some (record { method = method; path = path; query = query; framing = f })

unfoldable pub parse_head : Bytes → Option Request
parse_head head =
    let (line, rest) = split_head head in
    request_line line >>= λ (m, t, v). read_request m t v (header_lines [] rest)
