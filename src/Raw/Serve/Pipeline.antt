-- ===== src/Raw/Serve/Pipeline.antt =====
-- A printed request is answered, in whatever pieces it comes and whatever follows it.
use obsidio.Prelude.{
  ℕ, suc, ◌+◌, ◌-◌, ◌≤◌, ◌≡◌, refl, sym, ap, ◌∙◌, true, List, [], ◌++◌, some, arith, leb, length,
  length-append, take, take-append_long, take-length-append, drop, drop-length-append, All, concat,
  append_assoc,
}
use obsidio.Prelude.Env.{Bytes}
use obsidio.Raw.{Request, read_request}
use obsidio.Raw.Head.{Lacks, IsLine, print_line, print_lines, parse_head-print}
use obsidio.Raw.Stream.{blank}
use obsidio.Raw.Stream.Printed.{cut_blank-print}
use obsidio.Raw.Serve.{Server, answer, serve_raw_conn, stream_on, serve_stream}
use obsidio.Raw.Serve.Refines.{serve_raw_conn-serve_stream}

-- A request as a client writes it, and what follows on the connection.
abbrev pub print_request : Bytes → Bytes → Bytes → List Bytes → Bytes → Bytes
print_request m t v lines rest = (print_line m t v ++ print_lines lines) ++ (blank ++ rest)

-- What a client has to keep to: spaces and line ends only where they belong, a head that parses and
-- fits the buffer, and the length of its body in the headers.
pub record IsSent (m t v : Bytes) (lines : List Bytes) (req : Request) (body : Bytes) : Type 0 where
  pub method : Lacks b' ' m
  pub version : Lacks b' ' v
  pub line : Lacks b'\r' (print_line m t v)
  pub headers : All IsLine lines
  pub small : length (print_line m t v ++ print_lines lines) + 4 ≤ 4096
  pub parsed : read_request m t v lines ≡ some req
  pub content_len : req.framing.content_len ≡ length body

seen_head :
    (head rest : Bytes)
    → length head + 4 ≤ 4096
    → take 4096 (head ++ (blank ++ rest)) ≡ head ++ (blank ++ take (4096 - (length head + 4)) rest)
seen_head head rest h =
    let n : length (head ++ blank) ≡ length head + 4 = length-append head blank in
    ap (take 4096) (sym (append_assoc head blank rest))
    ∙ take-append_long 4096 (head ++ blank) rest (omega (arith, n))
    ∙ append_assoc head blank _
    ∙ ap (λ k. head ++ (blank ++ take k rest)) (omega (arith, n))

behind_head : (head rest : Bytes) → drop (length head + 4) (head ++ (blank ++ rest)) ≡ rest
behind_head head rest =
    ap (drop (length head + 4)) (sym (append_assoc head blank rest))
    ∙ drop-length-append (head ++ blank) rest (length head + 4)
        (omega (arith, length-append head blank))

-- A request that a client prints, with a body of the length that its headers name, is answered once
-- with exactly that body, in whatever pieces it comes, and the connection goes on with the bytes
-- behind it or closes; the method and the version have no spaces, the lines are header lines, the
-- head parses and fits the buffer.
pub serve_raw_conn-print_request :
    (S : Server) (fuel : ℕ) (s : Server.State S) (m t v : Bytes) (lines : List Bytes)
    (req : Request) (body more : Bytes) (pieces : List Bytes)
    → IsSent m t v lines req body
    → concat pieces ≡ print_request m t v lines (body ++ more)
    → serve_raw_conn S (suc fuel) s [] pieces
      ≡ stream_on S (serve_stream S fuel) (answer S s req body) more
unfolding serve_stream
serve_raw_conn-print_request S fuel s m t v lines req body more pieces sent whole =
    let head = print_line m t v ++ print_lines lines in
    let rest = body ++ more in
    let has : leb (length body) (length rest) ≡ true = ground (arith, length-append body more) in
    serve_raw_conn-serve_stream S (suc fuel) s [] pieces (omega arith)
    ∙ ap (serve_stream S (suc fuel) s) whole
    ∙ rw
        (
          seen_head head rest sent.small,
          cut_blank-print (print_line m t v) lines (take (4096 - (length head + 4)) rest) sent.line
              sent.headers,
          behind_head head rest,
          parse_head-print m t v lines sent.method sent.version sent.line sent.headers,
          sent.parsed,
          sent.content_len,
          has,
          take-length-append body more (length body) refl,
          drop-length-append body more (length body) refl,
        )
        refl
