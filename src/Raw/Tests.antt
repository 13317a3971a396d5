-- ===== src/Raw/Tests.antt =====
-- Heads of concrete requests.
use obsidio.Prelude.{
  none, Bool, ℕ, ◌≡◌, refl, true, false, List, [], ◌∷◌, ◌++◌, some, concat, length, suc, arith,
}
use obsidio.Prelude.Env.{Bytes, codes}
use obsidio.Prices.{Response}
use obsidio.Raw.Response.{RawResponse, send_all, sent_until, send_all-sent_until}
use obsidio.Prelude.Text.{is_empty}
use obsidio.Raw.Serve.{Server, serve_raw_conn, serve_stream, stream_on, answer}
use obsidio.Raw.Serve.Refines.{serve_raw_conn-serve_stream, serve_raw_conn-Closes}
use obsidio.Raw.Serve.Pipeline.{IsSent, serve_raw_conn-print_request}
use obsidio.Raw.Accept.{Conns, started, serving, no_conns, Reach, here, more, accept, begin_}
use obsidio.Raw.Write.{write_response}
use obsidio.Raw.Write.ReadBack.{read_response, read_response-write_response}
use obsidio.Prelude.Text.{cut_first}
use obsidio.Raw.{
  keeps_alive, apply_headers, apply_field, trim_left, trim_right, Request, Framing, content_length,
  apply_header, ascii_equal_fold, read_request, parse_head,
}
use obsidio.Raw.Head.{lacking, lacking-Lacks, print_line, print_lines, parse_head-print}

abbrev version_1_1 : Bytes
version_1_1 = codes "HTTP/1.1"

abbrev post : Bytes
post = codes "POST"

abbrev price_target : Bytes
price_target = codes "/price"

abbrev two_headers : List Bytes
two_headers = codes "Host: a" ∷ codes "content-length: 7" ∷ []

parse_head-print_example :
    parse_head (print_line post price_target version_1_1 ++ print_lines two_headers)
    ≡ read_request post price_target version_1_1 two_headers
unfolding lacking
parse_head-print_example =
    parse_head-print post price_target version_1_1 two_headers (lacking-Lacks b' ' post refl)
      (lacking-Lacks b' ' version_1_1 refl)
      (lacking-Lacks b'\r' (print_line post price_target version_1_1) refl)
      (
        (refl, lacking-Lacks b'\r' (codes "Host: a") refl),
        ((refl, lacking-Lacks b'\r' (codes "content-length: 7") refl), tt),
      )

abbrev plain : Framing
plain = record { content_len = 0; keep_alive = true }

-- A connection that keeps what it writes; `/price` answers with the body, and the others are not
-- there.
abbrev missing : Response
missing = record { code = 404; body = [] }

abbrev no_text : ℕ → Bytes
no_text code = []

abbrev echo : Server
echo = record {
  State = Bytes;
  handle_price = λ out req body. (out, record { code = 200; body = body });
  handle_stats = λ out req body. (out, missing);
  handle_risk = λ out req body. (out, missing);
  write_json = λ out r. (out, r);
  respond = λ out close_after r. (out ++ write_response no_text close_after r.code r.body, true);
}

abbrev post_lines : List Bytes
post_lines = codes "content-length: 3" ∷ []

-- Two requests in three pieces, the first of which ends within the first head.
abbrev first_piece : Bytes
first_piece = codes "POST /price HTT"

abbrev second_piece : Bytes
second_piece = codes "P/1.1\r\ncontent-length: 3\r\n\r\nab"

abbrev third_piece : Bytes
third_piece = codes "cGET /health HTTP/1.1\r\n\r\n"

abbrev three_pieces : List Bytes
three_pieces = first_piece ∷ second_piece ∷ third_piece ∷ []

serve_raw_conn-serve_stream_example :
    serve_raw_conn echo 3 [] [] three_pieces ≡ serve_stream echo 3 [] (concat three_pieces)
serve_raw_conn-serve_stream_example =
    serve_raw_conn-serve_stream echo 3 [] [] three_pieces (omega arith)

serve_raw_conn-Closes_example :
    (t : Bytes) × (serve_raw_conn echo (suc (length (concat three_pieces))) [] [] three_pieces
      ≡ some t)
serve_raw_conn-Closes_example = serve_raw_conn-Closes echo [] [] three_pieces (omega arith)

abbrev three_bytes : Framing
three_bytes = record { content_len = 3; keep_alive = true }

abbrev post_request : Request
post_request = record { method = post; path = price_target; query = []; framing = three_bytes }

post_read : read_request post price_target version_1_1 post_lines ≡ some post_request
unfolding read_request keeps_alive apply_headers apply_header cut_first apply_field ascii_equal_fold
    content_length trim_right trim_left
post_read = refl

post-IsSent : IsSent post price_target version_1_1 post_lines post_request (codes "abc")
unfolding lacking print_lines
post-IsSent = record {
  method = lacking-Lacks b' ' post refl;
  version = lacking-Lacks b' ' version_1_1 refl;
  line = lacking-Lacks b'\r' (print_line post price_target version_1_1) refl;
  headers = ((refl, lacking-Lacks b'\r' (codes "content-length: 3") refl), tt);
  small = omega arith;
  parsed = post_read;
  content_len = refl;
}

serve_raw_conn-print_request_example :
    serve_raw_conn echo 3 [] [] three_pieces
    ≡ stream_on echo
        (serve_stream echo 2)
        (answer echo [] post_request (codes "abc"))
        (codes "GET /health HTTP/1.1\r\n\r\n")
unfolding print_lines
serve_raw_conn-print_request_example =
    serve_raw_conn-print_request echo 2 [] post price_target version_1_1 post_lines post_request
      (codes "abc") (codes "GET /health HTTP/1.1\r\n\r\n") three_pieces post-IsSent refl

read_response-write_response_example :
    read_response (write_response no_text true 404 (codes "{}") ++ codes "HTTP/1.1")
    ≡ some (false, codes "{}", codes "HTTP/1.1")
read_response-write_response_example =
    read_response-write_response no_text true 404 (codes "{}") (codes "HTTP/1.1") (λ c. tt)
      (omega arith)

-- A connection that is served, and one that has been accepted.
abbrev two_conns : Conns
two_conns = record { phases = serving ∷ started ∷ []; active = 1 }

two_conns-Reach : Reach no_conns two_conns
two_conns-Reach = more (more (more here accept) accept) (begin_ [] (started ∷ []) refl)

-- A connection that takes one response.
abbrev fresh_response : RawResponse
fresh_response = record {
  out = [];
  hdr = none;
  close_after = false;
  pending_code = 0;
  failed = false;
}

abbrev one_write : Bytes → Bytes → Bytes × Bool
one_write out b = (out ++ b, is_empty out)

send_all-sent_until_example :
    let rs : List (ℕ × Bytes) = (200, codes "{}") ∷ (503, codes "x") ∷ (404, codes "y") ∷ [] in
    (send_all (λ c. []) one_write rs fresh_response).out
    ≡ sent_until (λ c. []) one_write false rs []
send_all-sent_until_example =
    send_all-sent_until (λ c. []) one_write
      ((200, codes "{}") ∷ (503, codes "x") ∷ (404, codes "y") ∷ []) fresh_response refl
