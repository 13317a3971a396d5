-- ===== src/App/Tests.antt =====
-- A connection of the process with a POST and a GET, and a series of numbers.
use obsidio.Prelude.{
  ℕ, ◌+◌, ◌-◌, ◌*◌, ◌/◌, ◌≡◌, refl, true, false, List, [], ◌∷◌, ◌++◌, none, some, arith, ltb, All,
  if◌then◌else◌,
}
use obsidio.Prelude.Env.{Bytes, codes}
use obsidio.Prelude.Text.{equal, cut_first}
use obsidio.Governor.{count_response, charge}
use obsidio.Prices.{fine, build_price_resp, store_price, append_wal, line_of}
use obsidio.Prices.Query.{has_rare}
use obsidio.Prices.Samples.{toy, process_with}
use obsidio.Raw.{
  Request, Framing, read_request, keeps_alive, apply_headers, apply_header, apply_field, trim_left,
  trim_right, ascii_equal_fold, content_length,
}
use obsidio.Raw.Head.{lacking, lacking-Lacks, print_line, print_lines}
use obsidio.Raw.Write.{write_response}
use obsidio.Raw.Serve.{serve_raw_conn, dispatch}
use obsidio.Raw.Serve.Pipeline.{IsSent}
use obsidio.App.Samples.{two_prices}
use obsidio.App.{Floats, World, Wire, app, stats_of}
use obsidio.App.Extremes.{Occurs, stats_of-Extremes}
use obsidio.App.Counted.{Charges, dispatch-counted}
use obsidio.App.Pipeline.{PostsAndGets, post-get}

ltb_irrefl : (a : ℕ) → ltb a a ≡ false
ltb_irrefl a = ground arith

ltb_trans : (a b c : ℕ) → ltb a b ≡ true → ltb b c ≡ true → ltb a c ≡ true
ltb_trans a b c h k = ground arith

abbrev whole_numbers : Floats ℕ
whole_numbers = record {
  of_nat = λ n. n;
  add = λ a b. a + b;
  sub = λ a b. a - b;
  mul = λ a b. a * b;
  div = λ a b. a / b;
  sin = λ a. a;
  sqrt = λ a. a;
  less = ltb;
  less_irrefl = ltb_irrefl;
  less_trans = ltb_trans;
}

stats_of-Extremes_example :
    let s = stats_of whole_numbers 4 (2 ∷ 9 ∷ []) in
    Occurs s.min (4 ∷ 2 ∷ 9 ∷ [])
    × Occurs s.max (4 ∷ 2 ∷ 9 ∷ [])
    × All (λ v. (ltb v s.min ≡ false) × (ltb s.max v ≡ false)) (4 ∷ 2 ∷ 9 ∷ [])
stats_of-Extremes_example = stats_of-Extremes whole_numbers 4 (2 ∷ 9 ∷ [])

-- A world whose gate refuses every seed but one.
abbrev small_world : World toy
small_world = record {
  floats = two_prices;
  base_prices = (codes "A", false) ∷ [];
  query_get = λ name q. q;
  marshal_string = λ s. s;
  disk = λ x. fine;
  risk_submit = λ seed x.
      if equal seed (codes "x")
      then (x, some (codes "00"))
      else (record x { counters = charge x.counters }, none);
  status_text = λ c. [];
  write = λ out b. (out ++ b, true);
}

abbrev new_wire : Wire toy small_world
new_wire = record { process = process_with []; out = [] }

small_world-Charges : Charges toy small_world
small_world-Charges seed x = ground arith

abbrev open_framing : ℕ → Framing
open_framing n = record { content_len = n; keep_alive = true }

abbrev risk_request : Request
risk_request = record {
  method = codes "GET";
  path = codes "/risk";
  query = codes "y";
  framing = open_framing 0;
}

dispatch-counted_example :
    (dispatch (app toy small_world) new_wire risk_request []).0.process.counters
    ≡ count_response
        (dispatch (app toy small_world) new_wire risk_request []).1.code
        new_wire.process.counters
dispatch-counted_example =
    dispatch-counted toy small_world new_wire risk_request [] small_world-Charges

abbrev version_1_1 : Bytes
version_1_1 = codes "HTTP/1.1"

abbrev post_lines : List Bytes
post_lines = codes "Content-Length: 4" ∷ []

abbrev post_request : Request
post_request = record {
  method = codes "POST";
  path = codes "/price";
  query = [];
  framing = open_framing 4;
}

abbrev get_request : Request
get_request = record {
  method = codes "GET";
  path = codes "/price";
  query = codes "symbol=A";
  framing = open_framing 0;
}

post-IsSent :
    IsSent (codes "POST") (codes "/price") version_1_1 post_lines post_request (codes "high")
unfolding lacking print_lines read_request keeps_alive apply_headers apply_header cut_first
    apply_field ascii_equal_fold content_length trim_right trim_left
post-IsSent = record {
  method = lacking-Lacks b' ' (codes "POST") refl;
  version = lacking-Lacks b' ' version_1_1 refl;
  line = lacking-Lacks b'\r' (print_line (codes "POST") (codes "/price") version_1_1) refl;
  headers = ((refl, lacking-Lacks b'\r' (codes "Content-Length: 4") refl), tt);
  small = omega arith;
  parsed = refl;
  content_len = refl;
}

get-IsSent : IsSent (codes "GET") (codes "/price?symbol=A") version_1_1 [] get_request []
unfolding lacking print_lines read_request keeps_alive apply_headers cut_first
get-IsSent = record {
  method = lacking-Lacks b' ' (codes "GET") refl;
  version = lacking-Lacks b' ' version_1_1 refl;
  line = lacking-Lacks b'\r' (print_line (codes "GET") (codes "/price?symbol=A") version_1_1) refl;
  headers = tt;
  small = omega arith;
  parsed = refl;
  content_len = refl;
}

both-PostsAndGets :
    PostsAndGets toy small_world (codes "A") true post_request get_request (codes "high")
unfolding equal has_rare
both-PostsAndGets = record {
  post_path = refl;
  post_method = refl;
  post_open = refl;
  decoded = refl;
  named = refl;
  get_path = refl;
  get_method = refl;
  get_open = refl;
  query = refl;
  plain = refl;
}

abbrev two_pieces : List Bytes
two_pieces =
    codes "POST /price HTTP/1.1\r\nContent-Length: 4\r\n\r\nhi"
    ∷ codes "ghGET /price?symbol=A HTTP/1.1\r\n\r\n"
    ∷ []

abbrev high_response : Bytes
high_response =
    write_response small_world.status_text false 200 (build_price_resp toy (codes "A") true)

post-get_example :
    serve_raw_conn (app toy small_world) 3 new_wire [] two_pieces
    ≡ some (record {
      process = record {
        tables = store_price toy (codes "A") true new_wire.process.tables;
        wal = some (line_of toy (codes "A") true);
        counters = count_response 200 (count_response 200 new_wire.process.counters);
      };
      out = ([] ++ high_response) ++ high_response;
    })
unfolding print_lines append_wal
post-get_example =
    post-get toy small_world (codes "A") true post_request get_request (codes "high") (codes "POST")
      (codes "/price") version_1_1 (codes "GET") (codes "/price?symbol=A") version_1_1 post_lines []
      post-IsSent get-IsSent both-PostsAndGets (λ out b. refl) new_wire two_pieces refl refl
