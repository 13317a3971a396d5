-- ===== src/Raw/Serve.antt =====
-- The loop of `serveRawConn` in app/rawserver.go: head, body, dispatch, response, again. The
-- handlers and `c.Write` are parameters, and so is the state that they share.
pub mod Refines
pub mod Pipeline
use obsidio.Prelude.Text.{equal}
use obsidio.Prelude.{
  ℕ, zero, suc, ◌+◌, Bool, true, false, not, ◌&&◌, ◌||◌, List, [], ◌∷◌, ◌++◌, Option, none, some,
  if◌then◌else◌, length, take, drop, leb,
}
use obsidio.Prelude.Env.{Bytes, codes}
use obsidio.Prices.{Response}
use obsidio.Raw.{Request, parse_head}
use obsidio.Raw.Stream.{
  cut_blank, Wait, ready, closed, spinning, fill_until, fuel_for, has_head, has_body,
}

-- What a connection is served with. A handler gets the request and its body; `respond` writes the
-- response, closing or not, and tells whether the write succeeded.
pub record Server : Type 1 where
  pub State : Type 0
  pub handle_price : State → Request → Bytes → State × Response
  pub handle_stats : State → Request → Bytes → State × Response
  pub handle_risk : State → Request → Bytes → State × Response
  pub write_json : State → Response → State × Response
  pub respond : State → Bool → Response → State × Bool

abbrev pub health_body : Response
health_body = record { code = 200; body = codes "{\"status\":\"ok\"}" }

abbrev pub unknown_symbol : Response
unknown_symbol = record { code = 404; body = codes "{\"error\":\"unknown symbol\"}" }

module _ (S : Server) where
  open S use {State, handle_price, handle_stats, handle_risk, write_json, respond}

  -- `switch pathStr`.
  unfoldable pub dispatch : State → Request → Bytes → State × Response
  unfolding equal
  dispatch s req body =
      if equal req.path (codes "/price")
      then handle_price s req body
      else if equal req.path (codes "/stats")
      then handle_stats s req body
      else if equal req.path (codes "/risk")
      then handle_risk s req body
      else if equal req.path (codes "/health")
      then write_json s health_body
      else write_json s unknown_symbol

  -- One request with its body, and whether the connection goes on: not after a write error, and
  -- not where it is to be closed.
  unfoldable pub answer : State → Request → Bytes → State × Bool
  unfolding dispatch
  answer s req body =
      let (s', r) = dispatch s req body in
      let (s'', sent) = respond s' (not req.framing.keep_alive) r in
      (s'', sent && req.framing.keep_alive)

  abbrev pub go_on :
      (State → Bytes → List Bytes → Option State) → State × Bool → Bytes → List Bytes → Option State
  go_on again (s, true) window pieces = again s window pieces
  go_on again (s, false) window pieces = some s

  -- The body has arrived, or not.
  abbrev pub on_body :
      (State → Bytes → List Bytes → Option State) → State → Request → Wait → Option State
  on_body again s req (ready window pieces) =
      let n = req.framing.content_len in
      go_on again (answer s req (take n window)) (drop n window) pieces
  on_body again s req closed = some s
  on_body again s req spinning = none

  abbrev pub on_request :
      (State → Bytes → List Bytes → Option State)
      → State
      → Option Request
      → Bytes
      → List Bytes
      → Option State
  on_request again s none window pieces = some s
  on_request again s (some req) window pieces =
      on_body again s req
        (fill_until (has_body req.framing.content_len) (fuel_for pieces) window pieces)

  abbrev pub on_cut :
      (State → Bytes → List Bytes → Option State)
      → State
      → Option (Bytes × Bytes)
      → List Bytes
      → Option State
  on_cut again s none pieces = some s
  on_cut again s (some (head, window)) pieces = on_request again s (parse_head head) window pieces

  -- The head has arrived, or not.
  abbrev pub on_head : (State → Bytes → List Bytes → Option State) → State → Wait → Option State
  on_head again s (ready window pieces) = on_cut again s (cut_blank window) pieces
  on_head again s closed = some s
  on_head again s spinning = none

  -- The loop, for at most `fuel` requests; `none` means that the fuel ran out. `some` is the state
  -- when the connection is closed.
  unfoldable pub serve_raw_conn : ℕ → State → Bytes → List Bytes → Option State
  serve_raw_conn zero s window pieces = none
  serve_raw_conn (suc fuel) s window pieces =
      on_head (serve_raw_conn fuel) s (fill_until has_head (fuel_for pieces) window pieces)

  -- What the connection promises: the same on the bytes alone, without buffers and pieces. A head
  -- has to end within 4096 bytes.
  abbrev pub stream_on : (State → Bytes → Option State) → State × Bool → Bytes → Option State
  stream_on again (s, true) rest = again s rest
  stream_on again (s, false) rest = some s

  abbrev pub stream_request :
      (State → Bytes → Option State) → State → Option Request → Bytes → Option State
  stream_request again s none rest = some s
  stream_request again s (some req) rest =
      let n = req.framing.content_len in
      if leb n (length rest)
      then stream_on again (answer s req (take n rest)) (drop n rest)
      else some s

  abbrev pub stream_cut :
      (State → Bytes → Option State) → State → Bytes → Option (Bytes × Bytes) → Option State
  stream_cut again s stream none = some s
  stream_cut again s stream (some (head, seen)) =
      stream_request again s (parse_head head) (drop (length head + 4) stream)

  unfoldable pub serve_stream : ℕ → State → Bytes → Option State
  serve_stream zero s stream = none
  serve_stream (suc fuel) s stream =
      stream_cut (serve_stream fuel) s stream (cut_blank (take 4096 stream))
