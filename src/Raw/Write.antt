-- ===== src/Raw/Write.antt =====
-- `writeResponse` of app/rawserver.go: the bytes of a response. `http.StatusText` is a parameter.
pub mod Decimal
pub mod ReadBack
use obsidio.Prelude.{
  ℕ, zero, suc, ◌+◌, ◌/◌, ◌%◌, Bool, true, false, [], ◌∷◌, ◌++◌, ltb, ◌==◌, if◌then◌else◌, length,
}
use obsidio.Prelude.Env.{Bytes, codes}

pub decimal_from : ℕ → ℕ → Bytes
decimal_from zero n = []
decimal_from (suc fuel) n =
    let rest = decimal_from fuel (n / 10) in
    if ltb n 10 then (b'0' + n) ∷ [] else rest ++ (b'0' + n % 10) ∷ []

-- `strconv.AppendInt(b, n, 10)`; a number has no more digits than itself and one.
unfoldable pub decimal : ℕ → Bytes
unfolding decimal_from
decimal n = decimal_from (suc n) n

-- The `switch code`, without the end of the line.
unfoldable pub status_line : (ℕ → Bytes) → ℕ → Bytes
unfolding decimal
status_line status_text code =
    if code == 200
    then codes "HTTP/1.1 200 OK"
    else if code == 404
    then codes "HTTP/1.1 404 Not Found"
    else if code == 503
    then codes "HTTP/1.1 503 Service Unavailable"
    else if code == 400
    then codes "HTTP/1.1 400 Bad Request"
    else if code == 500
    then codes "HTTP/1.1 500 Internal Server Error"
    else codes "HTTP/1.1 " ++ (decimal code ++ b' ' ∷ status_text code)

abbrev pub close_part : Bool → Bytes
close_part close_after = if close_after then codes "\r\nConnection: close" else []

-- The assembled response.
unfoldable pub write_response : (ℕ → Bytes) → Bool → ℕ → Bytes → Bytes
unfolding status_line decimal
write_response status_text close_after code body =
    status_line status_text code
    ++ (codes "\r\nContent-Type: application/json\r\nContent-Length: "
        ++ (decimal (length body) ++ (close_part close_after ++ (codes "\r\n\r\n" ++ body))))
