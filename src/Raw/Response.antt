-- ===== src/Raw/Response.antt =====
-- `rawResponse` of app/rawserver.go, and `writeJSONUncounted` of app/main.go on the two servers' writers.
-- `c.Write` and http.StatusText are parameters; a deadline that passes is a write that fails.
use obsidio.Prelude.{
  ℕ, ◌≡◌, refl, ap, ◌∙◌, inl, inr, Bool, true, false, not, List, [], ◌∷◌, ◌++◌, ◌==◌, Option, none,
  some, if◌then◌else◌, length, Bool-cases,
}
use obsidio.Prelude.Env.{Bytes, codes}
use obsidio.Raw.Write.{write_response, decimal}

-- `out` is what is on the wire of `c`; `failed` is `err != nil`.
pub record RawResponse : Type 0 where
  pub out : Bytes
  pub hdr : Option (List (Bytes × Bytes))
  pub close_after : Bool
  pub pending_code : ℕ
  pub failed : Bool

-- What the handlers of net/http leave for a response.
pub record StdResponse : Type 0 where
  pub header : List (Bytes × Bytes)
  pub code : ℕ
  pub body : Bytes

-- The dynamic type of the `http.ResponseWriter`.
pub data ResponseWriter : Type 0 where
  raw : RawResponse → ResponseWriter
  std : StdResponse → ResponseWriter

-- `Header`, and the map that it returns.
unfoldable header : RawResponse → RawResponse × List (Bytes × Bytes)
header w = header_of w.hdr
  where
    header_of : Option (List (Bytes × Bytes)) → RawResponse × List (Bytes × Bytes)
    header_of none = (record w { hdr = some [] }, [])
    header_of (some h) = (w, h)

-- `WriteHeader`.
abbrev pub write_header : ℕ → RawResponse → RawResponse
write_header code w = record w { pending_code = code }

module _ (status_text : ℕ → Bytes) (write : Bytes → Bytes → Bytes × Bool) where
  -- `writeResponse`.
  unfoldable pub send_response : ℕ → Bytes → RawResponse → RawResponse
  unfolding write_response
  send_response code body w =
      let (out, sent) = write w.out (write_response status_text w.close_after code body) in
      if w.failed then w else record w { out = out; failed = not sent }

  -- `Write`, which has code 200 where none was set.
  unfoldable write_body : Bytes → RawResponse → RawResponse
  unfolding send_response
  write_body b w = send_response (if w.pending_code == 0 then 200 else w.pending_code) b w

  -- `writeJSONUncounted`.
  unfoldable write_json_uncounted : ℕ → Bytes → ResponseWriter → ResponseWriter
  unfolding send_response decimal
  write_json_uncounted code body (raw w) = raw (send_response code body w)
  write_json_uncounted code body (std w) = std (record {
    header =
        (codes "Content-Type", codes "application/json")
        ∷ (codes "Content-Length", decimal (length body))
        ∷ w.header;
    code = code;
    body = w.body ++ body;
  })

  -- The responses of a connection, one after the other.
  unfoldable pub send_all : List (ℕ × Bytes) → RawResponse → RawResponse
  unfolding send_response
  send_all [] w = w
  send_all ((code, body) ∷ rs) w = send_all rs (send_response code body w)

  poisoned : (rs : List (ℕ × Bytes)) (w : RawResponse) → w.failed ≡ true → send_all rs w ≡ w
  unfolding send_all send_response
  poisoned [] w h = refl
  poisoned ((code, body) ∷ rs) w h =
      let kept : send_response code body w ≡ w = rw h refl in rw kept (poisoned rs w h)

  send_response-write :
      (code : ℕ) (body : Bytes) (w : RawResponse)
      → w.failed ≡ false
      → let r = write w.out (write_response status_text w.close_after code body) in
        send_response code body w ≡ record w { out = r.0; failed = not r.1 }
  unfolding send_response
  send_response-write code body w h = rw h refl

  -- The bytes of the responses before the first that `c.Write` did not take, and what it left of that.
  unfoldable pub sent_until : Bool → List (ℕ × Bytes) → Bytes → Bytes
  unfolding write_response
  sent_until close_after [] out = out
  sent_until close_after ((code, body) ∷ rs) out =
      let (out', sent) = write out (write_response status_text close_after code body) in
      let rest = sent_until close_after rs out' in if sent then rest else out'

  -- On a connection without a write error, the responses that are sent one after the other leave on
  -- the wire those before the first that the connection does not take and what it took of that, and
  -- nothing of a later one.
  pub send_all-sent_until :
      (rs : List (ℕ × Bytes)) (w : RawResponse)
      → w.failed ≡ false
      → (send_all rs w).out ≡ sent_until w.close_after rs w.out
  unfolding send_all sent_until
  send_all-sent_until [] w h = refl
  send_all-sent_until ((code, body) ∷ rs) w h =
      let r = write w.out (write_response status_text w.close_after code body) in
      ap (λ v. (send_all rs v).out) (send_response-write code body w h)
      ∙ after r.0 r.1
          (λ out'. send_all-sent_until rs (record w { out = out'; failed = false }) refl)
    where
      after :
          (out' : Bytes) (sent : Bool)
          → ((o : Bytes)
              → (send_all rs (record w { out = o; failed = false })).out
                ≡ sent_until w.close_after rs o)
          → (send_all rs (record w { out = out'; failed = not sent })).out
            ≡ (if sent then sent_until w.close_after rs out' else out')
      after out' true on = on out'
      after out' false on =
          ap (λ (v : RawResponse). v.out)
            (poisoned rs (record w { out = out'; failed = true }) refl)

  -- With a code that is not 0, `WriteHeader` and `Write` send what `writeJSONUncounted` sends.
  write_body-write_json_uncounted :
      (code : ℕ) (body : Bytes) (w : RawResponse)
      → (code == 0) ≡ false
      → raw (record (write_body body (write_header code w)) { pending_code = w.pending_code })
        ≡ write_json_uncounted code body (raw w)
  unfolding write_body write_json_uncounted send_response
  write_body-write_json_uncounted code body w h = elim (Bool-cases w.failed) [
    | inl lost ↦ rw (h, lost) refl
    | inr fine ↦ rw (h, fine) refl
  ]
