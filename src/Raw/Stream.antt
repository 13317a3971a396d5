-- ===== src/Raw/Stream.antt =====
-- The read side of `serveRawConn` in app/rawserver.go: the buffer, `fill`, and the search for the
-- end of a head. What the peer sends is the list of the pieces that `c.Read` would find; at its
-- end, and after a read error, the connection gives no more bytes.
pub mod Filled
pub mod Blank
pub mod Printed
use obsidio.Prelude.Text.{put_front, after_prefix}
use obsidio.Prelude.{
  ℕ, zero, suc, ◌+◌, ◌-◌, Bool, true, false, List, [], ◌∷◌, ◌++◌, Option, none, some, leb, ◌==◌,
  if◌then◌else◌, length, take, drop, is_some,
}
use obsidio.Prelude.Env.{Bytes, codes}

-- `rawReadBufSize`.
abbrev pub raw_read_buf_size : ℕ
raw_read_buf_size = 4096

abbrev pub blank : Bytes
blank = codes "\r\n\r\n"

abbrev pub cut_or : ℕ → Option Bytes → Option (Bytes × Bytes) → Option (Bytes × Bytes)
cut_or c (some after) rest = some ([], after)
cut_or c none rest = put_front c rest

-- `bytes.Index(buf[r:w], []byte("\r\n\r\n"))`, with the head before it and what is behind it.
unfoldable pub cut_blank : Bytes → Option (Bytes × Bytes)
unfolding after_prefix
cut_blank [] = none
cut_blank (c ∷ s) = cut_or c (after_prefix blank (c ∷ s)) (cut_blank s)

-- What a read into `cap` free bytes leaves of the pieces, and what it gets.
abbrev pub read_piece : ℕ → Bytes → List Bytes → Bytes × List Bytes
read_piece cap piece pieces =
    if leb (length piece) cap then (piece, pieces) else (take cap piece, drop cap piece ∷ pieces)

-- The unconsumed window `buf[r:w]` and the pieces to come.
pub record Input : Type 0 where
  pub window : Bytes
  pub pieces : List Bytes

abbrev pub read_some : Bytes → List Bytes → Option Input
read_some window [] = none
read_some window (piece ∷ pieces) =
    let r = read_piece (raw_read_buf_size - length window) piece pieces in
    some (record { window = window ++ r.0; pieces = r.1 })

-- `fill`; `none` is false. It compacts first, so all of the buffer but the window is free.
unfoldable pub fill : Bytes → List Bytes → Option Input
fill window pieces = if length window == raw_read_buf_size then none else read_some window pieces

-- How a loop over `fill` ends: with what it waits for, or without, or out of fuel.
pub data Wait : Type 0 where
  ready : Bytes → List Bytes → Wait
  closed spinning : Wait

abbrev pub next_round : (Bytes → List Bytes → Wait) → Option Input → Wait
next_round again none = closed
next_round again (some i) = again i.window i.pieces

-- `for !done { if !fill() { return } }`.
pub fill_until : (Bytes → Bool) → ℕ → Bytes → List Bytes → Wait
fill_until done zero window pieces = spinning
fill_until done (suc fuel) window pieces =
    if done window
    then ready window pieces
    else next_round (fill_until done fuel) (fill window pieces)

abbrev pub fuel_for : List Bytes → ℕ
fuel_for pieces = length pieces + 2

-- The wait for the end of a head.
abbrev pub has_head : Bytes → Bool
has_head window = is_some (cut_blank window)

-- The wait for a body.
abbrev pub has_body : ℕ → Bytes → Bool
has_body content_len window = leb content_len (length window)
