-- ===== src/Prices/Prebuilt.antt =====
-- `priceResp` of app/main.go beside `prices`: the body that belongs to a price, and the operations on both.
use obsidio.Prelude.Text.{equal, equal_iff, is_empty, split_onto}
use obsidio.Prelude.{◌≡◌, refl, inl, inr, List, [], ◌∷◌, Option, none, some, Bool-cases}
use obsidio.Prelude.Env.{Bytes}
use obsidio.Prices.{
  Codec, Tables, Process, Disk, build_price_resp, store_price, init_tables, apply_line, apply_lines,
  replay, append_wal, accept_price, post_decoded, handle_price_post, apply_entry,
}

module _ (J : Codec) where
  open J use {Price, unmarshal, decode}

  abbrev pub body_of : Bytes → Option Price → Option Bytes
  body_of s none = none
  body_of s (some p) = some (build_price_resp J s p)

  abbrev pub IsPrebuilt : Tables J → Type 0
  IsPrebuilt t = (s : Bytes) → t.price_resp s ≡ body_of s (t.prices s)

  pub store_price-IsPrebuilt :
      (s : Bytes) (p : Price) (t : Tables J) → IsPrebuilt t → IsPrebuilt (store_price J s p t)
  unfolding store_price
  store_price-IsPrebuilt s p t h k = elim (Bool-cases (equal s k)) [
    | inl same ↦ let e : s ≡ k = (equal_iff s k).0 same in rw (same, e) refl
    | inr other ↦ rw other (h k)
  ]

  pub init_tables-IsPrebuilt : (base : List (Bytes × Price)) → IsPrebuilt (init_tables J base)
  unfolding init_tables
  init_tables-IsPrebuilt [] s = refl
  init_tables-IsPrebuilt ((k, p) ∷ base) s =
      store_price-IsPrebuilt k p (init_tables J base) (init_tables-IsPrebuilt base) s

  apply_line-IsPrebuilt :
      (line : Bytes) (t : Tables J) → IsPrebuilt t → IsPrebuilt (apply_line J line t)
  apply_line-IsPrebuilt line t h = elim (Bool-cases (is_empty line)) [
    | inl blank ↦ rw blank h
    | inr there ↦ rw there (entry (unmarshal line))
  ]
    where
      entry : (o : Option (Bytes × Price)) → IsPrebuilt (apply_entry J o t)
      entry none = h
      entry (some (s, p)) = elim (Bool-cases (is_empty s)) [
        | inl e ↦ rw e h
        | inr e ↦ rw e (store_price-IsPrebuilt s p t h)
      ]

  apply_lines-IsPrebuilt :
      (lines : List Bytes) (t : Tables J) → IsPrebuilt t → IsPrebuilt (apply_lines J lines t)
  apply_lines-IsPrebuilt [] t h = h
  apply_lines-IsPrebuilt (line ∷ lines) t h =
      apply_lines-IsPrebuilt lines (apply_line J line t) (apply_line-IsPrebuilt line t h)

  pub replay-IsPrebuilt :
      (file : Bytes) (t : Tables J) → IsPrebuilt t → IsPrebuilt (replay J file t)
  unfolding replay
  replay-IsPrebuilt file t h = apply_lines-IsPrebuilt (split_onto [] file) t h

  accept_price-IsPrebuilt :
      (disk : Disk) (s : Bytes) (p : Price) (x : Process J)
      → IsPrebuilt x.tables
      → IsPrebuilt (accept_price J disk s p x).0.tables
  unfolding accept_price
  accept_price-IsPrebuilt disk s p x h = elim (Bool-cases (append_wal J disk s p x.wal).1) [
    | inl durable ↦ rw durable (store_price-IsPrebuilt s p x.tables h)
    | inr failed ↦ rw failed h
  ]

  -- Whatever the disk does and the body says, POST /price keeps the prebuilt bodies in step with
  -- the prices: each symbol has the body built from its price, or neither.
  pub handle_price_post-IsPrebuilt :
      (disk : Disk) (body : Bytes) (x : Process J)
      → IsPrebuilt x.tables
      → IsPrebuilt (handle_price_post J disk body x).0.tables
  unfolding handle_price_post
  handle_price_post-IsPrebuilt disk body x h = decoded (decode body)
    where
      decoded : (o : Option (Bytes × Option Price)) → IsPrebuilt (post_decoded J disk o x).0.tables
      decoded none = h
      decoded (some (s, none)) = h
      decoded (some (s, some p)) = elim (Bool-cases (is_empty s)) [
        | inl e ↦ rw e h
        | inr e ↦ rw e (accept_price-IsPrebuilt disk s p x h)
      ]
