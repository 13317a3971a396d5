-- ===== src/Prices/Durable.antt =====
-- What survives a hard kill, and what a torn line costs.
use obsidio.Prelude.Text.{newline, is_empty}
use obsidio.Prelude.{
  ℕ, zero, suc, ◌<◌, ◌≡◌, ◌⊎◌, refl, sym, ap, ◌∙◌, inl, inr, false, List, [], ◌∷◌, ◌++◌, Option,
  none, some, arith, Bool-cases, length, take, append_assoc,
}
use obsidio.Prelude.Env.{Bytes}
use obsidio.Prices.Replay.{
  OneLine, OneLine-take, OneLine-append, IsAligned, replay-append, replay_line, replay_part,
  IsAligned-line,
}
use obsidio.Prices.{
  Codec, Tables, store_price, apply_line, replay, Process, line_of, Disk, fine, write_fails,
  sync_fails, accept_price, post_decoded, handle_price_post, Response,
}

take-append_lt : (n : ℕ) (a b : Bytes) → n < length a → take n (a ++ b) ≡ take n a
take-append_lt zero a b h = refl
take-append_lt (suc n) [] b h = absurd (omega arith)
take-append_lt (suc n) (c ∷ a) b h = ap (◌∷◌ c) (take-append_lt n a b (omega arith))

module _ (J : Codec) where
  open J use {
    Price, IsText, marshal, unmarshal, decode, unmarshal-marshal, one_line, unmarshal_part,
    unmarshal_merged, decode_text, marshal_not_empty,
  }

  -- The log of a running process is whole, and replaying it over the tables at boot gives the
  -- tables that the process answers from.
  abbrev pub Recovers : Tables J → Process J → Type 0
  Recovers base x =
      (file : Bytes) × (x.wal ≡ some file) × IsAligned file × (replay J file base ≡ x.tables)

  apply_marshal :
      (s : Bytes) (p : Price) (t : Tables J)
      → IsText s
      → is_empty s ≡ false
      → apply_line J (marshal s p) t ≡ store_price J s p t
  apply_marshal s p t v ne = rw (marshal_not_empty s p, unmarshal-marshal s p v, ne) refl

  -- What an accepted POST leaves on a disk that works.
  accept_fine :
      (s : Bytes) (p : Price) (x : Process J) (file : Bytes)
      → x.wal ≡ some file
      → ((accept_price J fine s p x).0.wal ≡ some (file ++ line_of J s p))
        × ((accept_price J fine s p x).0.tables ≡ store_price J s p x.tables)
  unfolding accept_price
  accept_fine s p x file e = (simp e, simp e)

  accept_code :
      (s : Bytes) (p : Price) (x : Process J) (file : Bytes)
      → x.wal ≡ some file
      → (accept_price J fine s p x).1.code ≡ 200
  unfolding accept_price
  accept_code s p x file e = simp e

  pub replay_entry :
      (s : Bytes) (p : Price) (t : Tables J)
      → IsText s
      → is_empty s ≡ false
      → replay J (line_of J s p) t ≡ store_price J s p t
  replay_entry s p t v ne = replay_line J (marshal s p) t (one_line s p) ∙ apply_marshal s p t v ne

  -- A request that is decoded, on a disk that works.
  post_decoded-Recovers :
      (base : Tables J) (body : Bytes) (r : Option (Bytes × Option Price)) (x : Process J)
      → decode body ≡ r
      → Recovers base x
      → Recovers base (post_decoded J fine r x).0
  post_decoded-Recovers base body none x d v = v
  post_decoded-Recovers base body (some (s, none)) x d v = v
  post_decoded-Recovers base body (some (s, some p)) x d v = elim (Bool-cases (is_empty s)) [
    | inl e ↦ rw e v
    | inr e ↦
        let (file, w, al, rep) = v in
        let (w', tabs) = accept_fine s p x file w in
        rw e (
          file ++ line_of J s p,
          w',
          IsAligned-line file (marshal s p),
          replay-append J file (line_of J s p) base al
              ∙ ap (replay J (line_of J s p)) rep
              ∙ replay_entry s p x.tables (decode_text body s (some p) d) e
              ∙ sym tabs,
        )
  ]

  -- POST requests one after the other.
  pub run_posts : List Bytes → Process J → Process J
  run_posts [] x = x
  run_posts (body ∷ bodies) x = run_posts bodies (handle_price_post J fine body x).0

  -- From a whole log that replays to the tables, after any POST requests on a disk that works the
  -- log is whole and replaying it at boot gives exactly the tables that the process answers from.
  pub run_posts-Recovers :
      (base : Tables J) (bodies : List Bytes) (x : Process J)
      → Recovers base x
      → Recovers base (run_posts bodies x)
  unfolding run_posts handle_price_post
  run_posts-Recovers base [] x v = v
  run_posts-Recovers base (body ∷ bodies) x v =
      run_posts-Recovers base bodies _ (post_decoded-Recovers base body (decode body) x refl v)

  part-OneLine : (n : ℕ) (s : Bytes) (p : Price) → OneLine (take n (marshal s p))
  part-OneLine n s p = OneLine-take n (marshal s p) (one_line s p)

  skip_none : (line : Bytes) (t : Tables J) → unmarshal line ≡ none → apply_line J line t ≡ t
  skip_none line t e = elim (Bool-cases (is_empty line)) [
    | inl blank ↦ rw blank refl
    | inr there ↦ rw (there, e) refl
  ]

  -- From a whole log that replays to the tables, after any POST requests on a disk that works and a
  -- kill that leaves a proper part of one more entry in the log, replaying the log at boot gives
  -- exactly the tables that the process answered from.
  pub killed-Recovers :
      (base : Tables J) (bodies : List Bytes) (x : Process J) (s : Bytes) (p : Price) (n : ℕ)
      → Recovers base x
      → n < length (marshal s p)
      → (file : Bytes) × ((run_posts bodies x).wal ≡ some file)
        × (replay J (file ++ take n (line_of J s p)) base ≡ (run_posts bodies x).tables)
  killed-Recovers base bodies x s p n v h =
      let (file, w, al, rep) = run_posts-Recovers base bodies x v in
      (
        file,
        w,
        rw (take-append_lt n (marshal s p) (newline ∷ []) h) (
            replay-append J file _ base al
            ∙ replay_part J _ (replay J file base) (part-OneLine n s p)
            ∙ skip_none _ _ (unmarshal_part s p n h)
            ∙ rep),
      )

  -- If part of an entry stands at the end of the log, behind whole lines, the next POST on a disk
  -- that works is answered 200, and yet replaying the log gives the tables of the whole lines
  -- alone.
  pub torn_line_loses :
      (base : Tables J) (x : Process J) (file s t : Bytes) (p q : Price) (n : ℕ)
      → IsAligned file
      → 0 < n
      → n < length (marshal s p)
      → x.wal ≡ some (file ++ take n (line_of J s p))
      → ((accept_price J fine t q x).1.code ≡ 200)
        × ((log : Bytes) × ((accept_price J fine t q x).0.wal ≡ some log)
            × (replay J log base ≡ replay J file base))
  torn_line_loses base x file s t p q n al lo hi w =
      let part = take n (marshal s p) in
      let torn = take-append_lt n (marshal s p) (newline ∷ []) hi in
      let merged = OneLine-append part (marshal t q) (part-OneLine n s p) (one_line t q) in
      (
        accept_code t q x (file ++ take n (line_of J s p)) w,
        (
          (file ++ take n (line_of J s p)) ++ line_of J t q,
          (accept_fine t q x (file ++ take n (line_of J s p)) w).0,
          rw
              (
                torn,
                append_assoc file part (line_of J t q),
                ← append_assoc part (marshal t q) (newline ∷ []),
              )
              (replay-append J file _ base al
                ∙ replay_line J _ (replay J file base) merged
                ∙ skip_none _ _ (unmarshal_merged s t p q n lo hi)),
        ),
      )

  -- What a request leaves behind, by the status that it is answered with.
  abbrev pub Answered : Disk → Bytes → Process J → Bytes → Process J × Response → Type 0
  Answered disk body x file r =
      ((s : Bytes) × (p : Price) × (decode body ≡ some (s, some p))
        × (is_empty s ≡ false)
        × (disk ≡ fine)
        × (r.1.code ≡ 200)
        × (r.0.wal ≡ some (file ++ line_of J s p))
        × (r.0.tables ≡ store_price J s p x.tables))
      ⊎ (((r.1.code ≡ 400) ⊎ (r.1.code ≡ 500)) × (r.0.tables ≡ x.tables))

  accept_price-Answered :
      (disk : Disk) (body s : Bytes) (p : Price) (x : Process J) (file : Bytes)
      → x.wal ≡ some file
      → decode body ≡ some (s, some p)
      → is_empty s ≡ false
      → Answered disk body x file (accept_price J disk s p x)
  unfolding accept_price
  accept_price-Answered fine body s p x file w d e = inl (s, p, d, e, refl, simp w, simp w, simp w)
  accept_price-Answered (write_fails n) body s p x file w d e = inr (inr (simp w), simp w)
  accept_price-Answered sync_fails body s p x file w d e = inr (inr (simp w), simp w)

  post_decoded-Answered :
      (disk : Disk) (body : Bytes) (r : Option (Bytes × Option Price)) (x : Process J)
      (file : Bytes)
      → x.wal ≡ some file
      → decode body ≡ r
      → Answered disk body x file (post_decoded J disk r x)
  post_decoded-Answered disk body none x file w d = inr (inl refl, refl)
  post_decoded-Answered disk body (some (s, none)) x file w d = inr (inl refl, refl)
  post_decoded-Answered disk body (some (s, some p)) x file w d = elim (Bool-cases (is_empty s)) [
    | inl e ↦ rw e (inr (inl refl, refl))
    | inr e ↦ rw e (accept_price-Answered disk body s p x file w d e)
  ]

  -- With a log open, POST /price answers 200 only if the body names a symbol and a price and the
  -- entry was written and synced, and then it is at the end of the log and in the tables; otherwise
  -- it answers 400 or 500 and leaves the tables as they were.
  pub handle_price_post-Answered :
      (disk : Disk) (body : Bytes) (x : Process J) (file : Bytes)
      → x.wal ≡ some file
      → Answered disk body x file (handle_price_post J disk body x)
  unfolding handle_price_post
  handle_price_post-Answered disk body x file w =
      post_decoded-Answered disk body (decode body) x file w refl
