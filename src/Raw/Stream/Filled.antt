-- ===== src/Raw/Stream/Filled.antt =====
-- The loop over `fill`: whatever pieces the bytes come in, it ends as the bytes themselves decide.
use obsidio.Prelude.{
  ℕ, zero, suc, ◌-◌, ◌≤◌, ◌≡◌, ◌⊎◌, refl, sym, ap, subst, ◌∙◌, inl, inr, Bool, true, false, List,
  [], ◌∷◌, ◌++◌, arith, Bool-cases, leb, leb→le, leb_false→lt, ◌==◌, ==_iff, length, length-append,
  length-take, take, drop, take-append_long, take-append-drop, take-length-append, take_all, concat,
  append-nil, append_assoc,
}
use obsidio.Prelude.Env.{Bytes}
use obsidio.Raw.Stream.{Wait, ready, closed, fill, fill_until, fuel_for, read_some, next_round}

module _ (done : Bytes → Bool) (grows : (a b : Bytes) → done a ≡ true → done (a ++ b) ≡ true) where
  -- The wait ends with what it waits for exactly if the first 4096 bytes have it, and loses nothing.
  abbrev pub Decided : Bytes → Wait → Type 0
  Decided stream r =
      ((done (take 4096 stream) ≡ true)
        × ((window : Bytes) × (pieces : List Bytes) × (r ≡ ready window pieces)
            × (done window ≡ true)
            × (window ++ concat pieces ≡ stream)
            × (length window ≤ 4096)))
      ⊎ ((done (take 4096 stream) ≡ false) × (r ≡ closed))

  -- Enough fuel: a round takes a piece off, or fills the buffer.
  abbrev Fueled : ℕ → Bytes → List Bytes → Type 0
  Fueled fuel window pieces = (fuel_for pieces ≤ fuel) ⊎ ((length window ≡ 4096) × (1 ≤ fuel))

  seen_window :
      (window stream : Bytes) → length window ≡ 4096 → take 4096 (window ++ stream) ≡ window
  seen_window window stream h = take-length-append window stream 4096 (sym h)

  ready-Decided :
      (window : Bytes) (pieces : List Bytes)
      → length window ≤ 4096
      → done window ≡ true
      → Decided (window ++ concat pieces) (ready window pieces)
  ready-Decided window pieces small yes_ = inl (
    ap done (take-append_long 4096 window (concat pieces) small) ∙ grows window _ yes_,
    (window, pieces, refl, yes_, refl, small),
  )

  full-Decided :
      (window : Bytes) (pieces : List Bytes)
      → length window ≡ 4096
      → done window ≡ false
      → Decided (window ++ concat pieces) closed
  full-Decided window pieces full no_ =
      inr (ap done (seen_window window (concat pieces) full) ∙ no_, refl)

  ended-Decided :
      (window : Bytes) → length window ≤ 4096 → done window ≡ false → Decided (window ++ []) closed
  ended-Decided window small no_ =
      inr (ap done (ap (take 4096) (append-nil window) ∙ take_all 4096 window small) ∙ no_, refl)

  round_fuel :
      (fuel : ℕ) (window : Bytes) (pieces : List Bytes)
      → Fueled (suc fuel) window pieces
      → (length window == 4096) ≡ false
      → fuel_for pieces ≤ suc fuel
  round_fuel fuel window pieces (inl enough) room = enough
  round_fuel fuel window pieces (inr (full, h)) room =
      let t = (==_iff (length window) 4096).1 full in absurd (cc)

  read_on :
      (fuel : ℕ) (window : Bytes) (pieces : List Bytes)
      → ((w : Bytes) (ps : List Bytes)
          → length w ≤ 4096
          → Fueled fuel w ps
          → Decided (w ++ concat ps) (fill_until done fuel w ps))
      → length window ≤ 4096
      → done window ≡ false
      → fuel_for pieces ≤ suc fuel
      → Decided
          (window ++ concat pieces)
          (next_round (fill_until done fuel) (read_some window pieces))
  read_on fuel window [] ih small missing f = ended-Decided window small missing
  read_on fuel window (piece ∷ pieces) ih small missing f =
      elim (Bool-cases (leb (length piece) (4096 - length window))) [
        | inl fits ↦
            let le = leb→le _ _ fits in
            rw (fits, ← append_assoc window piece (concat pieces))
              (ih (window ++ piece) pieces (omega (arith, length-append window piece))
                (inl (omega arith)))
        | inr long ↦
            let cap = 4096 - length window in
            let lt = leb_false→lt _ _ long in
            let whole : (window ++ take cap piece) ++ (drop cap piece ++ concat pieces)
                ≡ window ++ (piece ++ concat pieces) =
              append_assoc window (take cap piece) _
              ∙ ap (◌++◌ window) (
                  sym (append_assoc (take cap piece) (drop cap piece) (concat pieces))
                  ∙ ap (λ x. x ++ concat pieces) (take-append-drop cap piece)) in
            let full : length (window ++ take cap piece) ≡ 4096 =
              omega (arith, length-append window (take cap piece), length-take cap piece) in
            rw long (
              subst
                (λ x.
                  Decided x
                    (fill_until done fuel (window ++ take cap piece) (drop cap piece ∷ pieces)))
                whole
                (ih (window ++ take cap piece) (drop cap piece ∷ pieces) (omega (arith, full))
                  (inr (full, omega arith))))
      ]

  pub fill_until-Decided :
      (fuel : ℕ) (window : Bytes) (pieces : List Bytes)
      → length window ≤ 4096
      → Fueled fuel window pieces
      → Decided (window ++ concat pieces) (fill_until done fuel window pieces)
  unfolding fill_until fill
  fill_until-Decided zero window pieces small f = absurd (ground arith)
  fill_until-Decided (suc fuel) window pieces small f = elim (Bool-cases (done window)) [
    | inl there ↦ rw there (ready-Decided window pieces small there)
    | inr missing ↦ elim (Bool-cases (length window == 4096)) [
      | inl full ↦ rw (missing, full) (full-Decided window pieces ((==_iff _ _).0 full) missing)
      | inr room ↦
          rw (missing, room)
            (read_on fuel window pieces (fill_until-Decided fuel) small missing
              (round_fuel fuel window pieces f room))
    ]
  ]
