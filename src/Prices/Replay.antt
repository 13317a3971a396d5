-- ===== src/Prices/Replay.antt =====
-- Splitting the log into lines, and replaying it piece by piece.
use obsidio.Prelude.Text.{newline, split_onto}
use obsidio.Prelude.{
  ℕ, zero, suc, ◌≡◌, refl, sym, ap, ◌∙◌, inl, inr, false, [], ◌∷◌, ◌++◌, Bool-cases, ◌==◌, take,
  All, append_assoc, append-nil, ◌⊎◌,
}
use obsidio.Prelude.Env.{Bytes}
use obsidio.Prices.{Codec, Tables, apply_line, apply_lines, replay}

-- Bytes with no newline among them.
abbrev pub OneLine : Bytes → Type 0
OneLine = All (λ c. (c == newline) ≡ false)

split_onto-OneLine : (line a : Bytes) → OneLine a → split_onto line a ≡ (line ++ a) ∷ []
unfolding split_onto
split_onto-OneLine line [] h = ap (λ l. l ∷ []) (sym (append-nil line))
split_onto-OneLine line (c ∷ a) h =
    rw h.0
      (split_onto-OneLine (line ++ c ∷ []) a h.1 ∙ ap (λ l. l ∷ []) (append_assoc line (c ∷ []) a))

split_onto-line :
    (line a rest : Bytes)
    → OneLine a
    → split_onto line (a ++ newline ∷ rest) ≡ (line ++ a) ∷ split_onto [] rest
unfolding split_onto
split_onto-line line [] rest h = ap (λ l. l ∷ split_onto [] rest) (sym (append-nil line))
split_onto-line line (c ∷ a) rest h = rw h.0 (
    split_onto-line (line ++ c ∷ []) a rest h.1
    ∙ ap (λ l. l ∷ split_onto [] rest) (append_assoc line (c ∷ []) a))

pub OneLine-take : (n : ℕ) (a : Bytes) → OneLine a → OneLine (take n a)
OneLine-take zero a h = tt
OneLine-take (suc n) [] h = tt
OneLine-take (suc n) (c ∷ a) h = (h.0, OneLine-take n a h.1)

pub OneLine-append : (a b : Bytes) → OneLine a → OneLine b → OneLine (a ++ b)
OneLine-append [] b h k = k
OneLine-append (c ∷ a) b h k = (h.0, OneLine-append a b h.1 k)

-- A log that ends behind a line, as every log of complete appends does.
abbrev pub IsAligned : Bytes → Type 0
IsAligned file = (file ≡ []) ⊎ ((f : Bytes) × (file ≡ f ++ newline ∷ []))

pub IsAligned-line : (file a : Bytes) → IsAligned (file ++ (a ++ newline ∷ []))
IsAligned-line file a = inr (file ++ a, sym (append_assoc file a (newline ∷ [])))

module _ (J : Codec) where
  apply_lines-split :
      (f line rest : Bytes) (t : Tables J)
      → apply_lines J (split_onto line (f ++ newline ∷ rest)) t
        ≡ apply_lines J (split_onto [] rest) (apply_lines J (split_onto line (f ++ newline ∷ [])) t)
  unfolding split_onto
  apply_lines-split [] line rest t = refl
  apply_lines-split (c ∷ f) line rest t = elim (Bool-cases (c == newline)) [
    | inl e ↦ rw e (apply_lines-split f [] rest (apply_line J line t))
    | inr e ↦ rw e (apply_lines-split f (line ++ c ∷ []) rest t)
  ]

  -- What is behind an aligned log is replayed on top of it.
  pub replay-append :
      (file rest : Bytes) (t : Tables J)
      → IsAligned file
      → replay J (file ++ rest) t ≡ replay J rest (replay J file t)
  unfolding replay
  replay-append file rest t (inl e) = rw e refl
  replay-append file rest t (inr (f, e)) =
      rw (e, append_assoc f (newline ∷ []) rest) (apply_lines-split f [] rest t)

  -- One line, with its newline and without.
  pub replay_line :
      (a : Bytes) (t : Tables J) → OneLine a → replay J (a ++ newline ∷ []) t ≡ apply_line J a t
  unfolding replay
  replay_line a t h = rw (split_onto-line [] a [] h) refl

  pub replay_part : (a : Bytes) (t : Tables J) → OneLine a → replay J a t ≡ apply_line J a t
  unfolding replay
  replay_part a t h = rw (split_onto-OneLine [] a h) refl
