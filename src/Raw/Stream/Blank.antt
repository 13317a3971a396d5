-- ===== src/Raw/Stream/Blank.antt =====
-- The end of a head does not depend on what follows it.
use obsidio.Prelude.Text.{
  put_front, after_prefix, after_prefix-append, after_prefix-more, after_prefix-never,
}
use obsidio.Prelude.{
  ℕ, ◌+◌, ◌≤◌, ◌≡◌, refl, sym, ap, ◌∙◌, inl, inr, true, false, [], ◌∷◌, ◌++◌, Option, none, some,
  arith, Option-cases, length, length-append, drop, drop-length-append, append_assoc,
}
use obsidio.Prelude.Env.{Bytes}
use obsidio.Raw.Stream.{blank, cut_blank, has_head}

-- A cut string is its head, the blank line and the rest.
pub cut_blank-append : (a h r : Bytes) → cut_blank a ≡ some (h, r) → a ≡ h ++ (blank ++ r)
unfolding cut_blank
cut_blank-append [] h r e = absurd (cc)
cut_blank-append (c ∷ a) h r e = elim (Option-cases (after_prefix blank (c ∷ a))) [
  | inr (v, p) ↦
      let q : ◌≡◌ {A = Option (Bytes × Bytes)} (some ([], v)) (some (h, r)) = rw p at e in
      let whole = after_prefix-append blank (c ∷ a) v p in cc
  | inl p ↦
      let q : put_front c (cut_blank a) ≡ some (h, r) = rw p at e in
      in_rest c a h r (cut_blank-append a) (cut_blank a) refl q
]
  where
    in_rest :
        (c : ℕ) (a h r : Bytes)
        → ((h r : Bytes) → cut_blank a ≡ some (h, r) → a ≡ h ++ (blank ++ r))
        → (o : Option (Bytes × Bytes)) → cut_blank a ≡ o
        → put_front c o ≡ some (h, r)
        → c ∷ a ≡ h ++ (blank ++ r)
    in_rest c a h r ih none e q = absurd (cc)
    in_rest c a h r ih (some (h', r')) e q = let t = ih h' r' e in cc

pub rest_shorter : (a h r : Bytes) → cut_blank a ≡ some (h, r) → length r + 4 ≤ length a
rest_shorter a h r e =
    omega (arith, ap length (cut_blank-append a h r e), length-append h (blank ++ r))

pub cut_blank-more :
    (a b h r : Bytes) → cut_blank a ≡ some (h, r) → cut_blank (a ++ b) ≡ some (h, r ++ b)
unfolding cut_blank
cut_blank-more [] b h r e = absurd (cc)
cut_blank-more (c ∷ a) b h r e = elim (Option-cases (after_prefix blank (c ∷ a))) [
  | inr (v, p) ↦
      let q : ◌≡◌ {A = Option (Bytes × Bytes)} (some ([], v)) (some (h, r)) = rw p at e in
      rw (after_prefix-more blank (c ∷ a) b v p) (cc)
  | inl p ↦
      let q : put_front c (cut_blank a) ≡ some (h, r) = rw p at e in
      let long : length blank ≤ length (c ∷ a) = omega (arith, rest_shorter (c ∷ a) h r e) in
      rw (after_prefix-never blank (c ∷ a) b p long)
        (in_rest c a b h r (cut_blank-more a b) (cut_blank a) refl q)
]
  where
    in_rest :
        (c : ℕ) (a b h r : Bytes)
        → ((h r : Bytes) → cut_blank a ≡ some (h, r) → cut_blank (a ++ b) ≡ some (h, r ++ b))
        → (o : Option (Bytes × Bytes)) → cut_blank a ≡ o
        → put_front c o ≡ some (h, r)
        → put_front c (cut_blank (a ++ b)) ≡ some (h, r ++ b)
    in_rest c a b h r ih none e q = absurd (cc)
    in_rest c a b h r ih (some (h', r')) e q = rw (ih h' r' e) (cc)

-- Once a head is there, more bytes change nothing about it.
pub has_head-grows : (a b : Bytes) → has_head a ≡ true → has_head (a ++ b) ≡ true
has_head-grows a b t = elim (Option-cases (cut_blank a)) [
  | inl e ↦ absurd (none_there (rw e at t))
  | inr ((h, r), e) ↦ rw (cut_blank-more a b h r e) refl
]
  where
    none_there : false ≡ true → ⊥
    none_there e = cc

-- What is behind the head, in a stream that a window starts.
pub drop-cut_blank :
    (a b h r : Bytes) → cut_blank a ≡ some (h, r) → drop (length h + 4) (a ++ b) ≡ r ++ b
drop-cut_blank a b h r e =
    let whole : a ++ b ≡ (h ++ blank) ++ (r ++ b) =
      ap (λ x. x ++ b) (cut_blank-append a h r e)
      ∙ append_assoc h (blank ++ r) b
      ∙ sym (append_assoc h blank (r ++ b)) in
    ap (drop (length h + 4)) whole
    ∙ drop-length-append (h ++ blank) (r ++ b) (length h + 4) (omega (arith, length-append h blank))
