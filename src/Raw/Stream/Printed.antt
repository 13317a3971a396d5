-- ===== src/Raw/Stream/Printed.antt =====
-- The end of a head that is made of lines.
use obsidio.Prelude.Text.{after_prefix}
use obsidio.Prelude.{
  ℕ, ◌≡◌, refl, ap, ◌∙◌, true, false, List, [], ◌∷◌, ◌++◌, some, ◌==◌, All, append_assoc,
}
use obsidio.Prelude.Env.{Bytes}
use obsidio.Raw.Head.{Lacks, IsLine, print_lines}
use obsidio.Raw.Stream.{blank, cut_blank}

-- A line in front is part of the head.
cut_blank-line :
    (line s h r : Bytes)
    → Lacks b'\r' line
    → cut_blank s ≡ some (h, r)
    → cut_blank (line ++ s) ≡ some (line ++ h, r)
unfolding cut_blank after_prefix
cut_blank-line [] s h r l e = e
cut_blank-line (c ∷ line) s h r l e = rw (l.0, cut_blank-line line s h r l.1 e) refl

-- So is the end of a line with a byte behind it that ends no line.
cut_blank-end :
    (x : ℕ) (s h r : Bytes)
    → (x == b'\r') ≡ false
    → cut_blank (x ∷ s) ≡ some (h, r)
    → cut_blank (b'\r' ∷ b'\n' ∷ x ∷ s) ≡ some (b'\r' ∷ b'\n' ∷ h, r)
unfolding cut_blank after_prefix
cut_blank-end x s h r l e = rw l (rw (rw l at e) refl)

cut_blank-print_lines :
    (lines : List Bytes) (rest : Bytes)
    → All IsLine lines
    → cut_blank (print_lines lines ++ (blank ++ rest)) ≡ some (print_lines lines, rest)
unfolding cut_blank after_prefix print_lines
cut_blank-print_lines [] rest h = refl
cut_blank-print_lines ([] ∷ lines) rest h = let bad : true ≡ false = h.0.0 in absurd (cc)
cut_blank-print_lines ((x ∷ line) ∷ lines) rest h =
    let tail = print_lines lines ++ (blank ++ rest) in
    cut_blank-end x ((line ++ print_lines lines) ++ (blank ++ rest))
      ((x ∷ line) ++ print_lines lines) rest h.0.1.0
      (ap cut_blank (append_assoc (x ∷ line) (print_lines lines) (blank ++ rest))
        ∙ cut_blank-line (x ∷ line) tail (print_lines lines) rest h.0.1
            (cut_blank-print_lines lines rest h.1))

pub cut_blank-print :
    (line : Bytes) (lines : List Bytes) (rest : Bytes)
    → Lacks b'\r' line
    → All IsLine lines
    → cut_blank ((line ++ print_lines lines) ++ (blank ++ rest))
      ≡ some (line ++ print_lines lines, rest)
cut_blank-print line lines rest l h =
    ap cut_blank (append_assoc line (print_lines lines) (blank ++ rest))
    ∙ cut_blank-line line (print_lines lines ++ (blank ++ rest)) (print_lines lines) rest l
        (cut_blank-print_lines lines rest h)
