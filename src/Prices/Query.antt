-- ===== src/Prices/Query.antt =====
-- `symbolParam` of app/main.go. net/url is a parameter.
use obsidio.Prelude.Text.{after_prefix, after_prefix-append}
use obsidio.Prelude.{
  ℕ, ◌≢◌, All, arith, ◌≡◌, Bool, false, ◌||◌, [], ◌∷◌, ◌++◌, Option, none, some, ◌==◌,
  if◌then◌else◌, Bool-cases, inl, inr, Option-cases, refl, sym, ap, ◌∙◌, subst,
}
use obsidio.Prelude.Env.{Bytes, codes}

abbrev pub is_rare : ℕ → Bool
is_rare c = (c == b'&') || ((c == b'%') || (c == b'+'))

-- The loop over `v`.
unfoldable pub has_rare : Bytes → Bool
has_rare [] = false
has_rare (c ∷ v) = is_rare c || has_rare v

abbrev pub key : Bytes
key = codes "symbol="

-- `symbolParam`, over `r.URL.Query().Get("symbol")` of a raw query.
abbrev pub or_parse : (Bytes → Bytes) → Bytes → Option Bytes → Bytes
or_parse query_get q none = query_get q
or_parse query_get q (some v) = if has_rare v then query_get q else v

unfoldable pub symbol_param : (Bytes → Bytes) → Bytes → Bytes
unfolding after_prefix has_rare
symbol_param query_get q = or_parse query_get q (after_prefix key q)

abbrev pub has_semicolon : Bytes → Bool
has_semicolon [] = false
has_semicolon (c ∷ v) = (c == b';') || has_semicolon v

or_false : (a b : Bool) → (a || b) ≡ false → (a ≡ false) × (b ≡ false)
or_false a b h = (ground arith, ground arith)

-- A character of a value that neither ends the pair nor stands for another one.
abbrev pub IsLiteral : ℕ → Type 0
IsLiteral c = (c ≢ b'&') × (c ≢ b';') × (c ≢ b'%') × (c ≢ b'+')

-- What net/url documents for a query of one pair whose value needs no unescaping.
abbrev pub GetsPlain : (Bytes → Bytes) → Type 0
GetsPlain query_get = (v : Bytes) → All IsLiteral v → query_get (key ++ v) ≡ v

literal : (c : ℕ) → is_rare c ≡ false → (c == b';') ≡ false → IsLiteral c
literal c rare semi = (ground arith, ground arith, ground arith, ground arith)

has_rare-IsLiteral : (v : Bytes) → has_rare v ≡ false → has_semicolon v ≡ false → All IsLiteral v
unfolding has_rare
has_rare-IsLiteral [] rare semi = tt
has_rare-IsLiteral (c ∷ v) rare semi =
    let (r, rs) = or_false (is_rare c) (has_rare v) rare in
    let (s, ss) = or_false (c == b';') (has_semicolon v) semi in
    (literal c r s, has_rare-IsLiteral v rs ss)

semicolon-append : (a v : Bytes) → has_semicolon (a ++ v) ≡ false → has_semicolon v ≡ false
semicolon-append [] v h = h
semicolon-append (c ∷ a) v h = elim (Bool-cases (c == b';')) [
  | inl e ↦ absurd (cc)
  | inr e ↦ semicolon-append a v (simp e at h)
]

-- For every raw query without a semicolon symbolParam, with its fast path, returns what the full
-- parse would, given that the full parse of a single symbol pair whose value has no ampersand,
-- semicolon, percent or plus sign returns that value.
pub symbol_param_lem :
    (query_get : Bytes → Bytes) (q : Bytes)
    → GetsPlain query_get
    → has_semicolon q ≡ false
    → symbol_param query_get q ≡ query_get q
unfolding symbol_param
symbol_param_lem query_get q law h = elim (Option-cases (after_prefix key q)) [
  | inl e ↦ rw e refl
  | inr (v, e) ↦
      let whole = after_prefix-append key q v e in
      elim (Bool-cases (has_rare v)) [
        | inl r ↦ rw (e, r) refl
        | inr r ↦
            rw (e, r)
              (sym (
                ap query_get whole
                ∙ law v (
                    has_rare-IsLiteral v r
                      (semicolon-append key v (subst (λ x. has_semicolon x ≡ false) whole h)))))
      ]
]
