-- ===== src/Main/Listen.antt =====
-- The end of `main` of app/main.go: the routes of the mux, and the server in front of the
-- handlers, which RISK_HTTP chooses. How net/http finds a route, and what it answers where there is none,
-- are parameters.
use obsidio.Prelude.Text.{equal}
use obsidio.Prelude.{
  ◌≡◌, refl, ap, ◌∙◌, inl, inr, Bool, true, List, [], ◌∷◌, Option, none, some, Bool-cases,
  if◌then◌else◌, is_some, ℕ, All, false, not, ◌&&◌, ◌||◌, ◌==◌,
}
use obsidio.Prelude.Env.{Bytes, codes}
use obsidio.Prices.{Codec, Process, Response, write_json}
use obsidio.Raw.{Request}
use obsidio.Raw.Serve.{dispatch, health_body}
use obsidio.Starter.Contract.{other_path}
use obsidio.App.{World, app, handle_price, handle_stats, handle_risk}

pub data Front : Type 0 where
  std_front raw_front : Front

-- `useStd`.
unfoldable pub front_of : Bytes → Front
unfolding equal
front_of risk_http = if equal risk_http (codes "std") then std_front else raw_front

-- The entry of a table, if there is one.
unfoldable pub lookup {ℓ} : {A : Type ℓ} → Bytes → List (Bytes × A) → Option A
unfolding equal
lookup path [] = none
lookup path ((p, h) ∷ rs) = if equal path p then some h else lookup path rs

-- The last character of a path, if there is one.
abbrev pub last_of : Bytes → Option ℕ
last_of [] = none
last_of (c ∷ []) = some c
last_of (c ∷ d ∷ s) = last_of (d ∷ s)

abbrev pub has_brace : Bytes → Bool
has_brace [] = false
has_brace (c ∷ s) = (c == b'{') || has_brace s

abbrev pub is_slash : Option ℕ → Bool
is_slash none = false
is_slash (some c) = c == b'/'

abbrev first_of : Bytes → Option ℕ
first_of [] = none
first_of (c ∷ s) = some c

-- A pattern of a path alone: no method, no host, no wildcard, and no slash at its end.
abbrev pub is_plain_pattern : Bytes → Bool
is_plain_pattern p = is_slash (first_of p) && (not (is_slash (last_of p)) && not (has_brace p))

module _ (J : Codec) (W : World J) where
  abbrev pub Handler : Type 0
  Handler = Process J → Request → Bytes → Process J × Response

  -- The calls of `mux.HandleFunc`.
  abbrev pub routes : List (Bytes × Handler)
  routes =
      (codes "/health", λ x req body. write_json J health_body x)
      ∷ (codes "/price", handle_price J W)
      ∷ (codes "/stats", handle_stats J W)
      ∷ (codes "/risk", handle_risk J W)
      ∷ []

  module _ (handler_of : List (Bytes × Handler) → Bytes → Option Handler)
      (no_route : Response) where
    abbrev pub mux_answer : Option Handler → Handler
    mux_answer none x req body = (x, no_route)
    mux_answer (some h) x req body = h x req body

    -- A request in the handlers, by the server in front of them.
    unfoldable pub front_answer : Front → Handler
    unfolding dispatch
    front_answer std_front x req body = mux_answer (handler_of routes req.path) x req body
    front_answer raw_front x req body =
        let r = dispatch (app J W) (record { process = x; out = [] }) req body in (r.0.process, r.1)

    -- What net/http documents of such patterns, on the paths that it does not redirect: each matches
    -- exactly its own path.
    abbrev pub MatchesExactly : (Bytes → Bool) → Type 0
    MatchesExactly is_clean =
        (rs : List (Bytes × Handler)) (path : Bytes)
        → All (λ r. is_plain_pattern r.0 ≡ true) rs
        → is_clean path ≡ true
        → handler_of rs path ≡ lookup path rs

    mux-routes :
        (is_clean : Bytes → Bool) (x : Process J) (req : Request) (body : Bytes)
        → MatchesExactly is_clean
        → is_clean req.path ≡ true
        → front_answer std_front x req body ≡ (
            if is_some (lookup req.path routes)
            then front_answer raw_front x req body
            else (x, no_route))
    unfolding front_answer lookup dispatch
    mux-routes is_clean x req body exact clean =
        ap (λ o. mux_answer o x req body)
          (exact routes req.path (refl, (refl, (refl, (refl, tt)))) clean)
        ∙ routed
      where
        routed : mux_answer (lookup req.path routes) x req body ≡ (
            if is_some (lookup req.path routes)
            then front_answer raw_front x req body
            else (x, no_route))
        routed = elim (Bool-cases (equal req.path (codes "/price"))) [
          | inl price ↦
              let not_health = other_path req.path (codes "/price") (codes "/health") price refl in
              rw (not_health, price) refl
          | inr p ↦ elim (Bool-cases (equal req.path (codes "/stats"))) [
            | inl stats ↦
                let not_health =
                  other_path req.path (codes "/stats") (codes "/health") stats refl in
                rw (not_health, p, stats) refl
            | inr s ↦ elim (Bool-cases (equal req.path (codes "/risk"))) [
              | inl risk ↦
                  let not_health =
                    other_path req.path (codes "/risk") (codes "/health") risk refl in
                  rw (not_health, p, s, risk) refl
              | inr r ↦ elim (Bool-cases (equal req.path (codes "/health"))) [
                | inl health ↦ rw (p, s, r, health) refl
                | inr h ↦ rw (p, s, r, h) refl
              ]
            ]
          ]
        ]

    -- Whatever RISK_HTTP says, a request for one of the four routes gets the same response from the
    -- same handler and leaves the same process, given that net/http, where each pattern is a path
    -- alone, without a slash at its end, serves it on exactly that path, for paths that it does not
    -- redirect.
    pub fronts_agree :
        (is_clean : Bytes → Bool) (risk_http : Bytes) (x : Process J) (req : Request) (body : Bytes)
        → MatchesExactly is_clean
        → is_clean req.path ≡ true
        → is_some (lookup req.path routes) ≡ true
        → front_answer (front_of risk_http) x req body ≡ front_answer raw_front x req body
    unfolding front_of
    fronts_agree is_clean risk_http x req body exact clean there =
        let routed = mux-routes is_clean x req body exact clean in
        let same : front_answer std_front x req body ≡ front_answer raw_front x req body =
          routed ∙ ap (λ b. if b then front_answer raw_front x req body else (x, no_route)) there in
        elim (Bool-cases (equal risk_http (codes "std"))) [
          | inl std ↦ rw std same
          | inr raw ↦ rw raw refl
        ]
