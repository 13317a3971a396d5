-- ===== src/Raw/Serve/Refines.antt =====
-- The connection loop answers the bytes, however they are split into pieces.
use obsidio.Prelude.{
  ℕ, zero, suc, ◌+◌, ◌-◌, ◌≤◌, ◌<◌, ◌≡◌, refl, sym, ap, subst, ◌∙◌, inl, inr, Bool, true, false,
  List, [], ◌++◌, Option, none, some, arith, Bool-cases, Option-cases, leb, ltb, ltb_false→le,
  leb→le, >>=-eq-some, min, length, length-append, length-take, length-drop, take, drop,
  take-append_long, take-append_short, drop-append_short, concat, if◌then◌else◌,
}
use obsidio.Prelude.Env.{Bytes}
use obsidio.Raw.{
  Request, Framing, parse_head, read_request, request_line, split_head, keeps_alive, apply_headers,
  header_lines,
}
use obsidio.Raw.Stream.{cut_blank, fuel_for, has_head, has_body}
use obsidio.Raw.Stream.Filled.{fill_until-Decided}
use obsidio.Raw.Stream.Blank.{cut_blank-more, has_head-grows, drop-cut_blank, rest_shorter}
use obsidio.Raw.Serve.{
  Server, answer, go_on, on_request, serve_raw_conn, stream_on, stream_request, serve_stream,
}

has_body-grows : (n : ℕ) (a b : Bytes) → has_body n a ≡ true → has_body n (a ++ b) ≡ true
has_body-grows n a b h = ground (arith, length-append a b)

leb-min : (n m b : ℕ) → n ≤ b → leb n (min b m) ≡ leb n m
leb-min n m b h = ground arith

-- A body that is accepted fits into the buffer.
has_body-take : (n : ℕ) (s : Bytes) → n ≤ 4096 → has_body n (take 4096 s) ≡ has_body n s
has_body-take n s h = ap (leb n) (length-take 4096 s) ∙ leb-min n (length s) 4096 h

missing-none : (a : Bytes) → has_head a ≡ false → cut_blank a ≡ none
missing-none a e = elim (Option-cases (cut_blank a)) [
  | inl n ↦ n
  | inr ((h, r), p) ↦ let bad : true ≡ false = rw p at e in cc
]

there-some :
    (a : Bytes) → has_head a ≡ true → (h : Bytes) × (r : Bytes) × (cut_blank a ≡ some (h, r))
there-some a e = elim (Option-cases (cut_blank a)) [
  | inl p ↦ let bad : false ≡ true = rw p at e in absurd (cc)
  | inr ((h, r), p) ↦ (h, r, p)
]

bounded_framing :
    (f : Framing) (req req' : Request)
    → (if ltb 3072 f.content_len then none else some req') ≡ some req
    → req'.framing ≡ f
    → req.framing.content_len ≤ 3072
bounded_framing f req req' e same = elim (Bool-cases (ltb 3072 f.content_len)) [
  | inl big ↦ let bad : none ≡ some req = rw big at e in absurd (cc)
  | inr fits ↦
      let q : some req' ≡ some req = rw fits at e in
      let p : f ≡ req.framing = cc in
      let le = ltb_false→le 3072 f.content_len fits in subst (λ x. x.content_len ≤ 3072) p le
]

content_len-bounded :
    (head : Bytes) (req : Request) → parse_head head ≡ some req → req.framing.content_len ≤ 3072
unfolding parse_head read_request
content_len-bounded head req e =
    let ((m, t, v), p, q) = >>=-eq-some (request_line (split_head head).0) _ e in
    let (k, p', q') = >>=-eq-some (keeps_alive v) _ q in
    let (f, p'', q'') = >>=-eq-some (apply_headers (header_lines [] (split_head head).1) _) _ q' in
    bounded_framing f req _ q'' refl

module _ (S : Server) where
  open S use {State}

  abbrev Agrees :
      (State → Bytes → List Bytes → Option State) → (State → Bytes → Option State) → Type 0
  Agrees again again' =
      (s : State) (window : Bytes) (pieces : List Bytes)
      → length window ≤ 4096
      → again s window pieces ≡ again' s (window ++ concat pieces)

  go_on-eq :
      (again : State → Bytes → List Bytes → Option State) (again' : State → Bytes → Option State)
      → Agrees again again'
      → (r : State × Bool) (window : Bytes) (pieces : List Bytes) → length window ≤ 4096
      → go_on S again r window pieces ≡ stream_on S again' r (window ++ concat pieces)
  go_on-eq again again' agree (s, true) window pieces h = agree s window pieces h
  go_on-eq again again' agree (s, false) window pieces h = refl

  body-eq :
      (again : State → Bytes → List Bytes → Option State) (again' : State → Bytes → Option State)
      → Agrees again again'
      → (s : State) (req : Request) (window : Bytes) (pieces : List Bytes) → length window ≤ 4096
      → req.framing.content_len ≤ 3072
      → on_request S again s (some req) window pieces
        ≡ stream_request S again' s (some req) (window ++ concat pieces)
  body-eq again again' agree s req window pieces small fits =
      let n = req.framing.content_len in
      let stream = window ++ concat pieces in
      let same = has_body-take n stream (omega arith) in
      elim (fill_until-Decided (has_body n) (has_body-grows n) (fuel_for pieces) window pieces small
        (inl (omega arith))) [
          | inr (missing, e) ↦ rw (e, sym same ∙ missing) refl
          | inl (there, (w, ps, e, has, whole, le)) ↦
              let le_w : n ≤ length w = leb→le n (length w) has in
              let taken : take n stream ≡ take n w =
                ap (take n) (sym whole) ∙ take-append_short n w (concat ps) le_w in
              let left : drop n stream ≡ drop n w ++ concat ps =
                ap (drop n) (sym whole) ∙ drop-append_short n w (concat ps) le_w in
              rw (e, sym same ∙ there, taken, left)
                (go_on-eq again again' agree (answer S s req (take n w)) (drop n w) ps
                  (omega (arith, length-drop n w)))
        ]

  request-eq :
      (again : State → Bytes → List Bytes → Option State) (again' : State → Bytes → Option State)
      → Agrees again again'
      → (s : State) (head window : Bytes) (pieces : List Bytes) → length window ≤ 4096
      → on_request S again s (parse_head head) window pieces
        ≡ stream_request S again' s (parse_head head) (window ++ concat pieces)
  request-eq again again' agree s head window pieces small = elim (Option-cases (parse_head head)) [
    | inl bad ↦ rw bad refl
    | inr (req, e) ↦
        rw e (body-eq again again' agree s req window pieces small (content_len-bounded head req e))
  ]

  -- With the window within its buffer, serving a connection leaves the same state as the loop over
  -- the bytes alone, however the bytes are cut into reads, for any handlers and any number of
  -- requests.
  pub serve_raw_conn-serve_stream :
      (fuel : ℕ) (s : State) (window : Bytes) (pieces : List Bytes)
      → length window ≤ 4096
      → serve_raw_conn S fuel s window pieces ≡ serve_stream S fuel s (window ++ concat pieces)
  unfolding serve_raw_conn serve_stream
  serve_raw_conn-serve_stream zero s window pieces small = refl
  serve_raw_conn-serve_stream (suc fuel) s window pieces small =
      let stream = window ++ concat pieces in
      elim (fill_until-Decided has_head has_head-grows (fuel_for pieces) window pieces small
        (inl (omega arith))) [
          | inr (missing, e) ↦ rw (e, missing-none (take 4096 stream) missing) refl
          | inl (there, (w, ps, e, has, whole, le)) ↦
              let (head, rest, cut) = there-some w has in
              let seen : cut_blank (take 4096 stream)
                  ≡ some (head, rest ++ take (4096 - length w) (concat ps)) =
                ap (λ x. cut_blank (take 4096 x)) (sym whole)
                ∙ ap cut_blank (take-append_long 4096 w (concat ps) le)
                ∙ cut_blank-more w _ head rest cut in
              let behind : drop (length head + 4) stream ≡ rest ++ concat ps =
                ap (drop (length head + 4)) (sym whole)
                ∙ drop-cut_blank w (concat ps) head rest cut in
              rw (e, cut, seen, behind)
                (request-eq (serve_raw_conn S fuel) (serve_stream S fuel)
                  (serve_raw_conn-serve_stream fuel) s head rest ps
                  (omega (arith, rest_shorter w head rest cut)))
        ]

  Closes : Option State → Type 0
  Closes r = (t : State) × (r ≡ some t)

  stream_on-Closes :
      (again : State → Bytes → Option State) (r : State × Bool) (rest : Bytes)
      → ((s : State) → Closes (again s rest))
      → Closes (stream_on S again r rest)
  unfolding Closes
  stream_on-Closes again (s, true) rest h = h s
  stream_on-Closes again (s, false) rest h = (s, refl)

  stream_request-Closes :
      (again : State → Bytes → Option State) (s : State) (o : Option Request) (rest : Bytes)
      → ((s : State) (n : ℕ) → Closes (again s (drop n rest)))
      → Closes (stream_request S again s o rest)
  unfolding Closes
  stream_request-Closes again s none rest h = (s, refl)
  stream_request-Closes again s (some req) rest h =
      let n = req.framing.content_len in
      elim (Bool-cases (leb n (length rest))) [
        | inl there ↦
            rw there
              (stream_on-Closes again (answer S s req (take n rest)) (drop n rest) (λ s'. h s' n))
        | inr missing ↦ rw missing (s, refl)
      ]

  serve_stream-Closes :
      (fuel : ℕ) (s : State) (stream : Bytes)
      → length stream < fuel
      → Closes (serve_stream S fuel s stream)
  unfolding serve_stream Closes
  serve_stream-Closes zero s stream h = absurd (omega arith)
  serve_stream-Closes (suc fuel) s stream h = elim (Option-cases (cut_blank (take 4096 stream))) [
    | inl e ↦ rw e (s, refl)
    | inr ((head, seen), e) ↦
        let behind = drop (length head + 4) stream in
        let long = rest_shorter (take 4096 stream) head seen e in
        rw e (
          stream_request-Closes (serve_stream S fuel) s (parse_head head) behind (λ s' n.
            serve_stream-Closes fuel s' (drop n behind) (
              omega (
                arith,
                length-drop n behind,
                length-drop (length head + 4) stream,
                long,
                length-take 4096 stream,
              ))))
  ]

  -- With the window within its buffer and fuel for one request more than there are bytes, serving a
  -- connection ends, whatever the peer sent and the handlers do.
  pub serve_raw_conn-Closes :
      (s : State) (window : Bytes) (pieces : List Bytes)
      → length window ≤ 4096
      → (t : State) × (serve_raw_conn S (suc (length (window ++ concat pieces))) s window pieces
          ≡ some t)
  unfolding Closes
  serve_raw_conn-Closes s window pieces small =
      let stream = window ++ concat pieces in
      let (t, e) = serve_stream-Closes (suc (length stream)) s stream (omega arith) in
      (t, serve_raw_conn-serve_stream (suc (length stream)) s window pieces small ∙ e)
