-- ===== src/Raw/Accept/Drain.antt =====
-- The count of connections, and the end of the drain.
use obsidio.Prelude.{
  ℕ, suc, ◌+◌, ◌*◌, ◌≤◌, ◌≡◌, ◌⊎◌, refl, sym, ap, inl, inr, [], ◌∷◌, some, arith, sum_of,
  sum_of-append, sum_of-cons, sum_of-nil, sum_of-middle, ltb, ◌&&◌, Bool-cases, false, zero,
}
use obsidio.Raw.Accept.{
  Phase, started, serving, closed, Conns, Step, accept, begin_, close, Reach, here, more, no_conns,
  millisecond, drain, raw_shutdown,
}

abbrev pub is_serving : Phase → ℕ
is_serving started = 0
is_serving serving = 1
is_serving closed = 0

abbrev Counted : Conns → Type 0
Counted s = s.active ≡ sum_of is_serving s.phases

Step-Counted : {s t : Conns} → Counted s → Step s t → Counted t
Step-Counted {s} h accept = omega (
  arith,
  h,
  sum_of-append is_serving s.phases (started ∷ []),
  sum_of-cons is_serving started [],
  sum_of-nil is_serving,
)
Step-Counted {s} h (begin_ before after e) =
    omega
      (arith, h, ap (sum_of is_serving) e, sum_of-middle is_serving before after started serving)
Step-Counted {s} h (close before after e) =
    omega (arith, h, ap (sum_of is_serving) e, sum_of-middle is_serving before after serving closed)

-- In every order in which connections are accepted, begin and close, rawActiveConns is the number
-- of those that have begun and not closed.
Reach-counted : {t : Conns} → Reach no_conns t → t.active ≡ sum_of is_serving t.phases
Reach-counted here = sym (sum_of-nil is_serving)
Reach-counted (more r step) = Step-Counted (Reach-counted r) step

over : (n t d : ℕ) → (ltb 0 n && ltb t d) ≡ false → (n ≡ 0) ⊎ (d ≤ t)
over zero t d h = inl refl
over (suc n) t d h = inr (ground arith)

module _ (active nap : ℕ → ℕ) (long : (t : ℕ) → 100 * millisecond ≤ nap t) where
  drain-ends :
      (deadline fuel now : ℕ)
      → deadline ≤ now + fuel * (100 * millisecond)
      → (t : ℕ) × (drain active nap deadline (suc fuel) now ≡ some t)
        × ((active t ≡ 0) ⊎ (deadline ≤ t))
  unfolding drain
  drain-ends deadline zero now h = (now, rw late refl, inr (omega arith))
    where
      late : (ltb 0 (active now) && ltb now deadline) ≡ false
      late = ground arith
  drain-ends deadline (suc fuel) now h =
      elim (Bool-cases (ltb 0 (active now) && ltb now deadline)) [
        | inr done ↦ (now, rw done refl, over (active now) now deadline done)
        | inl busy ↦
            let (t, e, ends) = drain-ends deadline fuel (now + nap now) (omega (arith, long now)) in
            (t, rw busy e, ends)
      ]

  -- If every sleep takes at least 100 ms, the drain of rawShutdown returns, whatever the
  -- connections do, at a time when the count is zero or five seconds have passed.
  pub raw_shutdown-ends :
      (now : ℕ)
      → (t : ℕ) × (raw_shutdown active nap now ≡ some t)
        × ((active t ≡ 0) ⊎ (now + 5000 * millisecond ≤ t))
  unfolding raw_shutdown
  raw_shutdown-ends now = drain-ends (now + 5000 * millisecond) 50 now (omega arith)
