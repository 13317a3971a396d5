-- ===== src/Main/End.antt =====
-- How `main` of app/main.go ends: the listener of the raw server, the wait for an error or a signal, and the
-- shutdown of the server that RISK_HTTP chose. The clock, and when Shutdown of net/http returns, are
-- parameters.
use obsidio.Prelude.{
  ℕ, ◌+◌, ◌*◌, ◌≤◌, ◌≡◌, ◌⊎◌, refl, inl, inr, Bool, true, false, Option, some, ◌>>=◌,
}
use obsidio.Prelude.Env.{Bytes}
use obsidio.Raw.Accept.{millisecond, raw_shutdown}
use obsidio.Raw.Accept.Drain.{raw_shutdown-ends}
use obsidio.Main.Listen.{Front, std_front, raw_front, front_of}

-- What the last select of `main` finds.
pub data Event : Type 0 where
  serve_failed signalled : Event

-- `log.Fatal`, or the end of `main` at a time.
pub data Ending : Type 0 where
  fatal : Ending
  stopped : ℕ → Ending

-- `bound` is the success of `net.Listen`; the server of net/http binds in its own goroutine, which then
-- reports the error.
unfoldable pub main_end : Front → Bool → Event → (ℕ → ℕ) → (ℕ → ℕ) → (ℕ → ℕ) → ℕ → Option Ending
unfolding raw_shutdown
main_end raw_front false event shutdown active nap now = some fatal
main_end raw_front true serve_failed shutdown active nap now = some fatal
main_end raw_front true signalled shutdown active nap now =
    raw_shutdown active nap now >>= λ t. some (stopped t)
main_end std_front bound serve_failed shutdown active nap now = some fatal
main_end std_front bound signalled shutdown active nap now = some (stopped (shutdown now))

-- Why `main` ended, and for a signal, when.
abbrev pub Reason : Front → Bool → Event → (ℕ → ℕ) → ℕ → Ending → Type 0
Reason front bound event active now fatal = (event ≡ serve_failed) ⊎ (bound ≡ false)
Reason std_front bound event active now (stopped t) =
    (event ≡ signalled) × (t ≤ now + 5000 * millisecond)
Reason raw_front bound event active now (stopped t) =
    (event ≡ signalled) × (bound ≡ true) × ((active t ≡ 0) ⊎ (now + 5000 * millisecond ≤ t))

module _ (shutdown active nap : ℕ → ℕ) (bounded : (t : ℕ) → shutdown t ≤ t + 5000 * millisecond)
    (long : (t : ℕ) → 100 * millisecond ≤ nap t) where
  ends :
      (front : Front) (bound : Bool) (event : Event) (now : ℕ)
      → (r : Ending) × (main_end front bound event shutdown active nap now ≡ some r)
        × Reason front bound event active now r
  unfolding main_end
  ends raw_front false event now = (fatal, refl, inr refl)
  ends raw_front true serve_failed now = (fatal, refl, inl refl)
  ends raw_front true signalled now =
      let (t, e, over) = raw_shutdown-ends active nap long now in
      (stopped t, rw e refl, (refl, refl, over))
  ends std_front bound serve_failed now = (fatal, refl, inl refl)
  ends std_front bound signalled now = (stopped (shutdown now), refl, (refl, bounded now))

  -- If every sleep takes at least 100 ms and Shutdown of net/http returns within its five seconds,
  -- main ends once it has an error or a signal, with either server: fatally if serving failed or
  -- the listener of the raw server could not be opened, and otherwise, behind the raw server, at a
  -- time when no connection is counted or five seconds have passed, whatever the connections do.
  pub main_end-ends :
      (risk_http : Bytes) (bound : Bool) (event : Event) (now : ℕ)
      → (r : Ending) × (main_end (front_of risk_http) bound event shutdown active nap now ≡ some r)
        × Reason (front_of risk_http) bound event active now r
  main_end-ends risk_http = ends (front_of risk_http)
