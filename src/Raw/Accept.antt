-- ===== src/Raw/Accept.antt =====
-- The life of connections in app/rawserver.go: `rawServe`, the count `rawActiveConns`, and the drain of
-- `rawShutdown`. What `ln.Accept` returns and how long a sleep takes are arguments.
pub mod Drain
use obsidio.Prelude.{
  ℕ, zero, suc, ◌+◌, ◌-◌, ◌*◌, ◌≡◌, Bool, true, false, ◌&&◌, List, [], ◌∷◌, ◌++◌, Option, none,
  some, ltb, if◌then◌else◌,
}

-- What `ln.Accept` returns: a connection, or an error that is transient or not.
pub data Accepted {ℓ} (Conn : Type ℓ) : Type ℓ where
  conn : Conn → Accepted Conn
  timed_out failed : Accepted Conn

-- `rawServe`: the connections that get a goroutine, and whether it returned.
pub raw_serve {ℓ} : {Conn : Type ℓ} → List (Accepted Conn) → List Conn × Bool
raw_serve [] = ([], false)
raw_serve (conn c ∷ later) = let r = raw_serve later in (c ∷ r.0, r.1)
raw_serve (timed_out ∷ later) = raw_serve later
raw_serve (failed ∷ later) = ([], true)

-- A goroutine of `serveRawConn`: started by rawServe, behind `rawActiveConns.Add(1)`, and behind the
-- deferred `Add(-1)`.
pub data Phase : Type 0 where
  started serving closed : Phase

pub record Conns : Type 0 where
  pub phases : List Phase
  pub active : ℕ

pub data Step (s : Conns) : Conns → Type 0 where
  accept : Step s (record s { phases = s.phases ++ started ∷ [] })
  begin_ :
      (before after : List Phase)
      → s.phases ≡ before ++ started ∷ after
      → Step s (record { phases = before ++ serving ∷ after; active = s.active + 1 })
  close :
      (before after : List Phase)
      → s.phases ≡ before ++ serving ∷ after
      → Step s (record { phases = before ++ closed ∷ after; active = s.active - 1 })

pub data Reach (s : Conns) : Conns → Type 0 where
  here : Reach s s
  more : {t u : Conns} → Reach s t → Step t u → Reach s u

abbrev pub no_conns : Conns
no_conns = record { phases = []; active = 0 }

abbrev pub millisecond : ℕ
millisecond = 1_000_000

-- The loop of `rawShutdown`, from the count at each time and the length of the sleep that starts then;
-- `none` is out of fuel.
pub drain : (ℕ → ℕ) → (ℕ → ℕ) → ℕ → ℕ → ℕ → Option ℕ
drain active nap deadline zero now = none
drain active nap deadline (suc fuel) now =
    let rest = drain active nap deadline fuel (now + nap now) in
    if ltb 0 (active now) && ltb now deadline then rest else some now

-- `rawShutdown`, with one unit of fuel for each sleep of 100 ms within five seconds, and one.
unfoldable pub raw_shutdown : (ℕ → ℕ) → (ℕ → ℕ) → ℕ → Option ℕ
unfolding drain
raw_shutdown active nap now = drain active nap (now + 5000 * millisecond) 51 now
