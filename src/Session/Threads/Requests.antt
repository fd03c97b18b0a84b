-- ===== src/Session/Threads/Requests.antt =====
-- The goroutines of a session with the requests that they make: what each caller is given, and what
-- the requests and the teardown do to the world.
pub mod Serial
pub mod Closures
pub mod Order
pub mod Progress
use wslcsession.Base.{
  ℕ, ◌≡◌, Bool, true, false, Option, none, some, List, [], ◌∷◌, Io, Run, done, fail, panic, Error,
  Result, ok, err, return, update,
}
use wslcsession.Com.Trace.{Env}
use wslcsession.Session.{Session, World, stop, tear_down}
use wslcsession.Session.Threads.{
  idle, entering, returned, rlock, checking, leaving, stopping, closing, receiving, running,
  tearing, exited, System, move, Calls, call_do, call_close, comes_back, Runs, takes_read_lock,
  finds_stopped, finds_open, sends, sends_on_closed, replies, releases_read_lock, enters_once,
  skips_once, takes_lock, stops, closes, closes_closed, releases_lock, sees_closed, ends_loop,
  tears_down, init, Reach, start, calls, runs,
}

-- What a caller is given: the values that its closure left behind.
unfoldable pub outcome : {A : Type 0} → Run World A → Option (Result A × World)
outcome (done a w) = some (ok a, w)
outcome (fail e w) = some (err e, w)
outcome panic = none

-- The fields of a session that `Close` and the COM thread write.
abbrev pub SameFlags : Session → Session → Type 0
SameFlags s s' = (s'.stopped ≡ s.stopped) × (s'.closed ≡ s.closed) × (s'.close_once ≡ s.close_once)

-- A request leaves these fields alone.
pub record IsRequest {A : Type 0} (f : Io World A) : Type 0 where
  pub flags :
      (w w' : World) (r : Result A) → outcome (f w) ≡ some (r, w') → SameFlags w.session w'.session

module _ (A : Type 0) where
  -- `do(f)` of a caller with what it was given, and the first `Close`; the newest stands first.
  pub data Entry : Type 0 where
    answered : ℕ → Io World A → Result A → Entry
    closed_by : ℕ → Entry

  pub record Machine : Type 0 where
    pub system : System
    pub world : World
    -- the closure of each caller
    pub job : ℕ → Io World A
    pub log : List Entry

-- The steps that neither run a closure nor answer a caller.
abbrev pub IsSilent : {s t : System} → Runs s t → Type 0
IsSilent (finds_stopped _ _ _) = ⊥
IsSilent (replies _ _) = ⊥
IsSilent (stops _ _) = ⊥
IsSilent (tears_down _) = ⊥
IsSilent _ = Unit

module _ {A : Type 0} where
  abbrev pub set_job : (ℕ → Io World A) → ℕ → Io World A → ℕ → Io World A
  set_job jobs i f = update jobs i f

  module _ (env : Env) (zero_value : A) where
    pub data Moves (m : Machine A) : Machine A → Type 0 where
      asks :
          (i : ℕ) (f : Io World A)
          → m.system.pc i ≡ idle
          → IsRequest f
          → Moves m (record m { system = move m.system i rlock; job = set_job m.job i f })
      enters_close :
          (i : ℕ) → m.system.pc i ≡ idle → Moves m (record m { system = move m.system i entering })
      goes_on :
          (i : ℕ) → m.system.pc i ≡ returned → Moves m (record m { system = move m.system i idle })
      silent : {t : System} (r : Runs m.system t) → IsSilent r → Moves m (record m { system = t })
      -- the closure does not run, and the caller has the values that it started with
      refuses :
          (i : ℕ)
          → m.system.pc i ≡ checking
          → m.system.stopped ≡ true
          → Moves m (record m {
            system = move m.system i leaving;
            log = answered i (m.job i) (ok zero_value) ∷ m.log;
          })
      answers :
          (i : ℕ) (r : Result A) (w : World)
          → m.system.worker ≡ running i
          → outcome (m.job i m.world) ≡ some (r, w)
          → Moves m (record m {
            system = record (move m.system i leaving) { worker = receiving };
            world = w;
            log = answered i (m.job i) r ∷ m.log;
          })
      stops_session :
          (i : ℕ)
          → m.system.pc i ≡ stopping
          → Moves m (record m {
            system = record (move m.system i closing) { stopped = true };
            world = record m.world { session = stop m.world.session };
            log = closed_by i ∷ m.log;
          })
      discards :
          (w : World)
          → m.system.worker ≡ tearing
          → tear_down env m.world ≡ done tt w
          → Moves m
              (record m { system = record m.system { worker = exited; closed = true }; world = w })

    pub data Attains (w : World) : Machine A → Type 0 where
      begins :
          Attains w (record { system = init; world = w; job = λ _. return zero_value; log = [] })
      moves : {m m' : Machine A} → Attains w m → Moves m m' → Attains w m'
