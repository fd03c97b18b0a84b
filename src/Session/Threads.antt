-- ===== src/Session/Threads.antt =====
-- session.go, `do`, `Close` and the loop of `comThread` as goroutines: any number of callers, each at
-- a point of `do` or of `Close`, share the lock `closeMu`, the flag `stopped`, `closeOnce` and the two
-- channels. Every statement that another goroutine can observe is a step of its own.
pub mod Fits
pub mod Steps
pub mod Invariant
pub mod Progress
pub mod Termination
pub mod Refinement
pub mod Requests
pub mod Finalizer
use wslcsession.Base.{
  ℕ, ◌≡◌, Bool, true, false, Option, none, some, List, [], ◌∷◌, update, ◌==◌, if◌then◌else◌,
}

-- Where a caller is.
pub data Pc : Type 0 where
  idle : Pc
  -- `do`: before `RLock`, at the test of `stopped`, at the send, at `<-done`, before `RUnlock`
  rlock : Pc
  checking : Pc
  sending : Pc
  waiting : Pc
  leaving : Pc
  -- `Close`: before `closeOnce.Do`, before `Lock`, at the three statements under the lock, at
  -- `<-s.closed`, and done
  entering : Pc
  locking : Pc
  stopping : Pc
  closing : Pc
  unlocking : Pc
  awaiting : Pc
  returned : Pc

-- Where the COM thread is: at the receive, in the request of a caller, at the teardown, or gone.
pub data Com : Type 0 where
  receiving : Com
  running : ℕ → Com
  tearing : Com
  exited : Com

pub data Once : Type 0 where
  fresh : Once
  busy : ℕ → Once
  finished : Once

pub record System : Type 0 where
  pub pc : ℕ → Pc
  pub worker : Com
  pub once : Once
  -- who holds `closeMu`
  pub readers : List ℕ
  pub writer : Option ℕ
  pub stopped : Bool
  pub req_closed : Bool
  pub closed : Bool
  -- a send on, or a close of, a closed channel
  pub crashed : Bool

abbrev pub leave : ℕ → List ℕ → List ℕ
leave i [] = []
leave i (j ∷ l) = let rest = leave i l in if j == i then rest else j ∷ rest

abbrev pub move : System → ℕ → Pc → System
move s i p = record s { pc = update s.pc i p }

-- A caller starts to call `do` or `Close`, or comes back.
pub data Calls (s : System) : System → Type 0 where
  call_do : (i : ℕ) → s.pc i ≡ idle → Calls s (move s i rlock)
  call_close : (i : ℕ) → s.pc i ≡ idle → Calls s (move s i entering)
  comes_back : (i : ℕ) → s.pc i ≡ returned → Calls s (move s i idle)

-- The steps of the program.
pub data Runs (s : System) : System → Type 0 where
  takes_read_lock :
      (i : ℕ)
      → s.pc i ≡ rlock
      → s.writer ≡ none
      → Runs s (record (move s i checking) { readers = i ∷ s.readers })
  finds_stopped : (i : ℕ) → s.pc i ≡ checking → s.stopped ≡ true → Runs s (move s i leaving)
  finds_open : (i : ℕ) → s.pc i ≡ checking → s.stopped ≡ false → Runs s (move s i sending)
  -- The channel has no buffer: the send waits for the receive.
  sends :
      (i : ℕ)
      → s.pc i ≡ sending
      → s.req_closed ≡ false
      → s.worker ≡ receiving
      → Runs s (record (move s i waiting) { worker = running i })
  sends_on_closed :
      (i : ℕ) → s.pc i ≡ sending → s.req_closed ≡ true → Runs s (record s { crashed = true })
  -- The request has run, and closes `done`.
  replies :
      (i : ℕ) → s.worker ≡ running i → Runs s (record (move s i leaving) { worker = receiving })
  releases_read_lock :
      (i : ℕ) → s.pc i ≡ leaving → Runs s (record (move s i idle) { readers = leave i s.readers })
  enters_once :
      (i : ℕ)
      → s.pc i ≡ entering
      → s.once ≡ fresh
      → Runs s (record (move s i locking) { once = busy i })
  skips_once : (i : ℕ) → s.pc i ≡ entering → s.once ≡ finished → Runs s (move s i returned)
  takes_lock :
      (i : ℕ)
      → s.pc i ≡ locking
      → s.readers ≡ []
      → s.writer ≡ none
      → Runs s (record (move s i stopping) { writer = some i })
  stops : (i : ℕ) → s.pc i ≡ stopping → Runs s (record (move s i closing) { stopped = true })
  closes :
      (i : ℕ)
      → s.pc i ≡ closing
      → s.req_closed ≡ false
      → Runs s (record (move s i unlocking) { req_closed = true })
  closes_closed :
      (i : ℕ) → s.pc i ≡ closing → s.req_closed ≡ true → Runs s (record s { crashed = true })
  releases_lock :
      (i : ℕ) → s.pc i ≡ unlocking → Runs s (record (move s i awaiting) { writer = none })
  sees_closed :
      (i : ℕ)
      → s.pc i ≡ awaiting
      → s.closed ≡ true
      → Runs s (record (move s i returned) { once = finished })
  -- `range` ends when the channel is closed.
  ends_loop : s.worker ≡ receiving → s.req_closed ≡ true → Runs s (record s { worker = tearing })
  tears_down : s.worker ≡ tearing → Runs s (record s { worker = exited; closed = true })

abbrev pub init : System
init = record {
  pc = λ _. idle;
  worker = receiving;
  once = fresh;
  readers = [];
  writer = none;
  stopped = false;
  req_closed = false;
  closed = false;
  crashed = false;
}

pub data Reach : System → Type 0 where
  start : Reach init
  calls : {s t : System} → Reach s → Calls s t → Reach t
  runs : {s t : System} → Reach s → Runs s t → Reach t
