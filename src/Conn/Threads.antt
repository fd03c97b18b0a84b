-- ===== src/Conn/Threads.antt =====
-- conn.go, `Close` and `CloseWrite` of one connection as goroutines: any number of callers share the
-- two `sync.Once` and the two sockets. Every statement that another goroutine can observe is a step.
pub mod Invariant
pub mod Progress
pub mod Termination
pub mod Sequential
use wslcsession.Base.{ℕ, ◌≡◌, List, [], ◌∷◌, Bool, true, false, update}
use wslcsession.Session.Threads.{Once, fresh, busy, finished}

-- Where a caller is; the flag says whether `CloseWrite` was called by `Close`.
pub data CloserPc : Type 0 where
  outside : CloserPc
  -- before `writeCloseOnce.Do`, and before `shutdownSocket` in it
  half_entering : Bool → CloserPc
  half_closing : Bool → CloserPc
  -- before `closeOnce.Do`, and before each of the last three statements in it
  entering : CloserPc
  closing_stdin : CloserPc
  closing_stdout : CloserPc
  releasing : CloserPc
  -- at the return of `CloseWrite` and of `Close`
  half_closed : CloserPc
  closed : CloserPc

-- What the two methods do to the sockets and to the process.
pub data SocketCall : Type 0 where
  shut_stdin : SocketCall
  close_stdin : SocketCall
  close_stdout : SocketCall
  release_process : SocketCall

pub record Sockets : Type 0 where
  pub pc : ℕ → CloserPc
  pub write_once : Once
  pub close_once : Once
  -- the newest stands first
  pub log : List SocketCall

abbrev pub walk : Sockets → ℕ → CloserPc → Sockets
walk s i p = record s { pc = update s.pc i p }

-- Where `CloseWrite` returns to.
abbrev pub after_half : Bool → CloserPc
after_half true = closing_stdin
after_half false = half_closed

pub data Closes (s : Sockets) : Sockets → Type 0 where
  calls_half : (i : ℕ) → s.pc i ≡ outside → Closes s (walk s i (half_entering false))
  calls_close : (i : ℕ) → s.pc i ≡ outside → Closes s (walk s i entering)
  returns_half : (i : ℕ) → s.pc i ≡ half_closed → Closes s (walk s i outside)
  returns_close : (i : ℕ) → s.pc i ≡ closed → Closes s (walk s i outside)
  enters_half :
      (i : ℕ) (b : Bool)
      → s.pc i ≡ half_entering b
      → s.write_once ≡ fresh
      → Closes s (record (walk s i (half_closing b)) { write_once = busy i })
  skips_half :
      (i : ℕ) (b : Bool)
      → s.pc i ≡ half_entering b
      → s.write_once ≡ finished
      → Closes s (walk s i (after_half b))
  shuts :
      (i : ℕ) (b : Bool)
      → s.pc i ≡ half_closing b
      → Closes s
          (record (walk s i (after_half b)) { write_once = finished; log = shut_stdin ∷ s.log })
  enters_close :
      (i : ℕ)
      → s.pc i ≡ entering
      → s.close_once ≡ fresh
      → Closes s (record (walk s i (half_entering true)) { close_once = busy i })
  skips_close : (i : ℕ) → s.pc i ≡ entering → s.close_once ≡ finished → Closes s (walk s i closed)
  closes_stdin :
      (i : ℕ)
      → s.pc i ≡ closing_stdin
      → Closes s (record (walk s i closing_stdout) { log = close_stdin ∷ s.log })
  closes_stdout :
      (i : ℕ)
      → s.pc i ≡ closing_stdout
      → Closes s (record (walk s i releasing) { log = close_stdout ∷ s.log })
  -- `releaseProcess` returns
  releases_process :
      (i : ℕ)
      → s.pc i ≡ releasing
      → Closes s (record (walk s i closed) { close_once = finished; log = release_process ∷ s.log })

abbrev pub unused : Sockets
unused = record { pc = λ _. outside; write_once = fresh; close_once = fresh; log = [] }

pub data Used : Sockets → Type 0 where
  dialled : Used unused
  goes_on : {s t : Sockets} → Used s → Closes s t → Used t
