-- ===== src/Tests/Interleavings.antt =====
-- Goroutines at concrete points.
use wslcsession.Base.{ℕ, ◌≡◌, ◌≤◌, refl, true, false, none, some, [], ◌∷◌, arith, Goes, stays, goes}
use wslcsession.Session.Threads.{
  rlock, checking, sending, waiting, entering, locking, stopping, closing, unlocking, awaiting,
  returned, running, tearing, exited, busy, finished, System, move, call_do, call_close,
  takes_read_lock, finds_open, sends, enters_once, takes_lock, stops, closes, releases_lock,
  sees_closed, ends_loop, tears_down, init, Reach, start, calls, runs, Runs,
}
use wslcsession.Session.Threads.Invariant.{
  no_panic, returned-exited, running-waiting, waiting_unique,
}
use wslcsession.Session.Threads.Progress.{CanRun, no_deadlock}
use wslcsession.Session.Threads.Termination.{Within, AllBack, Runs-bounded, settles}

-- Caller 0 has sent a request.
abbrev asks : System
asks = move init 0 rlock

abbrev reads : System
reads = record (move asks 0 checking) { readers = 0 ∷ [] }

abbrev sends_next : System
sends_next = move reads 0 sending

abbrev sent : System
sent = record (move sends_next 0 waiting) { worker = running 0 }

sent-Reach : Reach sent
sent-Reach =
    runs
      (runs (runs (calls start (call_do 0 refl)) (takes_read_lock 0 refl refl))
        (finds_open 0 refl refl))
      (sends 0 refl refl refl)

-- Caller 1 has closed the session.
abbrev enters : System
enters = move init 1 entering

abbrev locks : System
locks = record (move enters 1 locking) { once = busy 1 }

abbrev locked : System
locked = record (move locks 1 stopping) { writer = some 1 }

abbrev stopped : System
stopped = record (move locked 1 closing) { stopped = true }

abbrev shut : System
shut = record (move stopped 1 unlocking) { req_closed = true }

abbrev waits : System
waits = record (move shut 1 awaiting) { writer = none }

abbrev ends : System
ends = record waits { worker = tearing }

abbrev gone : System
gone = record ends { worker = exited; closed = true }

abbrev back : System
back = record (move gone 1 returned) { once = finished }

waits-Reach : Reach waits
waits-Reach =
    runs
      (runs
        (runs
          (runs (runs (calls start (call_close 1 refl)) (enters_once 1 refl refl))
            (takes_lock 1 refl refl refl))
          (stops 1 refl))
        (closes 1 refl refl))
      (releases_lock 1 refl)

back-Reach : Reach back
back-Reach =
    runs (runs (runs waits-Reach (ends_loop refl refl)) (tears_down refl)) (sees_closed 1 refl refl)

no_panic_example : back.crashed ≡ false
no_panic_example = no_panic back-Reach

no_deadlock_example : CanRun waits
no_deadlock_example = no_deadlock waits-Reach 1 (λ e. cc) (λ e. cc)

returned-exited_example : back.worker ≡ exited
returned-exited_example = returned-exited back-Reach 1 refl

request_waits : (sent.pc 0 ≡ waiting) × (sent.stopped ≡ false) × (sent.req_closed ≡ false)
request_waits = running-waiting sent-Reach 0 refl

sent_waits : ◌≡◌ {A = ℕ} 0 0
sent_waits = waiting_unique sent-Reach 0 0 refl refl

-- Only caller 1 is inside a call.
waits-Within : Within 2 waits
waits-Within j h = ground arith

back-Goes : Goes Runs waits 3 back
back-Goes =
    goes (goes (goes stays (ends_loop refl refl)) (tears_down refl)) (sees_closed 1 refl refl)

Runs-bounded_example : 3 ≤ 16
Runs-bounded_example = Runs-bounded 2 3 waits-Reach waits-Within back-Goes

settles_example : (k : ℕ) × (t : System) × Goes Runs waits k t × AllBack t
settles_example = settles 2 waits-Reach waits-Within
