-- ===== src/Tests/Endings.antt =====
-- The ends of a session and of a connection at concrete points.
use wslcsession.Base.{Ends, map, Goes, arith, ℕ, ◌≡◌, refl, true, false, List, [], ◌∷◌, ◌++◌}
use wslcsession.Session.Threads.{
  call_close, comes_back, enters_once, takes_lock, stops, closes, releases_lock, sees_closed,
  ends_loop, tears_down, init,
}
use wslcsession.Session.Threads.Finalizer.{
  Life, Lives, acts, works, drops, Lived, created, lives, finalizer_never_runs, forgotten_stays,
}
use wslcsession.Conn.Threads.{
  SocketCall, shut_stdin, Sockets, calls_half, calls_close, enters_half, skips_half, shuts,
  enters_close, closes_stdin, closes_stdout, releases_process, Used, dialled, goes_on,
}
use wslcsession.Conn.Threads.Invariant.{full_log, calls_in_order, closed-log, half_closed-log}
use wslcsession.Conn.Threads.Progress.{CanClose, close_no_deadlock}
use wslcsession.Conn.Threads.Sequential.{call_of, close_conn-log}
use wslcsession.Conn.Close.{calls}
use wslcsession.Conn.{close_conn}
use wslcsession.Tests.Service.{service, live_world}
use wslcsession.Tests.Connections.{conn}
use wslcsession.Conn.Threads.Termination.{Inner, Inside, AllClosed, close_returns}

-- Caller 1 closes the session, and then nobody refers to it.
abbrev released : (m : Life) × Lived m
released = (
  _,
  lives
      (lives
        (lives
          (lives
            (lives
              (lives
                (lives
                  (lives
                    (lives
                      (lives (lives created (acts (call_close 1 refl) refl))
                        (works (enters_once 1 refl refl)))
                      (works (takes_lock 1 refl refl refl)))
                    (works (stops 1 refl)))
                  (works (closes 1 refl refl)))
                (works (releases_lock 1 refl)))
              (works (ends_loop refl refl)))
            (works (tears_down refl)))
          (works (sees_closed 1 refl refl)))
        (acts (comes_back 1 refl) tt))
      (drops refl),
)

finalizer_never_runs_example : released.0.finalized ≡ false
finalizer_never_runs_example = finalizer_never_runs released.1

abbrev forgotten : Life
forgotten = record { system = init; held = false; finalizer = true; finalized = false }

forgotten_waits : ¬ Lives forgotten (record forgotten { finalizer = false })
forgotten_waits = forgotten_stays (lives created (drops refl)) (refl, (λ i. refl), refl)

-- Caller 0 is inside `CloseWrite` when caller 1 calls `Close`.
abbrev both : (s : Sockets) × Used s
both = (
  _,
  goes_on
      (goes_on (goes_on (goes_on dialled (calls_half 0 refl)) (enters_half 0 false refl refl))
        (calls_close 1 refl))
      (enters_close 1 refl refl),
)

both_goes : CanClose both.0
both_goes = close_no_deadlock both.1 1 refl

both-Inside : Inside 2 both.0
both-Inside j h = ground arith

close_returns_example : (k : ℕ) × (t : Sockets) × Goes Inner both.0 k t × AllClosed t
close_returns_example = close_returns 2 both.1 both-Inside

abbrev shut : (s : Sockets) × Used s
shut = (_, goes_on both.1 (shuts 0 false refl))

half_shut : (later : List SocketCall) × (shut.0.log ≡ later ++ shut_stdin ∷ [])
half_shut = half_closed-log shut.1 0 refl

calls_in_order_example : (rest : List SocketCall) × (rest ++ shut.0.log ≡ full_log)
calls_in_order_example = calls_in_order shut.1

abbrev all_closed : (s : Sockets) × Used s
all_closed = (
  _,
  goes_on
      (goes_on (goes_on (goes_on shut.1 (skips_half 1 true refl refl)) (closes_stdin 1 refl))
        (closes_stdout 1 refl))
      (releases_process 1 refl),
)

all_closed_calls : all_closed.0.log ≡ full_log
all_closed_calls = closed-log all_closed.1 1 refl

close_conn-log_example :
    Ends
      (close_conn service conn live_world)
      (λ c' w'. calls w'.trace ≡ map (call_of conn 300) all_closed.0.log ++ calls live_world.trace)
      (λ _ _. ⊥)
close_conn-log_example =
    close_conn-log service conn live_world 300 1 all_closed.1 refl (λ _. refl) refl refl refl refl
      (omega arith)
