-- ===== src/Conn/Threads/Sequential.antt =====
-- Goroutines that close one connection beside `Close` as one goroutine runs it.
use wslcsession.Base.{ℕ, ◌≡◌, ◌≢◌, false, ◌++◌, some, map, Ends}
use wslcsession.Base.Effects.Triple.{Ends-mono}
use wslcsession.Com.Abi.{slot_release}
use wslcsession.Com.Trace.{Env, Trace, Call, invoke, no_args, socket_shutdown, socket_close}
use wslcsession.Session.{World}
use wslcsession.Conn.{GuestConn, close_conn, sd_send}
use wslcsession.Conn.Close.{calls, close_conn-calls}
use wslcsession.Conn.Threads.{
  closed, SocketCall, shut_stdin, close_stdin, close_stdout, release_process, Sockets, Used,
}
use wslcsession.Conn.Threads.Invariant.{closed-log}

-- The call of Winsock or of the service that a step makes, on a connection with the process `p`.
abbrev pub call_of : GuestConn → ℕ → SocketCall → Call
call_of c p shut_stdin = socket_shutdown c.stdin sd_send
call_of c p close_stdin = socket_close c.stdin
call_of c p close_stdout = socket_close c.stdout
call_of c p release_process = invoke p slot_release no_args

-- Let a new connection have a process, and its session be open and not be closed meanwhile. When a
-- call of `Close` among the goroutines that close it has returned, the calls that all of them have
-- made are those of a single `Close`, in its order.
pub close_conn-log :
    {s : Sockets} (env : Env) (c : GuestConn) (w : World) (p i : ℕ)
    → Used s
    → s.pc i ≡ closed
    → ((t : Trace) → env.others_close t ≡ false)
    → w.session.stopped ≡ false
    → c.closed ≡ false
    → c.write_closed ≡ false
    → c.process ≡ some p
    → p ≢ 0
    → Ends
        (close_conn env c w)
        (λ c' w'. calls w'.trace ≡ map (call_of c p) s.log ++ calls w.trace)
        (λ _ _. ⊥)
close_conn-log {s} env c w p i u back quiet open_session fresh half_open has nonzero =
    Ends-mono _ _ _ _ (close_conn env c w)
      (close_conn-calls env c w p quiet open_session fresh has nonzero)
      (λ c' w' h. rw (closed-log u i back) (rw half_open at h.1)) (λ e w' h. h)
