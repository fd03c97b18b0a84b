-- ===== src/Conn/Close.antt =====
-- What `Close`, `CloseWrite` and `Read` of a connection do.
use wslcsession.Base.{
  ℕ, ◌≡◌, ◌≢◌, true, false, List, [], ◌∷◌, ◌++◌, some, arith, done, map, Ends, if◌then◌else◌,
}
use wslcsession.Base.Effects.{◌>>=◌}
use wslcsession.Com.Abi.{slot_release}
use wslcsession.Com.Runtime.{shutdown_socket, close_socket, com_release}
use wslcsession.Com.Trace.{Env, Trace, Call, invoke, no_args, socket_shutdown, socket_close}
use wslcsession.Session.{World, on_trace, release_process, do_request, interfere, close}
use wslcsession.Conn.{GuestConn, close_write, close_sockets, close_conn, sd_send}

-- The calls of a history, the newest first.
abbrev pub calls : Trace → List Call
calls = map (λ e. e.call)

module _ (env : Env) where
  -- A second `Close` does nothing, whatever the first one met.
  pub close_conn_idem :
      (c c' : GuestConn) (w w' : World)
      → close_conn env c w ≡ done c' w'
      → close_conn env c' w' ≡ done c' w'
  unfolding close_conn close_sockets close_write on_trace ◌>>=◌
  close_conn_idem c c' w w' h = ground arith

  -- After `CloseWrite` another one changes neither the connection nor the world.
  pub close_write_idem :
      (c c' : GuestConn) (t t' : Trace)
      → close_write env c t ≡ done c' t'
      → close_write env c' t' ≡ done c' t'
  unfolding close_write ◌>>=◌
  close_write_idem c c' t t' h = ground arith

  -- The first `Close` of a connection, on an open session that nobody else closes, shuts the write
  -- half down unless that was done, closes both sockets and releases the process, in this order.
  pub close_conn-calls :
      (c : GuestConn) (w : World) (p : ℕ)
      → ((t : Trace) → env.others_close t ≡ false)
      → w.session.stopped ≡ false
      → c.closed ≡ false
      → c.process ≡ some p
      → p ≢ 0
      → Ends
          (close_conn env c w)
          (λ c' w'.
            (c' ≡ record c { closed = true; write_closed = true })
            × (calls w'.trace
                ≡ invoke p slot_release no_args
                  ∷ socket_close c.stdout
                  ∷ socket_close c.stdin
                  ∷ ((if c.write_closed then [] else socket_shutdown c.stdin sd_send ∷ [])
                      ++ calls w.trace))
            × (w'.session ≡ w.session))
          (λ _ _. ⊥)
  unfolding close_conn close_sockets close_write shutdown_socket close_socket com_release on_trace
      release_process do_request interfere close ◌>>=◌
  close_conn-calls c w p quiet open_session fresh has nonzero = grind (arith, quiet)
