-- ===== src/Conn/Closed.antt =====
-- What the methods of a session do after `Close`.
use wslcsession.Base.{
  ◌≡◌, refl, true, false, Bytes, codes, [], ◌∷◌, ◌++◌, none, some, arith, Run, done, panic, ℕ, Ends,
  if◌then◌else◌,
}
use wslcsession.Base.Effects.{◌>>=◌}
use wslcsession.Com.Trace.{Env, socket_shutdown, socket_close}
use wslcsession.Com.Runtime.{shutdown_socket, close_socket, com_release}
use wslcsession.Session.{
  World, close, mount_bridge, interfere, spawn, std_handles, do_request, display_name, dial,
  ensure_bridge_mounted, release_process, on_trace,
}
use wslcsession.Session.Dial.{IsClosed}
use wslcsession.Conn.Close.{calls}
use wslcsession.Conn.{
  sd_send, GuestConn, close_sockets, close_write, dial_conn, close_conn, new_guest_conn,
}

module _ (env : Env) where
  -- After `Close` a request does not run: the variables keep their zero values and nothing happens.
  pub do_request_closed :
      {A : Type 0} (zero_value : A) (f : World → Run World A) (w : World)
      → IsClosed w.session
      → do_request env zero_value f w ≡ done zero_value w
  unfolding do_request interfere close ◌>>=◌
  do_request_closed zero_value f w (stopped, once) = ground arith

  -- Closing again changes nothing.
  pub close_closed : (w : World) → IsClosed w.session → close env w ≡ done tt w
  unfolding close ◌>>=◌
  close_closed w (stopped, once) = ground arith

  pub display_name_closed : (w : World) → IsClosed w.session → display_name env w ≡ done [] w
  unfolding display_name
  display_name_closed w c = do_request_closed [] _ w c

  close_conn_no_process :
      (c : GuestConn) (w : World) → c.process ≡ none → c.closed ≡ false → close_conn env c w ≡ panic
  unfolding close_conn close_sockets close_write shutdown_socket close_socket on_trace
      release_process ◌>>=◌
  close_conn_no_process c w e f = ground arith

  -- After `Close` dialling makes no call and reports no error: it gives a connection with no process
  -- and with the handles 0. Closing that connection panics.
  pub dial_closed :
      (target : Bytes) (w w' : World)
      → IsClosed w.session
      → (c : GuestConn) × (dial_conn env target w ≡ done c w)
        × (c.process ≡ none)
        × (c.stdin ≡ 0)
        × (c.stdout ≡ 0)
        × (close_conn env c w' ≡ panic)
  unfolding dial_conn dial ensure_bridge_mounted new_guest_conn ◌>>=◌
  dial_closed target w w' h = (
    new_guest_conn (none, 0, 0),
    rw (
      do_request_closed [] (mount_bridge env) w h,
      do_request_closed none (spawn env (codes "/entrypoint.sh") target) w h,
      do_request_closed (0, 0) (std_handles env none) w h,
    ),
    refl,
    refl,
    refl,
    close_conn_no_process _ w' refl refl,
  )

  -- After `Close` of the session, the first `Close` of a connection shuts its write half down unless
  -- that was done and closes both sockets, but releases nothing: the reference to the process is never
  -- given back. There is neither an error nor a panic.
  pub close_conn_closed :
      (c : GuestConn) (w : World) (p : ℕ)
      → IsClosed w.session
      → c.closed ≡ false
      → c.process ≡ some p
      → Ends
          (close_conn env c w)
          (λ c' w'.
            (c' ≡ record c { closed = true; write_closed = true })
            × (calls w'.trace
                ≡ socket_close c.stdout
                  ∷ socket_close c.stdin
                  ∷ ((if c.write_closed then [] else socket_shutdown c.stdin sd_send ∷ [])
                      ++ calls w.trace))
            × (w'.session ≡ w.session))
          (λ _ _. ⊥)
  unfolding close_conn close_sockets close_write shutdown_socket close_socket com_release on_trace
      release_process do_request interfere close ◌>>=◌
  close_conn_closed c w p (stopped, once) fresh has = ground arith
