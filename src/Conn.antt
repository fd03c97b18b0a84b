-- ===== src/Conn.antt =====
-- conn.go: `guestConn`, a connection over two sockets and a process of the guest.
pub mod Write
pub mod Threads
pub mod Address
pub mod Spawn
pub mod Dial
pub mod Read
pub mod Closed
pub mod Close
pub mod References
use wslcsession.Base.{
  ℕ, zero, suc, ◌+◌, ◌-◌, Bool, true, false, Bytes, [], Option, none, some, Error, eof, closed_pipe,
  Io, Run, done, fail, panic, return, raise, ltb, ◌==◌, if◌then◌else◌, length, drop,
}
use wslcsession.Base.Effects.{◌>>=◌, ◌>>◌}
use wslcsession.Com.Runtime.{recv, send, shutdown_socket, close_socket}
use wslcsession.Com.Trace.{Env, Trace}
use wslcsession.Session.{World, on_trace, dial, release_process}

-- `session` is the one of the `World`. The two flags are those of the two `sync.Once`.
pub record GuestConn : Type 0 where
  pub process : Option ℕ
  pub stdin : ℕ
  pub stdout : ℕ
  pub closed : Bool
  pub write_closed : Bool

abbrev pub sd_send : ℕ
sd_send = 1

unfoldable pub new_guest_conn : Option ℕ × ℕ × ℕ → GuestConn
new_guest_conn (p, i, o) = record {
  process = p;
  stdin = i;
  stdout = o;
  closed = false;
  write_closed = false;
}

unfoldable pub received : ℕ × Bytes → Io Trace (ℕ × Bytes)
received (n, b) = if n == 0 then raise eof else return (n, b)

-- What a round of `Write` does with the result of `send`.
unfoldable pub after_send :
    ℕ → Run Trace ℕ → (ℕ → Io Trace (ℕ × Option Error)) → Run Trace (ℕ × Option Error)
after_send total (done n t) next =
    let rest = next (total + n) t in if n == 0 then done (total, some closed_pipe) t else rest
after_send total (fail e t) next = done (total, some e) t
after_send total panic next = panic

module _ (env : Env) where
  -- `Session.dial`, its last line included
  unfoldable pub dial_conn : Bytes → Io World GuestConn
  dial_conn target = dial env target >>= λ r. return (new_guest_conn r)

  -- `Read` into a buffer of `size` bytes: how many came, and the buffer.
  unfoldable pub read : GuestConn → ℕ → Io Trace (ℕ × Bytes)
  read c size = recv env c.stdout size >>= received

  -- The loop of `Write`: the bytes taken so far, and the error that ended it.
  unfoldable pub write_loop : ℕ → GuestConn → Bytes → ℕ → Io Trace (ℕ × Option Error)
  write_loop zero c b total t = panic
  write_loop (suc fuel) c b total t =
      let round = after_send total (send env c.stdin (drop total b) t) (write_loop fuel c b) in
      if ltb total (length b) then round else done (total, none) t

  -- Each round but the last takes a byte, so one more than the length is enough fuel.
  unfoldable pub write : GuestConn → Bytes → Io Trace (ℕ × Option Error)
  write c b = write_loop (suc (length b)) c b 0

  unfoldable pub close_write : GuestConn → Io Trace GuestConn
  close_write c =
      if c.write_closed
      then return c
      else (shutdown_socket env c.stdin sd_send >>= λ _. return (record c { write_closed = true }))

  unfoldable pub close_sockets : GuestConn → Io Trace GuestConn
  close_sockets c = do
    c' ← close_write (record c { closed = true })
    close_socket env c'.stdin
    close_socket env c'.stdout
    return c'

  unfoldable pub close_conn : GuestConn → Io World GuestConn
  close_conn c w =
      if c.closed
      then done c w
      else (do c' ← on_trace (close_sockets c); release_process env c'.process; return c') w
