-- ===== src/Conn/Read.antt =====
-- What `Read` of a connection gives.
use wslcsession.Base.{
  ℕ, ◌%◌, ◌^◌, ◌≤◌, ◌<◌, ◌≡◌, refl, ◌⊎◌, true, ◌∷◌, arith, fail, Ends, eof, wrap, recv_failed,
  errno, length,
}
use wslcsession.Base.Effects.{◌>>=◌}
use wslcsession.Com.Runtime.{recv, is_negative}
use wslcsession.Com.Trace.{Env, Trace, socket_recv}
use wslcsession.Conn.{GuestConn, received, read}

-- `recv` fails, or gives as many bytes as it says and no more than the buffer has.
abbrev pub RecvObeys : Env → Type 0
RecvObeys env =
    (t : Trace) (h size : ℕ)
    → let r = env.reply t (socket_recv h size) in
      (is_negative r.ret ≡ true) ⊎ ((r.ret % 2 ^ 32 ≤ size) × (length r.bytes ≡ r.ret % 2 ^ 32))

module _ (env : Env) (law : RecvObeys env) where
  -- A `Read` into a buffer that is not empty calls `recv` once, on the output of the process. It gives at least one
  -- byte and no more than the buffer has, or the end of the file, or the error of `recv`; it never
  -- gives no bytes and no error.
  pub read_lem :
      (c : GuestConn) (size : ℕ) (t : Trace)
      → 0 < size
      → let r = env.reply t (socket_recv c.stdout size) in
        let t1 = record { call = socket_recv c.stdout size; reply = r } ∷ t in
        Ends
          (read env c size t)
          (λ n t'. (0 < n.0) × (n.0 ≤ size) × (n.0 ≡ length n.1) × (n.1 ≡ r.bytes) × (t' ≡ t1))
          (λ e t'. ((e ≡ eof) ⊎ (e ≡ wrap recv_failed (errno r.errno))) × (t' ≡ t1))
  unfolding read recv received is_negative ◌>>=◌
  read_lem c size t h = ground (arith, law t c.stdout size)

module _ (env : Env) where
  -- A `Read` into an empty buffer reports the end of the file, without a call, whatever is there to read.
  pub read_empty : (c : GuestConn) (t : Trace) → read env c 0 t ≡ fail eof t
  unfolding read recv received ◌>>=◌
  read_empty c t = refl
