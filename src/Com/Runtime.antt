-- ===== src/Com/Runtime.antt =====
-- com.go: `initCOM`, `coCreateInstance`, `vtblCall`, `comRelease` and the Winsock calls.
use wslcsession.Base.{
  ℕ, ◌%◌, ◌^◌, Bool, not, Bytes, [], none, some, errno, message, wrap, wsa_startup_failed,
  recv_failed, send_failed, Io, return, raise, ltb, ◌==◌, if◌then◌else◌, length,
}
use wslcsession.Base.Effects.{◌>>=◌, ◌>>◌}
use wslcsession.Com.Abi.{slot_release}
use wslcsession.Com.HResult.{hr_err, is_hresult, rpc_too_late}
use wslcsession.Com.Trace.{
  Env, Trace, Reply, co_initialize_ex, co_initialize_security, wsa_startup, co_create_instance,
  invoke, Args, no_args, socket_recv, socket_send, socket_shutdown, socket_close, perform,
}

-- `if err := hrErr(hr); err != nil { return err }`
unfoldable pub check : ℕ → Io Trace (Unit {0})
unfolding hr_err
check hr t = elim (hr_err hr) [ none ↦ return tt t | some e ↦ raise e t ]

check_security : ℕ → Io Trace (Unit {0})
unfolding hr_err is_hresult
check_security hr t = elim (hr_err hr) [
  | none ↦ return tt t
  | some e ↦ if is_hresult e rpc_too_late then return tt t else raise e t
]

-- `int(int32(r))` is negative.
unfoldable pub is_negative : ℕ → Bool
is_negative r = not (ltb (r % 2 ^ 32) (2 ^ 31))

received : Reply → Io Trace (ℕ × Bytes)
unfolding is_negative
received r =
    if is_negative r.ret
    then raise (wrap recv_failed (errno r.errno))
    else return (r.ret % 2 ^ 32, r.bytes)

sent : Reply → Io Trace ℕ
unfolding is_negative
sent r =
    if is_negative r.ret then raise (wrap send_failed (errno r.errno)) else return (r.ret % 2 ^ 32)

module _ (env : Env) where
  unfoldable pub init_com : Io Trace (Unit {0})
  unfolding perform check check_security
  init_com = do
    r ← perform env (co_initialize_ex 2)
    check r.ret
    s ← perform env (co_initialize_security 0 3 0x20)
    check_security s.ret
    w ← perform env (wsa_startup 0x0202)
    if w.ret == 0 then return tt else raise (message (wsa_startup_failed w.ret))

  unfoldable pub co_create : Bytes → Bytes → ℕ → Io Trace ℕ
  unfolding perform check
  co_create clsid iid context = do
    r ← perform env (co_create_instance clsid iid context)
    check r.ret
    return r.pointer

  unfoldable pub vtbl_call : ℕ → ℕ → Args → Io Trace Reply
  unfolding perform
  vtbl_call obj slot args = perform env (invoke obj slot args)

  unfoldable pub com_release : ℕ → Io Trace (Unit {0})
  unfolding vtbl_call
  com_release obj =
      if obj == 0 then return tt else (vtbl_call obj slot_release no_args >>= λ _. return tt)

  -- `recv` into a buffer of `size` bytes: how many came, and the buffer.
  unfoldable pub recv : ℕ → ℕ → Io Trace (ℕ × Bytes)
  unfolding perform received
  recv handle size =
      if size == 0 then return (0, []) else (perform env (socket_recv handle size) >>= received)

  unfoldable pub send : ℕ → Bytes → Io Trace ℕ
  unfolding perform sent
  send handle buf =
      if length buf == 0 then return 0 else (perform env (socket_send handle buf) >>= sent)

  unfoldable pub shutdown_socket : ℕ → ℕ → Io Trace (Unit {0})
  unfolding perform
  shutdown_socket handle how = perform env (socket_shutdown handle how) >>= λ _. return tt

  unfoldable pub close_socket : ℕ → Io Trace (Unit {0})
  unfolding perform
  close_socket handle = perform env (socket_close handle) >>= λ _. return tt
