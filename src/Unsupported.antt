-- ===== src/Unsupported.antt =====
-- unsupported.go: the stub for the platforms without WSL. Every method fails with one error.
use wslcsession.Base.{Bytes, Result, err, Error, message, unsupported, Option, some}
use wslcsession.Options.{Options}

abbrev pub err_unsupported : Bytes → Error
err_unsupported goos = message (unsupported goos)

-- `runtime.GOOS` is a parameter; a `Session` has no fields.
module _ (goos : Bytes) where
  abbrev pub new_stub : Options → Result (Unit {0})
  new_stub opts = err (err_unsupported goos)

  abbrev pub close_stub : Unit {0} → Option Error
  close_stub s = some (err_unsupported goos)

  abbrev pub display_name_stub : Unit {0} → Result Bytes
  display_name_stub s = err (err_unsupported goos)

  abbrev pub docker_conn_stub : Unit {0} → Result (Unit {0})
  docker_conn_stub s = err (err_unsupported goos)

  abbrev pub dial_guest_unix_stub : Unit {0} → Bytes → Result (Unit {0})
  dial_guest_unix_stub s path = err (err_unsupported goos)

  abbrev pub dial_guest_tcp_stub : Unit {0} → Bytes → Result (Unit {0})
  dial_guest_tcp_stub s addr = err (err_unsupported goos)
