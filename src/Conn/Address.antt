-- ===== src/Conn/Address.antt =====
-- conn.go: the addresses of a connection, and its deadlines, which do nothing.
use wslcsession.Base.{ℤ, Bytes, Io, return, codes}
use wslcsession.Com.Trace.{Trace}
use wslcsession.Conn.{GuestConn}

pub data GuestAddr : Type 0 where
  guest_addr : GuestAddr

unfoldable pub local_addr : GuestConn → GuestAddr
local_addr c = guest_addr

unfoldable pub remote_addr : GuestConn → GuestAddr
remote_addr c = guest_addr

unfoldable pub network : GuestAddr → Bytes
network a = codes "vsock"

unfoldable pub address_text : GuestAddr → Bytes
address_text a = codes "wslc-guest"

-- A time is its nanoseconds.
unfoldable pub set_deadline : GuestConn → ℤ → Io Trace (Unit {0})
set_deadline c time = return tt

unfoldable pub set_read_deadline : GuestConn → ℤ → Io Trace (Unit {0})
set_read_deadline c time = return tt

unfoldable pub set_write_deadline : GuestConn → ℤ → Io Trace (Unit {0})
set_write_deadline c time = return tt
