-- ===== src/Helper.antt =====
-- bridgesrc/bridge.c: the helper in the guest, its calls of the kernel and the connection to a target. A
-- descriptor is a number; what it prints is left out. `Helper.Loop` relays over the connection.
pub mod Loop
pub mod Views
pub mod Targets
use wslcsession.Base.{
  ℕ, zero, suc, ◌+◌, ◌/◌, ◌%◌, ◌^◌, ◌&&◌, ◌||◌, Bool, true, false, Bytes, codes, List, [], ◌∷◌,
  Option, none, some, ℤ, pos, negsuc, Io, Run, done, panic, return, ltb, leb, ◌==◌, if◌then◌else◌,
  length, take, drop,
}
use wslcsession.Base.Effects.{◌>>=◌, ◌>>◌}
use wslcsession.Demo.Streams.{starts_with}

-- `struct addrinfo`, one node of the list.
pub record AddrInfo : Type 0 where
  pub family : ℕ
  pub socktype : ℕ
  pub protocol : ℕ
  pub addr : Bytes

pub data Syscall : Type 0 where
  -- the family, the type and the protocol
  socket : ℕ → ℕ → ℕ → Syscall
  -- the path in `sun_path`
  connect_path : ℕ → Bytes → Syscall
  connect_addr : ℕ → AddrInfo → Syscall
  -- the host and the port
  get_addr_info : Bytes → Bytes → Syscall
  -- waits for `POLLIN`; `none` is the descriptor -1
  poll : Option ℕ → Option ℕ → Syscall
  -- at most so many bytes
  read_fd : ℕ → ℕ → Syscall
  write_fd : ℕ → Bytes → Syscall
  shutdown_write : ℕ → Syscall
  close_fd : ℕ → Syscall

-- What a call returns, and what it leaves behind pointers; it uses what the call has.
pub record Answer : Type 0 where
  pub ret : ℤ
  -- `errno == EINTR`
  pub interrupted : Bool
  pub first_revents : ℕ
  pub second_revents : ℕ
  pub bytes : Bytes
  pub addresses : List AddrInfo

pub record Returned : Type 0 where
  pub syscall : Syscall
  pub answer : Answer

-- The newest call stands first.
abbrev pub History : Type 0
History = List Returned

-- The answer to a call is any function of the history before it.
abbrev pub Kernel : Type 0
Kernel = History → Syscall → Answer

abbrev pub af_unix : ℕ
af_unix = 1

abbrev pub sock_stream : ℕ
sock_stream = 1

-- The room in `sun_path` less one byte, and in `host`.
abbrev pub path_size : ℕ
path_size = 107

abbrev pub host_size : ℕ
host_size = 256

abbrev pub is_positive : ℤ → Bool
is_positive (pos (suc _)) = true
is_positive _ = false

-- The byte count of a call that did not fail.
abbrev pub count : ℤ → ℕ
count (pos n) = n
count (negsuc _) = 0

-- `strrchr(s, ':')`: the text before and behind the last colon.
unfoldable pub last_colon : Bytes → Option (Bytes × Bytes)
last_colon [] = none
last_colon (c ∷ s) = elim (last_colon s) [
  | some (before, behind) ↦ some (c ∷ before, behind)
  | none ↦ if c == b':' then some ([], s) else none
]

-- `if (w <= 0) return -1; off += w;`
unfoldable pub after_write : ℕ → Answer → (ℕ → Io History Bool) → Io History Bool
after_write off r next =
    let rest = next (off + count r.ret) in if is_positive r.ret then rest else return false

module _ (kernel : Kernel) where
  unfoldable pub enter : Syscall → Io History Answer
  enter c t = let r = kernel t c in done r (record { syscall = c; answer = r } ∷ t)

  unfoldable pub write_from : ℕ → ℕ → Bytes → ℕ → Io History Bool
  write_from zero fd buf off t = panic
  write_from (suc fuel) fd buf off t =
      let round =
        (enter (write_fd fd (drop off buf)) >>= λ r. after_write off r (write_from fuel fd buf))
          t in
      if ltb off (length buf) then round else done true t

  -- Each round but the last takes a byte, so one more than the length is enough fuel. The result says
  -- whether it is 0.
  unfoldable pub write_all : ℕ → Bytes → Io History Bool
  write_all fd buf = write_from (suc (length buf)) fd buf 0

  -- `close(sock); return -1;`, or the next address.
  unfoldable pub give_up : ℕ → Io History (Option ℕ) → Io History (Option ℕ)
  give_up sock next = enter (close_fd sock) >>= λ _. next

  unfoldable pub after_unix_connect : ℕ → ℤ → Io History (Option ℕ)
  after_unix_connect sock (negsuc _) = give_up sock (return none)
  after_unix_connect sock (pos _) = return (some sock)

  unfoldable pub after_unix_socket : Bytes → ℤ → Io History (Option ℕ)
  after_unix_socket path (negsuc _) = return none
  after_unix_socket path (pos sock) =
      enter (connect_path sock (take path_size path)) >>= λ r. after_unix_connect sock r.ret

  unfoldable pub connect_unix : Bytes → Io History (Option ℕ)
  connect_unix path = enter (socket af_unix sock_stream 0) >>= λ r. after_unix_socket path r.ret

  unfoldable pub after_connect : ℕ → ℤ → Io History (Option ℕ) → Io History (Option ℕ)
  after_connect sock (pos zero) next = return (some sock)
  after_connect sock (pos (suc _)) next = give_up sock next
  after_connect sock (negsuc _) next = give_up sock next

  unfoldable pub after_socket : AddrInfo → ℤ → Io History (Option ℕ) → Io History (Option ℕ)
  after_socket rp (negsuc _) next = next
  after_socket rp (pos sock) next =
      enter (connect_addr sock rp) >>= λ r. after_connect sock r.ret next

  unfoldable pub try_addresses : List AddrInfo → Io History (Option ℕ)
  try_addresses [] = return none
  try_addresses (rp ∷ rest) =
      let next = try_addresses rest in
      enter (socket rp.family rp.socktype rp.protocol) >>= λ r. after_socket rp r.ret next

  unfoldable pub after_resolve : ℤ → List AddrInfo → Io History (Option ℕ)
  after_resolve (pos zero) addresses = try_addresses addresses
  after_resolve (pos (suc _)) addresses = return none
  after_resolve (negsuc _) addresses = return none

  unfoldable pub resolve : Bytes → Bytes → Io History (Option ℕ)
  resolve host port = enter (get_addr_info host port) >>= λ r. after_resolve r.ret r.addresses

  -- An invalid target, or a host that is too long.
  unfoldable pub connect_host : Option (Bytes × Bytes) → Io History (Option ℕ)
  connect_host none = return none
  connect_host (some (host, port)) =
      if length host == 0 || leb host_size (length host) then return none else resolve host port

  unfoldable pub connect_tcp : Bytes → Io History (Option ℕ)
  connect_tcp hostport = connect_host (last_colon hostport)

  unfoldable pub connect_target : Bytes → Io History (Option ℕ)
  connect_target target =
      if starts_with target (codes "unix:")
      then connect_unix (drop 5 target)
      else (if starts_with target (codes "tcp:") then connect_tcp (drop 4 target) else return none)
