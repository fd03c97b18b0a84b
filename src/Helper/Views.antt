-- ===== src/Helper/Views.antt =====
-- What the relay of bridge.c has done, read off its history, and what it relies on.
pub mod Writes
pub mod Relay
pub mod Pumps
pub mod Rounds
pub mod Connect
pub mod Finish
use wslcsession.Base.{
  ℕ, zero, suc, ◌+◌, ◌≡◌, ◌≤◌, ◌≢◌, refl, ◌&&◌, ◌||◌, not, Bool, true, false, Bytes, [], ◌∷◌, ◌++◌,
  Option, none, some, ℤ, pos, negsuc, ◌==◌, if◌then◌else◌, length, take, arith,
}
use wslcsession.Helper.{
  Syscall, socket, connect_path, connect_addr, get_addr_info, poll, read_fd, write_fd,
  shutdown_write, close_fd, Answer, Returned, History, Kernel, is_positive, count,
}
use wslcsession.Helper.Loop.{PollFds, is_over, is_ready}

-- From the standard input to the socket, and from the socket to the standard output.
pub data Direction : Type 0 where
  up : Direction
  down : Direction

pub record Traffic : Type 0 where
  pub read : Bytes
  pub written : Bytes
  -- how often the end was passed on: `shutdown` of the socket, or `close` of the output
  pub ends : ℕ

pub record View : Type 0 where
  pub up_traffic : Traffic
  pub down_traffic : Traffic
  -- failed writes, and failed waits that no signal interrupted
  pub errors : ℕ
  -- reads, and waits after which there was nothing to read
  pub reads : ℕ
  pub idles : ℕ
  -- sockets
  pub opened : ℕ
  pub closed : ℕ

abbrev pub new_view : View
new_view = record {
  up_traffic = record { read = []; written = []; ends = 0 };
  down_traffic = record { read = []; written = []; ends = 0 };
  errors = 0;
  reads = 0;
  idles = 0;
  opened = 0;
  closed = 0;
}

abbrev pub traffic : Direction → View → Traffic
traffic up v = v.up_traffic
traffic down v = v.down_traffic

abbrev pub set_traffic : Direction → Traffic → View → View
set_traffic up f v = record v { up_traffic = f }
set_traffic down f v = record v { down_traffic = f }

abbrev pub add_read : Direction → Bytes → View → View
add_read i b v =
    let f = traffic i v in
    record (set_traffic i (record f { read = f.read ++ b }) v) { reads = suc v.reads }

abbrev pub add_written : Direction → Bytes → View → View
add_written i b v = let f = traffic i v in set_traffic i (record f { written = f.written ++ b }) v

abbrev pub add_end : Direction → View → View
add_end i v = let f = traffic i v in set_traffic i (record f { ends = suc f.ends }) v

abbrev pub add_error : Bool → View → View
add_error true v = v
add_error false v = record v { errors = suc v.errors }

-- There is something to read for a descriptor that is waited for.
abbrev pub wakes : Option ℕ → ℕ → Bool
wakes none revents = false
wakes (some _) revents = is_ready revents

abbrev pub is_awake : Option ℕ → Option ℕ → Answer → Bool
is_awake a b r = wakes a r.first_revents || wakes b r.second_revents

abbrev pub add_poll : ℤ → Bool → Bool → View → View
add_poll (pos _) awake interrupted v = if awake then v else record v { idles = suc v.idles }
add_poll (negsuc _) awake interrupted v =
    if interrupted then record v { idles = suc v.idles } else record v { errors = suc v.errors }

abbrev pub add_socket : ℤ → View → View
add_socket (pos _) v = record v { opened = suc v.opened }
add_socket (negsuc _) v = v

abbrev pub more : ℕ → ℕ → ℕ
more zero n = n
more (suc k) n = suc (more k n)

-- What one call of a relay over this socket does.
abbrev pub note : ℕ → Syscall → Answer → View → View
note sock (read_fd fd _) r v =
    let b = take (count r.ret) r.bytes in
    if fd == 0 then add_read up b v else (if fd == sock then add_read down b v else v)
note sock (write_fd fd buf) r v =
    let b = take (count r.ret) buf in
    let v' = add_error (is_positive r.ret) v in
    if fd == sock then add_written up b v' else (if fd == 1 then add_written down b v' else v')
note sock (shutdown_write fd) r v = if fd == sock then add_end up v else v
note sock (close_fd fd) r v = if fd == 1 then add_end down v else record v { closed = suc v.closed }
note sock (socket _ _ _) r v = add_socket r.ret v
note sock (poll a b) r v = add_poll r.ret (is_awake a b r) r.interrupted v
note sock _ r v = v

abbrev pub view : ℕ → History → View
view sock [] = new_view
view sock (e ∷ t) = note sock e.syscall e.answer (view sock t)

abbrev pub source : ℕ → Direction → ℕ
source sock up = 0
source sock down = sock

abbrev pub sink : ℕ → Direction → ℕ
sink sock up = sock
sink sock down = 1

abbrev pub end_call : ℕ → Direction → Syscall
end_call sock up = shutdown_write sock
end_call sock down = close_fd 1

-- The socket is none of the standard streams.
abbrev pub IsFresh : ℕ → Type 0
IsFresh sock = (sock ≢ 0) × (sock ≢ 1)

-- `write` takes no more than it was given.
abbrev pub WriteObeys : Kernel → Type 0
WriteObeys kernel =
    (t : History) (fd : ℕ) (buf : Bytes) → count (kernel t (write_fd fd buf)).ret ≤ length buf

-- The relay waits again without having read.
abbrev pub is_idle : ℤ → Bool → Bool → Bool
is_idle (pos _) awake interrupted = not awake
is_idle (negsuc _) awake interrupted = interrupted

-- After so many waits of the relay over this socket that had nothing to read, a wait for a descriptor
-- has something to read or fails.
abbrev pub PollWakes : Kernel → ℕ → ℕ → Type 0
PollWakes kernel sock patience =
    (t : History) (a b : Option ℕ)
    → is_over (record { first = a; second = b }) ≡ false
    → patience ≤ (view sock t).idles
    → let r = kernel t (poll a b) in is_idle r.ret (is_awake a b r) r.interrupted ≡ false

-- After so many reads of the relay over this socket, reads give the end of the file or an error.
abbrev pub ReadEnds : Kernel → ℕ → ℕ → Type 0
ReadEnds kernel sock limit =
    (t : History) (fd size : ℕ)
    → limit ≤ (view sock t).reads
    → is_positive (kernel t (read_fd fd size)).ret ≡ false

module _ {sock : ℕ} (fresh : IsFresh sock) where
  pub note_read :
      (i : Direction) (size : ℕ) (r : Answer) (v : View)
      → note sock (read_fd (source sock i) size) r v ≡ add_read i (take (count r.ret) r.bytes) v
  note_read up size r v = refl
  note_read down size r v = ground (arith, fresh)

  pub note_write :
      (i : Direction) (buf : Bytes) (r : Answer) (v : View)
      → note sock (write_fd (sink sock i) buf) r v
        ≡ add_written i (take (count r.ret) buf) (add_error (is_positive r.ret) v)
  note_write up buf r v = ground arith
  note_write down buf r v = ground (arith, fresh)

  pub note_end :
      (i : Direction) (r : Answer) (v : View) → note sock (end_call sock i) r v ≡ add_end i v
  note_end up r v = ground arith
  note_end down r v = refl
