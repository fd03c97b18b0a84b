-- ===== src/Com/Trace.antt =====
-- The world outside the program: the calls that it makes, the answers, and the history of both.
-- What a call answers is a function of the whole history, so a theorem for every `Env` covers each
-- behaviour of the service, of Winsock and of the file system.
use wslcsession.Base.{ℕ, List, ◌∷◌, Bool, Bytes, Option, Error, done, Io}
use wslcsession.Com.Abi.{Handle, SessionSettings, ProcessOptions, VolumeRequest}

-- The arguments of a method behind `this`; the `[out]` pointers are left out.
pub data Args : Type 0 where
  no_args : Args
  settings : SessionSettings → ℕ → Args
  folder : List ℕ → Bytes → ℕ → Args
  process : Bytes → ProcessOptions → ℕ → ℕ → Args
  volume : VolumeRequest → Args
  descriptor : ℕ → Args

pub data Call : Type 0 where
  co_initialize_ex : ℕ → Call
  -- the authentication level, the impersonation level and the capabilities
  co_initialize_security : ℕ → ℕ → ℕ → Call
  wsa_startup : ℕ → Call
  co_create_instance : Bytes → Bytes → ℕ → Call
  -- the method of an object at a slot of its vtable
  invoke : ℕ → ℕ → Args → Call
  -- `recv` of at most so many bytes, and `send` of these
  socket_recv : ℕ → ℕ → Call
  socket_send : ℕ → Bytes → Call
  socket_shutdown : ℕ → ℕ → Call
  socket_close : ℕ → Call
  mkdir_all : Bytes → ℕ → Call
  read_file : Bytes → Call
  write_file : Bytes → Bytes → ℕ → Call

-- What a call returns, and what it leaves in the `[out]` variables; it uses what the call has.
pub record Reply : Type 0 where
  -- the machine word that the call returns
  pub ret : ℕ
  -- the last error of Winsock, or the errno of a failed exec
  pub errno : ℕ
  -- the new COM object
  pub pointer : ℕ
  pub std_handle : Handle
  -- the 16-bit units of a name
  pub units : List ℕ
  -- what `recv` put into the buffer, or what a file holds
  pub bytes : Bytes
  -- the error of a file operation
  pub failure : Option Error

pub record Event : Type 0 where
  pub call : Call
  pub reply : Reply

-- The newest event stands first.
abbrev pub Trace : Type 0
Trace = List Event

pub record Env : Type 0 where
  pub reply : Trace → Call → Reply
  -- another goroutine has closed the session by this moment
  pub others_close : Trace → Bool
  -- `os.Getpid()`, `os.TempDir()` and the embedded files
  pub pid : ℕ
  pub temp_dir : Bytes
  pub bridge_source : Bytes
  pub bridge_entrypoint : Bytes

unfoldable pub perform : Env → Call → Io Trace Reply
perform env c t = let r = env.reply t c in done r (record { call = c; reply = r } ∷ t)
