-- ===== src/Tests/Helpers.antt =====
-- The helper of the guest against a kernel whose input holds three bytes.
use wslcsession.Base.{
  ℕ, zero, suc, ◌≡◌, refl, Bool, true, false, Bytes, codes, [], ◌∷◌, ◌++◌, pos, arith,
  if◌then◌else◌, length,
}
use wslcsession.Helper.{
  Syscall, socket, poll, read_fd, write_fd, Answer, History, Kernel, connect_target, resolve,
}
use wslcsession.Helper.Targets.{connect_target-resolve, connect_target-truncates}

abbrev answer : ℕ → Bytes → Answer
answer n b = record {
  ret = pos n;
  interrupted = false;
  first_revents = 1;
  second_revents = 1;
  bytes = b;
  addresses = [];
}

abbrev is_read : Syscall → Bool
is_read (read_fd _ _) = true
is_read _ = false

abbrev has_read : History → Bool
has_read [] = false
has_read (e ∷ t) = let rest = has_read t in if is_read e.syscall then true else rest

abbrev read_once : Bool → Answer
read_once true = answer 0 []
read_once false = answer 3 (codes "GET")

abbrev kernel : Kernel
kernel t (socket _ _ _) = answer 3 []
kernel t (read_fd _ _) = read_once (has_read t)
kernel t (write_fd _ buf) = answer (length buf) []
kernel t (poll _ _) = answer 1 []
kernel t _ = answer 0 []

connect_target-resolve_example :
    connect_target kernel (codes "tcp:" ++ codes "127.0.0.1" ++ codes ":80")
    ≡ resolve kernel (codes "127.0.0.1") (codes "80")
connect_target-resolve_example =
    connect_target-resolve kernel (codes "127.0.0.1") (codes "80") (omega arith) (omega arith)
      ((λ e. omega arith), ((λ e. omega arith), tt))

abbrev deep : ℕ → Bytes → Bytes
deep zero path = path
deep (suc n) path = b'/' ∷ deep n path

connect_target-truncates_example :
    connect_target kernel (codes "unix:" ++ deep 107 (codes "one"))
    ≡ connect_target kernel (codes "unix:" ++ deep 107 (codes "other"))
connect_target-truncates_example =
    connect_target-truncates kernel (deep 107 (codes "one")) (deep 107 (codes "other")) refl
