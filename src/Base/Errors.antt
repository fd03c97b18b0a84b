-- ===== src/Base/Errors.antt =====
-- Go's `(T, error)`: a value, or an error that is not nil. Each `fmt.Errorf` of the program is a
-- constructor of `Message`, with the values that it prints.
use Prim.Native.Nat.{ℕ}
use mathlib.Core.Path.{◌≡◌, refl}
use wslcsession.Base.Lists.{Bytes}

pub data Message : Type 0 where
  invalid_guid : Bytes → Message
  com_init : Message
  wsa_startup_failed : ℕ → Message
  activate_session_manager : Message
  create_session_failed : Message
  volume_name_required : Message
  volume_size_required : Bytes → Message
  expected_socket : Bytes → Message
  volumes_need_storage_path : Message
  create_volume_failed : Bytes → Message
  mount_windows_folder_failed : Message
  spawn_bridge : Bytes → Message
  recv_failed : Message
  send_failed : Message
  invalid_volume : Bytes → Message
  invalid_volume_size : Bytes → Message
  invalid_volume_fixed : Bytes → Message
  volume_requires_storage_path : Message
  unsupported : Bytes → Message
  -- the messages of the demo and of the proxy
  docker_conn_failed : Message
  write_request : Message
  read_response : Message
  unexpected_response : Bytes → Message
  pull_image : Message
  pull_image_status : ℕ → Bytes → Message
  list_images : Message
  create_container : Message
  create_container_status : ℕ → Bytes → Message
  start_container : Message
  start_container_status : ℕ → Message
  dial_guest_tcp_failed : Message
  write_failed : Message
  read_echo : Message
  echo_mismatch : Bytes → Bytes → Message
  new_session_failed : Message
  display_name_failed : Message
  docker_check : Message
  tcp_check : Message
  tcp_fallback_check : Message
  listen_failed : Message

pub data Error : Type 0 where
  -- `hresultError`, by its 32 bits
  hresult : ℕ → Error
  -- `*GuestExecError`, with the 32 bits of its errno
  guest_exec : Error → ℕ → Error
  -- `fmt.Errorf` without and with `%w`
  message : Message → Error
  wrap : Message → Error → Error
  -- `syscall.EINVAL`, other errors of the system, `io.EOF`, `io.ErrUnexpectedEOF`,
  -- `io.ErrClosedPipe`
  einval : Error
  errno : ℕ → Error
  eof : Error
  unexpected_eof : Error
  closed_pipe : Error
  -- `strconv.ErrSyntax` and `strconv.ErrRange`, `hex.InvalidByteError` and `hex.ErrLength`
  syntax : Error
  range : Error
  invalid_hex : Error
  hex_length : Error

pub data Result {ℓ} (A : Type ℓ) : Type ℓ where
  err : Error → Result A
  ok : A → Result A

module _ {ℓ κ} {A : Type ℓ} {B : Type κ} where
  infixl 5 ◌>>=◌
  -- `if err != nil { return err }`
  abbrev pub ◌>>=◌ : Result A → (A → Result B) → Result B
  m >>= f = elim m [ err e ↦ err e | ok a ↦ f a ]

  -- A chain succeeds only if its first part did.
  pub >>=-ok :
      (m : Result A) (f : A → Result B) (b : B)
      → (m >>= f) ≡ ok b
      → (a : A) × (m ≡ ok a) × (f a ≡ ok b)
  >>=-ok (err e) f b h = absurd (cc h)
  >>=-ok (ok a) f b h = (a, refl, h)

pub err-ne-ok {ℓ} : {A : Type ℓ} {e : Error} {a : A} → ¬ (◌≡◌ {A = Result A} (err e) (ok a))
err-ne-ok h = cc
