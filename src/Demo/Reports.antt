-- ===== src/Demo/Reports.antt =====
-- What the program's errors read like: `hresultError.Error`, `GuestExecError.Error` and the formats of
-- its `fmt.Errorf` calls.
use wslcsession.Base.{
  ℕ, zero, suc, ◌+◌, ◌/◌, ◌%◌, Bytes, Option, none, some, [], ◌∷◌, ◌++◌, Error, Message, hresult,
  guest_exec, message, wrap, ltb, if◌then◌else◌, codes, invalid_guid, com_init, wsa_startup_failed,
  activate_session_manager, create_session_failed, volume_name_required, volume_size_required,
  expected_socket, volumes_need_storage_path, create_volume_failed, mount_windows_folder_failed,
  spawn_bridge, recv_failed, send_failed, invalid_volume, invalid_volume_size, invalid_volume_fixed,
  volume_requires_storage_path, unsupported, docker_conn_failed, write_request, read_response,
  unexpected_response, pull_image, pull_image_status, list_images, create_container,
  create_container_status, start_container, start_container_status, dial_guest_tcp_failed,
  write_failed, read_echo, echo_mismatch, new_session_failed, display_name_failed, docker_check,
  tcp_check, tcp_fallback_check, listen_failed,
}
use wslcsession.Strings.Decimal.{format_uint, format_int32}

-- What the source leaves to others: `%q`, and the text of an error of the standard library or of the
-- system.
pub record Texts : Type 0 where
  pub quote : Bytes → Bytes
  pub system : Error → Bytes

hex_digit : ℕ → ℕ
hex_digit n = if ltb n 10 then 48 + n else 55 + n

-- `%0wX`, of a number that has no more than `w` digits
hex_text : ℕ → ℕ → Bytes
unfolding hex_digit
hex_text zero n = []
hex_text (suc w) n = hex_text w (n / 16) ++ hex_digit (n % 16) ∷ []

-- `hresultError.Error`
unfoldable pub hresult_text : ℕ → Bytes
unfolding hex_text
hresult_text bits = codes "HRESULT 0x" ++ hex_text 8 bits

-- `GuestExecError.Error`, by the text of `Err` and the 32 bits of `Errno`
unfoldable pub guest_exec_text : Bytes → ℕ → Bytes
guest_exec_text e errno = e ++ codes " (guest errno=" ++ format_int32 errno ++ codes ")"

-- `Unwrap`, of a `GuestExecError` and of a `%w`
unfoldable pub unwrap : Error → Option Error
unwrap (guest_exec e _) = some e
unwrap (wrap _ e) = some e
unwrap _ = none

module _ (texts : Texts) where
  -- The text of an error in front of the error that it wraps.
  unfoldable pub message_text : Message → Bytes
  message_text (invalid_guid s) = codes "wslcsession: invalid GUID " ++ texts.quote s
  message_text com_init = codes "wslcsession: COM init"
  message_text (wsa_startup_failed n) = codes "wslcsession: WSAStartup failed: " ++ format_uint n
  message_text activate_session_manager = codes "wslcsession: activate WSLCSessionManager"
  message_text create_session_failed = codes "wslcsession: CreateSession"
  message_text volume_name_required = codes "wslcsession: volume name is required"
  message_text (volume_size_required v) =
      codes "wslcsession: volume " ++ texts.quote v ++ codes ": SizeMB must be > 0"
  message_text (expected_socket t) = codes "wslcsession: expected a Socket handle, got " ++ t
  message_text volumes_need_storage_path =
      codes "wslcsession: Options.Volumes requires Options.StoragePath to be set "
      ++ codes "(VHD-backed volumes live under <StoragePath>/volumes/)"
  message_text (create_volume_failed v) = codes "wslcsession: create volume " ++ texts.quote v
  message_text mount_windows_folder_failed = codes "wslcsession: MountWindowsFolder"
  message_text (spawn_bridge t) = codes "wslcsession: spawn bridge for " ++ texts.quote t
  message_text recv_failed = codes "wslcsession: recv failed"
  message_text send_failed = codes "wslcsession: send failed"
  message_text (invalid_volume s) =
      codes "invalid -volume " ++ texts.quote s ++ codes ", want name:sizeMB[:fixed]"
  message_text (invalid_volume_size s) =
      codes "invalid -volume " ++ texts.quote s ++ codes ": size must be a number"
  message_text (invalid_volume_fixed s) =
      codes "invalid -volume " ++ texts.quote s ++ codes ": fixed must be true/false"
  message_text volume_requires_storage_path =
      codes "-volume requires -storage-path to be set "
      ++ codes "(VHD-backed volumes live under <storage-path>/volumes/)"
  message_text (unsupported os) =
      codes "wslcsession: not supported on " ++ os ++ codes " (wslc requires Windows + WSL2)"
  message_text docker_conn_failed = codes "DockerConn"
  message_text write_request = codes "write request"
  message_text read_response = codes "read response"
  message_text (unexpected_response b) = codes "unexpected response: " ++ b
  message_text pull_image = codes "pull image"
  message_text (pull_image_status n b) =
      codes "pull image: HTTP " ++ format_uint n ++ codes ": " ++ b
  message_text list_images = codes "list images"
  message_text create_container = codes "create container"
  message_text (create_container_status n b) =
      codes "create container: HTTP " ++ format_uint n ++ codes ": " ++ b
  message_text start_container = codes "start container"
  message_text (start_container_status n) = codes "start container: HTTP " ++ format_uint n
  message_text dial_guest_tcp_failed = codes "DialGuestTCP"
  message_text write_failed = codes "write"
  message_text read_echo = codes "read echo"
  message_text (echo_mismatch got want) =
      codes "echo mismatch: got " ++ texts.quote got ++ codes ", want " ++ texts.quote want
  message_text new_session_failed = codes "NewSession"
  message_text display_name_failed = codes "DisplayName"
  message_text docker_check = codes "docker.sock check"
  message_text tcp_check = codes "guest TCP dial check"
  message_text tcp_fallback_check = codes "guest TCP dial fallback check"
  message_text listen_failed = codes "listen"

  unfoldable pub error_text : Error → Bytes
  unfolding message_text hresult_text guest_exec_text
  error_text (hresult bits) = hresult_text bits
  error_text (guest_exec e errno) = guest_exec_text (error_text e) errno
  error_text (message m) = message_text m
  error_text (wrap m e) = message_text m ++ codes ": " ++ error_text e
  error_text e = texts.system e
