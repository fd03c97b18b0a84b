-- ===== src/Com/Abi.antt =====
-- types.go: slots, flags and the structs that cross the boundary. A pointer in a struct is what it
-- points at, and `none` is nil.
use wslcsession.Base.{ℕ, List, ◌++◌, Bytes, Option, codes, ◌==◌, if◌then◌else◌}
use wslcsession.Strings.Decimal.{format_int32}

abbrev pub clsid_session_manager_text : Bytes
clsid_session_manager_text = codes "a9b7a1b9-0671-405c-95f1-e0612cb4ce8f"

abbrev pub iid_session_manager_text : Bytes
iid_session_manager_text = codes "82A7ABC8-6B50-43FC-AB96-15FBBE7E8760"

abbrev pub slot_release : ℕ
slot_release = 2

abbrev pub slot_session_manager_create_session : ℕ
slot_session_manager_create_session = 4

abbrev pub slot_session_get_id : ℕ
slot_session_get_id = 3

abbrev pub slot_session_get_display_name : ℕ
slot_session_get_display_name = 4

abbrev pub slot_session_get_state : ℕ
slot_session_get_state = 5

abbrev pub slot_session_create_root_namespace_process : ℕ
slot_session_create_root_namespace_process = 23

abbrev pub slot_session_terminate : ℕ
slot_session_terminate = 25

abbrev pub slot_session_mount_windows_folder : ℕ
slot_session_mount_windows_folder = 26

abbrev pub slot_session_create_volume : ℕ
slot_session_create_volume = 32

abbrev pub slot_session_delete_volume : ℕ
slot_session_delete_volume = 33

abbrev pub slot_process_signal : ℕ
slot_process_signal = 3

abbrev pub slot_process_get_exit_event : ℕ
slot_process_get_exit_event = 4

abbrev pub slot_process_get_std_handle : ℕ
slot_process_get_std_handle = 5

abbrev pub slot_process_get_pid : ℕ
slot_process_get_pid = 7

abbrev pub slot_process_get_state : ℕ
slot_process_get_state = 8

abbrev pub networking_mode_none : ℕ
networking_mode_none = 0

abbrev pub networking_mode_nat : ℕ
networking_mode_nat = 1

abbrev pub networking_mode_consomme : ℕ
networking_mode_consomme = 2

abbrev pub session_flag_none : ℕ
session_flag_none = 0

abbrev pub session_flag_persistent : ℕ
session_flag_persistent = 1

abbrev pub session_flag_open_existing : ℕ
session_flag_open_existing = 2

abbrev pub handle_type_unknown : ℕ
handle_type_unknown = 0

abbrev pub handle_type_file : ℕ
handle_type_file = 1

abbrev pub handle_type_pipe : ℕ
handle_type_pipe = 2

abbrev pub handle_type_socket : ℕ
handle_type_socket = 3

-- `wslcHandleType.String`, of the 32 bits of the type
unfoldable pub handle_type_string : ℕ → Bytes
unfolding format_int32
handle_type_string t =
    if t == handle_type_unknown
    then codes "Unknown"
    else if t == handle_type_file
    then codes "File"
    else if t == handle_type_pipe
    then codes "Pipe"
    else if t == handle_type_socket
    then codes "Socket"
    else codes "wslcHandleType(" ++ (format_int32 t ++ codes ")")

pub record Handle : Type 0 where
  pub type : ℕ
  pub handle : ℕ

pub record SessionSettings : Type 0 where
  pub display_name : List ℕ
  pub storage_path : Option (List ℕ)
  pub maximum_storage_size_mb : ℕ
  pub cpu_count : ℕ
  pub memory_mb : ℕ
  pub boot_timeout_ms : ℕ
  pub networking_mode : ℕ
  pub feature_flags : ℕ
  pub dmesg_output : Handle
  pub storage_flags : ℕ
  pub root_vhd_override : Option (List ℕ)
  pub root_vhd_type_override : Option Bytes

abbrev pub fd_stdin : ℕ
fd_stdin = 0

abbrev pub fd_stdout : ℕ
fd_stdout = 1

abbrev pub process_flag_none : ℕ
process_flag_none = 0

abbrev pub process_flag_stdin : ℕ
process_flag_stdin = 1

pub record StringArray : Type 0 where
  pub values : Option (List Bytes)
  pub count : ℕ

pub record ProcessOptions : Type 0 where
  pub current_directory : Option Bytes
  pub user : Option Bytes
  pub command_line : StringArray
  pub environment : StringArray
  pub flags : ℕ

pub record KeyValuePair : Type 0 where
  pub key : Bytes
  pub value : Bytes

abbrev pub volume_driver_vhd : Bytes
volume_driver_vhd = codes "vhd"

abbrev pub driver_opt_size_bytes : Bytes
driver_opt_size_bytes = codes "SizeBytes"

abbrev pub driver_opt_fixed : Bytes
driver_opt_fixed = codes "Fixed"

-- `wslcVolumeOptions`
pub record VolumeRequest : Type 0 where
  pub name : Bytes
  pub driver : Bytes
  pub driver_opts : List KeyValuePair
  pub driver_opts_count : ℕ
  pub labels : Option (List KeyValuePair)
  pub labels_count : ℕ

-- `wslcVolumeInformation`: two arrays of 256 bytes
pub record VolumeInformation : Type 0 where
  pub name : List ℕ
  pub driver : List ℕ
