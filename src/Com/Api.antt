-- ===== src/Com/Api.antt =====
-- comapi.go: the interfaces `sessionManager`, `wslcSession` and `wslcProcess` over the ABI. An object
-- is its address.
use wslcsession.Base.{
  ℕ, ◌*◌, ◌/◌, ◌%◌, ◌^◌, ℤ, pos, negsuc, Bool, Bytes, List, [], ◌∷◌, ◌++◌, Option, none, some,
  Result, ok, guest_exec, message, volume_name_required, volume_size_required, expected_socket,
  activate_session_manager, create_session_failed, Io, return, raise, lift, wrap_with, ltb, ◌==◌,
  if◌then◌else◌, equal, length, take, codes,
}
use wslcsession.Base.Errors
use wslcsession.Base.Effects.{◌>>=◌, ◌>>◌}
use wslcsession.Com.Abi.{
  clsid_session_manager_text, iid_session_manager_text, slot_session_manager_create_session,
  slot_session_get_display_name, slot_session_create_root_namespace_process, slot_session_terminate,
  slot_session_mount_windows_folder, slot_session_create_volume, slot_process_get_std_handle,
  networking_mode_nat, session_flag_none, handle_type_socket, handle_type_string, SessionSettings,
  process_flag_none, process_flag_stdin, StringArray, ProcessOptions, volume_driver_vhd,
  driver_opt_size_bytes, driver_opt_fixed, VolumeRequest,
}
use wslcsession.Com.HResult.{hr_err}
use wslcsession.Com.Runtime.{check, co_create, vtbl_call}
use wslcsession.Com.Trace.{
  Env, Trace, Reply, no_args, settings, folder, process, volume, descriptor,
}
use wslcsession.Options.{Options, VolumeOptions}
use wslcsession.Strings.Decimal.{format_uint, format_bool}
use wslcsession.Strings.Pointers.{byte_ptr, utf16_ptr, utf16_to_string}

abbrev pub clsctx_local_server : ℕ
clsctx_local_server = 4

-- `makeStringArray`; the pointers are the C strings themselves.
unfoldable pub byte_ptrs : List Bytes → Result (List Bytes)
byte_ptrs [] = ok []
byte_ptrs (s ∷ items) =
    Errors.◌>>=◌ (byte_ptr s) λ p. Errors.◌>>=◌ (byte_ptrs items) λ ps. ok (p ∷ ps)

unfoldable pub make_string_array : List Bytes → Result StringArray
unfolding byte_ptrs
make_string_array [] = ok (record { values = none; count = 0 })
make_string_array (s ∷ items) =
    Errors.◌>>=◌ (byte_ptrs (s ∷ items))
      λ ps. ok (record { values = some ps; count = length ps % 2 ^ 32 })

-- `bootTimeoutMs`: `Milliseconds` divides by a million and drops the rest; the conversion keeps 32 bits.
unfoldable pub boot_timeout_ms : ℤ → ℕ
boot_timeout_ms (pos d) = if ltb 0 d then (d / 1000000) % 2 ^ 32 else 60000
boot_timeout_ms (negsuc d) = 60000

unfoldable pub or_default : ℕ → ℕ → ℕ
or_default n default = if n == 0 then default else n

unfoldable pub session_settings : Options → List ℕ → Option (List ℕ) → SessionSettings
unfolding boot_timeout_ms or_default
session_settings opts dn sp = record {
  display_name = dn;
  storage_path = sp;
  maximum_storage_size_mb = opts.max_storage_size_mb;
  cpu_count = or_default opts.cpu_count 2;
  memory_mb = or_default opts.memory_mb 2048;
  boot_timeout_ms = boot_timeout_ms opts.boot_timeout;
  networking_mode = networking_mode_nat;
  feature_flags = 0;
  dmesg_output = record { type = 0; handle = 0 };
  storage_flags = 0;
  root_vhd_override = none;
  root_vhd_type_override = none;
}

unfoldable pub storage_ptr : Bytes → Result (Option (List ℕ))
storage_ptr [] = ok none
storage_ptr (c ∷ s) = Errors.◌>>=◌ (utf16_ptr (c ∷ s)) λ p. ok (some p)

unfoldable pub check_exec : Reply → Io Trace (Unit {0})
unfolding hr_err
check_exec r t = elim (hr_err r.ret) [
  | none ↦ return tt t
  | some e ↦ raise (guest_exec e (r.errno % 2 ^ 32)) t
]

unfoldable pub process_options : StringArray → StringArray → Bool → ProcessOptions
process_options argv environment with_stdin = record {
  current_directory = none;
  user = none;
  command_line = argv;
  environment = environment;
  flags = if with_stdin then process_flag_stdin else process_flag_none;
}

-- `v.SizeMB*1024*1024`, in uint64
unfoldable pub size_bytes : ℕ → ℕ
size_bytes mb = (mb * 1024 * 1024) % 2 ^ 64

unfoldable pub volume_request : VolumeOptions → Bytes → Bytes → VolumeRequest
unfolding size_bytes
volume_request v name driver = record {
  name = name;
  driver = driver;
  driver_opts =
      record {
        key = driver_opt_size_bytes ++ 0 ∷ [];
        value = format_uint (size_bytes v.size_mb) ++ 0 ∷ [];
      }
      ∷ record { key = driver_opt_fixed ++ 0 ∷ []; value = format_bool v.fixed ++ 0 ∷ [] }
      ∷ [];
  driver_opts_count = 2;
  labels = none;
  labels_count = 0;
}

unfoldable pub std_socket : Reply → Io Trace ℕ
std_socket r =
    if r.std_handle.type == handle_type_socket
    then return r.std_handle.handle
    else raise (message (expected_socket (handle_type_string r.std_handle.type)))

module _ (env : Env) where
  unfoldable pub session_name : Options → Bytes
  session_name opts =
      if equal opts.display_name []
      then codes "wslcsession-" ++ format_uint env.pid
      else opts.display_name

  unfoldable pub activate : Io Trace ℕ
  activate =
      wrap_with activate_session_manager
        (co_create env clsid_session_manager_text iid_session_manager_text clsctx_local_server)

  unfoldable pub create_session : ℕ → Options → Io Trace ℕ
  unfolding storage_ptr
  create_session mgr opts = do
    dn ← lift (utf16_ptr (session_name opts))
    sp ← lift (storage_ptr opts.storage_path)
    r ←
        vtbl_call env mgr slot_session_manager_create_session
          (settings (session_settings opts dn sp) session_flag_none)
    wrap_with create_session_failed (check r.ret)
    return r.pointer

  unfoldable pub terminate : ℕ → Io Trace (Unit {0})
  terminate sess = do r ← vtbl_call env sess slot_session_terminate no_args; check r.ret

  -- The slice has 256 units, whatever the length of the name.
  unfoldable pub get_display_name : ℕ → Io Trace Bytes
  get_display_name sess = do
    r ← vtbl_call env sess slot_session_get_display_name no_args
    check r.ret
    return (utf16_to_string (take 256 r.units))

  unfoldable pub mount_windows_folder : ℕ → Bytes → Bytes → Bool → Io Trace (Unit {0})
  mount_windows_folder sess windows_path linux_path read_only = do
    w ← lift (utf16_ptr windows_path)
    l ← lift (byte_ptr linux_path)
    r ←
        vtbl_call env sess slot_session_mount_windows_folder
          (folder w l (if read_only then 1 else 0))
    check r.ret

  unfoldable pub create_root_namespace_process : ℕ → Bytes → List Bytes → Bool → Io Trace ℕ
  unfolding check_exec process_options
  create_root_namespace_process sess executable argv with_stdin = do
    exe ← lift (byte_ptr executable)
    cmd_line ← lift (make_string_array argv)
    environment ← lift (make_string_array [])
    r ←
        vtbl_call env sess slot_session_create_root_namespace_process
          (process exe (process_options cmd_line environment with_stdin) 0 0)
    check_exec r
    return r.pointer

  unfoldable pub create_named_volume : ℕ → VolumeOptions → Io Trace (Unit {0})
  unfolding volume_request
  create_named_volume sess v = do
    name ← lift (byte_ptr v.name)
    driver ← lift (byte_ptr volume_driver_vhd)
    r ← vtbl_call env sess slot_session_create_volume (volume (volume_request v name driver))
    check r.ret

  unfoldable pub create_volume : ℕ → VolumeOptions → Io Trace (Unit {0})
  unfolding create_named_volume
  create_volume sess v =
      if equal v.name []
      then raise (message volume_name_required)
      else if v.size_mb == 0
      then raise (message (volume_size_required v.name))
      else create_named_volume sess v

  unfoldable pub get_std_handle : ℕ → ℕ → Io Trace ℕ
  unfolding std_socket
  get_std_handle proc fd = do
    r ← vtbl_call env proc slot_process_get_std_handle (descriptor fd)
    check r.ret
    std_socket r
