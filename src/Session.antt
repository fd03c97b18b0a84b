-- ===== src/Session.antt =====
-- session.go: a session, the requests that its COM thread runs, and its end. Each request is atomic
-- here; `Session.Threads` has the goroutines, the lock and the channel.
pub mod Rules
pub mod References
pub mod Dial
pub mod Processes
pub mod Threads
pub mod Volumes
pub mod Interference
use wslcsession.Base.{
  ℕ, ◌&&◌, not, Bool, true, false, Bytes, List, [], ◌∷◌, ◌++◌, Option, none, some, Error, message,
  volumes_need_storage_path, com_init, create_volume_failed, mount_windows_folder_failed, wrap,
  spawn_bridge, Io, Run, done, fail, panic, return, raise, wrap_with, on_error, ignore,
  if◌then◌else◌, equal, codes,
}
use wslcsession.Base.Effects.{◌>>=◌, ◌>>◌}
use wslcsession.Bridge.{guest_bridge_mount_path, extract_bridge_binary}
use wslcsession.Com.Abi.{fd_stdin, fd_stdout}
use wslcsession.Com.Api.{
  activate, create_session, create_volume, terminate, get_display_name, mount_windows_folder,
  create_root_namespace_process, get_std_handle,
}
use wslcsession.Com.HResult.{is_hresult, error_already_exists}
use wslcsession.Com.Runtime.{init_com, com_release}
use wslcsession.Com.Trace.{Env, Trace}
use wslcsession.Options.{Options, VolumeOptions}

pub record Session : Type 0 where
  -- `reqCh` is closed exactly when `stopped` is set
  pub stopped : Bool
  -- the channel `closed` is closed
  pub closed : Bool
  -- `closeOnce` has run
  pub close_once : Bool
  pub mgr : ℕ
  pub sess : ℕ
  pub bridge_dir : Bytes
  pub bridge_done : Bool

pub record World : Type 0 where
  pub session : Session
  pub trace : Trace

-- A call on the COM thread; it leaves the session's own fields alone.
unfoldable pub on_trace : {A : Type 0} → Io Trace A → Io World A
on_trace m w = elim (m w.trace) [
  | done a t ↦ done a (record w { trace = t })
  | fail e t ↦ fail e (record w { trace = t })
  | panic ↦ panic
]

unfoldable pub needs_storage_path : Options → Bool
needs_storage_path opts = elim opts.volumes [ [] ↦ false | _ ∷ _ ↦ equal opts.storage_path [] ]

unfoldable pub open_session : ℕ × ℕ → Session
open_session (mgr, sess) = record {
  stopped = false;
  closed = false;
  close_once = false;
  mgr = mgr;
  sess = sess;
  bridge_dir = [];
  bridge_done = false;
}

unfoldable pub stop : Session → Session
stop s = record s { close_once = true; stopped = true }

unfoldable pub set_mounted : Io World Bytes
set_mounted w = return guest_bridge_mount_path (record w {
  session = record w.session { bridge_dir = guest_bridge_mount_path; bridge_done = true };
})

-- An error of `MountWindowsFolder`, unless the folder is mounted already.
unfoldable pub accept_mounted : Io World (Unit {0}) → Io World (Unit {0})
accept_mounted m w = elim (m w) [
  | done _ w' ↦ done tt w'
  | fail e w' ↦
      if is_hresult e error_already_exists
      then done tt w'
      else fail (wrap mount_windows_folder_failed e) w'
  | panic ↦ panic
]

abbrev pub shell : Bytes
shell = codes "/bin/sh"

module _ (env : Env) where
  unfoldable pub create_volumes : ℕ → List VolumeOptions → Io Trace (Unit {0})
  create_volumes sess [] = return tt
  create_volumes sess (v ∷ vs) =
      wrap_with (create_volume_failed v.name) (create_volume env sess v) >> create_volumes sess vs

  unfoldable pub discard : ℕ → ℕ → Io Trace (Unit {0})
  discard mgr sess = do ignore (terminate env sess); com_release env sess; com_release env mgr

  -- `comThread` up to its loop: COM, the manager, the session and its volumes, or an error.
  unfoldable pub start : Options → Io Trace (ℕ × ℕ)
  start opts = do
    wrap_with com_init (init_com env)
    mgr ← activate env
    sess ← on_error (create_session env mgr opts) (com_release env mgr)
    on_error (create_volumes sess opts.volumes) (discard mgr sess)
    return (mgr, sess)

  unfoldable pub new_session : Options → Io Trace Session
  new_session opts =
      if needs_storage_path opts
      then raise (message volumes_need_storage_path)
      else (start opts >>= λ p. return (open_session p))

  -- The end of `comThread`, when `reqCh` is closed.
  unfoldable pub tear_down : Io World (Unit {0})
  tear_down w =
      (do
        on_trace (discard w.session.mgr w.session.sess)
        λ v. return tt (record v { session = record v.session { closed = true } }))
        w

  unfoldable pub close : Io World (Unit {0})
  close w =
      if w.session.close_once
      then return tt w
      else tear_down (record w { session = stop w.session })

  -- Another goroutine may have closed the session before the lock is taken.
  unfoldable pub interfere : Io World (Unit {0})
  interfere w = if env.others_close w.trace then close w else return tt w

  -- `s.do(f)`, where `f` leaves its results in variables of the caller: they keep their zero value if
  -- `f` never runs.
  unfoldable pub do_request : {A : Type 0} → A → Io World A → Io World A
  do_request zero_value f = do
    interfere
    λ w. if w.session.stopped then return zero_value w else f w

  unfoldable pub display_name : Io World Bytes
  display_name = do_request [] (λ w. on_trace (get_display_name env w.session.sess) w)

  unfoldable pub mount_now : Io World Bytes
  mount_now w =
      (do
        dir ← on_trace (extract_bridge_binary env)
        accept_mounted
            (on_trace (mount_windows_folder env w.session.sess dir guest_bridge_mount_path true))
        set_mounted)
        w

  unfoldable pub mount_bridge : Io World Bytes
  mount_bridge w = if w.session.bridge_done then return w.session.bridge_dir w else mount_now w

  unfoldable pub ensure_bridge_mounted : Io World Bytes
  ensure_bridge_mounted = do_request [] mount_bridge

  unfoldable pub spawn : Bytes → Bytes → Io World (Option ℕ)
  spawn script target w =
      on_trace
        (do
          p ←
              create_root_namespace_process env w.session.sess shell (shell ∷ script ∷ target ∷ [])
                true
          return (some p))
        w

  -- A method of a nil interface is a run-time panic.
  unfoldable pub std_handles : Option ℕ → Io World (ℕ × ℕ)
  std_handles none w = panic
  std_handles (some p) w =
      on_trace
        (do i ← get_std_handle env p fd_stdin; o ← get_std_handle env p fd_stdout; return (i, o)) w

  -- `s.do(process.Release)`: the method value is taken first.
  unfoldable pub release_process : Option ℕ → Io World (Unit {0})
  release_process none w = panic
  release_process (some p) w = do_request tt (on_trace (com_release env p)) w

  unfoldable pub dial : Bytes → Io World (Option ℕ × ℕ × ℕ)
  dial target = do
    dir ← ensure_bridge_mounted
    proc ←
        wrap_with (spawn_bridge target)
          (do_request none (spawn (dir ++ codes "/entrypoint.sh") target))
    handles ← on_error (do_request (0, 0) (std_handles proc)) (release_process proc)
    return (proc, handles.0, handles.1)

  unfoldable pub dial_guest_unix : Bytes → Io World (Option ℕ × ℕ × ℕ)
  dial_guest_unix path = dial (codes "unix:" ++ path)

  unfoldable pub dial_guest_tcp : Bytes → Io World (Option ℕ × ℕ × ℕ)
  dial_guest_tcp addr = dial (codes "tcp:" ++ addr)

  unfoldable pub docker_conn : Io World (Option ℕ × ℕ × ℕ)
  docker_conn = dial_guest_unix (codes "/var/run/docker.sock")
