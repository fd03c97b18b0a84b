-- ===== src/Com/Refs/Balance.antt =====
-- How each operation of com.go and comapi.go changes the references that are held. None panics.
use wslcsession.Base.{ℕ, ◌+◌, ◌≢◌, ◌≤◌, Bool, Bytes, List, arith, Run, Error}
use wslcsession.Base.Effects.{◌>>=◌}
use wslcsession.Base.Effects.Triple.{Triple}
use wslcsession.Bridge.{extract_bridge_binary, write_if_changed}
use wslcsession.Com.Api
use wslcsession.Com.HResult.{hr_err}
use wslcsession.Com.Refs.{one, Held}
use wslcsession.Com.Runtime.{check, co_create, com_release, vtbl_call, init_com}
use wslcsession.Com.Trace.{Env, Trace}
use wslcsession.Options.{Options, VolumeOptions}

module _ (env : Env) (p n : ℕ) where
  -- Neither outcome changes what is held.
  abbrev Neutral : {A : Type 0} → (Trace → Run Trace A) → Type 0
  Neutral m = Triple (Held p n) m (λ _. Held p n) (λ _. Held p n)

  -- A success hands over a reference to its result.
  abbrev Takes : (Trace → Run Trace ℕ) → Type 0
  Takes m = Triple (Held p n) m (λ obj. Held p (n + one p obj)) (λ _. Held p n)

  pub init_com-Held : Neutral (init_com env)
  unfolding init_com ◌>>=◌
  init_com-Held = record { at = λ t h. ground arith }

  -- A release does not fail.
  pub com_release-Held :
      {E : Error → Trace → Type 0} (obj : ℕ)
      → p ≢ 0
      → Triple (Held p (n + one p obj)) (com_release env obj) (λ _. Held p n) E
  unfolding com_release ◌>>=◌
  com_release-Held obj h = record { at = λ t k. ground arith }

  pub activate-Held : Takes (Api.activate env)
  unfolding Api.activate co_create ◌>>=◌
  activate-Held = record { at = λ t h. ground arith }

  pub create_session-Held :
      (mgr : ℕ) (opts : Options) → one p mgr ≤ n → Takes (Api.create_session env mgr opts)
  unfolding Api.create_session vtbl_call check ◌>>=◌
  create_session-Held mgr opts k = record { at = λ t h. ground arith }

  pub terminate-Held : (sess : ℕ) → one p sess ≤ n → Neutral (Api.terminate env sess)
  unfolding Api.terminate vtbl_call check ◌>>=◌
  terminate-Held sess k = record { at = λ t h. ground arith }

  pub get_display_name-Held : (sess : ℕ) → one p sess ≤ n → Neutral (Api.get_display_name env sess)
  unfolding Api.get_display_name vtbl_call check ◌>>=◌
  get_display_name-Held sess k = record { at = λ t h. ground arith }

  pub mount_windows_folder-Held :
      (sess : ℕ) (windows_path linux_path : Bytes) (read_only : Bool)
      → one p sess ≤ n
      → Neutral (Api.mount_windows_folder env sess windows_path linux_path read_only)
  unfolding Api.mount_windows_folder vtbl_call check ◌>>=◌
  mount_windows_folder-Held sess windows_path linux_path read_only k = record {
    at = λ t h. ground arith;
  }

  pub create_root_namespace_process-Held :
      (sess : ℕ) (executable : Bytes) (argv : List Bytes) (with_stdin : Bool)
      → one p sess ≤ n
      → Takes (Api.create_root_namespace_process env sess executable argv with_stdin)
  unfolding Api.create_root_namespace_process vtbl_call hr_err ◌>>=◌
  create_root_namespace_process-Held sess executable argv with_stdin k = record {
    at = λ t h. ground arith;
  }

  pub create_volume-Held :
      (sess : ℕ) (v : VolumeOptions) → one p sess ≤ n → Neutral (Api.create_volume env sess v)
  unfolding Api.create_volume vtbl_call check ◌>>=◌
  create_volume-Held sess v k = record { at = λ t h. ground arith }

  pub get_std_handle-Held :
      (proc fd : ℕ) → one p proc ≤ n → Neutral (Api.get_std_handle env proc fd)
  unfolding Api.get_std_handle vtbl_call check ◌>>=◌
  get_std_handle-Held proc fd k = record { at = λ t h. ground arith }

  pub extract_bridge_binary-Held : Neutral (extract_bridge_binary env)
  unfolding extract_bridge_binary write_if_changed ◌>>=◌
  extract_bridge_binary-Held = record { at = λ t h. ground arith }
