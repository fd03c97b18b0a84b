-- ===== src/Conn/Spawn.antt =====
-- The calls by which `dial` starts the process of a connection and asks for its handles.
use wslcsession.Base.{
  ℕ, ◌≡◌, true, Bytes, List, [], ◌∷◌, ◌++◌, Option, none, some, arith, Ends, codes,
}
use wslcsession.Base.Effects.{◌>>=◌}
use wslcsession.Com.Abi.{
  ProcessOptions, process_flag_stdin, slot_session_create_root_namespace_process,
  slot_process_get_std_handle, fd_stdin, fd_stdout,
}
use wslcsession.Com.Api.{
  create_root_namespace_process, get_std_handle, make_string_array, byte_ptrs, process_options,
  check_exec, std_socket,
}
use wslcsession.Com.Runtime.{vtbl_call, check}
use wslcsession.Strings.Pointers.{byte_ptr}
use wslcsession.Com.Trace.{Env, Trace, Call, invoke, process, descriptor}
use wslcsession.Conn.Close.{calls}

-- The process that runs the bridge for a target: a shell, its script and the target, with an input.
abbrev pub bridge_process : Bytes → ProcessOptions
bridge_process target = record {
  current_directory = none;
  user = none;
  command_line = record {
    values = some (
        (codes "/bin/sh" ++ 0 ∷ [])
        ∷ (codes "/mnt/wslcsession-bridge/entrypoint.sh" ++ 0 ∷ [])
        ∷ (target ++ 0 ∷ [])
        ∷ []);
    count = 3;
  };
  environment = record { values = none; count = 0 };
  flags = process_flag_stdin;
}

module _ (env : Env) (sess : ℕ) (target : Bytes) where
  pub spawn_calls :
      (t : Trace)
      → Ends
          (create_root_namespace_process env sess
            (codes "/bin/sh")
            (codes "/bin/sh" ∷ codes "/mnt/wslcsession-bridge/entrypoint.sh" ∷ target ∷ [])
            true
            t)
          (λ _ t'.
            calls t'
            ≡ invoke sess slot_session_create_root_namespace_process
                (process (codes "/bin/sh" ++ 0 ∷ []) (bridge_process target) 0 0)
              ∷ calls t)
          (λ _ _. Unit)
  unfolding create_root_namespace_process make_string_array byte_ptr byte_ptrs vtbl_call check_exec
      process_options ◌>>=◌
  spawn_calls t = ground arith

  pub std_handle_call :
      (p fd : ℕ) (t : Trace)
      → Ends
          (get_std_handle env p fd t)
          (λ _ t'. calls t' ≡ invoke p slot_process_get_std_handle (descriptor fd) ∷ calls t)
          (λ _ _. Unit)
  unfolding get_std_handle vtbl_call check std_socket ◌>>=◌
  std_handle_call p fd t = ground arith

  -- The history behind `l`, when the bridge runs as the process `p`.
  abbrev pub Spawned : List Call → Option ℕ → List Call → Type 0
  Spawned l none l' = ⊥
  Spawned l (some p) l' =
      l'
      ≡ invoke sess slot_session_create_root_namespace_process
          (process (codes "/bin/sh" ++ 0 ∷ []) (bridge_process target) 0 0)
        ∷ l

  -- And when its two handles were asked for.
  abbrev pub Dialled : List Call → Option ℕ → List Call → Type 0
  Dialled l none l' = ⊥
  Dialled l (some p) l' =
      l'
      ≡ invoke p slot_process_get_std_handle (descriptor fd_stdout)
        ∷ invoke p slot_process_get_std_handle (descriptor fd_stdin)
        ∷ invoke sess slot_session_create_root_namespace_process
            (process (codes "/bin/sh" ++ 0 ∷ []) (bridge_process target) 0 0)
        ∷ l
