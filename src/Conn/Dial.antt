-- ===== src/Conn/Dial.antt =====
-- The calls by which a connection is dialled.
use wslcsession.Base.{
  ℕ, ◌≡◌, refl, true, false, Bytes, List, [], ◌∷◌, ◌++◌, Option, none, some, arith, Ends, codes, ap,
  ◌∙◌, spawn_bridge,
}
use wslcsession.Base.Effects.{on_error}
use wslcsession.Com.Abi.{
  slot_session_create_root_namespace_process, slot_process_get_std_handle, fd_stdin, fd_stdout,
}
use wslcsession.Com.Api.{create_root_namespace_process}
use wslcsession.Com.Trace.{Env, Trace, Call, invoke, process, descriptor}
use wslcsession.Conn.{GuestConn, dial_conn, new_guest_conn}
use wslcsession.Conn.Close.{calls}
use wslcsession.Session.Rules.{Triple-on_trace}
use wslcsession.Base.Effects.Triple.{
  Triple, Triple-bind, Triple-return, Triple-mono, Triple-on_error, Triple-wrap,
}
use wslcsession.Session.{
  Session, World, dial, ensure_bridge_mounted, spawn, std_handles, do_request, release_process,
}
use wslcsession.Session.Volumes.{com_release-Any}
use wslcsession.Session.Processes.{Triple-do_request}
use wslcsession.Bridge.{guest_bridge_mount_path}
use wslcsession.Session.Dial.{IsQuiet, IsOpen, ensure_bridge_mounted_again}
use wslcsession.Conn.Spawn.{bridge_process, spawn_calls, std_handle_call, Spawned, Dialled}

module _ (env : Env) (quiet : IsQuiet env) (s : Session) (open_s : IsOpen s) (target : Bytes)
    (l : List Call) where
  abbrev At : (List Call → Type 0) → World → Type 0
  At P w = (w.session ≡ s) × P (calls w.trace)

  spawn-Spawned :
      Triple
        (At (λ l'. l' ≡ l))
        (spawn env (codes "/mnt/wslcsession-bridge/entrypoint.sh") target)
        (λ o. At (Spawned env s.sess target l o))
        (λ _ _. Unit)
  unfolding spawn
  spawn-Spawned = record {
    at = λ w h.
        (Triple-mono
            (Triple-on_trace {P = λ t. calls t ≡ l} {E = λ _ _. Unit} (λ x. x ≡ s) _
              (Triple-bind {Q = λ p t. Spawned env s.sess target l (some p) (calls t)} _ _
                (record { at = λ t e. spawned w h.0 t e })
                (λ p.
                  Triple-return {Q = λ o t. Spawned env s.sess target l o (calls t)} (some p)
                    (λ _ k. k))))
            (λ _ _ k. k) (λ _ _ _. tt)).at
          w h;
  }
    where
      spawned :
          (w : World)
          → w.session ≡ s
          → (t : Trace) → calls t ≡ l
          → Ends
              (create_root_namespace_process env w.session.sess
                (codes "/bin/sh")
                (codes "/bin/sh" ∷ codes "/mnt/wslcsession-bridge/entrypoint.sh" ∷ target ∷ [])
                true
                t)
              (λ p t'. Spawned env s.sess target l (some p) (calls t'))
              (λ _ _. Unit)
      spawned w h t e = ground (arith, h, e, spawn_calls env w.session.sess target t)

  HasProcess : Option ℕ → Type 0
  HasProcess none = ⊥
  HasProcess (some _) = Unit

  std_handles-Dialled :
      (o : Option ℕ)
      → Triple
          (At (Spawned env s.sess target l o))
          (std_handles env o)
          (λ _. At (Dialled env s.sess target l o))
          (λ _. At (λ _. HasProcess o))
  unfolding std_handles HasProcess
  std_handles-Dialled none = record { at = λ w k. absurd k.1 }
  std_handles-Dialled (some q) =
      Triple-on_trace {P = λ t. Spawned env s.sess target l (some q) (calls t)} {E = λ _ _. Unit}
        (λ x. x ≡ s) _
        (Triple-bind {Q = λ _ t. Asked (calls t)} _ _
          (record { at = λ t k. ground (arith, k, std_handle_call env s.sess target q fd_stdin t) })
          (λ i.
            Triple-bind {Q = λ _ t. Dialled env s.sess target l (some q) (calls t)} _ _
              (record {
                at = λ t k. ground (arith, k, std_handle_call env s.sess target q fd_stdout t);
              })
              (λ o. Triple-return (i, o) (λ _ k. k))))
    where
      Asked : List Call → Type 0
      Asked l' =
          l'
          ≡ invoke q slot_process_get_std_handle (descriptor fd_stdin)
            ∷ invoke s.sess slot_session_create_root_namespace_process
                (process (codes "/bin/sh" ++ 0 ∷ []) (bridge_process target) 0 0)
            ∷ l

  session-IsOpen : (w : World) → w.session ≡ s → IsOpen w.session
  session-IsOpen w h = rw h open_s

  release_process-Any :
      (o : Option ℕ)
      → Triple (At (λ _. HasProcess o)) (release_process env o) (λ _ _. Unit {0}) (λ _ _. Unit {0})
  unfolding release_process HasProcess
  release_process-Any none = record { at = λ w k. absurd k.1 }
  release_process-Any (some q) =
      Triple-do_request env quiet tt _ (λ w h. session-IsOpen w h.0)
        (Triple-mono (Triple-on_trace (λ x. x ≡ s) _ (com_release-Any env {E = λ _ _. Unit} q))
          (λ _ _ _. tt) (λ _ _ _. tt))

  -- Behind the mount.
  open_process :
      (o : Option ℕ)
      → Triple
          (At (Spawned env s.sess target l o))
          (on_error (do_request env (0, 0) (std_handles env o)) (release_process env o))
          (λ _. At (Dialled env s.sess target l o))
          (λ _ _. Unit)
  open_process o =
      Triple-on_error _ _
        (Triple-do_request env quiet (0, 0) _ (λ w h. session-IsOpen w h.0) (std_handles-Dialled o))
        (λ _. release_process-Any o)

  dial-Dialled :
      s.bridge_done ≡ true
      → Triple
          (At (λ l'. l' ≡ l))
          (dial env target)
          (λ r. At (Dialled env s.sess target l r.0))
          (λ _ _. Unit)
  unfolding dial
  dial-Dialled mounted =
      Triple-bind {Q = λ dir w. (dir ≡ guest_bridge_mount_path) × At (λ l'. l' ≡ l) w} _ _
        (record { at = mounted_now })
        (λ dir. record {
          at = λ w h. rw h.0 (
              (Triple-bind _ _
                  (Triple-wrap (spawn_bridge target) _ (
                    Triple-do_request env quiet none _ (λ w h. session-IsOpen w h.0) spawn-Spawned))
                  (λ o.
                    Triple-bind _ _ (open_process o)
                      (λ hs. Triple-return (o, hs.0, hs.1) (λ _ k. k)))).at
                w h.1);
        })
    where
      mounted_now :
          (w : World)
          → At (λ l'. l' ≡ l) w
          → Ends
              (ensure_bridge_mounted env w)
              (λ dir v. (dir ≡ guest_bridge_mount_path) × At (λ l'. l' ≡ l) v)
              (λ _ _. Unit)
      mounted_now w h =
          rw
            (ensure_bridge_mounted_again env w quiet (session-IsOpen w h.0)
              (ap (λ x. x.bridge_done) h.0 ∙ mounted))
            (refl, h)

Connected : Session → Bytes → List Call → GuestConn → World → Type 0
Connected s target l c w' =
    (p : ℕ) × (c.process ≡ some p)
    × (c.closed ≡ false)
    × (c.write_closed ≡ false)
    × (w'.session ≡ s)
    × (calls w'.trace
        ≡ invoke p slot_process_get_std_handle (descriptor fd_stdout)
          ∷ invoke p slot_process_get_std_handle (descriptor fd_stdin)
          ∷ invoke s.sess slot_session_create_root_namespace_process
              (process (codes "/bin/sh" ++ 0 ∷ []) (bridge_process target) 0 0)
          ∷ l)

connected :
    (env : Env) (s : Session) (target : Bytes) (l : List Call) (o : Option ℕ) (i j : ℕ) (w : World)
    → w.session ≡ s
    → Dialled env s.sess target l o (calls w.trace)
    → Connected s target l (new_guest_conn (o, i, j)) w
unfolding new_guest_conn Connected
connected env s target l none i j w e k = absurd k
connected env s target l (some p) i j w e k = (p, refl, refl, refl, e, k)

-- On an open session that nobody closes and whose bridge is mounted, a connection is made by exactly three calls, in this
-- order: a shell is started in the guest that runs the mounted script on the target, with its input
-- connected, and the new process is asked for its input and its output. The session stays as it is.
pub dial_conn-calls :
    (env : Env) (target : Bytes) (w : World)
    → IsQuiet env
    → IsOpen w.session
    → w.session.bridge_done ≡ true
    → Ends
        (dial_conn env target w)
        (λ c w'.
          (p : ℕ) × (c.process ≡ some p)
          × (c.closed ≡ false)
          × (c.write_closed ≡ false)
          × (w'.session ≡ w.session)
          × (calls w'.trace
              ≡ invoke p slot_process_get_std_handle (descriptor fd_stdout)
                ∷ invoke p slot_process_get_std_handle (descriptor fd_stdin)
                ∷ invoke w.session.sess slot_session_create_root_namespace_process
                    (process (codes "/bin/sh" ++ 0 ∷ []) (bridge_process target) 0 0)
                ∷ calls w.trace))
        (λ _ _. Unit)
unfolding dial_conn Connected
dial_conn-calls env target w quiet o mounted =
    (Triple-bind {R = Connected w.session target (calls w.trace)} _ _
        (dial-Dialled env quiet w.session o target (calls w.trace) mounted)
        (λ r.
          Triple-return (new_guest_conn r)
            (λ v k. connected env w.session target (calls w.trace) r.0 r.1 r.2 v k.0 k.1))).at
      w (refl, refl)
