-- ===== src/Session/Interference.antt =====
-- Dialling while other goroutines may close the session before any request.
use wslcsession.Base.{
  ℕ, ◌≡◌, refl, Bool, true, false, Bytes, [], ◌++◌, Option, none, some, arith, Run, done, fail,
  panic, Io, Ends, Error, codes, spawn_bridge, return, if◌then◌else◌,
}
use wslcsession.Base.Effects.{◌>>=◌, bind_run}
use wslcsession.Base.Effects.Triple.{
  Triple, Triple-return, Triple-bind, Triple-on_error, Triple-wrap, Triple-mono,
}
use wslcsession.Bridge.{guest_bridge_mount_path, extract_bridge_binary}
use wslcsession.Com.Api.{
  create_root_namespace_process, get_std_handle, mount_windows_folder, check_exec, std_socket,
}
use wslcsession.Com.Runtime.{vtbl_call, check}
use wslcsession.Com.Trace.{Env}
use wslcsession.Session.{
  Session, World, on_trace, close, stop, tear_down, interfere, do_request, mount_now, mount_bridge,
  set_mounted, ensure_bridge_mounted, spawn, std_handles, release_process, dial, discard,
}
use wslcsession.Session.Dial.{extract_total, mount_total}
use wslcsession.Session.Rules.{Triple-on_trace, Triple-accept}
use wslcsession.Session.Volumes.{discard-Any, com_release-Any}

-- The session is marked as stopped exactly if its `closeOnce` has run.
abbrev pub IsConsistent : Session → Type 0
IsConsistent s = s.close_once ≡ s.stopped

abbrev HasProcess : Option ℕ → Type 0
HasProcess none = ⊥
HasProcess (some _) = Unit

-- There is a process, or the session is closed.
abbrev pub IsReady : Option ℕ → Session → Type 0
IsReady none s = s.stopped ≡ true
IsReady (some _) s = Unit

abbrev Ready : Option ℕ → World → Type 0
Ready o w = IsConsistent w.session × IsReady o w.session

abbrev Running : Option ℕ → World → Type 0
Running o w = IsConsistent w.session × HasProcess o

IsReady-HasProcess : (o : Option ℕ) (s : Session) → s.stopped ≡ false → IsReady o s → HasProcess o
IsReady-HasProcess none s going ready = ground arith
IsReady-HasProcess (some p) s going ready = tt

HasProcess-IsReady : (o : Option ℕ) (s : Session) → HasProcess o → IsReady o s
HasProcess-IsReady none s h = absurd h
HasProcess-IsReady (some p) s h = tt

module _ (env : Env) where
  close_lem :
      (w : World)
      → IsConsistent w.session
      → Ends
          (close env w)
          (λ _ w'. IsConsistent w'.session × (w'.session.stopped ≡ true))
          (λ _ _. ⊥)
  unfolding close tear_down stop on_trace ◌>>=◌
  close_lem w c =
      let d : Ends (discard env w.session.mgr w.session.sess w.trace) (λ _ _. Unit) (λ _ _. ⊥) =
        (discard-Any env w.session.mgr w.session.sess).at w.trace tt in
      ground (arith, c, d)

  interfere-Ready :
      (o : Option ℕ) (w : World) → Ready o w → Ends (interfere env w) (λ _. Ready o) (λ _ _. ⊥)
  unfolding interfere ◌>>=◌
  interfere-Ready none w h = ground (arith, h, close_lem w h.0)
  interfere-Ready (some p) w h = ground (arith, h, close_lem w h.0)

  module _ {A : Type 0} {Q : A → World → Type 0} {E : Error → World → Type 0} where
    -- What a request does behind the moment at which others may have closed the session.
    request_runs :
        (o : Option ℕ) (zero_value : A) (f : Io World A) (w : World)
        → Ready o w
        → ((v : World) → Ready o v → v.session.stopped ≡ true → Q zero_value v)
        → Triple (Running o) f Q E
        → Ends (if w.session.stopped then return zero_value w else f w) Q E
    unfolding ◌>>=◌
    request_runs o zero_value f w h stopped t = branch w.session.stopped refl
      where
        branch :
            (b : Bool) → w.session.stopped ≡ b → Ends (if b then return zero_value w else f w) Q E
        branch true shut = stopped w h shut
        branch false going = t.at w (h.0, IsReady-HasProcess o w.session going h.1)

    Triple-request :
        (o : Option ℕ) (zero_value : A) (f : Io World A)
        → ((v : World) → Ready o v → v.session.stopped ≡ true → Q zero_value v)
        → Triple (Running o) f Q E
        → Triple (Ready o) (do_request env zero_value f) Q E
    unfolding do_request ◌>>=◌
    Triple-request o zero_value f stopped t = record {
      at = λ w h. go (interfere env w) (interfere-Ready o w h);
    }
      where
        go :
            (r : Run World (Unit {0}))
            → Ends r (λ _. Ready o) (λ _ _. ⊥)
            → Ends
                (bind_run r (λ _ w. (if w.session.stopped then return zero_value w else f w)))
                Q
                E
        go (done _ w) h = request_runs o zero_value f w h stopped t
        go (fail e w) h = absurd h
        go panic h = h

  set_mounted-Ready :
      {E : Error → World → Type 0}
      → Triple
          (λ w. IsConsistent w.session × Unit {0})
          set_mounted
          (λ _ w. IsConsistent w.session × Unit {0})
          E
  unfolding set_mounted ◌>>=◌
  set_mounted-Ready = record { at = λ w h. (ground (arith, h.0), tt) }

  mount_now-Ready :
      Triple
        (λ w. IsConsistent w.session × Unit {0})
        (mount_now env)
        (λ _ w. IsConsistent w.session × Unit {0})
        (λ _ w. IsConsistent w.session × Unit {0})
  unfolding mount_now
  mount_now-Ready = record {
    at = λ w h.
        (Triple-bind _ _
            (Triple-on_trace {P = λ _. Unit {0}} IsConsistent (extract_bridge_binary env)
              (record { at = λ t _. extract_total env t }))
            (λ dir.
              Triple-bind _ _
                (Triple-accept _ (
                  Triple-on_trace IsConsistent
                    (mount_windows_folder env w.session.sess dir guest_bridge_mount_path true)
                    (record { at = λ t _. mount_total env w.session.sess dir t })))
                (λ _. set_mounted-Ready))).at
          w h;
  }

  mount_bridge-Ready :
      Triple
        (λ w. IsConsistent w.session × Unit {0})
        (mount_bridge env)
        (λ _ w. IsConsistent w.session × Unit {0})
        (λ _ w. IsConsistent w.session × Unit {0})
  unfolding mount_bridge ◌>>=◌
  mount_bridge-Ready = record { at = λ w h. ground (arith, h, mount_now-Ready.at w h) }

  spawn-Ready :
      (script target : Bytes)
      → Triple
          (λ w. IsConsistent w.session × Unit {0})
          (spawn env script target)
          Ready
          (λ _ w. IsConsistent w.session)
  unfolding spawn create_root_namespace_process vtbl_call check_exec on_trace ◌>>=◌
  spawn-Ready script target = record { at = λ w h. ground (arith, h.0) }

  std_handles-Running :
      (o : Option ℕ) → Triple (Running o) (std_handles env o) (λ _. Running o) (λ _. Running o)
  unfolding std_handles get_std_handle vtbl_call check std_socket on_trace ◌>>=◌
  std_handles-Running none = record { at = λ w h. absurd h.1 }
  std_handles-Running (some p) = record { at = λ w h. ground arith }

  release-Running :
      (o : Option ℕ)
      → Triple
          (Running o)
          (release_process env o)
          (λ _ w. IsConsistent w.session)
          (λ _ w. IsConsistent w.session)
  unfolding release_process
  release-Running none = record { at = λ w h. absurd h.1 }
  release-Running (some q) =
      Triple-request (some q) tt _ (λ v h _. h.0)
        (Triple-mono (Triple-on_trace {E = λ _ _. Unit} IsConsistent _ (com_release-Any env q))
          (λ _ _ h. h.0) (λ _ _ h. h.0))

  dial-Triple :
      (target : Bytes)
      → Triple
          (λ w. IsConsistent w.session × Unit {0})
          (dial env target)
          (λ r. Ready r.0)
          (λ _ w. IsConsistent w.session)
  unfolding dial ensure_bridge_mounted
  dial-Triple target =
      Triple-bind _ _
        (Triple-mono (Triple-request (some 0) [] _ (λ v h _. h) mount_bridge-Ready) (λ _ _ h. h)
          (λ _ _ h. h.0))
        (λ dir.
          Triple-bind _ _
            (Triple-wrap (spawn_bridge target) _ (
              Triple-request (some 0) none _ (λ v h shut. (h.0, shut))
                (spawn-Ready (dir ++ codes "/entrypoint.sh") target)))
            (λ o.
              Triple-bind _ _
                (Triple-on_error _ _
                  (Triple-request o (0, 0) _ (λ v h _. h)
                    (Triple-mono (std_handles-Running o)
                      (λ _ v h. (h.0, HasProcess-IsReady o v.session h.1)) (λ _ _ h. h)))
                  (λ _. release-Running o))
                (λ hs. Triple-return (o, hs.0, hs.1) (λ _ h. h))))

  -- Whatever the service answers and whenever other goroutines close the session, dialling does not
  -- panic; a success has a process, or the session has been closed.
  pub dial_lem :
      (target : Bytes) (w : World)
      → IsConsistent w.session
      → Ends
          (dial env target w)
          (λ r w'. IsConsistent w'.session × IsReady r.0 w'.session)
          (λ _ w'. IsConsistent w'.session)
  dial_lem target w h = (dial-Triple target).at w (h, tt)
