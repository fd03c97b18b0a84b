-- ===== src/Session/Threads/Requests/Closures.antt =====
-- session.go: the closures that the methods of a session hand to `do`.
use wslcsession.Base.{
  ℕ, ◌≡◌, refl, Bool, true, false, if◌then◌else◌, some, none, Option, Bytes, Io, Run, done, fail,
  panic, Ends, Result, arith, return,
}
use wslcsession.Base.Effects.{◌>>=◌}
use wslcsession.Base.Effects.Triple.{Triple, Triple-bind}
use wslcsession.Bridge.{guest_bridge_mount_path, extract_bridge_binary}
use wslcsession.Com.Api.{get_display_name, mount_windows_folder}
use wslcsession.Com.Runtime.{com_release}
use wslcsession.Com.Trace.{Env, Trace}
use wslcsession.Session.{
  Session, World, on_trace, mount_now, mount_bridge, set_mounted, spawn, std_handles,
}
use wslcsession.Session.Dial.{extract_total, mount_total}
use wslcsession.Session.Rules.{Triple-on_trace, Triple-accept}
use wslcsession.Session.Threads.Requests.{outcome, SameFlags, IsRequest}

abbrev Keeps : World → {A : Type 0} → Run World A → Type 0
Keeps w (done _ w') = SameFlags w.session w'.session
Keeps w (fail _ w') = SameFlags w.session w'.session
Keeps w panic = Unit

Keeps-IsRequest : {A : Type 0} (f : Io World A) → ((w : World) → Keeps w (f w)) → IsRequest f
unfolding outcome
Keeps-IsRequest {A} f k = record { flags = λ w w' r e. go w w' r (f w) (k w) e }
  where
    go :
        (w w' : World) (r : Result A) (x : Run World A)
        → Keeps w x
        → outcome x ≡ some (r, w')
        → SameFlags w.session w'.session
    go w w' r (done a v) h e = ground (arith, h)
    go w w' r (fail a v) h e = ground (arith, h)
    go w w' r panic h e = ground arith

Keeps-if :
    {A : Type 0} (w : World) (b : Bool) (x y : Run World A)
    → Keeps w x
    → Keeps w y
    → Keeps w (if b then x else y)
Keeps-if w true x y h k = h
Keeps-if w false x y h k = k

Ends-Keeps :
    {A : Type 0} (w : World) (r : Run World A)
    → Ends r
        (λ _ w'. SameFlags w.session w'.session × Unit {0})
        (λ _ w'. SameFlags w.session w'.session × Unit {0})
    → Keeps w r
Ends-Keeps w (done _ w') h = h.0
Ends-Keeps w (fail _ w') h = h.0
Ends-Keeps w panic h = absurd h

-- A closure that only makes calls on the COM thread.
pub on_trace-IsRequest :
    {A : Type 0} (m : Session → Io Trace A) → IsRequest (λ w. on_trace (m w.session) w)
unfolding on_trace
on_trace-IsRequest {A} m = Keeps-IsRequest _ (λ w. go w (m w.session w.trace))
  where
    go :
        (w : World) (r : Run Trace A)
        → Keeps w (elim r as (λ _. Run World A) [
          | done a t ↦ done a (record w { trace = t })
          | fail e t ↦ fail e (record w { trace = t })
          | panic ↦ panic
        ])
    go w (done a t) = (refl, refl, refl)
    go w (fail a t) = (refl, refl, refl)
    go w panic = tt

pub return-IsRequest : {A : Type 0} (a : A) → IsRequest (return a)
unfolding ◌>>=◌
return-IsRequest a = Keeps-IsRequest _ (λ w. (refl, refl, refl))

module _ (env : Env) where
  set_mounted_keeps :
      (s : Session)
      → Triple
          (λ w. SameFlags s w.session × Unit {0})
          set_mounted
          (λ _ w. SameFlags s w.session × Unit {0})
          (λ _ w. SameFlags s w.session × Unit {0})
  unfolding set_mounted ◌>>=◌
  set_mounted_keeps s = record { at = λ w h. (h.0, tt) }

  mount_now_keeps :
      (w : World)
      → Ends
          (mount_now env w)
          (λ _ v. SameFlags w.session v.session × Unit {0})
          (λ _ v. SameFlags w.session v.session × Unit {0})
  unfolding mount_now
  mount_now_keeps w =
      (Triple-bind _ _
          (Triple-on_trace {P = λ _. Unit {0}} (SameFlags w.session) (extract_bridge_binary env)
            (record { at = λ t _. extract_total env t }))
          (λ dir.
            Triple-bind _ _
              (Triple-accept _ (
                Triple-on_trace (SameFlags w.session)
                  (mount_windows_folder env w.session.sess dir guest_bridge_mount_path true)
                  (record { at = λ t _. mount_total env w.session.sess dir t })))
              (λ _. set_mounted_keeps w.session))).at
        w ((refl, refl, refl), tt)

  std_handles-IsRequest : (process : Option ℕ) → IsRequest (std_handles env process)
  unfolding std_handles
  std_handles-IsRequest none = Keeps-IsRequest _ (λ w. tt)
  std_handles-IsRequest (some p) = on_trace-IsRequest (λ _. _)

  mount_bridge-IsRequest : IsRequest (mount_bridge env)
  unfolding mount_bridge ◌>>=◌
  mount_bridge-IsRequest = Keeps-IsRequest _ (λ w.
      Keeps-if w w.session.bridge_done _ _ (refl, refl, refl) (Ends-Keeps w _ (mount_now_keeps w)))

  -- The closures of `DisplayName`, of the three steps of `dial` and of `releaseProcess`.
  pub closures-IsRequest :
      (script target : Bytes) (process : Option ℕ) (p : ℕ)
      → IsRequest (λ w. on_trace (get_display_name env w.session.sess) w)
        × IsRequest (mount_bridge env)
        × IsRequest (spawn env script target)
        × IsRequest (std_handles env process)
        × IsRequest (on_trace (com_release env p))
  unfolding spawn
  closures-IsRequest script target process p = (
    on_trace-IsRequest (λ s. get_display_name env s.sess),
    mount_bridge-IsRequest,
    on_trace-IsRequest (λ s. _),
    std_handles-IsRequest process,
    on_trace-IsRequest (λ _. com_release env p),
  )
