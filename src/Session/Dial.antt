-- ===== src/Session/Dial.antt =====
-- The bridge is mounted once, and the conditions under which a session is used here.
use wslcsession.Base.{ℕ, ◌≡◌, ◌⊎◌, refl, true, false, Bytes, arith, Ends, Error, Run, done}
use wslcsession.Base.Effects.{◌>>=◌}
use wslcsession.Base.Effects.Triple.{Triple, Triple-bind}
use wslcsession.Bridge.{guest_bridge_mount_path, extract_bridge_binary}
use wslcsession.Bridge.Extract.{extract_bridge_binary_total}
use wslcsession.Com.Api.{mount_windows_folder}
use wslcsession.Com.Runtime.{vtbl_call, check}
use wslcsession.Com.Trace.{Env, Trace}
use wslcsession.Session.Rules.{Triple-on_trace, Triple-accept}
use wslcsession.Session.{
  Session, World, mount_now, mount_bridge, set_mounted, interfere, do_request,
  ensure_bridge_mounted,
}

-- Nobody else closes the session.
abbrev pub IsQuiet : Env → Type 0
IsQuiet env = (t : Trace) → env.others_close t ≡ false

abbrev pub IsClosed : Session → Type 0
IsClosed s = (s.stopped ≡ true) × (s.close_once ≡ true)

-- A session that is not closed, and whose record of the bridge is right.
pub record IsOpen (s : Session) : Type 0 where
  pub going : s.stopped ≡ false
  pub once : s.close_once ≡ false
  pub bridge : (s.bridge_done ≡ false) ⊎ (s.bridge_dir ≡ guest_bridge_mount_path)

-- The session differs at most in what it knows of the bridge.
abbrev pub SameReferences : Session → Session → Type 0
SameReferences s s' = (s'.mgr ≡ s.mgr) × (s'.sess ≡ s.sess)

abbrev pub Mounted : Session → Bytes → World → Type 0
Mounted s dir w' =
    (dir ≡ guest_bridge_mount_path)
    × IsOpen w'.session
    × (w'.session.bridge_done ≡ true)
    × SameReferences s w'.session

module _ (env : Env) where
  pub extract_total : (t : Trace) → Ends (extract_bridge_binary env t) (λ _ _. Unit) (λ _ _. Unit)
  extract_total t = ground (arith, extract_bridge_binary_total env t)

  pub mount_total :
      (sess : ℕ) (dir : Bytes) (t : Trace)
      → Ends
          (mount_windows_folder env sess dir guest_bridge_mount_path true t)
          (λ _ _. Unit)
          (λ _ _. Unit)
  unfolding mount_windows_folder vtbl_call check ◌>>=◌
  mount_total sess dir t = ground arith

  set_mounted_lem :
      (s : Session) {E : Error → World → Type 0}
      → IsOpen s
      → Triple (λ w. (w.session ≡ s) × Unit {0}) set_mounted (Mounted s) E
  unfolding set_mounted ◌>>=◌
  set_mounted_lem s o = record { at = λ w h. ground (arith, h.0, o) }

  mount_now_lem :
      (w : World)
      → IsOpen w.session
      → Ends (mount_now env w) (Mounted w.session) (λ _ w'. (w'.session ≡ w.session) × Unit {0})
  unfolding mount_now
  mount_now_lem w o =
      (Triple-bind _ _
          (Triple-on_trace {P = λ _. Unit {0}} (λ s. s ≡ w.session) (extract_bridge_binary env)
            (record { at = λ t _. extract_total t }))
          (λ dir.
            Triple-bind _ _
              (Triple-accept _ (
                Triple-on_trace (λ s. s ≡ w.session)
                  (mount_windows_folder env w.session.sess dir guest_bridge_mount_path true)
                  (record { at = λ t _. mount_total w.session.sess dir t })))
              (λ _. set_mounted_lem w.session o))).at
        w (refl, tt)

  mount_bridge_lem :
      (w : World)
      → IsOpen w.session
      → Ends (mount_bridge env w) (Mounted w.session) (λ _ w'. w'.session ≡ w.session)
  unfolding mount_bridge ◌>>=◌
  mount_bridge_lem w o = ground (arith, mount_now_lem w o, o.bridge)

  -- A request on an open session runs.
  pub do_request_open :
      {A : Type 0} (zero_value : A) (f : World → Run World A) (w : World)
      → IsQuiet env
      → IsOpen w.session
      → do_request env zero_value f w ≡ f w
  unfolding do_request interfere ◌>>=◌
  do_request_open zero_value f w quiet o = rw (quiet w.trace) (rw o.going)

  -- On an open session the bridge is mounted, or there is an error and the session is as before.
  -- Afterwards it counts as mounted.
  pub ensure_bridge_mounted_lem :
      (w : World)
      → IsQuiet env
      → IsOpen w.session
      → Ends (ensure_bridge_mounted env w) (Mounted w.session) (λ _ w'. w'.session ≡ w.session)
  unfolding ensure_bridge_mounted
  ensure_bridge_mounted_lem w quiet o =
      rw (do_request_open _ (mount_bridge env) w quiet o) (mount_bridge_lem w o)

  -- A second request for a mounted bridge makes no call.
  pub ensure_bridge_mounted_again :
      (w : World)
      → IsQuiet env
      → IsOpen w.session
      → w.session.bridge_done ≡ true
      → ensure_bridge_mounted env w ≡ done guest_bridge_mount_path w
  unfolding ensure_bridge_mounted mount_bridge ◌>>=◌
  ensure_bridge_mounted_again w quiet o mounted =
      rw (do_request_open _ (mount_bridge env) w quiet o) (ground (arith, o.bridge))
