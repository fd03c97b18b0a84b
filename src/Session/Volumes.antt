-- ===== src/Session/Volumes.antt =====
-- The volumes that a session is started with.
use wslcsession.Base.{
  Error, ℕ, ◌≡◌, ◌≢◌, refl, sym, ◌∙◌, List, [], ◌∷◌, ◌++◌, arith, map, Ends, Run, All, return,
  message, com_init, create_volume_failed, volumes_need_storage_path, if◌then◌else◌, ◌==◌, Lacks,
  contains-Lacks,
}
use mathlib.Core.List.{append-nil, append_assoc}
use wslcsession.Base.Effects.{◌>>=◌}
use wslcsession.Base.Effects.Triple.{
  Triple, Triple-return, Triple-raise, Triple-if, Triple-bind, Triple-on_error, Triple-wrap,
  Triple-ignore, Triple-mono,
}
use wslcsession.Com.Abi.{VolumeRequest, volume_driver_vhd, slot_session_create_volume}
use wslcsession.Com.Api.{
  volume_request, create_volume, create_named_volume, activate, create_session, terminate,
}
use wslcsession.Com.Runtime.{com_release, init_com, co_create, vtbl_call, check}
use wslcsession.Com.Trace.{Env, Trace, Call, invoke, volume}
use wslcsession.Options.{Options, VolumeOptions}
use wslcsession.Session.{
  create_volumes, discard, start, new_session, needs_storage_path, open_session,
}
use wslcsession.Strings.Pointers.{byte_ptr}

abbrev asked_by : Call → List (ℕ × VolumeRequest)
asked_by (invoke obj slot (volume r)) =
    if slot == slot_session_create_volume then (obj, r) ∷ [] else []
asked_by _ = []

-- The calls of `CreateVolume` in a history, the oldest first: the object and the request.
abbrev pub asked : Trace → List (ℕ × VolumeRequest)
asked [] = []
asked (e ∷ t) = asked t ++ asked_by e.call

-- The request for a volume of a session.
abbrev pub request_of : ℕ → VolumeOptions → ℕ × VolumeRequest
request_of sess v = (sess, volume_request v (v.name ++ 0 ∷ []) (volume_driver_vhd ++ 0 ∷ []))

-- A volume that can be asked for.
abbrev pub IsAskable : VolumeOptions → Type 0
IsAskable v = (v.name ≢ []) × (v.size_mb ≢ 0) × Lacks 0 v.name

module _ (env : Env) where
  create_volume-asked :
      (sess : ℕ) (v : VolumeOptions) (x : List (ℕ × VolumeRequest))
      → Triple
          (λ t. asked t ≡ x)
          (create_volume env sess v)
          (λ _ t. (asked t ≡ x ++ request_of sess v ∷ []) × IsAskable v)
          (λ _ _. Unit)
  unfolding create_volume create_named_volume vtbl_call check byte_ptr ◌>>=◌
  create_volume-asked sess v x = record { at = λ t h. ground (arith, contains-Lacks 0 v.name) }

  create_volumes-asked :
      (sess : ℕ) (vs : List VolumeOptions) (x : List (ℕ × VolumeRequest))
      → Triple
          (λ t. asked t ≡ x)
          (create_volumes env sess vs)
          (λ _ t. (asked t ≡ x ++ map (request_of sess) vs) × All IsAskable vs)
          (λ _ _. Unit)
  unfolding create_volumes
  create_volumes-asked sess [] x = Triple-return tt (λ t h. (h ∙ sym (append-nil x), tt))
  create_volumes-asked sess (v ∷ vs) x = record {
    at = λ t h.
        (Triple-bind _ _
            (Triple-wrap (create_volume_failed v.name) _ (create_volume-asked sess v x))
            (λ _. record {
              at = λ t' k.
                  (Triple-mono (create_volumes-asked sess vs (x ++ request_of sess v ∷ []))
                      (λ _ t'' j. (j.0 ∙ append_assoc x _ _, (k.1, j.1))) (λ _ _ _. tt)).at
                    t' k.0;
            })).at
          t h;
  }

  -- The calls before the volumes ask for none.
  module _ (x : List (ℕ × VolumeRequest)) where
    abbrev AsksNone : {A : Type 0} → (Trace → Run Trace A) → Type 0
    AsksNone m = Triple (λ t. asked t ≡ x) m (λ _ t. asked t ≡ x) (λ _ _. Unit)

    init_com-asked : AsksNone (init_com env)
    unfolding init_com ◌>>=◌
    init_com-asked = record { at = λ t h. ground (arith, append-nil x) }

    activate-asked : AsksNone (activate env)
    unfolding activate co_create ◌>>=◌
    activate-asked = record { at = λ t h. ground (arith, append-nil x) }

    create_session-asked : (mgr : ℕ) (opts : Options) → AsksNone (create_session env mgr opts)
    unfolding create_session vtbl_call check ◌>>=◌
    create_session-asked mgr opts = record { at = λ t h. ground (arith, append-nil x) }

  -- The cleanups return.
  pub com_release-Any :
      {E : Error → Trace → Type 0} (obj : ℕ)
      → Triple (λ _. Unit {0}) (com_release env obj) (λ _ _. Unit {0}) E
  unfolding com_release vtbl_call ◌>>=◌
  com_release-Any obj = record { at = λ t _. ground arith }

  terminate-Any :
      (sess : ℕ) → Triple (λ _. Unit {0}) (terminate env sess) (λ _ _. Unit {0}) (λ _ _. Unit {0})
  unfolding terminate vtbl_call check ◌>>=◌
  terminate-Any sess = record { at = λ t _. ground arith }

  pub discard-Any :
      {E : Error → Trace → Type 0} (mgr sess : ℕ)
      → Triple (λ _. Unit {0}) (discard env mgr sess) (λ _ _. Unit {0}) E
  unfolding discard
  discard-Any mgr sess =
      Triple-bind _ _ (Triple-ignore _ (terminate-Any sess))
        (λ _. Triple-bind _ _ (com_release-Any sess) (λ _. com_release-Any mgr))

  AllAsked : List (ℕ × VolumeRequest) → Options → ℕ → Trace → Type 0
  AllAsked x opts sess t =
      (asked t ≡ x ++ map (request_of sess) opts.volumes) × All IsAskable opts.volumes

  start-asked :
      (opts : Options) (x : List (ℕ × VolumeRequest))
      → Triple (λ t. asked t ≡ x) (start env opts) (λ r. AllAsked x opts r.1) (λ _ _. Unit)
  unfolding start AllAsked
  start-asked opts x = Triple-bind _ _ (Triple-wrap com_init _ (init_com-asked x)) (λ _.
      Triple-bind _ _ (activate-asked x) (λ mgr.
        Triple-bind _ _
          (Triple-on_error _ _ (create_session-asked x mgr opts) (λ _. com_release-Any mgr))
          (λ sess.
            Triple-bind _ _
              (Triple-on_error _ _ (create_volumes-asked sess opts.volumes x)
                (λ _. discard-Any mgr sess))
              (λ _. Triple-return (mgr, sess) (λ _ k. k)))))

  new_session-Triple :
      (opts : Options) (x : List (ℕ × VolumeRequest))
      → Triple (λ t. asked t ≡ x) (new_session env opts) (λ s. AllAsked x opts s.sess) (λ _ _. Unit)
  unfolding new_session open_session
  new_session-Triple opts x =
      Triple-if (needs_storage_path opts) _ (start env opts >>= λ r. return (open_session r))
        (λ _. Triple-raise (message volumes_need_storage_path) (λ _ _. tt))
        (λ _. Triple-bind _ _ (start-asked opts x) (λ r. Triple-return (open_session r) (λ _ k. k)))

  -- A session is given out only when each of its volumes, in the order of the options and once, was
  -- asked for on this session and on no other, and each has a name, with no NUL in it, and a size.
  pub new_session-asked :
      (opts : Options) (t : Trace)
      → Ends
          (new_session env opts t)
          (λ s t'.
            (asked t' ≡ asked t ++ map (request_of s.sess) opts.volumes)
            × All IsAskable opts.volumes)
          (λ _ _. Unit)
  unfolding AllAsked
  new_session-asked opts t = (new_session-Triple opts (asked t)).at t refl
