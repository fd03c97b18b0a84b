-- ===== src/Session/References.antt =====
-- The COM references that a session takes and gives back: all or nothing at its start, all at its
-- end.
use wslcsession.Base.{
  ℕ, ◌+◌, ◌≡◌, ◌≢◌, ◌≤◌, List, [], ◌∷◌, arith, create_volume_failed, com_init, message,
  volumes_need_storage_path, return, Error, false, Ends, refl, inl,
}
use wslcsession.Base.Effects.{◌>>=◌}
use wslcsession.Base.Effects.Triple.{
  Triple, Triple-return, Triple-raise, Triple-if, Triple-bind, Triple-on_error, Triple-ignore,
  Triple-wrap, Triple-mono,
}
use wslcsession.Com.Refs.{one, Held}
use wslcsession.Com.Refs.Balance
use wslcsession.Com.Trace.{Env, Trace}
use wslcsession.Options.{Options, VolumeOptions}
use wslcsession.Session.Dial.{IsOpen}
use wslcsession.Session.{
  World, create_volumes, discard, start, new_session, close, tear_down, on_trace,
  needs_storage_path, open_session, stop,
}

module _ (env : Env) (p : ℕ) where
  create_volumes-Held :
      (n sess : ℕ) (vs : List VolumeOptions)
      → one p sess ≤ n
      → Triple (Held p n) (create_volumes env sess vs) (λ _. Held p n) (λ _. Held p n)
  unfolding create_volumes
  create_volumes-Held n sess [] k = Triple-return tt (λ _ h. h)
  create_volumes-Held n sess (v ∷ vs) k =
      Triple-bind _ _
        (Triple-wrap (create_volume_failed v.name) _ (Balance.create_volume-Held env p n sess v k))
        (λ _. create_volumes-Held n sess vs k)

  discard-Held :
      {E : Error → Trace → Type 0} (n mgr sess : ℕ)
      → p ≢ 0
      → Triple (Held p (n + one p mgr + one p sess)) (discard env mgr sess) (λ _. Held p n) E
  unfolding discard
  discard-Held n mgr sess h =
      Triple-bind _ _ (Triple-ignore _ (Balance.terminate-Held env p _ sess (omega arith))) (λ _.
        Triple-bind _ _ (Balance.com_release-Held env p _ sess h)
          (λ _. Balance.com_release-Held env p _ mgr h))

  start-Held :
      (n : ℕ) (opts : Options)
      → p ≢ 0
      → Triple (Held p n) (start env opts) (λ r. Held p (n + one p r.0 + one p r.1)) (λ _. Held p n)
  unfolding start
  start-Held n opts h =
      Triple-bind _ _ (Triple-wrap com_init _ (Balance.init_com-Held env p n)) (λ _.
        Triple-bind _ _ (Balance.activate-Held env p n) (λ mgr.
          Triple-bind _ _
            (Triple-on_error _ _ (Balance.create_session-Held env p _ mgr opts (omega arith))
              (λ _. Balance.com_release-Held env p n mgr h))
            (λ sess.
              Triple-bind _ _
                (Triple-on_error _ _ (create_volumes-Held _ sess opts.volumes (omega arith))
                  (λ _. discard-Held n mgr sess h))
                (λ _. Triple-return (mgr, sess) (λ _ k. k)))))

  -- What `new_session-Held` states, and that the session is open.
  pub new_session-Triple :
      (n : ℕ) (opts : Options)
      → p ≢ 0
      → Triple
          (Held p n)
          (new_session env opts)
          (λ s t. IsOpen s × Held p (n + one p s.mgr + one p s.sess) t)
          (λ _. Held p n)
  unfolding new_session open_session
  new_session-Triple n opts h =
      Triple-if (needs_storage_path opts) _ (start env opts >>= λ r. return (open_session r))
        (λ _. Triple-raise (message volumes_need_storage_path) (λ _ k. k))
        (λ _. Triple-bind _ _ (start-Held n opts h) (λ r.
          Triple-return (open_session r)
            (λ _ k. (record { going = refl; once = refl; bridge = inl refl }, k))))

  -- Opening a session takes a reference to the manager and one to the session. If anything fails,
  -- a volume included, every reference that was taken is given back. No object is used without a
  -- reference to it, and there is no panic.
  pub new_session-Held :
      (n : ℕ) (opts : Options) (t : Trace)
      → p ≢ 0
      → Held p n t
      → Ends (new_session env opts t) (λ s. Held p (n + one p s.mgr + one p s.sess)) (λ _. Held p n)
  new_session-Held n opts t h k =
      (Triple-mono (new_session-Triple n opts h) (λ _ _ k. k.1) (λ _ _ k. k)).at t k

  tear_down-Held :
      (n : ℕ) (w : World)
      → p ≢ 0
      → Held p (n + one p w.session.mgr + one p w.session.sess) w.trace
      → Ends (tear_down env w) (λ _ w'. Held p n w'.trace) (λ _ _. ⊥)
  unfolding tear_down on_trace ◌>>=◌
  tear_down-Held n w h k =
      let d : Ends (discard env w.session.mgr w.session.sess w.trace) (λ _ t. Held p n t)
          (λ _ _. ⊥) =
        (discard-Held n w.session.mgr w.session.sess h).at w.trace k in
      ground arith

  -- The first `Close` gives back the references to the manager and the session, uses no object
  -- without a reference to it, and does not panic.
  pub close-Held :
      (n : ℕ) (w : World)
      → p ≢ 0
      → w.session.close_once ≡ false
      → Held p (n + one p w.session.mgr + one p w.session.sess) w.trace
      → Ends (close env w) (λ _ w'. Held p n w'.trace) (λ _ _. ⊥)
  unfolding close stop
  close-Held n w h first k = rw first (tear_down-Held n _ h k)
