-- ===== src/Demo/Checks/Sessions.antt =====
-- A session that is opened, used and closed, and the references that are held.
use wslcsession.Base.{
  ℕ, ◌+◌, ◌≡◌, ◌≢◌, refl, ap, Option, none, some, Io, Error, raise, wrap_with, defer, arith,
  new_session_failed,
}
use wslcsession.Base.Effects.{◌>>=◌}
use wslcsession.Base.Effects.Triple.{
  Triple, Triple-raise, Triple-bind, Triple-mono, Triple-wrap, Triple-defer,
}
use wslcsession.Com.Refs.{one, Held}
use wslcsession.Com.Trace.{Env, Trace}
use wslcsession.Demo.{SessionFlags, to_options}
use wslcsession.Demo.Checks.Rules.{K, Keeps}
use wslcsession.Demo.Checks.{in_session}
use wslcsession.Session.{Session, World, close, new_session}
use wslcsession.Session.Dial.{IsQuiet}
use wslcsession.Session.References.{new_session-Triple, close-Held}

in_session-Triple :
    {A : Type 0} {P : Trace → Type 0} {Q E : Trace → Type 0} (s : Session) (f : Io World A)
    → Triple (λ w. (w.session ≡ s) × P w.trace) f (λ _ w. Q w.trace) (λ _ w. E w.trace)
    → Triple P (in_session s f) (λ _. Q) (λ _. E)
unfolding in_session
in_session-Triple {Q} {E} s f h = record {
  at = λ t k. ground (arith, h.at (record { session = s; trace = t }) (refl, k));
}

module _ (env : Env) (quiet : IsQuiet env) (p : ℕ) (h : p ≢ 0) where
  close-Triple :
      (n mgr sess : ℕ)
      → Triple
          (K env quiet p mgr sess h (n + one p mgr + one p sess))
          (close env)
          (λ _ w. Held p n w.trace)
          (λ _ w. Held p n w.trace)
  close-Triple n mgr sess =
      Triple-mono (record { at = λ w k. close-Held env p n w h k.0.0.once (rw (k.0.1, k.0.2) k.1) })
        (λ _ _ k. k) (λ _ _ k. absurd k)

  module _ {A : Type 0} (n : ℕ) (sf : SessionFlags) where
    -- The use of a session keeps what is held while it is open.
    pub with_session-Held :
        (m : Io World A)
        → ((mgr sess : ℕ) → Keeps env quiet p mgr sess h m)
        → Triple
            (Held p n)
            (wrap_with new_session_failed (new_session env (to_options sf)) >>= λ s.
              in_session s (defer m (close env)))
            (λ _. Held p n)
            (λ _. Held p n)
    with_session-Held m keeps =
        Triple-bind _ _
          (Triple-wrap new_session_failed _ (new_session-Triple env p n (to_options sf) h))
          (λ s. in_session-Triple s _ (record {
            at = λ w (same, (o, k)).
                (used s).at w ((rw same o, ap (λ x. x.mgr) same, ap (λ x. x.sess) same), k);
          }))
      where
        used :
            (s : Session)
            → Triple
                (K env quiet p s.mgr s.sess h (n + one p s.mgr + one p s.sess))
                (defer m (close env))
                (λ _ w. Held p n w.trace)
                (λ _ w. Held p n w.trace)
        used s =
            Triple-defer _ _ ((keeps s.mgr s.sess).at _ (omega arith))
              (λ _. close-Triple n s.mgr s.sess) (λ _. close-Triple n s.mgr s.sess)

    -- Flags that are refused change nothing.
    pub validated-Held :
        (m : Io Trace A) (o : Option Error)
        → Triple (Held p n) m (λ _. Held p n) (λ _. Held p n)
        → Triple
            (Held p n)
            (elim o as (λ _. Io Trace A) [ some e ↦ raise e | none ↦ m ])
            (λ _. Held p n)
            (λ _. Held p n)
    validated-Held m (some e) k = Triple-raise e (λ _ k. k)
    validated-Held m none k = k
