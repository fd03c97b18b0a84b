-- ===== src/Demo/Checks/References.antt =====
-- The references that the demo takes and gives back.
use wslcsession.Base.{
  ℕ, suc, ◌≢◌, ◌≤◌, Run, done, fail, panic, Ends, raise, wrap_with, codes, tcp_check,
  tcp_fallback_check,
}
use wslcsession.Base.Effects.Triple.{Triple, Ends-if}
use wslcsession.Com.Refs.{one, Held}
use wslcsession.Com.Trace.{Env, Trace}
use wslcsession.Demo.{SessionFlags, validate}
use wslcsession.Demo.Checks.Conns.{RecvEnds}
use wslcsession.Demo.Checks.Sessions.{with_session-Held, validated-Held}
use wslcsession.Demo.Checks.Rules
use wslcsession.Demo.Checks.Keeping.{
  Kept, Keeps-refused, Keeps-display_name, Keeps-docker_version, Keeps-tcp_dial,
}
use wslcsession.Demo.Checks.Rules.{HttpKeeps, Has, K, Keeps, Connects}
use wslcsession.Demo.Checks.{
  Http, check_guest_tcp_dial_refused, or_refused, run_checks, run_session, run_demo,
}
use wslcsession.Demo.Reports.{Texts, error_text}
use wslcsession.Demo.Streams.{contains_text}
use wslcsession.Session.{World}
use wslcsession.Session.Dial.{IsQuiet}

module _ (env : Env) (quiet : IsQuiet env) (p mgr sess : ℕ) (h : p ≢ 0) where
  module _ (texts : Texts) (http : Http) (law : HttpKeeps env quiet p mgr sess http) where
    or_refused-Keep :
        (n : ℕ) (r : Run World (Unit {0}))
        → one p sess ≤ n
        → Ends r (λ _. K env quiet p mgr sess h n) (λ _. K env quiet p mgr sess h n)
        → Ends
            (or_refused env texts http r)
            (λ _. K env quiet p mgr sess h n)
            (λ _. K env quiet p mgr sess h n)
    unfolding or_refused
    or_refused-Keep n (done _ w) j k = k
    or_refused-Keep n (fail e w) j k =
        let refused : Kept env quiet p mgr sess h
            (wrap_with tcp_fallback_check (check_guest_tcp_dial_refused env)) =
          Rules.Keeps-wrap _ _ (Keeps-refused env quiet p mgr sess h) in
        let raised : Kept env quiet p mgr sess h {A = Unit {0}} (wrap_with tcp_check (raise e)) =
          Rules.Keeps-wrap _ _ (Rules.Keeps-raise e) in
        Ends-if _ _ (contains_text (error_text texts e) (codes "toomanyrequests")) _ _
          (λ _. (refused.at n j).at w k) (λ _. (raised.at n j).at w k)
    or_refused-Keep n panic j k = k

    Keeps-run_checks :
        (patience : ℕ) (room : ℕ → ℕ)
        → RecvEnds env patience
        → Kept env quiet p mgr sess h (run_checks env texts http room (suc patience))
    unfolding run_checks
    Keeps-run_checks patience room ends =
        Rules.Keeps-bind _ _ (Rules.Keeps-wrap _ _ (Keeps-display_name env quiet p mgr sess h))
          (λ _.
            Rules.Keeps-bind _ _
              (Rules.Keeps-wrap _ _
                (Keeps-docker_version env quiet p mgr sess h patience ends room))
              (λ _. record {
                at = λ n j. record {
                  at = λ w k.
                      or_refused-Keep n _ j
                        (((Keeps-tcp_dial env quiet p mgr sess h texts http law).at n j).at w k);
                };
              }))

module _ (env : Env) (quiet : IsQuiet env) (texts : Texts) (http : Http) (room : ℕ → ℕ)
    (patience : ℕ) (ends : RecvEnds env patience) (p : ℕ) (h : p ≢ 0)
    (law : (mgr sess : ℕ) → HttpKeeps env quiet p mgr sess http) where
  run_session-Held :
      (n : ℕ) (sf : SessionFlags)
      → Triple
          (Held p n)
          (run_session env texts http room (suc patience) sf)
          (λ _. Held p n)
          (λ _. Held p n)
  unfolding run_session
  run_session-Held n sf = with_session-Held env quiet p h n sf _ (λ mgr sess.
      Keeps-run_checks env quiet p mgr sess h texts http (law mgr sess) patience room ends)

  -- If nobody else closes the session, recv on one socket gives nothing more after so many calls and the
  -- HTTP client closes what it opens, then whatever the service, Winsock and the HTTP server answer and
  -- whichever check fails, the demo ends, without a panic, and holds the references that it held before
  -- it; it uses no object without a reference to it.
  pub run_demo-Held :
      (n : ℕ) (sf : SessionFlags) (t : Trace)
      → Held p n t
      → Ends (run_demo env texts http room (suc patience) sf t) (λ _. Held p n) (λ _. Held p n)
  unfolding run_demo
  run_demo-Held n sf t k =
      (validated-Held env quiet p h n sf _ (validate sf) (run_session-Held n sf)).at t k
