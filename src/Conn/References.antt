-- ===== src/Conn/References.antt =====
-- The reference to its process that a connection gives back.
use wslcsession.Base.{
  ℕ, ◌+◌, ◌≡◌, ◌≢◌, ◌∙◌, Bool, true, false, some, arith, Run, done, fail, panic, Ends, Error,
  if◌then◌else◌,
}
use wslcsession.Base.Effects.{◌>>=◌}
use wslcsession.Base.Effects.Triple.{Triple, Triple-bind, Triple-return}
use wslcsession.Com.Refs.{one, Held}
use wslcsession.Com.Runtime.{shutdown_socket, close_socket}
use wslcsession.Com.Trace.{Env}
use wslcsession.Conn.{GuestConn, close_write, close_sockets, close_conn}
use wslcsession.Session.{World, release_process}
use wslcsession.Session.Dial.{IsQuiet}
use wslcsession.Session.Processes.{IsOpenOn, Keep, release_process-Keep}
use wslcsession.Session.Rules.{Triple-on_trace}

-- The branch of a test that fails.
Ends-else :
    {S A : Type 0} (Q : A → S → Type 0) (E : Error → S → Type 0) (b : Bool) (r r' : Run S A)
    → b ≡ false
    → Ends r' Q E
    → Ends (if b then r else r') Q E
Ends-else Q E true r r' e h = absurd (cc e)
Ends-else Q E false r r' e h = h

-- No error is one that cannot be.
Ends-never :
    {S A : Type 0} (Q : A → S → Type 0) (P : S → Type 0) (r : Run S A)
    → Ends r Q (λ _ s. P s × ⊥)
    → Ends r Q (λ _ _. ⊥)
Ends-never Q P (done a s) h = h
Ends-never Q P (fail e s) h = h.1
Ends-never Q P panic h = h

module _ (env : Env) (quiet : IsQuiet env) (p mgr sess n : ℕ) where
  -- The calls on the sockets neither take nor give back a reference.
  close_sockets-Held :
      (c : GuestConn) (m : ℕ)
      → Triple
          (Held p m)
          (close_sockets env c)
          (λ c' t. (c'.process ≡ c.process) × Held p m t)
          (λ _ _. ⊥)
  unfolding close_sockets close_write shutdown_socket close_socket ◌>>=◌
  close_sockets-Held c m = record { at = λ t h. ground arith }

  release_of :
      (c : GuestConn) (q : ℕ)
      → p ≢ 0
      → c.process ≡ some q
      → Triple
          (Keep env quiet p mgr sess (n + one p q))
          (release_process env c.process)
          (λ _. Keep env quiet p mgr sess n)
          (λ _ v. IsOpenOn env quiet p mgr sess v.session × ⊥)
  release_of c q h has = rw has (release_process-Keep env quiet p mgr sess n (some q) h)

  -- The first `Close` of a connection on an open session that nobody closes gives back its reference
  -- to the process, and uses no object without a reference. The session stays open, and there is neither an error nor a panic.
  pub close_conn-Keep :
      (c : GuestConn) (q : ℕ) (w : World)
      → p ≢ 0
      → c.closed ≡ false
      → c.process ≡ some q
      → Keep env quiet p mgr sess (n + one p q) w
      → Ends (close_conn env c w) (λ _. Keep env quiet p mgr sess n) (λ _ _. ⊥)
  unfolding close_conn
  close_conn-Keep c q w h fresh has k = Ends-else _ _ c.closed _ _ fresh (
      Ends-never (λ _. Keep env quiet p mgr sess n) (λ v. IsOpenOn env quiet p mgr sess v.session) _
        ((Triple-bind _ _
            (Triple-on_trace (IsOpenOn env quiet p mgr sess) _ (close_sockets-Held c (n + one p q)))
            (λ c'. Triple-bind _ _ (released c') (λ _. Triple-return c' (λ _ kept. kept)))).at
          w k))
    where
      released :
          (c' : GuestConn)
          → Triple
              (λ v.
                IsOpenOn env quiet p mgr sess v.session
                × ((c'.process ≡ c.process) × Held p (n + one p q) v.trace))
              (release_process env c'.process)
              (λ _. Keep env quiet p mgr sess n)
              (λ _ v. IsOpenOn env quiet p mgr sess v.session × ⊥)
      released c' = record {
        at = λ v (o, (same, held)). (release_of c' q h (same ∙ has)).at v (o, held);
      }
