-- ===== src/Session/Rules.antt =====
-- Rules for the actions of a session.
use wslcsession.Base.{
  arith, Run, done, fail, panic, Io, Ends, Error, wrap, mount_windows_folder_failed, if◌then◌else◌,
}
use wslcsession.Base.Effects.Triple.{Triple}
use wslcsession.Com.HResult.{is_hresult, error_already_exists}
use wslcsession.Com.Trace.{Trace}
use wslcsession.Session.{Session, World, on_trace, accept_mounted}

-- A call on the COM thread keeps what is true of the session's fields.
pub Triple-on_trace :
    {A : Type 0} {P : Trace → Type 0} {Q : A → Trace → Type 0} {E : Error → Trace → Type 0}
    (K : Session → Type 0) (m : Io Trace A)
    → Triple P m Q E
    → Triple
        (λ w. K w.session × P w.trace)
        (on_trace m)
        (λ a w. K w.session × Q a w.trace)
        (λ e w. K w.session × E e w.trace)
unfolding on_trace
Triple-on_trace {A} {Q} {E} K m h = record { at = λ w (k, p). go w k (m w.trace) (h.at w.trace p) }
  where
    go :
        (w : World)
        → K w.session
        → (r : Run Trace A) → Ends r Q E
        → Ends
            (elim r as (λ _. Run World A) [
              | done a t ↦ done a (record w { trace = t })
              | fail e t ↦ fail e (record w { trace = t })
              | panic ↦ panic
            ])
            (λ a w. K w.session × Q a w.trace)
            (λ e w. K w.session × E e w.trace)
    go w k (done a t) h = (k, h)
    go w k (fail e t) h = (k, h)
    go w k panic h = h

pub Triple-accept :
    {P Q : World → Type 0} (m : Io World (Unit {0}))
    → Triple P m (λ _. Q) (λ _. Q)
    → Triple P (accept_mounted m) (λ _. Q) (λ _. Q)
unfolding accept_mounted
Triple-accept {Q} m h = record { at = λ w p. go (m w) (h.at w p) }
  where
    go :
        (r : Run World (Unit {0}))
        → Ends r (λ _. Q) (λ _. Q)
        → Ends
            (elim r as (λ _. Run World (Unit {0})) [
              | done _ w' ↦ done tt w'
              | fail e w' ↦
                  if is_hresult e error_already_exists
                  then done tt w'
                  else fail (wrap mount_windows_folder_failed e) w'
              | panic ↦ panic
            ])
            (λ _. Q)
            (λ _. Q)
    go (done _ w) h = h
    go (fail e w) h = ground arith
    go panic h = h
