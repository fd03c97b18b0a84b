-- ===== src/Base/Effects/Triple.antt =====
-- Partial correctness of actions, with a rule for each way to build one. An action with a triple
-- does not panic from a state that meets the precondition.
use mathlib.Core.Bool.{Bool, true, false}
use mathlib.Core.Path.{◌≡◌, refl}
use wslcsession.Base.Effects.{
  Run, done, fail, panic, Io, return, raise, lift, wrap_run, ignore_run, wrap_with, ignore,
  bind_run, blame, cleanup_run, on_error, ◌>>=◌, Ends, defer, defer_run, keep_value,
}
use wslcsession.Base.Errors.{Error, Message, wrap, Result, ok, err}
use wslcsession.Base.Tests.{if◌then◌else◌}

pub record Triple {ℓ κ} {S : Type ℓ} {A : Type κ} (P : S → Type 0) (m : Io S A) (Q : A → S → Type 0)
    (E : Error → S → Type 0) : Type ℓ where
  pub at : (s : S) → P s → Ends (m s) Q E

module _ {ℓ κ} {S : Type ℓ} {A : Type κ} where
  pub Ends-mono :
      (Q R : A → S → Type 0) (E F : Error → S → Type 0) (r : Run S A)
      → Ends r Q E
      → ((a : A) (s : S) → Q a s → R a s)
      → ((e : Error) (s : S) → E e s → F e s)
      → Ends r R F
  Ends-mono Q R E F (done a s) h k j = k a s h
  Ends-mono Q R E F (fail e s) h k j = j e s h
  Ends-mono Q R E F panic h k j = h

  -- Each branch of a test ends well.
  pub Ends-if :
      (Q : A → S → Type 0) (E : Error → S → Type 0) (b : Bool) (r r' : Run S A)
      → (b ≡ true → Ends r Q E)
      → (b ≡ false → Ends r' Q E)
      → Ends (if b then r else r') Q E
  Ends-if Q E true r r' h k = h refl
  Ends-if Q E false r r' h k = k refl

  module _ {P : S → Type 0} {Q : A → S → Type 0} {E : Error → S → Type 0} where
    pub Triple-return : (a : A) → ((s : S) → P s → Q a s) → Triple P (return a) Q E
    unfolding return
    Triple-return a h = record { at = h }

    pub Triple-raise : (e : Error) → ((s : S) → P s → E e s) → Triple P (raise {A = A} e) Q E
    unfolding raise
    Triple-raise e h = record { at = h }

    pub Triple-lift :
        (r : Result A)
        → ((a : A) (s : S) → r ≡ ok a → P s → Q a s)
        → ((e : Error) (s : S) → r ≡ err e → P s → E e s)
        → Triple P (lift r) Q E
    unfolding lift
    Triple-lift (ok a) h k = record { at = λ s p. h a s refl p }
    Triple-lift (err e) h k = record { at = λ s p. k e s refl p }

    pub Triple-if :
        (b : Bool) (m n : Io S A)
        → (b ≡ true → Triple P m Q E)
        → (b ≡ false → Triple P n Q E)
        → Triple P (if b then m else n) Q E
    Triple-if true m n h k = h refl
    Triple-if false m n h k = k refl

    -- The postcondition may be weakened.
    pub Triple-mono :
        {R : A → S → Type 0} {F : Error → S → Type 0} {m : Io S A}
        → Triple P m R F
        → ((a : A) (s : S) → R a s → Q a s)
        → ((e : Error) (s : S) → F e s → E e s)
        → Triple P m Q E
    Triple-mono {R} {F} {m} h k j = record { at = λ s p. Ends-mono R Q F E (m s) (h.at s p) k j }

    pub Triple-wrap :
        (m : Message) (f : Io S A) → Triple P f Q (λ e. E (wrap m e)) → Triple P (wrap_with m f) Q E
    unfolding wrap_with
    Triple-wrap m f h = record { at = λ s p. go (f s) (h.at s p) }
      where
        go : (r : Run S A) → Ends r Q (λ e. E (wrap m e)) → Ends (wrap_run m r) Q E
        go (done a s) h = h
        go (fail e s) h = h
        go panic h = h

  pub Triple-ignore :
      {P : S → Type 0} {R : S → Type 0} {E : Error → S → Type 0} (f : Io S A)
      → Triple P f (λ _. R) (λ _. R)
      → Triple P (ignore f) (λ _. R) E
  unfolding ignore
  Triple-ignore {R} {E} f h = record { at = λ s p. go (f s) (h.at s p) }
    where
      go : (r : Run S A) → Ends r (λ _. R) (λ _. R) → Ends (ignore_run r) (λ _. R) E
      go (done a s) h = h
      go (fail e s) h = h
      go panic h = h

module _ {ℓ κ μ} {S : Type ℓ} {A : Type κ} {B : Type μ} {P : S → Type 0}
    {E : Error → S → Type 0} where
  pub Triple-bind :
      {Q : A → S → Type 0} {R : B → S → Type 0} (m : Io S A) (f : A → Io S B)
      → Triple P m Q E
      → ((a : A) → Triple (Q a) (f a) R E)
      → Triple P (m >>= f) R E
  unfolding ◌>>=◌
  Triple-bind {Q} {R} m f h k = record { at = λ s p. go (m s) (h.at s p) }
    where
      go : (r : Run S A) → Ends r Q E → Ends (bind_run r f) R E
      go (done a s) h = (k a).at s h
      go (fail e s) h = h
      go panic h = h

  pub Triple-on_error :
      {Q : A → S → Type 0} {F : Error → S → Type 0} (m : Io S A) (cleanup : Io S B)
      → Triple P m Q F
      → ((e : Error) → Triple (F e) cleanup (λ _. E e) (λ _. E e))
      → Triple P (on_error m cleanup) Q E
  unfolding on_error
  Triple-on_error {Q} {F} m cleanup h k = record { at = λ s p. go (m s) (h.at s p) }
    where
      blamed :
          (e : Error) (r : Run S B) → Ends r (λ _. E e) (λ _. E e) → Ends (blame {A = A} e r) Q E
      blamed e (done _ s) h = h
      blamed e (fail _ s) h = h
      blamed e panic h = h

      go : (r : Run S A) → Ends r Q F → Ends (cleanup_run r cleanup) Q E
      go (done a s) h = h
      go (fail e s) h = blamed e (cleanup s) ((k e).at s h)
      go panic h = h

  pub Triple-defer :
      {Q R : A → S → Type 0} {F : Error → S → Type 0} (m : Io S A) (cleanup : Io S B)
      → Triple P m Q F
      → ((a : A) → Triple (Q a) cleanup (λ _. R a) (λ _. R a))
      → ((e : Error) → Triple (F e) cleanup (λ _. E e) (λ _. E e))
      → Triple P (defer m cleanup) R E
  unfolding defer
  Triple-defer {Q} {R} {F} m cleanup h k j = record { at = λ s p. go (m s) (h.at s p) }
    where
      kept : (a : A) (r : Run S B) → Ends r (λ _. R a) (λ _. R a) → Ends (keep_value a r) R E
      kept a (done _ s) h = h
      kept a (fail _ s) h = h
      kept a panic h = h

      blamed :
          (e : Error) (r : Run S B) → Ends r (λ _. E e) (λ _. E e) → Ends (blame {A = A} e r) R E
      blamed e (done _ s) h = h
      blamed e (fail _ s) h = h
      blamed e panic h = h

      go : (r : Run S A) → Ends r Q F → Ends (defer_run r cleanup) R E
      go (done a s) h = kept a (cleanup s) ((k a).at s h)
      go (fail e s) h = blamed e (cleanup s) ((j e).at s h)
      go panic h = h

pub ruleset triple_rules =
    (Triple-if, Triple-wrap, Triple-ignore, Triple-bind, Triple-on_error, Triple-defer)
