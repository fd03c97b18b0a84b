-- ===== src/Base/Effects.antt =====
-- A Go function with effects: from the state before to a value or an error and the state after, or
-- to a run-time panic.
pub mod Triple
use wslcsession.Base.Errors.{Error, Message, wrap, Result, ok, err}

pub data Run {ℓ κ} (S : Type ℓ) (A : Type κ) : Type (ℓ ⊔ κ) where
  done : A → S → Run S A
  fail : Error → S → Run S A
  panic : Run S A

abbrev pub Io {ℓ κ} : Type ℓ → Type κ → Type (ℓ ⊔ κ)
Io S A = S → Run S A

module _ {ℓ κ} {S : Type ℓ} {A : Type κ} where
  unfoldable pub return : A → Io S A
  return a s = done a s

  unfoldable pub raise : Error → Io S A
  raise e s = fail e s

  unfoldable pub lift : Result A → Io S A
  lift (ok a) s = done a s
  lift (err e) s = fail e s

  unfoldable pub crash : Io S A
  crash s = panic

  abbrev pub wrap_run : Message → Run S A → Run S A
  wrap_run m (done a s) = done a s
  wrap_run m (fail e s) = fail (wrap m e) s
  wrap_run m panic = panic

  abbrev pub ignore_run : Run S A → Run S (Unit {0})
  ignore_run (done _ s) = done tt s
  ignore_run (fail _ s) = done tt s
  ignore_run panic = panic

  -- `if err != nil { return fmt.Errorf("…: %w", err) }`
  unfoldable pub wrap_with : Message → Io S A → Io S A
  wrap_with m f s = wrap_run m (f s)

  -- `_ = m()`
  unfoldable pub ignore : Io S A → Io S (Unit {0})
  ignore m s = ignore_run (m s)

module _ {ℓ κ μ} {S : Type ℓ} {A : Type κ} {B : Type μ} where
  abbrev pub bind_run : Run S A → (A → Io S B) → Run S B
  bind_run (done a s) f = f a s
  bind_run (fail e s) f = fail e s
  bind_run panic f = panic

  abbrev pub blame : Error → Run S B → Run S A
  blame e (done _ s) = fail e s
  blame e (fail _ s) = fail e s
  blame e panic = panic

  abbrev pub cleanup_run : Run S A → Io S B → Run S A
  cleanup_run (done a s) cleanup = done a s
  cleanup_run (fail e s) cleanup = blame e (cleanup s)
  cleanup_run panic cleanup = panic

  -- `if err != nil { cleanup; return err }`
  unfoldable pub on_error : Io S A → Io S B → Io S A
  on_error m cleanup s = cleanup_run (m s) cleanup

  -- Opening this opens all the ways to build an action.
  infixl 5 ◌>>=◌
  unfoldable pub ◌>>=◌ : Io S A → (A → Io S B) → Io S B
  unfolding return raise lift crash wrap_with ignore on_error
  ◌>>=◌ m f s = bind_run (m s) f

infixl 5 ◌>>◌
abbrev pub ◌>>◌ {ℓ κ} : {S : Type ℓ} {B : Type κ} → Io S (Unit {0}) → Io S B → Io S B
m >> k = m >>= λ _. k

-- What holds at the end of a run that does not panic: of a value and the state, or of an error.
abbrev pub Ends {ℓ κ} :
    {S : Type ℓ} {A : Type κ} → Run S A → (A → S → Type 0) → (Error → S → Type 0) → Type 0
Ends (done a s) P E = P a s
Ends (fail e s) P E = E e s
Ends panic P E = ⊥

module _ {ℓ κ μ} {S : Type ℓ} {A : Type κ} {B : Type μ} where
  abbrev pub keep_value : A → Run S B → Run S A
  keep_value a (done _ s) = done a s
  keep_value a (fail _ s) = done a s
  keep_value a panic = panic

  abbrev pub defer_run : Run S A → Io S B → Run S A
  defer_run (done a s) cleanup = keep_value a (cleanup s)
  defer_run (fail e s) cleanup = blame e (cleanup s)
  defer_run panic cleanup = panic

  -- `defer func() { _ = cleanup() }()` in front of `m`: the cleanup runs however `m` returns.
  unfoldable pub defer : Io S A → Io S B → Io S A
  defer m cleanup s = defer_run (m s) cleanup
