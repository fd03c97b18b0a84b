-- ===== src/Demo/Server.antt =====
-- cmd/wslcdemo: `runProxy` in proxy.go, as far as its own goroutine goes, and `main` in main.go.
pub mod References
use wslcsession.Base.{
  ℕ, zero, suc, Bool, false, not, ◌||◌, Bytes, List, [], ◌∷◌, Option, none, some, Io, Run, done,
  fail, panic, raise, wrap_with, defer, equal, codes, if◌then◌else◌, new_session_failed,
  listen_failed,
}
use wslcsession.Base.Effects.{◌>>=◌, ◌>>◌}
use wslcsession.Com.Trace.{Env, Trace}
use wslcsession.Demo.{SessionFlags, validate, to_options}
use wslcsession.Demo.Checks.{Http, in_session, run_demo}
use wslcsession.Demo.Reports.{Texts}
use wslcsession.Session.{World, new_session, close}

-- Package net: `Listen`, and `Accept` and `Close` of the listener. A client is a number.
pub record Net : Type 0 where
  pub listen : Bytes → Io World (Unit {0})
  pub accept : Io World ℕ
  pub close_listener : Io World (Unit {0})

-- The addresses that `runProxy` does not warn of, by the host of `SplitHostPort` if it has one.
unfoldable pub is_exposed : Option Bytes → Bool
is_exposed none = false
is_exposed (some host) = not (
    equal host []
    || equal host (codes "127.0.0.1")
    || equal host (codes "localhost")
    || equal host (codes "::1"))

-- What a round of the loop of `runProxy` does with the result of `Accept`: the client's goroutine is
-- started, or the loop is left.
unfoldable pub after_accept : Run World ℕ → Io World (List ℕ) → Run World (List ℕ)
after_accept (done client w) next = elim (next w) [
  | done clients w' ↦ done (client ∷ clients) w'
  | fail e w' ↦ fail e w'
  | panic ↦ panic
]
after_accept (fail e w) next = done [] w
after_accept panic next = panic

module _ (net : Net) where
  -- The clients whose goroutines were started, in order. Only an error of `Accept` ends the loop.
  unfoldable pub serve : ℕ → Io World (List ℕ)
  serve zero w = panic
  serve (suc fuel) w = after_accept (net.accept w) (serve fuel)

  unfoldable pub listen_and_serve : ℕ → Bytes → Io World (List ℕ)
  listen_and_serve fuel addr = do
    wrap_with listen_failed (net.listen addr)
    defer (serve fuel) net.close_listener

  module _ (env : Env) where
    unfoldable pub serve_session : ℕ → SessionFlags → Bytes → Io Trace (List ℕ)
    serve_session fuel sf addr = do
      s ← wrap_with new_session_failed (new_session env (to_options sf))
      in_session s (defer (listen_and_serve fuel addr) (close env))

    unfoldable pub run_proxy : ℕ → SessionFlags → Bytes → Io Trace (List ℕ)
    run_proxy fuel sf addr = elim (validate sf) [
      | some e ↦ raise e
      | none ↦ serve_session fuel sf addr
    ]

-- Package flag, for the flags of both modes: the default of `-name` and the arguments. The second
-- result is `-listen`.
pub record Flags : Type 0 where
  pub parse : Bytes → List Bytes → SessionFlags × Bytes

-- The status that the process ends with.
unfoldable pub exit_status : {A : Type 0} → Run Trace A → Run Trace ℕ
exit_status (done _ t) = done 0 t
exit_status (fail _ t) = done 1 t
exit_status panic = panic

module _ (env : Env) (texts : Texts) (http : Http) (net : Net) (flags : Flags) (room : ℕ → ℕ)
    (patience fuel : ℕ) where
  unfoldable pub main_proxy : List Bytes → Io Trace ℕ
  main_proxy args t =
      let (sf, addr) = flags.parse (codes "wslcsession-proxy") args in
      exit_status (run_proxy net env fuel sf addr t)

  unfoldable pub main_demo : List Bytes → Io Trace ℕ
  main_demo args t =
      let (sf, _) = flags.parse (codes "wslcsession-demo") args in
      exit_status (run_demo env texts http room patience sf t)

  -- The arguments are those behind the name of the program.
  unfoldable pub main : List Bytes → Io Trace ℕ
  main [] = main_demo []
  main (mode ∷ args) =
      if equal mode (codes "proxy") then main_proxy args else main_demo (mode ∷ args)
