-- ===== src/Demo/Server/References.antt =====
-- The references that the goroutine of the proxy's listener takes and gives back.
use wslcsession.Base.{ℕ, zero, suc, ◌≢◌, ◌≤◌, Bytes, List, ◌∷◌, Io, Run, done, fail, panic, Ends}
use wslcsession.Base.Effects.Triple.{Triple}
use wslcsession.Com.Refs.{one, Held}
use wslcsession.Com.Trace.{Env, Trace}
use wslcsession.Demo.{SessionFlags, validate}
use wslcsession.Demo.Checks.Rules
use wslcsession.Demo.Checks.Rules.{K, Keeps}
use wslcsession.Demo.Checks.Sessions.{with_session-Held, validated-Held}
use wslcsession.Demo.Server.{Net, after_accept, serve, listen_and_serve, serve_session, run_proxy}
use wslcsession.Session.{World}
use wslcsession.Session.Dial.{IsQuiet}

-- What a world is for an `Accept`: it fails, or the world behind it has the property.
abbrev AfterAccept : (World → Type 0) → Run World ℕ → Type 0
AfterAccept P (done _ w) = P w
AfterAccept P (fail _ _) = Unit
AfterAccept P panic = ⊥

-- Fewer than so many clients are accepted before `Accept` fails.
abbrev AcceptsWithin : Net → ℕ → World → Type 0
AcceptsWithin net zero w = ⊥
AcceptsWithin net (suc n) w = AfterAccept (AcceptsWithin net n) (net.accept w)

-- The listener is closed after fewer than so many clients, as by the interrupt.
abbrev pub AcceptEnds : Net → ℕ → Type 0
AcceptEnds net fuel = (w : World) → AcceptsWithin net fuel w

module _ (env : Env) (quiet : IsQuiet env) (p : ℕ) (h : p ≢ 0) where
  -- Package net, and the goroutines that run while it waits, take and give back no reference to the
  -- object, and leave the session open.
  pub record NetKeeps (net : Net) (mgr sess : ℕ) : Type 0 where
    pub listen : (addr : Bytes) → Keeps env quiet p mgr sess h (net.listen addr)
    pub accept : Keeps env quiet p mgr sess h net.accept
    pub close_listener : Keeps env quiet p mgr sess h net.close_listener

  module _ (net : Net) (fuel : ℕ) (ends : AcceptEnds net fuel)
      (law : (mgr sess : ℕ) → NetKeeps net mgr sess) where
    module _ (mgr sess n : ℕ) (j : one p sess ≤ n) where
      after_accept-Keep :
          (P : World → Type 0) (r : Run World ℕ) (next : Io World (List ℕ))
          → Ends r (λ _. K env quiet p mgr sess h n) (λ _. K env quiet p mgr sess h n)
          → AfterAccept P r
          → ((w : World)
              → K env quiet p mgr sess h n w
              → P w
              → Ends (next w) (λ _. K env quiet p mgr sess h n) (λ _. K env quiet p mgr sess h n))
          → Ends
              (after_accept r next)
              (λ _. K env quiet p mgr sess h n)
              (λ _. K env quiet p mgr sess h n)
      unfolding after_accept
      after_accept-Keep P (done client w) next k a go = added (next w) (go w k a)
        where
          added :
              (r : Run World (List ℕ))
              → Ends r (λ _. K env quiet p mgr sess h n) (λ _. K env quiet p mgr sess h n)
              → Ends
                  (elim r as (λ _. Run World (List ℕ)) [
                    | done clients w' ↦ done (client ∷ clients) w'
                    | fail e w' ↦ fail e w'
                    | panic ↦ panic
                  ])
                  (λ _. K env quiet p mgr sess h n)
                  (λ _. K env quiet p mgr sess h n)
          added (done _ w) k = k
          added (fail _ w) k = k
          added panic k = k
      after_accept-Keep P (fail e w) next k a go = k
      after_accept-Keep P panic next k a go = k

      serve-Keep :
          (m : ℕ) (w : World)
          → AcceptsWithin net m w
          → K env quiet p mgr sess h n w
          → Ends (serve net m w) (λ _. K env quiet p mgr sess h n) (λ _. K env quiet p mgr sess h n)
      unfolding serve
      serve-Keep zero w a k = absurd a
      serve-Keep (suc m) w a k =
          after_accept-Keep (AcceptsWithin net m) (net.accept w) (serve net m)
            (((law mgr sess).accept.at n j).at w k) a (λ w' k' a'. serve-Keep m w' a' k')

    Keeps-serve : (mgr sess : ℕ) → Keeps env quiet p mgr sess h (serve net fuel)
    Keeps-serve mgr sess = record {
      at = λ n j. record { at = λ w k. serve-Keep mgr sess n j fuel w (ends w) k };
    }

    Keeps-listen :
        (addr : Bytes) (mgr sess : ℕ)
        → Keeps env quiet p mgr sess h (listen_and_serve net fuel addr)
    unfolding listen_and_serve
    Keeps-listen addr mgr sess =
        let l = law mgr sess in
        Rules.Keeps-bind _ _ (Rules.Keeps-wrap _ _ (l.listen addr))
          (λ _. Rules.Keeps-defer _ _ (Keeps-serve mgr sess) l.close_listener)

    serve_session-Held :
        (n : ℕ) (sf : SessionFlags) (addr : Bytes)
        → Triple (Held p n) (serve_session net env fuel sf addr) (λ _. Held p n) (λ _. Held p n)
    unfolding serve_session
    serve_session-Held n sf addr = with_session-Held env quiet p h n sf _ (Keeps-listen addr)

    -- If nobody else closes the session, the listener is closed after fewer clients than the fuel, and
    -- neither package net nor the goroutines of the clients change the references to an object, then
    -- runProxy returns, without a panic, and holds the references to the object that it held before.
    pub run_proxy-Held :
        (n : ℕ) (sf : SessionFlags) (addr : Bytes) (t : Trace)
        → Held p n t
        → Ends (run_proxy net env fuel sf addr t) (λ _. Held p n) (λ _. Held p n)
    unfolding run_proxy
    run_proxy-Held n sf addr t k =
        (validated-Held env quiet p h n sf _ (validate sf) (serve_session-Held n sf addr)).at t k
