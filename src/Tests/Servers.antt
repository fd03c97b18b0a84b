-- ===== src/Tests/Servers.antt =====
-- The proxy with a listener that accepts one client.
use wslcsession.Base.{
  ℕ, ◌≢◌, refl, inl, inr, Bool, true, false, [], ◌∷◌, arith, Run, done, fail, Ends, eof, codes,
  Bool-cases, return,
}
use wslcsession.Com.Refs.{Held}
use wslcsession.Com.Trace.{Trace, Call, socket_shutdown}
use wslcsession.Demo.{default_flags}
use wslcsession.Demo.Checks.Rules.{K, Keeps-return}
use wslcsession.Demo.Server.{Net, run_proxy}
use wslcsession.Demo.Server.References.{NetKeeps, AcceptEnds, run_proxy-Held}
use wslcsession.Session.{World}
use wslcsession.Tests.Service.{answer, service}

-- A client leaves a mark in the history, and behind it the listener is closed.
abbrev is_mark : Call → Bool
is_mark (socket_shutdown _ _) = true
is_mark _ = false

abbrev is_marked : Trace → Bool
is_marked [] = false
is_marked (e ∷ _) = is_mark e.call

abbrev mark : World → World
mark w = record w { trace = record { call = socket_shutdown 9 1; reply = answer 0 0 [] } ∷ w.trace }

abbrev accept_once : Bool → World → Run World ℕ
accept_once true w = fail eof w
accept_once false w = done 5 (mark w)

abbrev net : Net
net = record {
  listen = λ addr. return tt;
  accept = λ w. accept_once (is_marked w.trace) w;
  close_listener = return tt;
}

net-AcceptEnds : AcceptEnds net 2
net-AcceptEnds w = elim (Bool-cases (is_marked w.trace)) [ inl e ↦ rw e tt | inr e ↦ rw e tt ]

net-NetKeeps : (p : ℕ) (h : p ≢ 0) (mgr sess : ℕ) → NetKeeps service (λ _. refl) p h net mgr sess
net-NetKeeps p h mgr sess = record {
  listen = λ addr. Keeps-return tt;
  accept = record { at = λ n j. record { at = λ w k. accepts n w (is_marked w.trace) k } };
  close_listener = Keeps-return tt;
}
  where
    accepts :
        (n : ℕ) (w : World) (b : Bool)
        → K service (λ _. refl) p mgr sess h n w
        → Ends
            (accept_once b w)
            (λ _. K service (λ _. refl) p mgr sess h n)
            (λ _. K service (λ _. refl) p mgr sess h n)
    accepts n w true k = k
    accepts n w false k = (k.0, ground (arith, k.1))

nonzero : ◌≢◌ {A = ℕ} 200 0
nonzero = omega arith

run_proxy-Held_example :
    Ends
      (run_proxy net service 2 (default_flags (codes "demo")) (codes "127.0.0.1:2375") [])
      (λ _. Held 200 0)
      (λ _. Held 200 0)
run_proxy-Held_example =
    run_proxy-Held service (λ _. refl) 200 nonzero net 2 net-AcceptEnds (net-NetKeeps 200 nonzero) 0
      (default_flags (codes "demo")) (codes "127.0.0.1:2375") [] (refl, tt)
