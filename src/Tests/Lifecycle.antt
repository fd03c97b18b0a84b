-- ===== src/Tests/Lifecycle.antt =====
-- A session from its start to its end.
use wslcsession.Base.{
  true, false, Bool, ◌+◌, ◌≡◌, refl, true, false, [], ◌∷◌, none, codes, arith, Ends, map, All,
}
use wslcsession.Com.Api.{session_settings}
use wslcsession.Com.Refs.{one, Held}
use wslcsession.Com.Trace.{Env, Call, Trace, settings, co_create_instance, process, invoke}
use wslcsession.Session.{World, new_session, close, dial, ensure_bridge_mounted}
use wslcsession.Session.Interference.{IsConsistent, IsReady, dial_lem}
use wslcsession.Session.Dial.{Mounted, ensure_bridge_mounted_lem}
use wslcsession.Session.Processes.{Keep, KeepProcess, dial-Keep}
use wslcsession.Session.References.{new_session-Held, close-Held}
use wslcsession.Session.Volumes.{asked, request_of, IsAskable, new_session-asked}
use wslcsession.Tests.Service.{answer, mounted_world, service, options, live_world}
use wslcsession.Tests.Service.{live_world-IsOpen}

new_session-Held_example :
    Ends
      (new_session service options [])
      (λ s. Held 200 (0 + one 200 s.mgr + one 200 s.sess))
      (λ _. Held 200 0)
new_session-Held_example = new_session-Held service 200 0 options [] (omega arith) (refl, tt)

dial-Keep_example :
    Ends
      (dial service (codes "tcp:127.0.0.1:80") live_world)
      (λ r. KeepProcess service (λ _. refl) 300 100 200 0 r.0)
      (λ _. Keep service (λ _. refl) 300 100 200 0)
dial-Keep_example =
    dial-Keep service (λ _. refl) 300 100 200 0 (codes "tcp:127.0.0.1:80") live_world (omega arith)
      (omega arith) refl refl live_world-IsOpen (refl, tt)

-- The history of a session that was just opened.
abbrev opened : Trace
opened =
    record {
      call = invoke 100 6 (settings (session_settings options [] none) 0);
      reply = answer 0 200 [];
    }
    ∷ record { call = co_create_instance [] [] 4; reply = answer 0 100 [] }
    ∷ []

abbrev opened_world : World
opened_world = record { session = live_world.session; trace = opened }

close-Held_example : Ends (close service opened_world) (λ _ w. Held 200 0 w.trace) (λ _ _. ⊥)
close-Held_example =
    close-Held service 200 0 opened_world (omega arith) refl (refl, (refl, (refl, tt)))

new_session-asked_example :
    Ends
      (new_session service options [])
      (λ s t'. (asked t' ≡ map (request_of s.sess) options.volumes) × All IsAskable options.volumes)
      (λ _ _. Unit)
new_session-asked_example = new_session-asked service options []

mounts :
    Ends
      (ensure_bridge_mounted service live_world)
      (Mounted live_world.session)
      (λ _ w'. w'.session ≡ live_world.session)
mounts = ensure_bridge_mounted_lem service live_world (λ _. refl) live_world-IsOpen

-- Another goroutine closes the session as soon as a process was started.
abbrev started : Trace → Bool
started [] = false
started (e ∷ t) = ends_start e.call
  where
    ends_start : Call → Bool
    ends_start (invoke _ _ (process _ _ _ _)) = true
    ends_start _ = false

abbrev hasty_service : Env
hasty_service = record service { others_close = started }

dial_lem_example :
    Ends
      (dial hasty_service (codes "tcp:127.0.0.1:80") mounted_world)
      (λ r w'. IsConsistent w'.session × IsReady r.0 w'.session)
      (λ _ w'. IsConsistent w'.session)
dial_lem_example = dial_lem hasty_service (codes "tcp:127.0.0.1:80") mounted_world refl
