-- ===== src/Session/Threads/Requests/Progress.antt =====
-- Every step of the goroutines is one of the goroutines with their requests, unless a closure
-- panics.
use wslcsession.Base.{ℕ, ◌≡◌, refl, some, Result}
use wslcsession.Com.Trace.{Env}
use wslcsession.Session.{World}
use wslcsession.Session.Threads.Requests.Serial.{tear_down_total}
use wslcsession.Session.Threads.Requests.{
  outcome, Machine, Moves, silent, refuses, answers, stops_session, discards,
}
use wslcsession.Session.Threads.{
  System, Runs, takes_read_lock, finds_stopped, finds_open, sends, sends_on_closed, replies,
  releases_read_lock, enters_once, skips_once, takes_lock, stops, closes, closes_closed,
  releases_lock, sees_closed, ends_loop, tears_down,
}

module _ {A : Type 0} (env : Env) (zero_value : A) where
  abbrev Answers : Machine A → Type 0
  Answers m = (i : ℕ) → (o : Result A × World) × (outcome (m.job i m.world) ≡ some o)

  -- A step of the goroutines is never held up by the requests: as long as no closure panics, there is
  -- a step of both together that does what it does.
  pub requests_follow :
      (m : Machine A) {t : System}
      → Answers m
      → Runs m.system t
      → (m' : Machine A) × Moves env zero_value m m' × (m'.system ≡ t)
  requests_follow m h (finds_stopped i e s) = (_, refuses i e s, refl)
  requests_follow m h (replies i e) = let o = h i in (_, answers i o.0.0 o.0.1 e o.1, refl)
  requests_follow m h (stops i e) = (_, stops_session i e, refl)
  requests_follow m h (tears_down e) =
      let d = tear_down_total env m.world in (_, discards d.0 e d.1, refl)
  requests_follow m h (takes_read_lock i e w) = (_, silent (takes_read_lock i e w) tt, refl)
  requests_follow m h (finds_open i e w) = (_, silent (finds_open i e w) tt, refl)
  requests_follow m h (sends i e o w) = (_, silent (sends i e o w) tt, refl)
  requests_follow m h (sends_on_closed i e w) = (_, silent (sends_on_closed i e w) tt, refl)
  requests_follow m h (releases_read_lock i e) = (_, silent (releases_read_lock i e) tt, refl)
  requests_follow m h (enters_once i e w) = (_, silent (enters_once i e w) tt, refl)
  requests_follow m h (skips_once i e w) = (_, silent (skips_once i e w) tt, refl)
  requests_follow m h (takes_lock i e r w) = (_, silent (takes_lock i e r w) tt, refl)
  requests_follow m h (closes i e w) = (_, silent (closes i e w) tt, refl)
  requests_follow m h (closes_closed i e w) = (_, silent (closes_closed i e w) tt, refl)
  requests_follow m h (releases_lock i e) = (_, silent (releases_lock i e) tt, refl)
  requests_follow m h (sees_closed i e w) = (_, silent (sees_closed i e w) tt, refl)
  requests_follow m h (ends_loop w c) = (_, silent (ends_loop w c) tt, refl)
