-- ===== src/Session/Threads/Requests/Order.antt =====
-- What goroutines do to a session with their requests is what its methods do one after another.
use wslcsession.Base.{ℕ, ◌≡◌, refl, ◌∙◌, Bool, true, false, Io, ok, arith, ◌==◌, if◌then◌else◌}
use wslcsession.Com.Trace.{Env}
use wslcsession.Session.{World, stop}
use wslcsession.Session.Dial.{IsQuiet}
use wslcsession.Session.Threads.Fits.{Inv}
use wslcsession.Session.Threads.Invariant.{Reach-Inv, running-waiting}
use wslcsession.Session.Threads.Refinement.{idle_while_locked}
use wslcsession.Session.Threads.Requests.{
  IsRequest, Machine, set_job, IsSilent, Moves, asks, enters_close, goes_on, silent, refuses,
  answers, stops_session, discards, Attains, begins, moves,
}
use wslcsession.Session.Threads.Requests.Closures.{return-IsRequest}
use wslcsession.Session.Threads.Requests.Serial.{
  Serial, asked, closed, nothing, Settles, tear_down_total, tear_down-session, Settles-going,
  Settles-IsClosed, settled, closes_first, stopped_session, answers-outcome, refuses-outcome,
}
use wslcsession.Session.Threads.{
  Com, tearing, exited, running, receiving, System, call_do, call_close, comes_back, Runs,
  takes_read_lock, finds_stopped, finds_open, sends, sends_on_closed, replies, releases_read_lock,
  enters_once, skips_once, takes_lock, stops, closes, closes_closed, releases_lock, sees_closed,
  ends_loop, tears_down, Reach, start, calls, runs,
}

not_closed : (s : System) (c : Com) → s.worker ≡ c → Inv s → s.stopped ≡ false → s.closed ≡ false
not_closed s receiving e v going = ground (arith, v.worker)
not_closed s (running i) e v going = ground (arith, v.worker)
not_closed s tearing e v going = ground (arith, v.worker)
not_closed s exited e v going = ground (arith, v.worker, v.channel)

torn_down : (s : System) → Inv s → s.worker ≡ tearing → (s.stopped ≡ true) × (s.closed ≡ false)
torn_down s v e = (ground (arith, v.worker, v.channel), ground (arith, v.worker))

-- The steps that run no closure leave the two flags alone.
silent-flags :
    {s t : System} (r : Runs s t) → IsSilent r → (t.stopped ≡ s.stopped) × (t.closed ≡ s.closed)
silent-flags (finds_stopped i e w) h = absurd h
silent-flags (replies i e) h = absurd h
silent-flags (stops i e) h = absurd h
silent-flags (tears_down e) h = absurd h
silent-flags (takes_read_lock i e w) h = (refl, refl)
silent-flags (finds_open i e w) h = (refl, refl)
silent-flags (sends i e o w) h = (refl, refl)
silent-flags (sends_on_closed i e w) h = (refl, refl)
silent-flags (releases_read_lock i e) h = (refl, refl)
silent-flags (enters_once i e w) h = (refl, refl)
silent-flags (skips_once i e w) h = (refl, refl)
silent-flags (takes_lock i e r w) h = (refl, refl)
silent-flags (closes i e w) h = (refl, refl)
silent-flags (closes_closed i e w) h = (refl, refl)
silent-flags (releases_lock i e) h = (refl, refl)
silent-flags (sees_closed i e w) h = (refl, refl)
silent-flags (ends_loop w c) h = (refl, refl)

set_job-IsRequest :
    {A : Type 0} (jobs : ℕ → Io World A) (i : ℕ) (f : Io World A)
    → IsRequest f
    → ((j : ℕ) → IsRequest (jobs j))
    → (j : ℕ) → IsRequest (set_job jobs i f j)
set_job-IsRequest {A} jobs i f h k j = go (i == j)
  where
    go : (b : Bool) → IsRequest (if b then f else jobs j)
    go true = h
    go false = k j

module _ {A : Type 0} (env : Env) (zero_value : A) where
  -- The sequential history and the world that it leaves, against the state of the goroutines.
  pub record Follows (w₀ : World) (m : Machine A) : Type 0 where
    pub reach : Reach m.system
    pub stopped : m.world.session.stopped ≡ m.system.stopped
    pub once : m.world.session.close_once ≡ m.system.stopped
    pub jobs : (i : ℕ) → IsRequest (m.job i)
    pub serial : World
    pub history : Serial env zero_value w₀ m.log serial
    pub settles : Settles env m.system.stopped m.system.closed m.world serial

  Moves-Follows :
      {w₀ : World} {m m' : Machine A}
      → IsQuiet env
      → Moves env zero_value m m'
      → Follows w₀ m
      → Follows w₀ m'
  unfolding stop
  Moves-Follows quiet (asks i f e h) v = record {
    reach = calls v.reach (call_do i e);
    stopped = v.stopped;
    once = v.once;
    jobs = set_job-IsRequest _ i f h v.jobs;
    serial = v.serial;
    history = v.history;
    settles = v.settles;
  }
  Moves-Follows quiet (enters_close i e) v = record {
    reach = calls v.reach (call_close i e);
    stopped = v.stopped;
    once = v.once;
    jobs = v.jobs;
    serial = v.serial;
    history = v.history;
    settles = v.settles;
  }
  Moves-Follows quiet (goes_on i e) v = record {
    reach = calls v.reach (comes_back i e);
    stopped = v.stopped;
    once = v.once;
    jobs = v.jobs;
    serial = v.serial;
    history = v.history;
    settles = v.settles;
  }
  Moves-Follows {m} quiet (silent r h) v = record {
    reach = runs v.reach r;
    stopped = rw ((silent-flags r h).0) v.stopped;
    once = rw ((silent-flags r h).0) v.once;
    jobs = v.jobs;
    serial = v.serial;
    history = v.history;
    settles = rw ((silent-flags r h).0, (silent-flags r h).1) v.settles;
  }
  Moves-Follows {m} quiet (refuses i e s) v = record {
    reach = runs v.reach (finds_stopped i e s);
    stopped = v.stopped;
    once = v.once;
    jobs = v.jobs;
    serial = v.serial;
    history = asked i (m.job i) (ok zero_value) v.history (
        refuses-outcome env zero_value (m.job i) v.serial
          (Settles-IsClosed env m.system.stopped m.system.closed m.world v.serial s v.settles));
    settles = v.settles;
  }
  Moves-Follows {m} quiet (answers i r w e o) v =
      let going = (running-waiting v.reach i e).1 in
      let kept = (v.jobs i).flags m.world w r o in
      record {
        reach = runs v.reach (replies i e);
        stopped = kept.0 ∙ v.stopped;
        once = kept.2 ∙ v.once;
        jobs = v.jobs;
        serial = w;
        history = asked i (m.job i) r v.history (
            answers-outcome env zero_value (m.job i) m.world v.serial _ quiet (v.stopped ∙ going)
              (Settles-going env m.system.stopped m.system.closed m.world v.serial going v.settles)
              o);
        settles = rw going refl;
      }
  Moves-Follows {m} quiet (stops_session i e) v =
      let inv = Reach-Inv v.reach in
      let going = (idle_while_locked i m.system.worker inv e refl).0 in
      let end = tear_down_total env (record m.world { session = stop m.world.session }) in
      record {
        reach = runs v.reach (stops i e);
        stopped = refl;
        once = refl;
        jobs = v.jobs;
        serial = end.0;
        history = closed i v.history (
            closes_first env m.world v.serial end.0
              (Settles-going env m.system.stopped m.system.closed m.world v.serial going v.settles)
              (v.once ∙ going) end.1);
        settles =
            rw (not_closed m.system m.system.worker refl inv going)
              (end.1, stopped_session env m.world end.0 end.1);
      }
  Moves-Follows {m} quiet (discards w e t) v =
      let inv = Reach-Inv v.reach in
      let shut = torn_down m.system inv e in
      let kept = tear_down-session env m.world w t in
      record {
        reach = runs v.reach (tears_down e);
        stopped = rw kept v.stopped;
        once = rw kept v.once;
        jobs = v.jobs;
        serial = v.serial;
        history = v.history;
        settles = rw shut.0 (settled env _ _ m.world w v.serial shut.0 shut.1 t v.settles);
      }

  module _ (quiet : IsQuiet env) {w₀ : World} (going : w₀.session.stopped ≡ false)
      (once : w₀.session.close_once ≡ false) where
    pub Attains-Follows : {m : Machine A} → Attains env zero_value w₀ m → Follows w₀ m
    Attains-Follows begins = record {
      reach = start;
      stopped = going;
      once = once;
      jobs = λ i. return-IsRequest zero_value;
      serial = w₀;
      history = nothing;
      settles = refl;
    }
    Attains-Follows (moves a x) = Moves-Follows quiet x (Attains-Follows a)

    -- If nobody outside these goroutines closes the session, which is open at first, callers that hand
    -- closures to `do`, each of which leaves the flags of the session alone, and that close the session,
    -- in any interleaving, are given what `do` and `Close` give when one goroutine alone calls them in
    -- the order in which the closures ran, were refused or the session was stopped. Until the session
    -- is stopped and once it is torn down the world is the one that those calls leave; in between it is
    -- one whose teardown leaves that.
    pub served_in_order :
        {m : Machine A}
        → Attains env zero_value w₀ m
        → (v : World) × Serial env zero_value w₀ m.log v
          × Settles env m.system.stopped m.system.closed m.world v
    served_in_order a = let v = Attains-Follows a in (v.serial, v.history, v.settles)
