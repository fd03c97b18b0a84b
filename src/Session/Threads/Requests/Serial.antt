-- ===== src/Session/Threads/Requests/Serial.antt =====
-- The requests of the goroutines against the methods of `Session`, each atomic.
use wslcsession.Base.{
  ℕ, ◌≡◌, refl, Bool, true, false, Option, some, List, [], ◌∷◌, Io, Run, done, fail, panic, Ends,
  Result, ok, arith,
}
use wslcsession.Base.Effects.{◌>>=◌}
use wslcsession.Com.Trace.{Env, Trace}
use wslcsession.Conn.Closed.{do_request_closed}
use wslcsession.Session.{World, stop, tear_down, do_request, close, interfere, discard, on_trace}
use wslcsession.Session.Dial.{IsClosed, IsQuiet}
use wslcsession.Session.Volumes.{discard-Any}
use wslcsession.Session.Threads.Requests.{outcome, Entry, answered, closed_by}

module _ (env : Env) where
  -- How the world of the goroutines lies to that of the methods: by whether the session is stopped
  -- and whether it is torn down.
  abbrev pub Settles : Bool → Bool → World → World → Type 0
  Settles false _ w v = v ≡ w
  Settles true true w v = (v ≡ w) × IsClosed v.session
  Settles true false w v = (tear_down env w ≡ done tt v) × IsClosed v.session

  pub tear_down_total :
      (w : World)
      → (v : World) × (tear_down env w ≡ done tt v)
        × (v.session ≡ record w.session { closed = true })
  unfolding tear_down on_trace ◌>>=◌
  tear_down_total w = go _ refl ((discard-Any env w.session.mgr w.session.sess).at w.trace tt)
    where
      go :
          (r : Run Trace (Unit {0}))
          → discard env w.session.mgr w.session.sess w.trace ≡ r
          → Ends r (λ _ _. Unit {0}) (λ _ _. ⊥)
          → (v : World) × (tear_down env w ≡ done tt v)
            × (v.session ≡ record w.session { closed = true })
      go (done _ t) e h = (
        record { session = record w.session { closed = true }; trace = t },
        ground (arith, e),
        refl,
      )
      go (fail _ t) e h = absurd h
      go panic e h = absurd h

  -- The session that a teardown leaves.
  pub tear_down-session :
      (w u : World) → tear_down env w ≡ done tt u → u.session ≡ record w.session { closed = true }
  tear_down-session w u t =
      let end = tear_down_total w in
      let same : u ≡ end.0 = ground (arith, t, end.1) in rw same end.2

  pub Settles-going : (a b : Bool) (w v : World) → a ≡ false → Settles a b w v → v ≡ w
  Settles-going false b w v e h = h
  Settles-going true b w v e h = ground arith

  pub Settles-IsClosed :
      (a b : Bool) (w v : World) → a ≡ true → Settles a b w v → IsClosed v.session
  Settles-IsClosed true true w v e h = h.1
  Settles-IsClosed true false w v e h = h.1
  Settles-IsClosed false b w v e h = ground arith

  pub settled :
      (a b : Bool) (w w' v : World)
      → a ≡ true
      → b ≡ false
      → tear_down env w ≡ done tt w'
      → Settles a b w v
      → (v ≡ w') × IsClosed v.session
  settled true false w w' v e f t h = (ground (arith, h.0, t), h.1)
  settled true true w w' v e f t h = ground arith
  settled false b w w' v e f t h = ground arith

  pub closes_first :
      (w v u : World)
      → v ≡ w
      → w.session.close_once ≡ false
      → tear_down env (record w { session = stop w.session }) ≡ done tt u
      → close env v ≡ done tt u
  unfolding close ◌>>=◌ stop
  closes_first w v u same first t = rw (same, first) t

  pub stopped_session :
      (w u : World)
      → tear_down env (record w { session = stop w.session }) ≡ done tt u
      → IsClosed u.session
  unfolding stop
  stopped_session w u t = rw (tear_down-session _ u t) (refl, refl)

  module _ {A : Type 0} (zero_value : A) where
    -- What was logged, done by one goroutine alone with the methods of `Session`.
    pub data Serial (w₀ : World) : List (Entry A) → World → Type 0 where
      nothing : Serial w₀ [] w₀
      asked :
          {l : List (Entry A)} {w w' : World} (i : ℕ) (f : Io World A) (r : Result A)
          → Serial w₀ l w
          → outcome (do_request env zero_value f w) ≡ some (r, w')
          → Serial w₀ (answered i f r ∷ l) w'
      closed :
          {l : List (Entry A)} {w w' : World} (i : ℕ)
          → Serial w₀ l w
          → close env w ≡ done tt w'
          → Serial w₀ (closed_by i ∷ l) w'

    pub do_request_going :
        (f : Io World A) (w : World)
        → IsQuiet env
        → w.session.stopped ≡ false
        → do_request env zero_value f w ≡ f w
    unfolding do_request interfere ◌>>=◌
    do_request_going f w quiet o = rw (quiet w.trace) (rw o)

    pub answers-outcome :
        (f : Io World A) (w v : World) (x : Option (Result A × World))
        → IsQuiet env
        → w.session.stopped ≡ false
        → v ≡ w
        → outcome (f w) ≡ x
        → outcome (do_request env zero_value f v) ≡ x
    answers-outcome f w v x quiet going same o = rw (same, do_request_going f w quiet going) o

    pub refuses-outcome :
        (f : Io World A) (v : World)
        → IsClosed v.session
        → outcome (do_request env zero_value f v) ≡ some (ok zero_value, v)
    unfolding outcome
    refuses-outcome f v c = rw (do_request_closed env zero_value f v c) refl
