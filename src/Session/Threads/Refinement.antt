-- ===== src/Session/Threads/Refinement.antt =====
-- What the goroutines promise: requests run one after another, then the session stops, then it is
-- torn down. An abstract session has nothing else.
use wslcsession.Base.{
  ℕ, ◌≡◌, refl, subst, ◌⊎◌, inl, inr, Bool, true, false, Option, none, some, arith,
}
use wslcsession.Session.Threads.{
  stopping, Com, receiving, running, tearing, exited, System, Runs, takes_read_lock, finds_stopped,
  finds_open, sends, sends_on_closed, replies, releases_read_lock, enters_once, skips_once,
  takes_lock, stops, closes, closes_closed, releases_lock, sees_closed, ends_loop, tears_down,
}
use wslcsession.Session.Threads.Fits.{Inv}

pub data Phase : Type 0 where
  serving : Phase
  stopped : Phase
  over : Phase

pub record Service : Type 0 where
  pub phase : Phase
  -- the caller whose request runs
  pub current : Option ℕ

pub data Serves (a : Service) : Service → Type 0 where
  begins : (i : ℕ) → a.phase ≡ serving → a.current ≡ none → Serves a (record a { current = some i })
  ends : (i : ℕ) → a.phase ≡ serving → a.current ≡ some i → Serves a (record a { current = none })
  stops_serving : a.phase ≡ serving → a.current ≡ none → Serves a (record a { phase = stopped })
  is_over : a.phase ≡ stopped → a.current ≡ none → Serves a (record a { phase = over })

pub data Served : Service → Type 0 where
  opened : Served (record { phase = serving; current = none })
  serves : {a b : Service} → Served a → Serves a b → Served b

abbrev pub phase_of : Bool → Com → Phase
phase_of stop exited = over
phase_of true _ = stopped
phase_of false _ = serving

abbrev pub request_of : Com → Option ℕ
request_of (running i) = some i
request_of _ = none

-- The abstract session that goroutines implement.
abbrev pub service : System → Service
service s = record { phase = phase_of s.stopped s.worker; current = request_of s.worker }

Serves-to : {a b c : Service} → Serves a b → b ≡ c → Serves a c
Serves-to {a} s e = subst (λ b. Serves a b) e s

-- Nobody's request runs while somebody holds the lock for writing.
pub idle_while_locked :
    {s : System} (i : ℕ) (c : Com)
    → Inv s
    → s.pc i ≡ stopping
    → s.worker ≡ c
    → (s.stopped ≡ false)
      × (phase_of s.stopped c ≡ serving)
      × (phase_of true c ≡ stopped)
      × (request_of c ≡ none)
idle_while_locked i receiving v e w = ground (arith, v.callers i)
idle_while_locked i (running j) v e w =
    ground (arith, v.callers i, v.callers j, v.reading j, v.writer, v.worker)
idle_while_locked i tearing v e w = ground (arith, v.callers i, v.worker, v.channel)
idle_while_locked i exited v e w = ground (arith, v.callers i, v.worker, v.channel)

-- A step of the program is a step of the abstract session, or none that it sees.
pub Runs-Serves :
    {s t : System} → Runs s t → Inv s → (service t ≡ service s) ⊎ Serves (service s) (service t)
Runs-Serves (takes_read_lock i e w) v = inl refl
Runs-Serves (finds_stopped i e w) v = inl refl
Runs-Serves (finds_open i e w) v = inl refl
Runs-Serves {s} (sends i e o w) v = inr (
    Serves-to (begins i (ground (arith, v.callers i)) (ground arith)) (ground (arith, v.callers i)))
Runs-Serves (sends_on_closed i e w) v = inl refl
Runs-Serves {s} (replies i w) v = inr (
    Serves-to (ends i (ground (arith, v.worker, v.callers i)) (ground arith))
      (ground (arith, v.worker, v.callers i)))
Runs-Serves (releases_read_lock i e) v = inl refl
Runs-Serves (enters_once i e w) v = inl refl
Runs-Serves (skips_once i e w) v = inl refl
Runs-Serves (takes_lock i e r w) v = inl refl
Runs-Serves {s} (stops i e) v =
    let k = idle_while_locked i s.worker v e refl in
    inr (Serves-to (stops_serving k.1 k.3) (ground (arith, k.2)))
Runs-Serves (closes i e w) v = inl refl
Runs-Serves (closes_closed i e w) v = inl refl
Runs-Serves (releases_lock i e) v = inl refl
Runs-Serves (sees_closed i e w) v = inl refl
Runs-Serves {s} (ends_loop w c) v = inl (ground (arith, v.channel))
Runs-Serves {s} (tears_down w) v = inr (
    Serves-to (is_over (ground (arith, v.worker, v.channel)) (ground arith))
      (ground (arith, v.worker, v.channel)))
