-- ===== src/Session/Threads/Fits.antt =====
-- What the place of each goroutine says about the shared state: an invariant of the goroutines.
use wslcsession.Base.{
  ℕ, ◌≡◌, refl, Bool, true, false, ◌||◌, Option, none, some, List, [], ◌∷◌, arith, ◌==◌,
  if◌then◌else◌,
}
use wslcsession.Session.Threads.{
  Pc, checking, sending, waiting, leaving, locking, stopping, closing, unlocking, awaiting,
  returned, Com, receiving, running, tearing, exited, Once, fresh, busy, finished, System, leave,
  init,
}

abbrev pub is_in : ℕ → List ℕ → Bool
is_in i [] = false
is_in i (j ∷ l) = j == i || is_in i l

abbrev pub is_reader : Pc → Bool
is_reader checking = true
is_reader sending = true
is_reader waiting = true
is_reader leaving = true
is_reader _ = false

abbrev pub is_writer : Pc → Bool
is_writer stopping = true
is_writer closing = true
is_writer unlocking = true
is_writer _ = false

-- What the place of a caller says about the shared state.
abbrev pub Fits : System → ℕ → Pc → Type 0
Fits s i sending = s.stopped ≡ false
Fits s i waiting = (s.stopped ≡ false) × (s.worker ≡ running i)
Fits s i locking = (s.once ≡ busy i) × (s.stopped ≡ false)
Fits s i stopping = (s.once ≡ busy i) × (s.writer ≡ some i) × (s.stopped ≡ false)
Fits s i closing =
    (s.once ≡ busy i) × (s.writer ≡ some i) × (s.stopped ≡ true) × (s.req_closed ≡ false)
Fits s i unlocking =
    (s.once ≡ busy i) × (s.writer ≡ some i) × (s.stopped ≡ true) × (s.req_closed ≡ true)
Fits s i awaiting = (s.once ≡ busy i) × (s.stopped ≡ true) × (s.req_closed ≡ true)
Fits s i returned = s.worker ≡ exited
Fits s i _ = Unit

abbrev pub in_body : Pc → Bool
in_body locking = true
in_body awaiting = true
in_body p = is_writer p

abbrev pub ComFits : System → Com → Type 0
ComFits s receiving = s.closed ≡ false
ComFits s (running i) = (s.pc i ≡ waiting) × (s.closed ≡ false)
ComFits s tearing = (s.req_closed ≡ true) × (s.closed ≡ false)
ComFits s exited = (s.req_closed ≡ true) × (s.closed ≡ true)

abbrev pub OnceFits : System → Once → Type 0
OnceFits s fresh = s.stopped ≡ false
OnceFits s (busy i) = in_body (s.pc i) ≡ true
OnceFits s finished = s.worker ≡ exited

abbrev pub WriterFits : System → Option ℕ → Type 0
WriterFits s none = Unit
WriterFits s (some i) = (is_writer (s.pc i) ≡ true) × (s.readers ≡ [])

pub record Inv (s : System) : Type 0 where
  pub reading : (i : ℕ) → is_in i s.readers ≡ is_reader (s.pc i)
  pub callers : (i : ℕ) → Fits s i (s.pc i)
  pub worker : ComFits s s.worker
  pub once : OnceFits s s.once
  pub writer : WriterFits s s.writer
  pub channel : s.stopped ≡ false → s.req_closed ≡ false
  pub sound : s.crashed ≡ false

pub is_in-leave :
    (i j : ℕ) (l : List ℕ) → is_in j (leave i l) ≡ (if i == j then false else is_in j l)
is_in-leave i j [] = ground arith
is_in-leave i j (k ∷ l) = ground (arith, is_in-leave i j l)

pub init-Inv : Inv init
init-Inv = record {
  reading = λ i. refl;
  callers = λ i. tt;
  worker = refl;
  once = refl;
  writer = tt;
  channel = λ h. refl;
  sound = refl;
}
