-- ===== src/Session/Threads/Progress.antt =====
-- No deadlock: as long as a caller is inside `do` or `Close`, some goroutine can run.
use wslcsession.Base.{
  ℕ, ◌≡◌, ◌≢◌, refl, ◌⊎◌, inl, inr, true, Option, none, some, List, [], ◌∷◌, arith, Bool-cases,
  ==_self,
}
use wslcsession.Session.Threads.{
  Pc, idle, rlock, checking, sending, waiting, leaving, entering, locking, stopping, closing,
  unlocking, awaiting, returned, Com, receiving, running, tearing, exited, Once, fresh, busy,
  finished, System, Runs, takes_read_lock, finds_stopped, finds_open, sends, replies,
  releases_read_lock, enters_once, skips_once, takes_lock, stops, closes, releases_lock,
  sees_closed, ends_loop, tears_down, Reach,
}
use wslcsession.Session.Threads.Fits.{Inv, is_reader, is_writer, in_body}
use wslcsession.Session.Threads.Invariant.{Reach-Inv}

-- A lock that a caller waits to take for writing is not given to one that asks to read.
abbrev pub Allowed : {s t : System} → Runs s t → Type 0
Allowed {s} (takes_read_lock _ _ _) = (j : ℕ) → s.pc j ≢ locking
Allowed _ = Unit

-- Some goroutine can run, also if a caller that waits for the lock goes before new readers.
abbrev pub CanRun : System → Type 0
CanRun s = (t : System) × (r : Runs s t) × Allowed r

module _ {s : System} (v : Inv s) where
  -- A caller that holds the lock for writing can run.
  writer-CanRun : (i : ℕ) (p : Pc) → s.pc i ≡ p → is_writer p ≡ true → CanRun s
  writer-CanRun i stopping e h = (_, stops i e, tt)
  writer-CanRun i closing e h = (_, closes i e (ground (arith, v.callers i)), tt)
  writer-CanRun i unlocking e h = (_, releases_lock i e, tt)
  writer-CanRun i _ e h = cc

  -- So can one that holds it for reading, if the COM thread is at its receive.
  reader-CanRun :
      (i : ℕ) (p : Pc)
      → s.pc i ≡ p
      → is_reader p ≡ true
      → (s.worker ≡ receiving) ⊎ (s.worker ≡ exited)
      → CanRun s
  reader-CanRun i checking e h w = elim (Bool-cases s.stopped) [
    | inl on ↦ (_, finds_stopped i e on, tt)
    | inr off ↦ (_, finds_open i e off, tt)
  ]
  reader-CanRun i sending e h w = (
    _,
    sends i e (ground (arith, v.callers i, v.channel))
        (ground (arith, v.callers i, v.channel, v.worker)),
    tt,
  )
  reader-CanRun i leaving e h w = (_, releases_read_lock i e, tt)
  reader-CanRun i waiting e h w = absurd (ground (arith, v.callers i))
  reader-CanRun i _ e h w = cc

  awaiting-CanRun :
      (i : ℕ) → s.pc i ≡ awaiting → (s.worker ≡ receiving) ⊎ (s.worker ≡ exited) → CanRun s
  awaiting-CanRun i e (inl w) = (_, ends_loop w (ground (arith, v.callers i)), tt)
  awaiting-CanRun i e (inr w) = (_, sees_closed i e (ground (arith, v.worker)), tt)

  -- The one inside `closeOnce` can run, if nobody holds the lock.
  body-CanRun :
      (i : ℕ) (p : Pc)
      → s.pc i ≡ p
      → in_body p ≡ true
      → s.readers ≡ []
      → s.writer ≡ none
      → (s.worker ≡ receiving) ⊎ (s.worker ≡ exited)
      → CanRun s
  body-CanRun i locking e h r w c = (_, takes_lock i e r w, tt)
  body-CanRun i awaiting e h r w c = awaiting-CanRun i e c
  body-CanRun i p e h r w c = absurd (ground (arith, v.callers i))

  once-CanRun :
      (i : ℕ) (o : Once)
      → s.pc i ≡ entering
      → s.once ≡ o
      → s.readers ≡ []
      → s.writer ≡ none
      → (s.worker ≡ receiving) ⊎ (s.worker ≡ exited)
      → CanRun s
  once-CanRun i fresh e h r w c = (_, enters_once i e h, tt)
  once-CanRun i (busy j) e h r w c = body-CanRun j (s.pc j) refl (ground (arith, v.once)) r w c
  once-CanRun i finished e h r w c = (_, skips_once i e h, tt)

  rlock_busy-CanRun :
      (i k : ℕ) (p : Pc)
      → s.pc i ≡ rlock
      → s.once ≡ busy k
      → s.pc k ≡ p
      → s.readers ≡ []
      → s.writer ≡ none
      → CanRun s
  rlock_busy-CanRun i k locking e h q r w = (_, takes_lock k q r w, tt)
  rlock_busy-CanRun i k _ e h q r w =
      (_, takes_read_lock i e w, λ j at. absurd (ground (arith, at, v.callers j)))

  -- A caller that asks to read goes on, unless one waits to write, which goes first.
  rlock-CanRun :
      (i : ℕ) (o : Once) → s.pc i ≡ rlock → s.once ≡ o → s.readers ≡ [] → s.writer ≡ none → CanRun s
  rlock-CanRun i (busy k) e h r w = rlock_busy-CanRun i k (s.pc k) e h refl r w
  rlock-CanRun i fresh e h r w =
      (_, takes_read_lock i e w, λ j at. absurd (ground (arith, at, v.callers j)))
  rlock-CanRun i finished e h r w =
      (_, takes_read_lock i e w, λ j at. absurd (ground (arith, at, v.callers j)))

  -- With the lock free, every caller inside `do` or `Close` can run, or waits for one that can.
  caller-CanRun :
      (i : ℕ) (p : Pc)
      → s.pc i ≡ p
      → p ≢ idle
      → p ≢ returned
      → s.readers ≡ []
      → s.writer ≡ none
      → (s.worker ≡ receiving) ⊎ (s.worker ≡ exited)
      → CanRun s
  caller-CanRun i rlock e h k r w c = rlock-CanRun i s.once e refl r w
  caller-CanRun i entering e h k r w c = once-CanRun i s.once e refl r w c
  caller-CanRun i locking e h k r w c = (_, takes_lock i e r w, tt)
  caller-CanRun i awaiting e h k r w c = awaiting-CanRun i e c
  caller-CanRun i p e h k r w c = absurd (ground (arith, v.callers i, v.reading i))

  lock-CanRun :
      (i : ℕ) (rs : List ℕ) (wr : Option ℕ)
      → s.readers ≡ rs
      → s.writer ≡ wr
      → s.pc i ≢ idle
      → s.pc i ≢ returned
      → (s.worker ≡ receiving) ⊎ (s.worker ≡ exited)
      → CanRun s
  lock-CanRun i rs (some j) r w h k c = writer-CanRun j (s.pc j) refl (ground (arith, v.writer))
  lock-CanRun i [] none r w h k c = caller-CanRun i (s.pc i) refl h k r w c
  lock-CanRun i (j ∷ rs) none r w h k c =
      reader-CanRun j (s.pc j) refl (ground (arith, v.reading j, ==_self j)) c

  worker-CanRun : (i : ℕ) (c : Com) → s.worker ≡ c → s.pc i ≢ idle → s.pc i ≢ returned → CanRun s
  worker-CanRun i (running j) e h k = (_, replies j e, tt)
  worker-CanRun i tearing e h k = (_, tears_down e, tt)
  worker-CanRun i receiving e h k = lock-CanRun i s.readers s.writer refl refl h k (inl e)
  worker-CanRun i exited e h k = lock-CanRun i s.readers s.writer refl refl h k (inr e)

-- In every reachable state with a caller inside `do` or `Close`, some goroutine can take a step,
-- also when a caller that waits for the lock to write goes before those that ask to read.
pub no_deadlock : {s : System} → Reach s → (i : ℕ) → s.pc i ≢ idle → s.pc i ≢ returned → CanRun s
no_deadlock {s} r i h k = worker-CanRun (Reach-Inv r) i s.worker refl h k
