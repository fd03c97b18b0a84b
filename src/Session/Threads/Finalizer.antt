-- ===== src/Session/Threads/Finalizer.antt =====
-- session.go, the finalizer that `NewSession` sets: `Close`, if nothing refers to the session any more.
use wslcsession.Base.{ℕ, ◌≡◌, refl, Bool, true, false, arith}
use wslcsession.Session.Threads.{
  idle, entering, Com, receiving, running, tearing, exited, Once, fresh, busy, finished, System,
  move, Calls, call_do, call_close, comes_back, Runs, takes_read_lock, enters_once, sees_closed,
  init, Reach, start, calls, runs,
}
use wslcsession.Session.Threads.Fits.{Inv}
use wslcsession.Session.Threads.Invariant.{Reach-Inv}
use wslcsession.Session.Threads.Steps.{mover, guard}

pub record Life : Type 0 where
  pub system : System
  -- the program has a reference, besides those of the callers inside `do` and `Close`
  pub held : Bool
  pub finalizer : Bool
  -- the collector has started the finalizer
  pub finalized : Bool

-- A call needs a reference.
abbrev pub IsMade : Bool → {s t : System} → Calls s t → Type 0
IsMade held (call_do _ _) = held ≡ true
IsMade held (call_close _ _) = held ≡ true
IsMade held (comes_back _ _) = Unit

-- `Close` takes the finalizer away when the session is torn down.
abbrev pub keeps_finalizer : {s t : System} → Runs s t → Bool → Bool
keeps_finalizer (sees_closed _ _ _) b = false
keeps_finalizer _ b = b

-- Nothing refers to the session: a caller inside a method does, and so does `comThread` until it
-- returns, which receives from `s.reqCh`.
abbrev pub IsGarbage : Life → Type 0
IsGarbage m = (m.held ≡ false) × ((i : ℕ) → m.system.pc i ≡ idle) × (m.system.worker ≡ exited)

pub data Lives (m : Life) : Life → Type 0 where
  acts : {t : System} (c : Calls m.system t) → IsMade m.held c → Lives m (record m { system = t })
  works :
      {t : System} (r : Runs m.system t)
      → Lives m (record m { system = t; finalizer = keeps_finalizer r m.finalizer })
  drops : m.held ≡ true → Lives m (record m { held = false })
  -- the finalizer runs as one more caller
  collects :
      (i : ℕ)
      → IsGarbage m
      → m.finalizer ≡ true
      → Lives m
          (record m { system = move m.system i entering; finalizer = false; finalized = true })

pub data Lived : Life → Type 0 where
  created : Lived (record { system = init; held = true; finalizer = true; finalized = false })
  lives : {m m' : Life} → Lived m → Lives m m' → Lived m'

-- A session with its finalizer is not closed yet, and the finalizer has not run.
record Alive (m : Life) : Type 0 where
  reach : Reach m.system
  pending : m.system.once ≡ finished → m.finalizer ≡ false
  unfinalized : m.finalized ≡ false

works-pending :
    {s t : System} (r : Runs s t) (b : Bool)
    → (s.once ≡ finished → b ≡ false)
    → t.once ≡ finished
    → keeps_finalizer r b ≡ false
works-pending (sees_closed i e w) b h f = refl
works-pending (enters_once i e w) b h f = cc
works-pending _ b h f = h f

-- What nothing refers to has been closed.
garbage-finished :
    {s : System} (o : Once)
    → Inv s
    → s.once ≡ o
    → ((i : ℕ) → s.pc i ≡ idle)
    → s.worker ≡ exited
    → s.once ≡ finished
garbage-finished fresh v e quiet w = ground (arith, v.once, v.worker, v.channel)
garbage-finished (busy i) v e quiet w = ground (arith, v.once, quiet i)
garbage-finished finished v e quiet w = e

Calls-once : {s t : System} → Calls s t → t.once ≡ s.once
Calls-once (call_do _ _) = refl
Calls-once _ = refl

Lived-Alive : {m : Life} → Lived m → Alive m
Lived-Alive created = record { reach = start; pending = λ e. cc; unfinalized = refl }
Lived-Alive (lives l (acts c h)) =
    let a = Lived-Alive l in
    record {
      reach = calls a.reach c;
      pending = λ e. a.pending (rw (Calls-once c) at e);
      unfinalized = a.unfinalized;
    }
Lived-Alive (lives {m} l (works r)) =
    let a = Lived-Alive l in
    record {
      reach = runs a.reach r;
      pending = works-pending r m.finalizer a.pending;
      unfinalized = a.unfinalized;
    }
Lived-Alive (lives l (drops h)) =
    let a = Lived-Alive l in
    record { reach = a.reach; pending = a.pending; unfinalized = a.unfinalized }
Lived-Alive (lives {m} l (collects i g f)) =
    let a = Lived-Alive l in
    let e = garbage-finished m.system.once (Reach-Inv a.reach) refl g.1 g.2 in
    let h = a.pending e in cc

-- The finalizer never runs: as long as the session is not closed, `comThread` refers to it.
pub finalizer_never_runs : {m : Life} → Lived m → m.finalized ≡ false
finalizer_never_runs l = (Lived-Alive l).unfinalized

-- Nobody refers to the session, and nobody has closed it.
abbrev pub IsForgotten : Life → Type 0
IsForgotten m = (m.held ≡ false) × ((i : ℕ) → m.system.pc i ≡ idle) × (m.system.once ≡ fresh)

forgotten-receiving :
    {s : System} (c : Com)
    → Inv s
    → s.worker ≡ c
    → ((i : ℕ) → s.pc i ≡ idle)
    → s.once ≡ fresh
    → s.worker ≡ receiving
forgotten-receiving receiving v e quiet o = e
forgotten-receiving (running i) v e quiet o = ground (arith, v.worker, quiet i)
forgotten-receiving tearing v e quiet o = ground (arith, v.worker, v.once, v.channel)
forgotten-receiving exited v e quiet o = ground (arith, v.worker, v.once, v.channel)

forgotten-stuck :
    {s t : System} (r : Runs s t)
    → Inv s
    → ((i : ℕ) → s.pc i ≡ idle)
    → s.once ≡ fresh
    → s.worker ≡ receiving
    → ⊥
forgotten-stuck (takes_read_lock i e w) v quiet o h = ground (arith, quiet i)
forgotten-stuck r v quiet o h = ground (arith, guard r, quiet (mover r), v.once, v.channel)

forgotten-ends :
    {m m' : Life}
    → Lives m m'
    → Inv m.system
    → m.held ≡ false
    → ((i : ℕ) → m.system.pc i ≡ idle)
    → m.system.once ≡ fresh
    → m.system.worker ≡ receiving
    → ⊥
forgotten-ends (acts (call_do i e) h) v dropped quiet o w = cc
forgotten-ends (acts (call_close i e) h) v dropped quiet o w = cc
forgotten-ends (acts (comes_back i e) h) v dropped quiet o w = ground (arith, quiet i)
forgotten-ends (works r) v dropped quiet o w = forgotten-stuck r v quiet o w
forgotten-ends (drops h) v dropped quiet o w = cc
forgotten-ends (collects i g f) v dropped quiet o w = ground (arith, g.2)

-- When nobody refers to a session that was not closed, no step follows: `comThread` waits for a request
-- for ever, and the session is never torn down.
pub forgotten_stays : {m m' : Life} → Lived m → IsForgotten m → ¬ Lives m m'
forgotten_stays {m} l (dropped, quiet, o) x =
    let v = Reach-Inv (Lived-Alive l).reach in
    forgotten-ends x v dropped quiet o (forgotten-receiving m.system.worker v refl quiet o)
