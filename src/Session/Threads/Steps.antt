-- ===== src/Session/Threads/Steps.antt =====
-- Each step of the goroutines keeps the invariant.
use wslcsession.Base.{ℕ, ◌≡◌, true, false, none, [], arith}
use wslcsession.Session.Threads.{
  idle, rlock, checking, sending, leaving, entering, locking, stopping, closing, unlocking,
  awaiting, returned, receiving, running, tearing, fresh, finished, System, Calls, call_do,
  call_close, comes_back, Runs, takes_read_lock, finds_stopped, finds_open, sends, sends_on_closed,
  replies, releases_read_lock, enters_once, skips_once, takes_lock, stops, closes, closes_closed,
  releases_lock, sees_closed, ends_loop, tears_down,
}
use wslcsession.Session.Threads.Fits.{
  is_in, is_reader, Fits, ComFits, OnceFits, WriterFits, Inv, is_in-leave,
}

-- The caller that moves, and what the step asks for.
abbrev actor : {s t : System} → Calls s t → ℕ
actor (call_do i _) = i
actor (call_close i _) = i
actor (comes_back i _) = i

abbrev CallGuard : {s t : System} → Calls s t → Type 0
CallGuard {s} (call_do i _) = s.pc i ≡ idle
CallGuard {s} (call_close i _) = s.pc i ≡ idle
CallGuard {s} (comes_back i _) = s.pc i ≡ returned

call_guard : {s t : System} (c : Calls s t) → CallGuard c
call_guard (call_do _ e) = e
call_guard (call_close _ e) = e
call_guard (comes_back _ e) = e

pub Calls-Inv : {s t : System} → Calls s t → Inv s → Inv t
Calls-Inv (call_do i e) v = record {
  reading = λ j. ground (arith, v.reading i, v.reading j);
  callers = λ j. ground (arith, v.callers i, v.callers j);
  worker = ground (arith, v.worker);
  once = ground (arith, v.once);
  writer = ground (arith, v.writer);
  channel = v.channel;
  sound = v.sound;
}
Calls-Inv c v = record {
  reading = λ j. ground (arith, call_guard c, v.reading (actor c), v.reading j);
  callers = λ j. ground (arith, call_guard c, v.callers (actor c), v.callers j);
  worker = ground (arith, call_guard c, v.worker);
  once = ground (arith, call_guard c, v.once);
  writer = ground (arith, call_guard c, v.writer);
  channel = v.channel;
  sound = v.sound;
}

abbrev pub mover : {s t : System} → Runs s t → ℕ
mover (takes_read_lock i _ _) = i
mover (finds_stopped i _ _) = i
mover (finds_open i _ _) = i
mover (sends i _ _ _) = i
mover (sends_on_closed i _ _) = i
mover (replies i _) = i
mover (releases_read_lock i _) = i
mover (enters_once i _ _) = i
mover (skips_once i _ _) = i
mover (takes_lock i _ _ _) = i
mover (stops i _) = i
mover (closes i _ _) = i
mover (closes_closed i _ _) = i
mover (releases_lock i _) = i
mover (sees_closed i _ _) = i
mover (ends_loop _ _) = 0
mover (tears_down _) = 0

abbrev pub Guard : {s t : System} → Runs s t → Type 0
Guard {s} (takes_read_lock i _ _) = (s.pc i ≡ rlock) × (s.writer ≡ none)
Guard {s} (finds_stopped i _ _) = (s.pc i ≡ checking) × (s.stopped ≡ true)
Guard {s} (finds_open i _ _) = (s.pc i ≡ checking) × (s.stopped ≡ false)
Guard {s} (sends i _ _ _) = (s.pc i ≡ sending) × (s.req_closed ≡ false) × (s.worker ≡ receiving)
Guard {s} (sends_on_closed i _ _) = (s.pc i ≡ sending) × (s.req_closed ≡ true)
Guard {s} (replies i _) = s.worker ≡ running i
Guard {s} (releases_read_lock i _) = s.pc i ≡ leaving
Guard {s} (enters_once i _ _) = (s.pc i ≡ entering) × (s.once ≡ fresh)
Guard {s} (skips_once i _ _) = (s.pc i ≡ entering) × (s.once ≡ finished)
Guard {s} (takes_lock i _ _ _) = (s.pc i ≡ locking) × (s.readers ≡ []) × (s.writer ≡ none)
Guard {s} (stops i _) = s.pc i ≡ stopping
Guard {s} (closes i _ _) = (s.pc i ≡ closing) × (s.req_closed ≡ false)
Guard {s} (closes_closed i _ _) = (s.pc i ≡ closing) × (s.req_closed ≡ true)
Guard {s} (releases_lock i _) = s.pc i ≡ unlocking
Guard {s} (sees_closed i _ _) = (s.pc i ≡ awaiting) × (s.closed ≡ true)
Guard {s} (ends_loop _ _) = (s.worker ≡ receiving) × (s.req_closed ≡ true)
Guard {s} (tears_down _) = s.worker ≡ tearing

pub guard : {s t : System} (r : Runs s t) → Guard r
guard (takes_read_lock i e w) = (e, w)
guard (finds_stopped i e w) = (e, w)
guard (finds_open i e w) = (e, w)
guard (sends i e w x) = (e, w, x)
guard (sends_on_closed i e w) = (e, w)
guard (replies i e) = e
guard (releases_read_lock i e) = e
guard (enters_once i e w) = (e, w)
guard (skips_once i e w) = (e, w)
guard (takes_lock i e w x) = (e, w, x)
guard (stops i e) = e
guard (closes i e w) = (e, w)
guard (closes_closed i e w) = (e, w)
guard (releases_lock i e) = e
guard (sees_closed i e w) = (e, w)
guard (ends_loop e w) = (e, w)
guard (tears_down e) = e

Runs-reading :
    {s t : System} (r : Runs s t) → Inv s → (j : ℕ) → is_in j t.readers ≡ is_reader (t.pc j)
Runs-reading (takes_read_lock i e w) v j = ground (arith, v.reading i, v.reading j)
Runs-reading {s} r v j =
    ground (
      arith,
      guard r,
      v.reading (mover r),
      v.reading j,
      v.worker,
      is_in-leave (mover r) j s.readers,
    )

Runs-callers : {s t : System} (r : Runs s t) → Inv s → (j : ℕ) → Fits t j (t.pc j)
Runs-callers (takes_read_lock i e w) v j = ground (arith, v.callers i, v.callers j)
Runs-callers r v j = ground (
  arith,
  guard r,
  v.callers (mover r),
  v.callers j,
  v.reading j,
  v.worker,
  v.once,
  v.writer,
  v.channel,
)

Runs-worker : {s t : System} (r : Runs s t) → Inv s → ComFits t t.worker
Runs-worker (takes_read_lock i e w) v = ground (arith, v.worker)
Runs-worker r v = ground (arith, guard r, v.callers (mover r), v.worker)

Runs-once : {s t : System} (r : Runs s t) → Inv s → OnceFits t t.once
Runs-once (takes_read_lock i e w) v = ground (arith, v.once)
Runs-once r v = ground (arith, guard r, v.callers (mover r), v.worker, v.once)

Runs-writer : {s t : System} (r : Runs s t) → Inv s → WriterFits t t.writer
Runs-writer (takes_read_lock i e w) v = ground (arith, v.writer)
Runs-writer r v =
    ground (arith, guard r, v.callers (mover r), v.reading (mover r), v.worker, v.writer)

Runs-channel : {s t : System} (r : Runs s t) → Inv s → t.stopped ≡ false → t.req_closed ≡ false
Runs-channel (takes_read_lock i e w) v h = v.channel h
Runs-channel r v h = ground (arith, guard r, v.callers (mover r), v.channel)

Runs-sound : {s t : System} (r : Runs s t) → Inv s → t.crashed ≡ false
Runs-sound (takes_read_lock i e w) v = v.sound
Runs-sound r v = ground (arith, guard r, v.callers (mover r), v.channel, v.sound)

pub Runs-Inv : {s t : System} (r : Runs s t) → Inv s → Inv t
Runs-Inv r v = record {
  reading = Runs-reading r v;
  callers = Runs-callers r v;
  worker = Runs-worker r v;
  once = Runs-once r v;
  writer = Runs-writer r v;
  channel = Runs-channel r v;
  sound = Runs-sound r v;
}
