-- ===== src/Session/Threads/Invariant.antt =====
-- What holds in every reachable state of the goroutines.
use wslcsession.Base.{ℕ, ◌≡◌, false, arith}
use wslcsession.Session.Threads.{
  waiting, returned, running, exited, System, Reach, start, calls, runs,
}
use wslcsession.Session.Threads.Fits.{Inv, init-Inv}
use wslcsession.Session.Threads.Steps.{Calls-Inv, Runs-Inv}

pub Reach-Inv : {s : System} → Reach s → Inv s
Reach-Inv start = init-Inv
Reach-Inv (calls r c) = Calls-Inv c (Reach-Inv r)
Reach-Inv (runs r x) = Runs-Inv x (Reach-Inv r)

-- No goroutine sends on a closed channel or closes one twice, in any interleaving.
pub no_panic : {s : System} → Reach s → s.crashed ≡ false
no_panic r = (Reach-Inv r).sound

-- When a call of `Close` has returned, the COM thread has torn the session down and is gone.
pub returned-exited : {s : System} → Reach s → (i : ℕ) → s.pc i ≡ returned → s.worker ≡ exited
returned-exited r i e = ground (arith, (Reach-Inv r).callers i)

-- A request runs only for a caller that waits for it, before the flag is set and the channel closed.
pub running-waiting :
    {s : System}
    → Reach s
    → (i : ℕ) → s.worker ≡ running i
    → (s.pc i ≡ waiting) × (s.stopped ≡ false) × (s.req_closed ≡ false)
running-waiting r i e =
    let v = Reach-Inv r in
    (
      ground (arith, v.worker),
      ground (arith, v.worker, v.callers i),
      ground (arith, v.worker, v.callers i, v.channel),
    )

-- Two callers never wait for requests at the same time: requests run one after another.
pub waiting_unique :
    {s : System} → Reach s → (i j : ℕ) → s.pc i ≡ waiting → s.pc j ≡ waiting → i ≡ j
waiting_unique r i j e f = let v = Reach-Inv r in ground (arith, v.callers i, v.callers j)
