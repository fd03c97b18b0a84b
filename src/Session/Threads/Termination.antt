-- ===== src/Session/Threads/Termination.antt =====
-- How many steps the goroutines take without new calls.
use wslcsession.Base.{
  ℕ, ◌+◌, ◌*◌, ◌≤◌, ◌<◌, ◌≡◌, refl, ◌⊎◌, inl, inr, Bool, true, false, arith, Bool-cases, ltb,
  ltb→lt, total, total-update, total_max, find_failing, Goes, Descends, Goes-measure, comes_to_rest,
}
use wslcsession.Session.Threads.{
  Pc, idle, rlock, checking, sending, waiting, leaving, entering, locking, stopping, closing,
  unlocking, awaiting, returned, Com, receiving, running, tearing, exited, System, Runs,
  takes_read_lock, finds_stopped, finds_open, sends, replies, enters_once, skips_once, takes_lock,
  stops, closes, releases_lock, sees_closed, Reach, runs,
}
use wslcsession.Session.Threads.Fits.{Inv}
use wslcsession.Session.Threads.Invariant.{Reach-Inv}
use wslcsession.Session.Threads.Progress.{no_deadlock}
use wslcsession.Session.Threads.Steps.{mover, guard}

-- How many statements a caller has at most before it is back.
abbrev pub left : Pc → ℕ
left idle = 0
left rlock = 5
left checking = 4
left sending = 3
left waiting = 2
left leaving = 1
left entering = 7
left locking = 6
left stopping = 5
left closing = 4
left unlocking = 3
left awaiting = 2
left returned = 0

abbrev pub com_left : Com → ℕ
com_left receiving = 2
com_left (running _) = 2
com_left tearing = 1
com_left exited = 0

left_max : (p : Pc) → left p ≤ 7
left_max idle = omega arith
left_max _ = omega arith

-- Only the callers below `n` are inside a call.
abbrev pub Within : ℕ → System → Type 0
Within n s = (j : ℕ) → n ≤ j → s.pc j ≡ idle

measure : ℕ → System → ℕ
measure n s = com_left s.worker + total left n s.pc

-- Where a step takes its caller.
abbrev landing : {s t : System} → Runs s t → Pc
landing (takes_read_lock _ _ _) = checking
landing (finds_stopped _ _ _) = leaving
landing (finds_open _ _ _) = sending
landing (sends _ _ _ _) = waiting
landing (replies _ _) = leaving
landing (enters_once _ _ _) = locking
landing (skips_once _ _ _) = returned
landing (takes_lock _ _ _ _) = stopping
landing (stops _ _) = closing
landing (closes _ _ _) = unlocking
landing (releases_lock _ _) = awaiting
landing (sees_closed _ _ _) = returned
landing _ = idle

Runs-measure :
    {s t : System} (n : ℕ) (r : Runs s t) → Inv s → Within n s → measure n t < measure n s
unfolding measure
Runs-measure {s} n (takes_read_lock i e w) v h =
    ground (arith, h i, total-update left s.pc i checking n)
Runs-measure {s} n r v h = ground (
  arith,
  guard r,
  h (mover r),
  v.worker,
  v.callers (mover r),
  v.channel,
  total-update left s.pc (mover r) (landing r) n,
)

Runs-Within : {s t : System} (n : ℕ) (r : Runs s t) → Inv s → Within n s → Within n t
Runs-Within n (takes_read_lock i e w) v h j k = ground (arith, h i, h j)
Runs-Within n r v h j k = ground (arith, guard r, v.worker, h (mover r), h j)

-- The steps of the program end: they keep the callers inside a call below `n`.
Runs-Descends : (n : ℕ) → Descends Runs (λ s. Reach s × Within n s) (measure n)
Runs-Descends n = record {
  keeps = λ h r. (runs h.0 r, Runs-Within n r (Reach-Inv h.0) h.1);
  sinks = λ h r. Runs-measure n r (Reach-Inv h.0) h.1;
}

-- Without new calls, a program in which at most the callers below `n` are inside a call ends within
-- `7 * n + 2` steps, in every interleaving.
pub Runs-bounded : {s t : System} (n k : ℕ) → Reach s → Within n s → Goes Runs s k t → k ≤ 7 * n + 2
unfolding measure
Runs-bounded {s} n k h w g = ground (
  arith,
  Goes-measure (Runs-Descends n) g (h, w),
  total_max left 7 left_max n s.pc,
  com_small s.worker,
)
  where
    com_small : (c : Com) → com_left c ≤ 2
    com_small receiving = omega arith
    com_small (running j) = omega arith
    com_small tearing = omega arith
    com_small exited = omega arith

-- Every caller is back.
abbrev pub AllBack : System → Type 0
AllBack s = (i : ℕ) → (s.pc i ≡ idle) ⊎ (s.pc i ≡ returned)

abbrev is_back : Pc → Bool
is_back idle = true
is_back returned = true
is_back _ = false

is_back_lem : (p : Pc) → is_back p ≡ true → (p ≡ idle) ⊎ (p ≡ returned)
is_back_lem idle h = inl refl
is_back_lem returned h = inr refl
is_back_lem _ h = absurd (cc h)

AllBack-below :
    (n : ℕ) (s : System) → Within n s → ((i : ℕ) → i < n → is_back (s.pc i) ≡ true) → AllBack s
AllBack-below n s w h i = elim (Bool-cases (ltb i n)) [
  | inl below ↦ is_back_lem (s.pc i) (h i (ltb→lt i n below))
  | inr above ↦ inl (w i (ground arith))
]

-- A caller that is not back has the program go on.
back_or_goes : (n : ℕ) (s : System) → Reach s × Within n s → AllBack s ⊎ ((t : System) × Runs s t)
back_or_goes n s (h, w) = elim (find_failing is_back n s.pc) [
  | inr back ↦ inl (AllBack-below n s w back)
  | inl (i, inside) ↦
      let (t, r, _) = no_deadlock h i (λ p. ground (arith, p)) (λ p. ground (arith, p)) in
      inr (t, r)
]

-- Every call returns: from every reachable state with finitely many callers inside a call, the
-- program alone comes to a state in which all are back.
pub settles :
    {s : System} (n : ℕ)
    → Reach s
    → Within n s
    → (k : ℕ) × (t : System) × Goes Runs s k t × AllBack t
settles {s} n h w = comes_to_rest (Runs-Descends n) AllBack (back_or_goes n) s (h, w)
