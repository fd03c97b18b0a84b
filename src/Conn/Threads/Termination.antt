-- ===== src/Conn/Threads/Termination.antt =====
-- How many steps the goroutines that close one connection take without new calls.
use wslcsession.Base.{
  ℕ, ◌*◌, ◌≤◌, ◌<◌, ◌≡◌, ◌⊎◌, inl, inr, Bool, true, false, arith, Bool-cases, ltb, ltb→lt, total,
  total-update, total_max, find_failing, Goes, Descends, Goes-measure, comes_to_rest, if◌then◌else◌,
}
use wslcsession.Conn.Threads.{
  CloserPc, outside, half_entering, half_closing, entering, closing_stdin, closing_stdout,
  releasing, half_closed, closed, after_half, Sockets, Closes, calls_half, calls_close,
  returns_half, returns_close, enters_half, skips_half, shuts, enters_close, skips_close,
  closes_stdin, closes_stdout, releases_process, Used, goes_on,
}
use wslcsession.Conn.Threads.Invariant.{walker, asks}
use wslcsession.Conn.Threads.Progress.{is_inside, IsInner, close_no_deadlock}

-- How many steps a caller has at most before it is at its return.
abbrev closer_left : CloserPc → ℕ
closer_left outside = 0
closer_left (half_entering true) = 5
closer_left (half_entering false) = 2
closer_left (half_closing true) = 4
closer_left (half_closing false) = 1
closer_left entering = 6
closer_left closing_stdin = 3
closer_left closing_stdout = 2
closer_left releasing = 1
closer_left half_closed = 0
closer_left closed = 0

closer_max : (p : CloserPc) → closer_left p ≤ 6
closer_max (half_entering true) = omega arith
closer_max (half_entering false) = omega arith
closer_max (half_closing true) = omega arith
closer_max (half_closing false) = omega arith
closer_max _ = omega arith

-- A step that is no new call.
abbrev pub Inner : Sockets → Sockets → Type 0
Inner s t = (r : Closes s t) × IsInner r

-- Only the callers below `n` are inside `Close` or `CloseWrite`.
abbrev pub Inside : ℕ → Sockets → Type 0
Inside n s = (j : ℕ) → n ≤ j → is_inside (s.pc j) ≡ false

measure : ℕ → Sockets → ℕ
measure n s = total closer_left n s.pc

-- Where a step takes its caller.
abbrev landing : {s t : Sockets} → Closes s t → CloserPc
landing (calls_half _ _) = half_entering false
landing (calls_close _ _) = entering
landing (returns_half _ _) = outside
landing (returns_close _ _) = outside
landing (enters_half _ b _ _) = half_closing b
landing (skips_half _ b _ _) = after_half b
landing (shuts _ b _) = after_half b
landing (enters_close _ _ _) = half_entering true
landing (skips_close _ _ _) = closed
landing (closes_stdin _ _) = closing_stdout
landing (closes_stdout _ _) = releasing
landing (releases_process _ _) = closed

Inner-measure :
    {s t : Sockets} (n : ℕ) (r : Closes s t) → IsInner r → Inside n s → measure n t < measure n s
unfolding measure
Inner-measure {s} n (enters_half i true e w) a h =
    ground (arith, h i, total-update closer_left s.pc i (half_closing true) n)
Inner-measure {s} n r a h =
    ground (arith, asks r, h (walker r), total-update closer_left s.pc (walker r) (landing r) n)

Inner-Inside : {s t : Sockets} (n : ℕ) (r : Closes s t) → IsInner r → Inside n s → Inside n t
Inner-Inside n (enters_half i b e w) a h j k = ground (arith, h i, h j)
Inner-Inside n r a h j k = ground (arith, asks r, h (walker r), h j)

Inner-Descends : (n : ℕ) → Descends Inner (λ s. Used s × Inside n s) (measure n)
Inner-Descends n = record {
  keeps = λ h r. (goes_on h.0 r.0, Inner-Inside n r.0 r.1 h.1);
  sinks = λ h r. Inner-measure n r.0 r.1 h.1;
}

-- If only the first `n` callers are inside `Close` or `CloseWrite` of a connection, at most `6 * n` steps
-- follow without a new call, in every interleaving.
pub closes_bounded : {s t : Sockets} (n k : ℕ) → Used s → Inside n s → Goes Inner s k t → k ≤ 6 * n
unfolding measure
closes_bounded {s} n k u h g =
    omega
      (arith, Goes-measure (Inner-Descends n) g (u, h), total_max closer_left 6 closer_max n s.pc)

-- Nobody is inside `Close` or `CloseWrite`.
abbrev pub AllClosed : Sockets → Type 0
AllClosed s = (i : ℕ) → is_inside (s.pc i) ≡ false

abbrev is_done : CloserPc → Bool
is_done p = if is_inside p then false else true

AllClosed-below :
    (n : ℕ) (s : Sockets) → Inside n s → ((i : ℕ) → i < n → is_done (s.pc i) ≡ true) → AllClosed s
AllClosed-below n s w h i = elim (Bool-cases (ltb i n)) [
  | inl below ↦ ground (arith, h i (ltb→lt i n below))
  | inr above ↦ w i (ground arith)
]

closed_or_goes :
    (n : ℕ) (s : Sockets) → Used s × Inside n s → AllClosed s ⊎ ((t : Sockets) × Inner s t)
closed_or_goes n s (u, w) = elim (find_failing is_done n s.pc) [
  | inr done ↦ inl (AllClosed-below n s w done)
  | inl (i, inside) ↦
      let (t, r, inner) = close_no_deadlock u i (ground (arith, inside)) in inr (t, (r, inner))
]

-- Every call of `Close` and of `CloseWrite` of a connection returns: from every reachable state in which
-- only the first `n` callers are inside one, the steps that are no new call come to a state in which
-- all are at its return.
pub close_returns :
    {s : Sockets} (n : ℕ)
    → Used s
    → Inside n s
    → (k : ℕ) × (t : Sockets) × Goes Inner s k t × AllClosed t
close_returns {s} n u h = comes_to_rest (Inner-Descends n) AllClosed (closed_or_goes n) s (u, h)
