-- ===== src/Conn/Threads/Progress.antt =====
-- Goroutines that close one connection never wait for each other for good.
use wslcsession.Base.{ℕ, ◌≡◌, refl, true, false, arith, Bool}
use wslcsession.Session.Threads.{Once, fresh, busy, finished}
use wslcsession.Conn.Threads.Invariant.{Proper, Used-Proper, is_body, is_shutting}
use wslcsession.Conn.Threads.{
  CloserPc, outside, half_entering, half_closing, entering, closing_stdin, closing_stdout,
  releasing, half_closed, closed, Sockets, Closes, calls_half, calls_close, returns_half,
  returns_close, enters_half, skips_half, shuts, enters_close, skips_close, closes_stdin,
  closes_stdout, releases_process, Used,
}

-- A caller is inside `Close` or `CloseWrite`.
abbrev pub is_inside : CloserPc → Bool
is_inside outside = false
is_inside half_closed = false
is_inside closed = false
is_inside _ = true

-- The steps that are no new call.
abbrev pub IsInner : {s t : Sockets} → Closes s t → Type 0
IsInner (calls_half _ _) = ⊥
IsInner (calls_close _ _) = ⊥
IsInner (returns_half _ _) = ⊥
IsInner (returns_close _ _) = ⊥
IsInner _ = Unit

abbrev pub CanClose : Sockets → Type 0
CanClose s = (t : Sockets) × (r : Closes s t) × IsInner r

module _ {s : Sockets} (v : Proper s) where
  shutting-CanClose : (i : ℕ) (p : CloserPc) → s.pc i ≡ p → is_shutting p ≡ true → CanClose s
  shutting-CanClose i (half_closing b) e h = (_, shuts i b e, tt)
  shutting-CanClose i _ e h = cc

  half-CanClose :
      (i : ℕ) (b : Bool) (o : Once) → s.pc i ≡ half_entering b → s.write_once ≡ o → CanClose s
  half-CanClose i b fresh e w = (_, enters_half i b e w, tt)
  half-CanClose i b (busy j) e w = shutting-CanClose j (s.pc j) refl (ground (arith, v.write))
  half-CanClose i b finished e w = (_, skips_half i b e w, tt)

  body-CanClose : (i : ℕ) (p : CloserPc) → s.pc i ≡ p → is_body p ≡ true → CanClose s
  body-CanClose i (half_entering b) e h = half-CanClose i b s.write_once e refl
  body-CanClose i (half_closing b) e h = (_, shuts i b e, tt)
  body-CanClose i closing_stdin e h = (_, closes_stdin i e, tt)
  body-CanClose i closing_stdout e h = (_, closes_stdout i e, tt)
  body-CanClose i releasing e h = (_, releases_process i e, tt)
  body-CanClose i _ e h = cc

  once-CanClose : (i : ℕ) (o : Once) → s.pc i ≡ entering → s.close_once ≡ o → CanClose s
  once-CanClose i fresh e w = (_, enters_close i e w, tt)
  once-CanClose i (busy j) e w = body-CanClose j (s.pc j) refl (ground (arith, v.close))
  once-CanClose i finished e w = (_, skips_close i e w, tt)

  inside-CanClose : (i : ℕ) (p : CloserPc) → s.pc i ≡ p → is_inside p ≡ true → CanClose s
  inside-CanClose i entering e h = once-CanClose i s.close_once e refl
  inside-CanClose i (half_entering b) e h = half-CanClose i b s.write_once e refl
  inside-CanClose i (half_closing b) e h = (_, shuts i b e, tt)
  inside-CanClose i closing_stdin e h = (_, closes_stdin i e, tt)
  inside-CanClose i closing_stdout e h = (_, closes_stdout i e, tt)
  inside-CanClose i releasing e h = (_, releases_process i e, tt)
  inside-CanClose i _ e h = cc

-- In every reachable state in which a caller is inside `Close` or `CloseWrite` of a connection, some
-- goroutine can take a step.
pub close_no_deadlock : {s : Sockets} → Used s → (i : ℕ) → is_inside (s.pc i) ≡ true → CanClose s
close_no_deadlock {s} u i h = inside-CanClose (Used-Proper u) i (s.pc i) refl h
