-- ===== src/Helper/Views/Relay.antt =====
-- bridge.c, the loop of `main`: what stands when a round begins, and what is left at the end.
use wslcsession.Base.{
  ℕ, suc, ◌≤◌, ◌≡◌, sym, ap, ◌∙◌, false, Bytes, [], ◌++◌, Option, none, some, append-nil,
  append_assoc, arith,
}
use wslcsession.Helper.Loop.{PollFds}
use wslcsession.Helper.Views.{
  Direction, up, down, View, traffic, add_read, add_written, add_end, add_error, more,
}

abbrev pub side_fd : Direction → PollFds → Option ℕ
side_fd up fds = fds.first
side_fd down fds = fds.second

abbrev pub shut_fd : Direction → PollFds → PollFds
shut_fd up fds = record fds { first = none }
shut_fd down fds = record fds { second = none }

-- How often the end of a side was passed on.
abbrev pub ended : Option ℕ → ℕ
ended none = 1
ended (some _) = 0

-- A round begins: all that was read was written, and the end of a side was passed on exactly once when
-- the side is not waited for any more, and not before.
pub record Going (fds : PollFds) (v : View) : Type 0 where
  pub text : (i : Direction) → (traffic i v).read ≡ (traffic i v).written
  pub once : (i : Direction) → (traffic i v).ends ≡ ended (side_fd i fds)
  pub clean : v.errors ≡ 0
  -- one socket is open
  pub sockets : v.opened ≡ suc v.closed

-- The loop is left, and so many sockets are open.
pub record Over (held : ℕ) (v : View) : Type 0 where
  pub rest : Direction → Bytes
  pub text : (i : Direction) → (traffic i v).read ≡ (traffic i v).written ++ rest i
  pub once : (i : Direction) → (traffic i v).ends ≤ 1
  pub sockets : v.opened ≡ more held v.closed
  -- unless a write or a wait failed, everything was written and both ends were passed on
  pub whole : v.errors ≡ 0 → (i : Direction) → (rest i ≡ []) × ((traffic i v).ends ≡ 1)

pub by_side : (P : Direction → Type 0) → P up → P down → (i : Direction) → P i
by_side P x y up = x
by_side P x y down = y

pub Going-read-write :
    (i : Direction) (b : Bytes) (fds : PollFds) (v : View)
    → Going fds v
    → Going fds (add_written i b (add_read i b v))
Going-read-write up b fds v g = record {
  text = by_side _ (ap (λ x. x ++ b) (g.text up)) (g.text down);
  once = by_side _ (g.once up) (g.once down);
  clean = g.clean;
  sockets = g.sockets;
}
Going-read-write down b fds v g = record {
  text = by_side _ (g.text up) (ap (λ x. x ++ b) (g.text down));
  once = by_side _ (g.once up) (g.once down);
  clean = g.clean;
  sockets = g.sockets;
}

pub Going-end :
    (i : Direction) (fds : PollFds) (v : View)
    → ended (side_fd i fds) ≡ 0
    → Going fds v
    → Going (shut_fd i fds) (add_end i (add_read i [] v))
Going-end up fds v open_fd g = record {
  text = by_side _ (append-nil v.up_traffic.read ∙ g.text up) (g.text down);
  once = by_side _ (ap suc (g.once up ∙ open_fd)) (g.once down);
  clean = g.clean;
  sockets = g.sockets;
}
Going-end down fds v open_fd g = record {
  text = by_side _ (g.text up) (append-nil v.down_traffic.read ∙ g.text down);
  once = by_side _ (g.once up) (ap suc (g.once down ∙ open_fd));
  clean = g.clean;
  sockets = g.sockets;
}

pub ended_once : (o : Option ℕ) → ended o ≤ 1
ended_once none = omega arith
ended_once (some _) = omega arith

abbrev broken_rest : Direction → Bytes → Direction → Bytes
broken_rest up x up = x
broken_rest up x down = []
broken_rest down x up = []
broken_rest down x down = x

broken_text :
    (read written b part rest : Bytes)
    → read ≡ written
    → part ++ rest ≡ b
    → read ++ b ≡ (written ++ part) ++ rest
broken_text read written b part rest e f =
    rw (e, append_assoc written part rest) (ap (λ x. written ++ x) (sym f))

pub at_most_once :
    {fds : PollFds} {v : View} → Going fds v → (i : Direction) → (traffic i v).ends ≤ 1
at_most_once {fds} g i = rw (g.once i) (ended_once (side_fd i fds))

pub unbroken_text :
    {fds : PollFds} {v : View}
    → Going fds v
    → (i : Direction) → (traffic i v).read ≡ (traffic i v).written ++ []
unbroken_text {v} g i = g.text i ∙ sym (append-nil (traffic i v).written)

-- A write failed behind some part of what was read.
pub Going-broken :
    (i : Direction) (b part rest : Bytes) (fds : PollFds) (v : View)
    → part ++ rest ≡ b
    → Going fds v
    → Over 1 (add_error false (add_written i part (add_read i b v)))
Going-broken up b part rest fds v e g = record {
  rest = broken_rest up rest;
  text = by_side _ (broken_text _ _ b part rest (g.text up) e) (unbroken_text g down);
  once = by_side _ (at_most_once g up) (at_most_once g down);
  sockets = g.sockets;
  whole = λ z. absurd (omega arith);
}
Going-broken down b part rest fds v e g = record {
  rest = broken_rest down rest;
  text = by_side _ (unbroken_text g up) (broken_text _ _ b part rest (g.text down) e);
  once = by_side _ (at_most_once g up) (at_most_once g down);
  sockets = g.sockets;
  whole = λ z. absurd (omega arith);
}
