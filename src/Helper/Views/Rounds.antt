-- ===== src/Helper/Views/Rounds.antt =====
-- bridge.c, the loop of `main`: it ends, and what it has done then.
use wslcsession.Base.{
  ℕ, zero, suc, ◌+◌, ◌-◌, ◌≤◌, ◌<◌, ◌≡◌, refl, ◌∙◌, inl, inr, Bool, true, false, [], Option, none,
  some, done, fail, panic, Ends, Bool-cases, leb, leb→le, arith, Run, ℤ, pos, negsuc, Io,
}
use wslcsession.Base.Effects.{◌>>=◌, bind_run}
use wslcsession.Helper.{poll, History, Kernel, Answer, enter}
use wslcsession.Helper.Loop.{
  PollFds, serve_stdin, serve_sock, unless_broken, round, serve_both, after_poll, is_over, relay,
}
use wslcsession.Helper.Views.{
  up, down, View, view, IsFresh, WriteObeys, ReadEnds, PollWakes, is_idle, is_awake, add_poll,
  wakes,
}
use wslcsession.Helper.Views.Relay.{
  ended, ended_once, Going, Over, by_side, at_most_once, unbroken_text,
}
use wslcsession.Helper.Views.Pumps.{weight, GoesOn, serve_idle, serve_busy, serve-GoesOn}

ended_over :
    (a b : Option ℕ)
    → is_over (record { first = a; second = b }) ≡ true
    → (ended a ≡ 1) × (ended b ≡ 1)
ended_over none none h = (refl, refl)
ended_over none (some _) h = ground arith
ended_over (some _) b h = ground arith

Going-Over : (fds : PollFds) (v : View) → is_over fds ≡ true → Going fds v → Over 1 v
Going-Over fds v h g =
    let e = ended_over fds.first fds.second h in
    record {
      rest = λ _. [];
      text = unbroken_text g;
      once = at_most_once g;
      sockets = g.sockets;
      whole = λ _. by_side _ (refl, g.once up ∙ e.0) (refl, g.once down ∙ e.1);
    }

Going-error : (fds : PollFds) (v : View) → Going fds v → Over 1 (record v { errors = suc v.errors })
Going-error fds v g = record {
  rest = λ _. [];
  text = by_side _ (unbroken_text g up) (unbroken_text g down);
  once = by_side _ (at_most_once g up) (at_most_once g down);
  sockets = g.sockets;
  whole = λ z. absurd (omega arith);
}

Going-idle : (fds : PollFds) (v : View) → Going fds v → Going fds (record v { idles = suc v.idles })
Going-idle fds v g = record {
  text = by_side _ (g.text up) (g.text down);
  once = by_side _ (g.once up) (g.once down);
  clean = g.clean;
  sockets = g.sockets;
}

weight-idle :
    (limit patience w : ℕ) (fds : PollFds) (v : View)
    → v.idles < patience
    → weight limit patience fds v ≤ suc w
    → weight limit patience fds (record v { idles = suc v.idles }) ≤ w
weight-idle limit patience w fds v h k = omega arith

not_over :
    (a b : Option ℕ) → is_over (record { first = a; second = b }) ≡ false → ended a + ended b ≤ 1
not_over none none h = ground arith
not_over none (some _) h = omega arith
not_over (some _) b h = omega (arith, ended_once b)

idles_left : (patience n : ℕ) (b : Bool) → (patience ≤ n → b ≡ false) → b ≡ true → n < patience
idles_left patience n false h e = ground arith
idles_left patience n true h e = elim (Bool-cases (leb patience n)) [
  | inl spent ↦ absurd (differ (h (leb→le patience n spent)))
  | inr more ↦ ground arith
]
  where
    differ : true ≡ false → ⊥
    differ f = ground arith

module _ (kernel : Kernel) {sock : ℕ} (fresh : IsFresh sock) (law : WriteObeys kernel)
    (limit patience : ℕ) (ends : ReadEnds kernel sock limit)
    (waking : PollWakes kernel sock patience) where
  -- What the rest of the loop promises, if so much work is left at most.
  abbrev Promised : ℕ → (PollFds → Io History (Unit {0})) → Type 0
  Promised w next =
      (fds : PollFds) (t : History)
      → Going fds (view sock t)
      → weight limit patience fds (view sock t) ≤ w
      → Ends (next fds t) (λ _ t'. Over 1 (view sock t')) (λ _ _. ⊥)

  unless_broken-Over :
      (w : ℕ) (next : PollFds → Io History (Unit {0}))
      → Promised w next
      → (r : Run History (Option PollFds)) → Ends r (GoesOn sock limit patience w) (λ _ _. ⊥)
      → Ends (bind_run r (λ o. unless_broken o next)) (λ _ t'. Over 1 (view sock t')) (λ _ _. ⊥)
  unfolding unless_broken ◌>>=◌
  unless_broken-Over w next p (done none t) h = h
  unless_broken-Over w next p (done (some fds) t) h = p fds t h.0 h.1
  unless_broken-Over w next p (fail _ _) h = h
  unless_broken-Over w next p panic h = h

  -- The second half of a round.
  sock-Promised :
      (w revents : ℕ) (next : PollFds → Io History (Unit {0}))
      → Promised w next
      → Promised w (λ fds. serve_sock kernel sock revents fds >>= λ o. unless_broken o next)
  unfolding ◌>>=◌
  sock-Promised w revents next p fds t g k =
      unless_broken-Over w next p _
        (serve-GoesOn kernel fresh law limit patience ends down w revents fds t g k)

  serve_both-GoesOn :
      (w : ℕ) (next : PollFds → Io History (Unit {0})) (r : Answer) (fds : PollFds) (t : History)
      → Promised w next
      → Ends
          (serve_stdin kernel sock r.first_revents fds t)
          (GoesOn sock limit patience w)
          (λ _ _. ⊥)
      → Ends (serve_both kernel sock r fds next t) (λ _ t'. Over 1 (view sock t')) (λ _ _. ⊥)
  unfolding serve_both ◌>>=◌
  serve_both-GoesOn w next r fds t p h =
      unless_broken-Over w _ (sock-Promised w r.second_revents next p) _ h

  -- The input has nothing to read.
  serve_both-idle :
      (w : ℕ) (next : PollFds → Io History (Unit {0})) (r : Answer) (fds : PollFds) (t : History)
      → Promised w next
      → wakes fds.first r.first_revents ≡ false
      → Ends
          (serve_sock kernel sock r.second_revents fds t)
          (GoesOn sock limit patience w)
          (λ _ _. ⊥)
      → Ends (serve_both kernel sock r fds next t) (λ _ t'. Over 1 (view sock t')) (λ _ _. ⊥)
  unfolding serve_both unless_broken ◌>>=◌
  serve_both-idle w next r fds t p idle h =
      rw (serve_idle kernel fresh law limit patience ends up r.first_revents fds t idle)
        (unless_broken-Over w next p _ h)

  -- There is something to read.
  serve_both-awake :
      (w : ℕ) (next : PollFds → Io History (Unit {0})) (r : Answer) (fds : PollFds) (t : History)
      → Promised w next
      → Going fds (view sock t)
      → weight limit patience fds (view sock t) ≤ suc w
      → is_awake fds.first fds.second r ≡ true
      → Ends (serve_both kernel sock r fds next t) (λ _ t'. Over 1 (view sock t')) (λ _ _. ⊥)
  serve_both-awake w next r fds t p g k h = elim (Bool-cases (wakes fds.first r.first_revents)) [
    | inl busy ↦
        serve_both-GoesOn w next r fds t p
          (serve_busy kernel fresh law limit patience ends up w r.first_revents fds t busy g k)
    | inr idle ↦ serve_both-idle w next r fds t p idle (
        serve_busy kernel fresh law limit patience ends down w r.second_revents fds t (rw idle at h)
          g k)
  ]

  -- What follows a wait.
  after_poll-Over :
      (w : ℕ) (next : PollFds → Io History (Unit {0})) (n : ℤ) (r : Answer) (fds : PollFds)
      (t : History) (v : View)
      → Promised w next
      → Going fds v
      → weight limit patience fds v ≤ suc w
      → view sock t ≡ add_poll n (is_awake fds.first fds.second r) r.interrupted v
      → (patience ≤ v.idles → is_idle n (is_awake fds.first fds.second r) r.interrupted ≡ false)
      → Ends (after_poll kernel sock n r fds next t) (λ _ t'. Over 1 (view sock t')) (λ _ _. ⊥)
  unfolding after_poll ◌>>=◌
  after_poll-Over w next (pos n) r fds t v p g k e h =
      elim (Bool-cases (is_awake fds.first fds.second r)) [
        | inl awake ↦
            let same : view sock t ≡ v = rw awake at e in
            serve_both-awake w next r fds t p (rw same g) (rw same k) awake
        | inr idle ↦
            let same : view sock t ≡ record v { idles = suc v.idles } = rw idle at e in
            serve_both-GoesOn w next r fds t p (
              serve-GoesOn kernel fresh law limit patience ends up w r.first_revents fds t
                (rw same (Going-idle fds v g))
                (rw same (
                  weight-idle limit patience w fds v
                    (idles_left patience v.idles _ h (rw idle refl)) k)))
      ]
  after_poll-Over w next (negsuc n) r fds t v p g k e h = elim (Bool-cases r.interrupted) [
    | inl signal ↦
        let same : view sock t ≡ record v { idles = suc v.idles } = rw signal at e in
        rw signal (
          p fds t (rw same (Going-idle fds v g)) (
            rw same
              (weight-idle limit patience w fds v (idles_left patience v.idles _ h signal) k)))
    | inr failed ↦
        let same : view sock t ≡ record v { errors = suc v.errors } = rw failed at e in
        rw (failed, same) (Going-error fds v g)
  ]

  round-Over :
      (w : ℕ) (next : PollFds → Io History (Unit {0})) (fds : PollFds) (t : History)
      → Promised w next
      → is_over fds ≡ false
      → Going fds (view sock t)
      → weight limit patience fds (view sock t) ≤ suc w
      → Ends (round kernel sock fds next t) (λ _ t'. Over 1 (view sock t')) (λ _ _. ⊥)
  unfolding round enter ◌>>=◌
  round-Over w next fds t p o g k =
      after_poll-Over w next (kernel t (poll fds.first fds.second)).ret
        (kernel t (poll fds.first fds.second)) fds _ (view sock t) p g k refl
        (waking t fds.first fds.second o)

  pub relay-Over :
      (fuel : ℕ) (fds : PollFds) (t : History)
      → Going fds (view sock t)
      → weight limit patience fds (view sock t) < fuel
      → Ends (relay kernel fuel sock fds t) (λ _ t'. Over 1 (view sock t')) (λ _ _. ⊥)
  unfolding relay
  relay-Over zero fds t g k = absurd (omega arith)
  relay-Over (suc fuel) fds t g k = elim (Bool-cases (is_over fds)) [
    | inl over ↦ rw over (Going-Over fds (view sock t) over g)
    | inr more ↦ rw more (
        round-Over (weight limit patience fds (view sock t) - 1) (relay kernel fuel sock) fds t
          (λ fds' t' g' k'.
            relay-Over fuel fds' t' g' (omega (arith, not_over fds.first fds.second more)))
          more g (omega arith))
  ]
