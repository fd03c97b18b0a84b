-- ===== src/Helper/Views/Pumps.antt =====
-- bridge.c, the two halves of a round of the loop of `main`.
use wslcsession.Base.{
  ℕ, zero, suc, ◌+◌, ◌-◌, ◌≤◌, ◌<◌, ◌≡◌, refl, ap, ◌∙◌, subst, inl, inr, Bool, true, false, Bytes,
  [], ◌∷◌, Option, none, some, done, fail, panic, Ends, take, Bool-cases, leb, leb→le, arith, Run,
  ℤ, pos, negsuc, Io, return, if◌then◌else◌,
}
use wslcsession.Base.Effects.{◌>>=◌, bind_run}
use wslcsession.Helper.{
  Syscall, History, Kernel, Answer, read_fd, enter, write_all, is_positive, count,
}
use wslcsession.Helper.Loop.{PollFds, after_read, pump, serve_stdin, serve_sock, is_ready, buf_size}
use wslcsession.Helper.Views.{
  Direction, up, down, View, add_read, add_written, add_end, view, source, sink, end_call, IsFresh,
  WriteObeys, ReadEnds, note_read, note_end, wakes,
}
use wslcsession.Helper.Views.Writes.{Written, write_all-Written}
use wslcsession.Helper.Views.Relay.{
  side_fd, shut_fd, ended, ended_once, Going, Over, Going-read-write, Going-end, Going-broken,
}

-- The work that is left, if there are so many reads and so many idle waits at most.
abbrev pub weight : ℕ → ℕ → PollFds → View → ℕ
weight limit patience fds v =
    (limit - v.reads) + (patience - v.idles) + (2 - (ended fds.first + ended fds.second))

-- How half a round may end: the loop goes on with so much work at most, or it is left.
abbrev pub GoesOn : (sock limit patience : ℕ) → ℕ → Option PollFds → History → Type 0
GoesOn sock limit patience w none t = Over 1 (view sock t)
GoesOn sock limit patience w (some fds) t =
    Going fds (view sock t) × (weight limit patience fds (view sock t) ≤ w)

weight-read :
    (limit patience w : ℕ) (i : Direction) (b : Bytes) (fds : PollFds) (v : View)
    → v.reads < limit
    → weight limit patience fds v ≤ suc w
    → weight limit patience fds (add_written i b (add_read i b v)) ≤ w
weight-read limit patience w up b fds v h k = omega arith
weight-read limit patience w down b fds v h k = omega arith

weight-end :
    (limit patience w : ℕ) (i : Direction) (fds : PollFds) (v : View)
    → ended (side_fd i fds) ≡ 0
    → weight limit patience fds v ≤ suc w
    → weight limit patience (shut_fd i fds) (add_end i (add_read i [] v)) ≤ w
weight-end limit patience w up fds v h k = omega (arith, ended_once fds.second)
weight-end limit patience w down fds v h k = omega (arith, ended_once fds.first)

chosen_awake :
    {R : Type 0} (o : Option ℕ) (revents : ℕ) (x y : R)
    → wakes o revents ≡ true
    → elim o as (λ _. R) [ none ↦ x | some _ ↦ if is_ready revents then y else x ] ≡ y
chosen_awake none revents x y h = ground arith
chosen_awake (some _) revents x y h = rw h refl

ended_awake : (o : Option ℕ) (revents : ℕ) → wakes o revents ≡ true → ended o ≡ 0
ended_awake none revents h = ground arith
ended_awake (some fd) revents h = refl

module _ (kernel : Kernel) {sock : ℕ} (fresh : IsFresh sock) (law : WriteObeys kernel)
    (limit patience : ℕ) (ends : ReadEnds kernel sock limit) where
  written-GoesOn :
      (i : Direction) (b : Bytes) (w : ℕ) (fds : PollFds) (v : View)
      → Going fds v
      → v.reads < limit
      → weight limit patience fds v ≤ suc w
      → (r : Run History Bool)
      → Ends r (λ all t'. Written i b (add_read i b v) all (view sock t')) (λ _ _. ⊥)
      → Ends
          (bind_run r (λ written. return (if written then some fds else none)))
          (GoesOn sock limit patience w)
          (λ _ _. ⊥)
  unfolding ◌>>=◌
  written-GoesOn i b w fds v g h k (done true t') e =
      rw e (Going-read-write i b fds v g, weight-read limit patience w i b fds v h k)
  written-GoesOn i b w fds v g h k (done false t') (part, rest, e, f) =
      rw f (Going-broken i b part rest fds v e g)
  written-GoesOn i b w fds v g h k (fail _ _) e = e
  written-GoesOn i b w fds v g h k panic e = e

  ended-GoesOn :
      (i : Direction) (w : ℕ) (fds : PollFds) (t t₀ : History)
      → ended (side_fd i fds) ≡ 0
      → Going fds (view sock t₀)
      → weight limit patience fds (view sock t₀) ≤ suc w
      → view sock t ≡ add_read i [] (view sock t₀)
      → GoesOn sock limit patience w
          (some (shut_fd i fds))
          (record { syscall = end_call sock i; answer = kernel t (end_call sock i) } ∷ t)
  ended-GoesOn i w fds t t₀ o g k e =
      rw (note_end fresh i (kernel t (end_call sock i)) (view sock t), e)
        (Going-end i fds (view sock t₀) o g, weight-end limit patience w i fds (view sock t₀) o k)

  take_none : (r : ℤ) (b : Bytes) → is_positive r ≡ false → take (count r) b ≡ []
  take_none (pos zero) b h = refl
  take_none (pos (suc _)) b h = ground arith
  take_none (negsuc _) b h = refl

  reads_left :
      (t : History) (fd : ℕ)
      → is_positive (kernel t (read_fd fd buf_size)).ret ≡ true
      → (view sock t).reads < limit
  reads_left t fd h = elim (Bool-cases (leb limit (view sock t).reads)) [
    | inl spent ↦ absurd (differ (ends t fd buf_size (leb→le limit (view sock t).reads spent)) h)
    | inr more ↦ ground arith
  ]
    where
      differ : {b : Bool} → b ≡ false → b ≡ true → ⊥
      differ e f = ground arith

  pump-GoesOn :
      (i : Direction) (w : ℕ) (fds : PollFds) (t : History)
      → ended (side_fd i fds) ≡ 0
      → Going fds (view sock t)
      → weight limit patience fds (view sock t) ≤ suc w
      → Ends
          (pump kernel
            (source sock i)
            (sink sock i)
            fds
            (enter kernel (end_call sock i) >>= λ _. return (shut_fd i fds))
            t)
          (GoesOn sock limit patience w)
          (λ _ _. ⊥)
  unfolding pump after_read enter ◌>>=◌
  pump-GoesOn i w fds t o g k =
      let c : Syscall = read_fd (source sock i) buf_size in
      let r : Answer = kernel t c in
      let b : Bytes = take (count r.ret) r.bytes in
      let t₁ : History = record { syscall = c; answer = r } ∷ t in
      let seen : view sock t₁ ≡ add_read i b (view sock t) =
        note_read fresh i buf_size r (view sock t) in
      elim (Bool-cases (is_positive r.ret)) [
        | inl some_read ↦ rw some_read (
            written-GoesOn i b w fds (view sock t) g (reads_left t (source sock i) some_read) k _ (
              subst
                (λ x.
                  Ends (write_all kernel (sink sock i) b t₁)
                    (λ all t'. Written i b x all (view sock t')) (λ _ _. ⊥))
                seen (write_all-Written kernel fresh law i b t₁)))
        | inr none_read ↦ rw none_read (
            ended-GoesOn i w fds t₁ t o g k
              (seen ∙ ap (λ x. add_read i x (view sock t)) (take_none r.ret r.bytes none_read)))
      ]

  abbrev serve : Direction → ℕ → PollFds → History → Run History (Option PollFds)
  serve up revents fds = serve_stdin kernel sock revents fds
  serve down revents fds = serve_sock kernel sock revents fds

  pub serve_idle :
      (i : Direction) (revents : ℕ) (fds : PollFds) (t : History)
      → wakes (side_fd i fds) revents ≡ false
      → serve i revents fds t ≡ done (some fds) t
  unfolding serve_stdin serve_sock ◌>>=◌
  serve_idle up revents fds t h = ground arith
  serve_idle down revents fds t h = ground arith

  serve_pumps :
      (i : Direction) (revents : ℕ) (fds : PollFds) (t : History)
      → wakes (side_fd i fds) revents ≡ true
      → serve i revents fds t
        ≡ pump kernel
            (source sock i)
            (sink sock i)
            fds
            (enter kernel (end_call sock i) >>= λ _. return (shut_fd i fds))
            t
  unfolding serve_stdin serve_sock ◌>>=◌
  serve_pumps up revents fds t h =
      ap (λ (f : Io History (Option PollFds)). f t) (chosen_awake fds.first revents _ _ h)
  serve_pumps down revents fds t h =
      ap (λ (f : Io History (Option PollFds)). f t) (chosen_awake fds.second revents _ _ h)

  pub serve_busy :
      (i : Direction) (w revents : ℕ) (fds : PollFds) (t : History)
      → wakes (side_fd i fds) revents ≡ true
      → Going fds (view sock t)
      → weight limit patience fds (view sock t) ≤ suc w
      → Ends (serve i revents fds t) (GoesOn sock limit patience w) (λ _ _. ⊥)
  serve_busy i w revents fds t h g k =
      rw (serve_pumps i revents fds t h)
        (pump-GoesOn i w fds t (ended_awake (side_fd i fds) revents h) g k)

  pub serve-GoesOn :
      (i : Direction) (w revents : ℕ) (fds : PollFds) (t : History)
      → Going fds (view sock t)
      → weight limit patience fds (view sock t) ≤ w
      → Ends (serve i revents fds t) (GoesOn sock limit patience w) (λ _ _. ⊥)
  serve-GoesOn i w revents fds t g k = elim (Bool-cases (wakes (side_fd i fds) revents)) [
    | inl busy ↦ serve_busy i w revents fds t busy g (omega arith)
    | inr idle ↦ rw (serve_idle i revents fds t idle) (g, k)
  ]
