-- ===== src/Helper/Loop.antt =====
-- bridgesrc/bridge.c, `main`: the loop that relays between the standard streams and the socket.
use wslcsession.Base.{
  ℕ, zero, suc, ◌/◌, ◌%◌, ◌^◌, ◌||◌, Bool, true, false, Bytes, List, [], ◌∷◌, Option, none, some, ℤ,
  pos, negsuc, Io, done, panic, return, ◌==◌, if◌then◌else◌, take,
}
use wslcsession.Base.Effects.{◌>>=◌, ◌>>◌}
use wslcsession.Helper.{
  poll, read_fd, shutdown_write, close_fd, Answer, History, Kernel, is_positive, count, enter,
  write_all, connect_target,
}

-- `fds[0].fd` and `fds[1].fd`; `none` is -1.
pub record PollFds : Type 0 where
  pub first : Option ℕ
  pub second : Option ℕ

abbrev pub buf_size : ℕ
buf_size = 65536

abbrev pub bit : ℕ → ℕ → Bool
bit k n = (n / 2 ^ k) % 2 == 1

-- `revents & (POLLIN | POLLHUP | POLLERR)`
unfoldable pub is_ready : ℕ → Bool
is_ready revents = bit 0 revents || bit 4 revents || bit 3 revents

unfoldable pub unless_broken :
    Option PollFds → (PollFds → Io History (Unit {0})) → Io History (Unit {0})
unless_broken none next = return tt
unless_broken (some fds) next = next fds

abbrev pub is_over : PollFds → Bool
is_over fds = elim fds.first [
  | none ↦ elim fds.second [ none ↦ true | some _ ↦ false ]
  | some _ ↦ false
]

module _ (kernel : Kernel) where
  -- `if (n <= 0) … else if (write_all(…) < 0) break;`, where `none` is `break`.
  unfoldable pub after_read :
      ℕ → PollFds → Io History PollFds → Answer → Io History (Option PollFds)
  after_read to fds at_end r =
      if is_positive r.ret
      then (write_all kernel to (take (count r.ret) r.bytes) >>= λ written.
          return (if written then some fds else none))
      else (at_end >>= λ fds'. return (some fds'))

  unfoldable pub pump : ℕ → ℕ → PollFds → Io History PollFds → Io History (Option PollFds)
  pump from to fds at_end = enter kernel (read_fd from buf_size) >>= after_read to fds at_end

  unfoldable pub serve_stdin : ℕ → ℕ → PollFds → Io History (Option PollFds)
  serve_stdin sock revents fds = elim fds.first [
    | none ↦ return (some fds)
    | some _ ↦
        if is_ready revents
        then pump 0 sock fds
            (enter kernel (shutdown_write sock) >>= λ _. return (record fds { first = none }))
        else return (some fds)
  ]

  unfoldable pub serve_sock : ℕ → ℕ → PollFds → Io History (Option PollFds)
  serve_sock sock revents fds = elim fds.second [
    | none ↦ return (some fds)
    | some _ ↦
        if is_ready revents
        then pump sock 1 fds
            (enter kernel (close_fd 1) >>= λ _. return (record fds { second = none }))
        else return (some fds)
  ]

  unfoldable pub serve_both :
      ℕ → Answer → PollFds → (PollFds → Io History (Unit {0})) → Io History (Unit {0})
  serve_both sock r fds next = do
    served ← serve_stdin sock r.first_revents fds
    unless_broken served
        (λ fds'. serve_sock sock r.second_revents fds' >>= λ served'. unless_broken served' next)

  -- `continue` when a signal interrupted the wait, `break` when it failed.
  unfoldable pub after_poll :
      ℕ → ℤ → Answer → PollFds → (PollFds → Io History (Unit {0})) → Io History (Unit {0})
  after_poll sock (pos _) r fds next = serve_both sock r fds next
  after_poll sock (negsuc _) r fds next =
      let rest = next fds in if r.interrupted then rest else return tt

  -- The body of the loop behind its test.
  unfoldable pub round : ℕ → PollFds → (PollFds → Io History (Unit {0})) → Io History (Unit {0})
  round sock fds next =
      enter kernel (poll fds.first fds.second) >>= λ r. after_poll sock r.ret r fds next

  unfoldable pub relay : ℕ → ℕ → PollFds → Io History (Unit {0})
  relay zero sock fds t = panic
  relay (suc fuel) sock fds t =
      let rest = round sock fds (relay fuel sock) t in if is_over fds then done tt t else rest

  unfoldable pub run_relay : ℕ → Option ℕ → Io History ℕ
  run_relay fuel none = return 1
  run_relay fuel (some sock) =
      relay fuel sock (record { first = some 0; second = some sock })
      >> (enter kernel (close_fd sock) >>= λ _. return 0)

  -- `main` with the arguments behind `argv[0]`, and its exit status.
  unfoldable pub run_helper : ℕ → List Bytes → Io History ℕ
  run_helper fuel [] = return 1
  run_helper fuel (target ∷ _) = connect_target kernel target >>= run_relay fuel
