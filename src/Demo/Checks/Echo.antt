-- ===== src/Demo/Checks/Echo.antt =====
-- What the check of the echo has sent and received when it passes.
use mathlib.Core.List.{append-nil, append_assoc}
use wslcsession.Base.{
  ℕ, zero, suc, ◌-◌, ◌≤◌, ◌<◌, ◌≡◌, refl, ◌∙◌, ap, Bytes, [], ◌++◌, arith, Run, done, fail, panic,
  Ends, return, raise, message, ◌==◌, if◌then◌else◌, equal, equal→eq, length, write_failed,
  read_echo, echo_mismatch,
}
use wslcsession.Base.Effects.{◌>>=◌}
use wslcsession.Base.Effects.Triple.{
  Triple, Triple-bind, Triple-if, Triple-return, Triple-raise, Ends-if,
}
use wslcsession.Com.Runtime.{recv, is_negative}
use wslcsession.Com.Trace.{Env, Trace}
use wslcsession.Conn.{GuestConn, read, received}
use wslcsession.Conn.Read.{RecvObeys}
use wslcsession.Conn.Write.{delivered, SendObeys}
use wslcsession.Demo.Checks.{check_echo, echo_text}
use wslcsession.Demo.Checks.Seen.{arrived, Seen, write_text-Seen, traced}
use wslcsession.Demo.Streams.{after_part, read_full_loop, read_full}
use wslcsession.Session.{World}

module _ (env : Env) (c : GuestConn) (law : RecvObeys env) where
  read-part :
      (size : ℕ) (t : Trace)
      → Ends
          (read env c size t)
          (λ r t'.
            (delivered c.stdin t' ≡ delivered c.stdin t)
            × (arrived c.stdout t' ≡ arrived c.stdout t ++ r.1)
            × (0 < r.0))
          (λ _ _. Unit)
  unfolding read received recv is_negative ◌>>=◌
  read-part size t = ground (arith, law t c.stdout size, append-nil (delivered c.stdin t))

  module _ (d a : Bytes) where
    after_part-Seen :
        (got : Bytes) (size : ℕ) (t : Trace) (r : Run Trace (ℕ × Bytes))
        (next : Bytes → ℕ → Trace → Run Trace Bytes)
        → Seen env c d (a ++ got) t
        → Ends r
            (λ r t'.
              (delivered c.stdin t' ≡ delivered c.stdin t)
              × (arrived c.stdout t' ≡ arrived c.stdout t ++ r.1)
              × (0 < r.0))
            (λ _ _. Unit)
        → ((b : Bytes) (m : ℕ) (t' : Trace)
            → Seen env c d (a ++ b) t'
            → 0 < m
            → Ends (next b (size - m) t') (λ b. Seen env c d (a ++ b)) (λ _ _. Unit))
        → Ends (after_part got size r next) (λ b. Seen env c d (a ++ b)) (λ _ _. Unit)
    unfolding after_part
    after_part-Seen got size t (done (m, b) t') next (e, k) (s, x, pos) go =
        go (got ++ b) m t' (s ∙ e, x ∙ ap (λ y. y ++ b) k ∙ append_assoc a got b) pos
    after_part-Seen got size t (fail x t') next k h go = tt
    after_part-Seen got size t panic next k h go = h

    read_full_loop-Seen :
        (fuel : ℕ) (got : Bytes) (size : ℕ) (t : Trace)
        → size ≤ fuel
        → Seen env c d (a ++ got) t
        → Ends
            (read_full_loop env (suc fuel) c got size t)
            (λ b. Seen env c d (a ++ b))
            (λ _ _. Unit)
    unfolding read_full_loop
    read_full_loop-Seen zero got size t enough k =
        Ends-if _ _ (size == 0) _ _ (λ e. k) (λ e. absurd (ground arith))
    read_full_loop-Seen (suc fuel) got size t enough k =
        Ends-if _ _ (size == 0) _ _ (λ e. k)
          (λ _.
            after_part-Seen got size t _ _ k (read-part size t)
              (λ b m t' k' pos. read_full_loop-Seen fuel b (size - m) t' (omega arith) k'))

-- If send and recv obey, the check of the echo ends, without a panic. If it passes, it has sent its text
-- and nothing else, and what has arrived since is that text.
pub check_echo_lem :
    (env : Env) (c : GuestConn) (w : World)
    → SendObeys env
    → RecvObeys env
    → Ends
        (check_echo env c w)
        (λ _ w'.
          (delivered c.stdin w'.trace ≡ delivered c.stdin w.trace ++ echo_text)
          × (arrived c.stdout w'.trace ≡ arrived c.stdout w.trace ++ echo_text))
        (λ _ _. Unit)
unfolding check_echo read_full
check_echo_lem env c w sends receives =
    (Triple-bind _ _ (traced write_failed _ (write_text-Seen env c sends d a echo_text))
        (λ _. Triple-bind _ _ (traced read_echo _ (record { at = answered })) judged)).at
      w (refl, refl)
  where
    d : Bytes
    d = delivered c.stdin w.trace

    a : Bytes
    a = arrived c.stdout w.trace

    answered :
        (t : Trace)
        → Seen env c (d ++ echo_text) a t
        → Ends
            (read_full_loop env (suc (length echo_text)) c [] (length echo_text) t)
            (λ b. Seen env c (d ++ echo_text) (a ++ b))
            (λ _ _. Unit {0})
    answered t k =
        read_full_loop-Seen env c receives (d ++ echo_text) a (length echo_text) []
          (length echo_text) t (omega arith) (rw append-nil k)

    judged :
        (b : Bytes)
        → Triple {A = Unit {0}}
            (λ (v : World). Seen env c (d ++ echo_text) (a ++ b) v.trace)
            (if equal b echo_text then return tt else raise (message (echo_mismatch b echo_text)))
            (λ _ (w' : World).
              (delivered c.stdin w'.trace ≡ d ++ echo_text)
              × (arrived c.stdout w'.trace ≡ a ++ echo_text))
            (λ _ _. Unit {0})
    judged b =
        Triple-if _ _ _
          (λ e. Triple-return tt (λ v k. (k.0, k.1 ∙ ap (λ x. a ++ x) (equal→eq b echo_text e))))
          (λ _. Triple-raise _ (λ _ _. tt))
