-- ===== src/Demo/Checks/Seen.antt =====
-- What goes through the sockets of a connection in the loops of the standard library.
use mathlib.Core.List.{append-nil, append_assoc}
use wslcsession.Base.{
  Message, Io, wrap_with, ℕ, zero, suc, ◌+◌, ◌≤◌, ◌<◌, ◌≡◌, ◌≢◌, refl, ◌∙◌, ap, ◌⊎◌, inl, inr, true,
  not, ◌&&◌, Bytes, [], ◌∷◌, ◌++◌, Option, none, some, arith, Run, done, fail, panic, Ends, Error,
  eof, ◌==◌, if◌then◌else◌, length, drop,
}
use wslcsession.Base.Effects.{bind_run, ◌>>=◌}
use wslcsession.Base.Effects.Triple.{Triple-mono, Triple-wrap, Triple, Ends-if}
use wslcsession.Com.Runtime.{recv, send, is_negative}
use wslcsession.Com.Trace.{Env, Trace, Reply, Call, socket_recv}
use wslcsession.Conn.{GuestConn, read, received}
use wslcsession.Session.{World, on_trace}
use wslcsession.Session.Rules.{Triple-on_trace}
use wslcsession.Conn.Read.{RecvObeys}
use wslcsession.Conn.Write.{delivered, SendObeys, write_lem}
use wslcsession.Demo.Checks.Conns.{RecvEnds, recvs, write-keeps}
use wslcsession.Demo.Streams.{is_eof, after_chunk, read_all_loop, unless_error, write_text}

abbrev arrived_by : ℕ → Call → Reply → Bytes
arrived_by h (socket_recv h' _) r = if h' == h && not (is_negative r.ret) then r.bytes else []
arrived_by h _ r = []

-- All that came out of a socket, in order.
abbrev pub arrived : ℕ → Trace → Bytes
arrived h [] = []
arrived h (e ∷ t) = arrived h t ++ arrived_by h e.call e.reply

length-nil : (b : Bytes) → length b ≡ 0 → b ≡ []
length-nil [] h = refl
length-nil (_ ∷ _) h = absurd (omega arith)

drop_all : (b : Bytes) → drop (length b) b ≡ []
drop_all [] = refl
drop_all (_ ∷ b) = drop_all b

is_eof_lem : (e : Error) → is_eof e ≡ true → e ≡ eof
is_eof_lem e h = ground arith

module _ (env : Env) (c : GuestConn) where
  read-arrived :
      (patience size : ℕ) (t : Trace)
      → RecvObeys env
      → RecvEnds env patience
      → Ends
          (read env c size t)
          (λ r t'.
            (delivered c.stdin t' ≡ delivered c.stdin t)
            × (arrived c.stdout t' ≡ arrived c.stdout t ++ r.1)
            × (recvs c.stdout t < patience)
            × (recvs c.stdout t' ≡ suc (recvs c.stdout t)))
          (λ e t'.
            (delivered c.stdin t' ≡ delivered c.stdin t)
            × (e ≡ eof → arrived c.stdout t' ≡ arrived c.stdout t))
  unfolding read received recv is_negative ◌>>=◌
  read-arrived patience size t law ends =
      let r = env.reply t (socket_recv c.stdout size) in
      ground (
        arith,
        law t c.stdout size,
        ends t c.stdout size,
        length-nil r.bytes,
        append-nil (delivered c.stdin t),
        append-nil (arrived c.stdout t),
      )

  send-arrived :
      (a : Bytes) (b : Bytes) (t : Trace)
      → arrived c.stdout t ≡ a
      → Ends
          (send env c.stdin b t)
          (λ _ t'. arrived c.stdout t' ≡ a)
          (λ _ t'. arrived c.stdout t' ≡ a)
  unfolding send ◌>>=◌
  send-arrived a b t h = ground (arith, append-nil (arrived c.stdout t))

  -- What the sockets have sent and received.
  abbrev pub Seen : Bytes → Bytes → Trace → Type 0
  Seen d a t = (delivered c.stdin t ≡ d) × (arrived c.stdout t ≡ a)

  module _ (law : SendObeys env) (d a b : Bytes) where
    reported :
        (t : Trace) (r : Run Trace (ℕ × Option Error))
        → delivered c.stdin t ≡ d
        → Ends r
            (λ r t'.
              (r.0 ≤ length b)
              × (delivered c.stdin t' ++ drop r.0 b ≡ delivered c.stdin t ++ b)
              × ((r.0 ≡ length b) ⊎ (r.1 ≢ none)))
            (λ _ _. ⊥)
        → Ends r (λ _ t'. arrived c.stdout t' ≡ a) (λ _ _. ⊥)
        → Ends (bind_run r unless_error) (λ _. Seen (d ++ b) a) (λ _ _. Unit)
    unfolding unless_error ◌>>=◌
    reported t (done (n, none) t') e (small, same, whole) k = elim whole [
      | inl full ↦ (rw (full, drop_all b, append-nil, e) at same, k)
      | inr failed ↦ absurd (failed refl)
    ]
    reported t (done (n, some x) t') e h k = tt
    reported t (fail x t') e h k = absurd h
    reported t panic e h k = h

    pub write_text-Seen :
        Triple (Seen d a) (write_text env c b) (λ _. Seen (d ++ b) a) (λ _ _. Unit)
    unfolding write_text ◌>>=◌
    write_text-Seen = record {
      at = λ t (e, k).
          reported t _ e (write_lem env law c b t)
            (write-keeps env 0 0 c (λ t. arrived c.stdout t ≡ a) (send-arrived a) b t k);
    }

  module _ (law : RecvObeys env) (patience : ℕ) (ends : RecvEnds env patience) (room : ℕ → ℕ)
      (d a : Bytes) where
    after_chunk-Seen :
        (got : Bytes) (t : Trace) (r : Run Trace (ℕ × Bytes))
        (next : Bytes → Trace → Run Trace Bytes)
        → Seen d (a ++ got) t
        → Ends r
            (λ r t'.
              (delivered c.stdin t' ≡ delivered c.stdin t)
              × (arrived c.stdout t' ≡ arrived c.stdout t ++ r.1)
              × (recvs c.stdout t < patience)
              × (recvs c.stdout t' ≡ suc (recvs c.stdout t)))
            (λ e t'.
              (delivered c.stdin t' ≡ delivered c.stdin t)
              × (e ≡ eof → arrived c.stdout t' ≡ arrived c.stdout t))
        → ((b : Bytes) (t' : Trace)
            → Seen d (a ++ (got ++ b)) t'
            → recvs c.stdout t < patience
            → recvs c.stdout t' ≡ suc (recvs c.stdout t)
            → Ends (next (got ++ b) t') (λ b. Seen d (a ++ b)) (λ _ _. Unit))
        → Ends (after_chunk got r next) (λ b. Seen d (a ++ b)) (λ _ _. Unit)
    unfolding after_chunk
    after_chunk-Seen got t (done (n, b) t') next (e, k) (s, x, less, more) go =
        go b t' (s ∙ e, x ∙ ap (λ y. y ++ b) k ∙ append_assoc a got b) less more
    after_chunk-Seen got t (fail x t') next (e, k) (s, y) go =
        Ends-if _ _ (is_eof x) _ _ (λ h. (s ∙ e, y (is_eof_lem x h) ∙ k)) (λ _. tt)
    after_chunk-Seen got t panic next k h go = h

    pub read_all_loop-Seen :
        (fuel : ℕ) (got : Bytes) (t : Trace)
        → patience ≤ fuel + recvs c.stdout t
        → Seen d (a ++ got) t
        → Ends (read_all_loop env (suc fuel) room c got t) (λ b. Seen d (a ++ b)) (λ _ _. Unit)
    unfolding read_all_loop
    read_all_loop-Seen zero got t enough k =
        after_chunk-Seen got t _ _ k (read-arrived patience (room (length got)) t law ends)
          (λ b t' k' less s. absurd (omega arith))
    read_all_loop-Seen (suc fuel) got t enough k =
        after_chunk-Seen got t _ _ k (read-arrived patience (room (length got)) t law ends)
          (λ b t' k' less s. read_all_loop-Seen fuel (got ++ b) t' (omega arith) k')

-- A part of a check, by what it does to the history.
pub traced :
    {A : Type 0} {P : Trace → Type 0} {Q : A → Trace → Type 0} (m : Message) (f : Io Trace A)
    → Triple P f Q (λ _ _. Unit {0})
    → Triple
        (λ (w : World). P w.trace)
        (wrap_with m (on_trace f))
        (λ a (w : World). Q a w.trace)
        (λ _ _. Unit {0})
traced m f h = Triple-wrap m _ (record {
  at = λ w k.
      (Triple-mono (Triple-on_trace (λ _. Unit {0}) f h) (λ _ _ k. k.1) (λ _ _ _. tt)).at w (tt, k);
})
