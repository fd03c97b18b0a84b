-- ===== src/Demo/Checks/Conns.antt =====
-- The loops over a connection and the references that are held.
use wslcsession.Base.{
  ℕ, zero, suc, ◌+◌, ◌-◌, ◌%◌, ◌^◌, ◌≤◌, ◌<◌, ◌≡◌, ◌⊎◌, true, Bytes, [], ◌∷◌, ◌++◌, Option, none,
  some, arith, Run, done, fail, panic, Ends, Error, ltb, ◌==◌, if◌then◌else◌, length, drop, ltb→lt,
}
use wslcsession.Base.Effects.{◌>>=◌}
use wslcsession.Base.Effects.Triple.{
  Triple, Triple-bind, Triple-mono, Triple-return, Triple-raise, Ends-if,
}
use wslcsession.Com.Refs.{Held}
use wslcsession.Com.Runtime.{recv, send, is_negative}
use wslcsession.Com.Trace.{Env, Trace, Call, socket_recv, socket_close}
use wslcsession.Conn.{GuestConn, read, received, after_send, write_loop, write}
use wslcsession.Demo.Streams.{
  after_chunk, after_part, read_all_loop, read_full_loop, read_full, unless_error, write_text,
}

abbrev counted : ℕ → Call → ℕ → ℕ
counted h (socket_recv h' _) n = if h' == h then suc n else n
counted h (socket_close h') n = if h' == h then 0 else n
counted h _ n = n

-- How often `recv` was called on a socket since a socket of that number was last closed.
abbrev pub recvs : ℕ → Trace → ℕ
recvs h [] = 0
recvs h (e ∷ t) = counted h e.call (recvs h t)

-- After `patience` calls on one socket, `recv` gives nothing more or fails.
abbrev pub RecvEnds : Env → ℕ → Type 0
RecvEnds env patience =
    (t : Trace) (h size : ℕ)
    → patience ≤ recvs h t
    → let r = env.reply t (socket_recv h size) in (is_negative r.ret ≡ true) ⊎ (r.ret % 2 ^ 32 ≡ 0)

module _ (env : Env) (p n : ℕ) (c : GuestConn) where
  pub read-Held :
      (size : ℕ) (t : Trace)
      → Held p n t
      → Ends (read env c size t) (λ r t'. (0 < r.0) × Held p n t') (λ _. Held p n)
  unfolding read received recv is_negative ◌>>=◌
  read-Held size t h = ground arith

  read-recvs :
      (patience size : ℕ) (t : Trace)
      → RecvEnds env patience
      → Held p n t
      → Ends
          (read env c size t)
          (λ _ t'.
            Held p n t'
            × (recvs c.stdout t < patience)
            × (recvs c.stdout t' ≡ suc (recvs c.stdout t)))
          (λ _. Held p n)
  unfolding read received recv is_negative ◌>>=◌
  read-recvs patience size t ends h = ground (arith, ends t c.stdout size)

  abbrev Neutral : {A : Type 0} → (Trace → Run Trace A) → Type 0
  Neutral m = Triple (Held p n) m (λ _. Held p n) (λ _. Held p n)

  module _ (patience : ℕ) (ends : RecvEnds env patience) (room : ℕ → ℕ) where
    after_chunk-Held :
        (got : Bytes) (seen : ℕ) (r : Run Trace (ℕ × Bytes))
        (next : Bytes → Trace → Run Trace Bytes)
        → Ends r
            (λ _ t'. Held p n t' × (seen < patience) × (recvs c.stdout t' ≡ suc seen))
            (λ _. Held p n)
        → ((b : Bytes) (t : Trace)
            → Held p n t
            → seen < patience
            → recvs c.stdout t ≡ suc seen
            → Ends (next b t) (λ _. Held p n) (λ _. Held p n))
        → Ends (after_chunk got r next) (λ _. Held p n) (λ _. Held p n)
    unfolding after_chunk
    after_chunk-Held got seen (done (k, b) t) next (h, less, s) more = more (got ++ b) t h less s
    after_chunk-Held got seen (fail e t) next h more = ground arith
    after_chunk-Held got seen panic next h more = h

    -- The loop ends, with the fuel that is left.
    read_all_loop-Held :
        (fuel : ℕ) (got : Bytes) (t : Trace)
        → patience ≤ fuel + recvs c.stdout t
        → Held p n t
        → Ends (read_all_loop env (suc fuel) room c got t) (λ _. Held p n) (λ _. Held p n)
    unfolding read_all_loop
    read_all_loop-Held zero got t enough h =
        after_chunk-Held got (recvs c.stdout t) _ _
          (read-recvs patience (room (length got)) t ends h)
          (λ b t' h' less s. absurd (omega arith))
    read_all_loop-Held (suc fuel) got t enough h =
        after_chunk-Held got (recvs c.stdout t) _ _
          (read-recvs patience (room (length got)) t ends h)
          (λ b t' h' less s. read_all_loop-Held fuel b t' (omega arith) h')

    pub read_all-Held : (got : Bytes) → Neutral (read_all_loop env (suc patience) room c got)
    read_all-Held got = record { at = λ t h. read_all_loop-Held patience got t (omega arith) h }

  after_part-Held :
      (got : Bytes) (size : ℕ) (r : Run Trace (ℕ × Bytes))
      (next : Bytes → ℕ → Trace → Run Trace Bytes)
      → Ends r (λ k t'. (0 < k.0) × Held p n t') (λ _. Held p n)
      → ((b : Bytes) (k : ℕ) (t : Trace)
          → 0 < k
          → Held p n t
          → Ends (next b (size - k) t) (λ _. Held p n) (λ _. Held p n))
      → Ends (after_part got size r next) (λ _. Held p n) (λ _. Held p n)
  unfolding after_part
  after_part-Held got size (done (k, b) t) next (some_read, h) more =
      more (got ++ b) k t some_read h
  after_part-Held got size (fail e t) next h more = h
  after_part-Held got size panic next h more = h

  read_full_loop-Held :
      (fuel : ℕ) (got : Bytes) (size : ℕ) (t : Trace)
      → size ≤ fuel
      → Held p n t
      → Ends (read_full_loop env (suc fuel) c got size t) (λ _. Held p n) (λ _. Held p n)
  unfolding read_full_loop
  read_full_loop-Held zero got size t k h =
      Ends-if _ _ (size == 0) _ _ (λ _. h) (λ e. absurd (ground arith))
  read_full_loop-Held (suc fuel) got size t k h =
      Ends-if _ _ (size == 0) _ _ (λ _. h)
        (λ _.
          after_part-Held got size _ _ (read-Held size t h)
            (λ b m t' pos h'. read_full_loop-Held fuel b (size - m) t' (omega arith) h'))

  pub read_full-Held : (size : ℕ) → Neutral (read_full env c size)
  unfolding read_full
  read_full-Held size = record { at = λ t h. read_full_loop-Held size [] size t (omega arith) h }

  send-Held :
      (b : Bytes) (t : Trace)
      → Held p n t
      → Ends (send env c.stdin b t) (λ _. Held p n) (λ _. Held p n)
  unfolding send ◌>>=◌
  send-Held b t h = ground arith

  -- `Write` ends, and keeps what each `send` keeps.
  module _ (P : Trace → Type 0)
      (keeps : (b : Bytes) (t : Trace) → P t → Ends (send env c.stdin b t) (λ _. P) (λ _. P)) where
    after_send-keeps :
        (total : ℕ) (r : Run Trace ℕ) (next : ℕ → Trace → Run Trace (ℕ × Option Error))
        → Ends r (λ _. P) (λ _. P)
        → ((k : ℕ) (t : Trace) → 0 < k → P t → Ends (next (total + k) t) (λ _. P) (λ _ _. ⊥))
        → Ends (after_send total r next) (λ _. P) (λ _ _. ⊥)
    unfolding after_send
    after_send-keeps total (done k t) next h more =
        Ends-if _ _ (k == 0) _ _ (λ e. h) (λ e. more k t (ground arith) h)
    after_send-keeps total (fail e t) next h more = h
    after_send-keeps total panic next h more = h

    write_loop-keeps :
        (fuel : ℕ) (b : Bytes) (total : ℕ) (t : Trace)
        → length b ≤ fuel + total
        → P t
        → Ends (write_loop env (suc fuel) c b total t) (λ _. P) (λ _ _. ⊥)
    unfolding write_loop
    write_loop-keeps zero b total t k h =
        Ends-if _ _ (ltb total (length b)) _ _
          (λ e. absurd (omega (arith, ltb→lt total (length b) e))) (λ _. h)
    write_loop-keeps (suc fuel) b total t k h =
        Ends-if _ _ (ltb total (length b)) _ _
          (λ _.
            after_send-keeps total _ _ (keeps (drop total b) t h)
              (λ m t' pos h'. write_loop-keeps fuel b (total + m) t' (omega arith) h'))
          (λ _. h)

    pub write-keeps : (b : Bytes) (t : Trace) → P t → Ends (write env c b t) (λ _. P) (λ _ _. ⊥)
    unfolding write
    write-keeps b t h = write_loop-keeps (length b) b 0 t (omega arith) h

  pub write_text-Held : (b : Bytes) → Neutral (write_text env c b)
  unfolding write_text unless_error
  write_text-Held b =
      Triple-bind _ _
        (Triple-mono (record { at = write-keeps (Held p n) send-Held b }) (λ _ _ k. k)
          (λ _ _ k. absurd k))
        reported
    where
      reported : (r : ℕ × Option Error) → Neutral (unless_error r)
      reported (k, none) = Triple-return k (λ _ h. h)
      reported (k, some e) = Triple-raise e (λ _ h. h)
