-- ===== src/Conn/Write.antt =====
-- What `Write` delivers.
use mathlib.Core.List.{append-nil, append_assoc}
use wslcsession.Base.{
  ℕ, zero, suc, ◌+◌, ◌%◌, ◌^◌, ◌≤◌, ◌<◌, ◌≡◌, ◌≢◌, refl, ap, ◌∙◌, ◌⊎◌, inl, inr, true, ◌&&◌, not,
  Bytes, [], ◌∷◌, ◌++◌, Option, none, arith, Run, done, fail, panic, Ends, ltb, ◌==◌, if◌then◌else◌,
  length, take, drop, length-drop, drop-add, take-append-drop, Error, Bool-cases, ==→eq,
}
use wslcsession.Base.Effects.{◌>>=◌}
use wslcsession.Com.Runtime.{send, is_negative}
use wslcsession.Com.Trace.{Env, Trace, Reply, Call, socket_send}
use wslcsession.Conn.{GuestConn, after_send, write_loop, write}

-- The bytes that a call put into the socket.
abbrev pub sent_by : ℕ → Call → Reply → Bytes
sent_by h (socket_send h' buf) r =
    if h' == h && not (is_negative r.ret) then take (r.ret % 2 ^ 32) buf else []
sent_by h _ r = []

-- All that went into the socket, in order.
abbrev pub delivered : ℕ → Trace → Bytes
delivered h [] = []
delivered h (e ∷ t) = delivered h t ++ sent_by h e.call e.reply

-- `send` fails, or takes no more than it was given.
abbrev pub SendObeys : Env → Type 0
SendObeys env =
    (t : Trace) (h : ℕ) (buf : Bytes)
    → let r = (env.reply t (socket_send h buf)).ret in
      (is_negative r ≡ true) ⊎ (r % 2 ^ 32 ≤ length buf)

-- After a round the bytes delivered and the bytes left are the same text as before it.
module _ (b : Bytes) (total n : ℕ) (x : Bytes) where
  round_text :
      n ≤ length (drop total b)
      → (x ++ take n (drop total b)) ++ drop (total + n) b ≡ x ++ drop total b
  round_text k =
      rw (drop-add total n b, append_assoc) (ap (λ y. x ++ y) (take-append-drop n (drop total b)))

-- How a `Write` of `b` that stands at `total` may end: everything that was delivered, followed by
-- what is left, is the text; without an error nothing is left.
abbrev Ending : ℕ → Bytes → ℕ → Trace → ℕ × Option Error → Trace → Type 0
Ending h b total t (n, e) t' =
    (n ≤ length b)
    × (delivered h t' ++ drop n b ≡ delivered h t ++ drop total b)
    × ((n ≡ length b) ⊎ (e ≢ none))

module _ (env : Env) (law : SendObeys env) (h : ℕ) where
  send-delivered :
      (buf : Bytes) (t : Trace)
      → Ends
          (send env h buf t)
          (λ n t'. (n ≤ length buf) × (delivered h t' ≡ delivered h t ++ take n buf))
          (λ _ t'. delivered h t' ≡ delivered h t)
  unfolding send ◌>>=◌
  send-delivered buf t = ground (arith, law t h buf, append-nil (delivered h t))

Ending-from :
    (h : ℕ) (b : Bytes) (total total' : ℕ) (t t' : Trace) (r : Run Trace (ℕ × Option Error))
    → delivered h t' ++ drop total' b ≡ delivered h t ++ drop total b
    → Ends r (Ending h b total' t') (λ _ _. ⊥)
    → Ends r (Ending h b total t) (λ _ _. ⊥)
Ending-from h b total total' t t' (done (n, e) t'') same (k, d, f) = (k, d ∙ same, f)
Ending-from h b total total' t t' (fail e t'') same k = k
Ending-from h b total total' t t' panic same k = k

after_send-Ending :
    (h : ℕ) (b : Bytes) (total : ℕ) (t : Trace) (r : Run Trace ℕ)
    (next : ℕ → Trace → Run Trace (ℕ × Option Error))
    → total < length b
    → Ends r
        (λ n t'.
          (n ≤ length (drop total b)) × (delivered h t' ≡ delivered h t ++ take n (drop total b)))
        (λ _ t'. delivered h t' ≡ delivered h t)
    → ((n : ℕ) (t' : Trace)
        → 0 < n
        → total + n ≤ length b
        → Ends (next (total + n) t') (Ending h b (total + n) t') (λ _ _. ⊥))
    → Ends (after_send total r next) (Ending h b total t) (λ _ _. ⊥)
unfolding after_send
after_send-Ending h b total t (done n t') next k (small, d) more = elim (Bool-cases (n == 0)) [
  | inl zero_sent ↦
      let e : n ≡ 0 = ==→eq n 0 zero_sent in
      let same : delivered h t' ≡ delivered h t = rw (e, append-nil) at d in
      rw zero_sent (omega arith, ap (λ x. x ++ drop total b) same, inr (λ x. cc))
  | inr some_sent ↦ rw some_sent (
      Ending-from h b total (total + n) t t' _
        (ap (λ x. x ++ drop (total + n) b) d ∙ round_text b total n (delivered h t) small)
        (more n t' (ground arith) (omega (arith, length-drop total b (omega arith)))))
]
after_send-Ending h b total t (fail e t') next k d more =
    (omega arith, ap (λ x. x ++ drop total b) d, inr (λ x. cc))
after_send-Ending h b total t panic next k d more = d

module _ (env : Env) (law : SendObeys env) (c : GuestConn) (b : Bytes) where
  write_loop-Ending :
      (fuel total : ℕ) (t : Trace)
      → total ≤ length b
      → length b < fuel + total
      → Ends (write_loop env fuel c b total t) (Ending c.stdin b total t) (λ _ _. ⊥)
  unfolding write_loop
  write_loop-Ending zero total t k f = absurd (omega arith)
  write_loop-Ending (suc fuel) total t k f = elim (Bool-cases (ltb total (length b))) [
    | inl more ↦ rw more (
        after_send-Ending c.stdin b total t _ (write_loop env fuel c b) (ground arith)
          (send-delivered env law c.stdin (drop total b) t)
          (λ n t' h h'. write_loop-Ending fuel (total + n) t' h' (omega arith)))
    | inr all ↦ rw all (k, refl, inl (ground arith))
  ]

  -- `Write` always returns: the count that it gives is within the text, and what the socket took,
  -- followed by the text behind that count, is the text. Either all of it was taken,
  -- or there is an error.
  pub write_lem :
      (t : Trace)
      → Ends
          (write env c b t)
          (λ r t'.
            (r.0 ≤ length b)
            × (delivered c.stdin t' ++ drop r.0 b ≡ delivered c.stdin t ++ b)
            × ((r.0 ≡ length b) ⊎ (r.1 ≢ none)))
          (λ _ _. ⊥)
  unfolding write
  write_lem t = write_loop-Ending (suc (length b)) 0 t (omega arith) (omega arith)
