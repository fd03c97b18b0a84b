-- ===== src/Helper/Views/Writes.antt =====
-- bridge.c, `write_all`: what it delivers.
use wslcsession.Base.{
  ℕ, zero, suc, ◌+◌, ◌≤◌, ◌<◌, ◌≡◌, refl, sym, ap, subst, ◌∙◌, inl, inr, Bool, true, false, Bytes,
  [], ◌∷◌, ◌++◌, done, fail, panic, Ends, ltb, length, take, drop, append_assoc, append-nil,
  take-append-drop, length-drop, drop-add, Bool-cases, arith, Run, ℤ, pos, negsuc,
}
use wslcsession.Base.Effects.{◌>>=◌}
use wslcsession.Helper.{
  History, Kernel, Answer, write_fd, enter, after_write, write_from, write_all, is_positive, count,
}
use wslcsession.Helper.Views.{
  Direction, up, down, View, add_written, add_error, view, sink, IsFresh, WriteObeys, note_write,
}

-- How a write of `buf` to a side may end: all of it was written, or the part before some rest and then
-- a write failed.
abbrev pub Written : Direction → Bytes → View → Bool → View → Type 0
Written i buf v true v' = v' ≡ add_written i buf v
Written i buf v false v' =
    (part : Bytes) × (rest : Bytes) × (part ++ rest ≡ buf)
    × (v' ≡ add_error false (add_written i part v))

add_written-nil : (i : Direction) (v : View) → add_written i [] v ≡ v
add_written-nil up v = rw (append-nil v.up_traffic.written) refl
add_written-nil down v = rw (append-nil v.down_traffic.written) refl

add_written-append :
    (i : Direction) (a b : Bytes) (v : View)
    → add_written i b (add_written i a v) ≡ add_written i (a ++ b) v
add_written-append up a b v = rw (append_assoc v.up_traffic.written a b) refl
add_written-append down a b v = rw (append_assoc v.down_traffic.written a b) refl

-- A write that goes on behind the part that was written.
Written-after :
    (i : Direction) (a b : Bytes) (v v' : View) (all : Bool)
    → Written i b (add_written i a v) all v'
    → Written i (a ++ b) v all v'
Written-after i a b v v' true e = e ∙ add_written-append i a b v
Written-after i a b v v' false (part, rest, e, f) = (
  a ++ part,
  rest,
  append_assoc a part rest ∙ ap (λ x. a ++ x) e,
  f ∙ ap (add_error false) (add_written-append i a part v),
)

drop_all : (n : ℕ) (b : Bytes) → length b ≤ n → drop n b ≡ []
drop_all zero [] h = refl
drop_all zero (x ∷ b) h = absurd (omega arith)
drop_all (suc n) [] h = refl
drop_all (suc n) (x ∷ b) h = drop_all n b (omega arith)

Written-next :
    (i : Direction) (buf : Bytes) (off n : ℕ) (v v₁ v' : View) (all : Bool)
    → v₁ ≡ add_written i (take n (drop off buf)) v
    → Written i (drop (off + n) buf) v₁ all v'
    → Written i (drop off buf) v all v'
Written-next i buf off n v v₁ v' all e h =
    let whole : take n (drop off buf) ++ drop (off + n) buf ≡ drop off buf =
      rw (drop-add off n buf) (take-append-drop n (drop off buf)) in
    subst (λ x. Written i x v all v') whole
      (Written-after i (take n (drop off buf)) (drop (off + n) buf) v v' all
        (subst (λ x. Written i (drop (off + n) buf) x all v') e h))

Ends-next :
    (sock : ℕ) (i : Direction) (buf : Bytes) (off n : ℕ) (v v₁ : View)
    → v₁ ≡ add_written i (take n (drop off buf)) v
    → (r : Run History Bool)
    → Ends r (λ all t'. Written i (drop (off + n) buf) v₁ all (view sock t')) (λ _ _. ⊥)
    → Ends r (λ all t'. Written i (drop off buf) v all (view sock t')) (λ _ _. ⊥)
Ends-next sock i buf off n v v₁ e (done all t') h = Written-next i buf off n v v₁ _ all e h
Ends-next sock i buf off n v v₁ e (fail _ _) h = h
Ends-next sock i buf off n v v₁ e panic h = h

-- A write that fails writes nothing.
failed_write :
    (i : Direction) (x : Bytes) (v v' : View)
    → v' ≡ add_written i [] (add_error false v)
    → Written i x v false v'
failed_write up x v v' e = ([], x, refl, e)
failed_write down x v v' e = ([], x, refl, e)

after_write-Written :
    (sock : ℕ) (i : Direction) (buf : Bytes) (off : ℕ) (v : View) (t : History) (r : Answer) (n : ℤ)
    (next : ℕ → History → Run History Bool)
    → r.ret ≡ n
    → view sock t ≡ add_written i (take (count n) (drop off buf)) (add_error (is_positive n) v)
    → ((k : ℕ)
        → n ≡ pos (suc k)
        → Ends
            (next (off + suc k) t)
            (λ all t'. Written i (drop (off + suc k) buf) (view sock t) all (view sock t'))
            (λ _ _. ⊥))
    → Ends
        (after_write off r next t)
        (λ all t'. Written i (drop off buf) v all (view sock t'))
        (λ _ _. ⊥)
unfolding after_write ◌>>=◌
after_write-Written sock i buf off v t r (pos (suc k)) next e seen more =
    rw e (Ends-next sock i buf off (suc k) v _ seen _ (more k refl))
after_write-Written sock i buf off v t r (pos zero) next e seen more =
    rw e (failed_write i (drop off buf) v _ seen)
after_write-Written sock i buf off v t r (negsuc k) next e seen more =
    rw e (failed_write i (drop off buf) v _ seen)

module _ (kernel : Kernel) {sock : ℕ} (fresh : IsFresh sock) (law : WriteObeys kernel)
    (i : Direction) (buf : Bytes) where
  write_from-Written :
      (fuel off : ℕ) (t : History)
      → off ≤ length buf
      → length buf < fuel + off
      → Ends
          (write_from kernel fuel (sink sock i) buf off t)
          (λ all t'. Written i (drop off buf) (view sock t) all (view sock t'))
          (λ _ _. ⊥)
  unfolding write_from after_write enter ◌>>=◌
  write_from-Written zero off t k f = absurd (omega arith)
  write_from-Written (suc fuel) off t k f = elim (Bool-cases (ltb off (length buf))) [
    | inl more ↦ rw more (
        after_write-Written sock i buf off _ _ (kernel t (write_fd (sink sock i) (drop off buf)))
          (kernel t (write_fd (sink sock i) (drop off buf))).ret
          (write_from kernel fuel (sink sock i) buf) refl
          (note_write fresh i (drop off buf) (kernel t (write_fd (sink sock i) (drop off buf)))
            (view sock t))
          (λ m e.
            let fits : suc m ≤ length (drop off buf) =
              subst (λ z. count z ≤ length (drop off buf)) e (law t (sink sock i) (drop off buf)) in
            write_from-Written fuel (off + suc m) _ (omega (arith, length-drop off buf k))
              (omega arith)))
    | inr all ↦ rw (all, drop_all off buf (ground arith)) (sym (add_written-nil i (view sock t)))
  ]

  pub write_all-Written :
      (t : History)
      → Ends
          (write_all kernel (sink sock i) buf t)
          (λ all t'. Written i buf (view sock t) all (view sock t'))
          (λ _ _. ⊥)
  unfolding write_all
  write_all-Written t = write_from-Written (suc (length buf)) 0 t (omega arith) (omega arith)
