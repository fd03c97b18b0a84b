-- ===== src/Demo/Streams.antt =====
-- The standard library's loops over a connection that cmd/wslcdemo/demo.go calls: `io.ReadAll`,
-- `io.ReadFull` and `Write` as a function with an error; and `strings.Contains`.
use wslcsession.Base.{
  ℕ, zero, suc, ◌-◌, Bool, true, false, Bytes, [], ◌∷◌, ◌++◌, Option, none, some, Error, eof,
  unexpected_eof, Io, Run, done, fail, panic, return, raise, ◌==◌, ◌||◌, if◌then◌else◌, length,
}
use wslcsession.Base.Effects.{◌>>=◌}
use wslcsession.Com.Trace.{Env, Trace}
use wslcsession.Conn.{GuestConn, read, write}

unfoldable pub starts_with : Bytes → Bytes → Bool
starts_with s [] = true
starts_with [] (_ ∷ _) = false
starts_with (c ∷ s) (d ∷ sub) = elim (c == d) [ true ↦ starts_with s sub | false ↦ false ]

unfoldable pub contains_text : Bytes → Bytes → Bool
contains_text [] sub = starts_with [] sub
contains_text (c ∷ s) sub = starts_with (c ∷ s) sub || contains_text s sub

abbrev pub is_eof : Error → Bool
is_eof eof = true
is_eof _ = false

-- What a round of `io.ReadAll` does with the result of `Read`.
unfoldable pub after_chunk :
    Bytes → Run Trace (ℕ × Bytes) → (Bytes → Io Trace Bytes) → Run Trace Bytes
after_chunk got (done (n, b) t) next = next (got ++ b) t
after_chunk got (fail e t) next = if is_eof e then done got t else fail e t
after_chunk got panic next = panic

-- The same for `io.ReadFull`.
unfoldable pub after_part :
    Bytes → ℕ → Run Trace (ℕ × Bytes) → (Bytes → ℕ → Io Trace Bytes) → Run Trace Bytes
after_part got size (done (n, b) t) next = next (got ++ b) (size - n) t
after_part got size (fail e t) next =
    fail (if is_eof e then (if length got == 0 then eof else unexpected_eof) else e) t
after_part got size panic next = panic

-- `if _, err := …; err != nil`
unfoldable pub unless_error {ℓ κ} : {S : Type ℓ} {A : Type κ} → A × Option Error → Io S A
unless_error (a, none) = return a
unless_error (a, some e) = raise e

module _ (env : Env) where
  -- `room` is the free capacity of the buffer behind so many bytes.
  unfoldable pub read_all_loop : ℕ → (ℕ → ℕ) → GuestConn → Bytes → Io Trace Bytes
  read_all_loop zero room c got t = panic
  read_all_loop (suc fuel) room c got t =
      after_chunk got (read env c (room (length got)) t) (read_all_loop fuel room c)

  unfoldable pub read_full_loop : ℕ → GuestConn → Bytes → ℕ → Io Trace Bytes
  read_full_loop zero c got size t = panic
  read_full_loop (suc fuel) c got size t =
      let round = after_part got size (read env c size t) (read_full_loop fuel c) in
      if size == 0 then done got t else round

  -- Each round but the last reads a byte, so one more than the size is enough fuel.
  unfoldable pub read_full : GuestConn → ℕ → Io Trace Bytes
  read_full c size = read_full_loop (suc size) c [] size

  unfoldable pub write_text : GuestConn → Bytes → Io Trace ℕ
  write_text c b = write env c b >>= unless_error
