-- ===== src/Conn/Threads/Invariant.antt =====
-- What holds of a connection that goroutines close.
use wslcsession.Base.{ℕ, ◌≡◌, refl, ◌∙◌, update, true, false, List, [], ◌∷◌, ◌++◌, arith, Bool}
use wslcsession.Session.Threads.{Once, fresh, busy, finished}
use wslcsession.Conn.Threads.{
  CloserPc, outside, half_entering, half_closing, entering, closing_stdin, closing_stdout,
  releasing, half_closed, closed, after_half, SocketCall, shut_stdin, close_stdin, close_stdout,
  release_process, Sockets, Closes, calls_half, calls_close, returns_half, returns_close,
  enters_half, skips_half, shuts, enters_close, skips_close, closes_stdin, closes_stdout,
  releases_process, unused, Used, dialled, goes_on,
}

-- What was done when the caller inside `closeOnce` stands there and the write half is shut.
abbrev pub body_log : CloserPc → List SocketCall
body_log closing_stdout = close_stdin ∷ shut_stdin ∷ []
body_log releasing = close_stdout ∷ close_stdin ∷ shut_stdin ∷ []
body_log _ = shut_stdin ∷ []

-- All that is done, in this order.
abbrev pub full_log : List SocketCall
full_log = release_process ∷ close_stdout ∷ close_stdin ∷ shut_stdin ∷ []

-- What the place of a caller says about the two `sync.Once`.
abbrev pub Stands : Sockets → ℕ → CloserPc → Type 0
Stands s i (half_entering true) = s.close_once ≡ busy i
Stands s i (half_closing true) = (s.close_once ≡ busy i) × (s.write_once ≡ busy i)
Stands s i (half_closing false) = s.write_once ≡ busy i
Stands s i closing_stdin = (s.close_once ≡ busy i) × (s.write_once ≡ finished)
Stands s i closing_stdout = (s.close_once ≡ busy i) × (s.write_once ≡ finished)
Stands s i releasing = (s.close_once ≡ busy i) × (s.write_once ≡ finished)
Stands s i half_closed = s.write_once ≡ finished
Stands s i closed = s.close_once ≡ finished
Stands s i _ = Unit

abbrev pub is_body : CloserPc → Bool
is_body (half_entering b) = b
is_body (half_closing b) = b
is_body closing_stdin = true
is_body closing_stdout = true
is_body releasing = true
is_body _ = false

abbrev pub is_shutting : CloserPc → Bool
is_shutting (half_closing _) = true
is_shutting _ = false

abbrev pub CloseStands : Sockets → Once → Type 0
CloseStands s (busy i) = is_body (s.pc i) ≡ true
CloseStands s finished = s.write_once ≡ finished
CloseStands s fresh = Unit

abbrev pub WriteStands : Sockets → Once → Type 0
WriteStands s (busy i) = is_shutting (s.pc i) ≡ true
WriteStands s _ = Unit

abbrev pub log_of : (ℕ → CloserPc) → Once → Once → List SocketCall
log_of pc finished fresh = shut_stdin ∷ []
log_of pc finished (busy i) = body_log (pc i)
log_of pc finished finished = full_log
log_of pc _ _ = []

pub record Proper (s : Sockets) : Type 0 where
  pub callers : (i : ℕ) → Stands s i (s.pc i)
  pub close : CloseStands s s.close_once
  pub write : WriteStands s s.write_once
  pub calls : s.log ≡ log_of s.pc s.write_once s.close_once

unused-Proper : Proper unused
unused-Proper = record { callers = λ i. tt; close = tt; write = tt; calls = refl }

abbrev pub walker : {s t : Sockets} → Closes s t → ℕ
walker (calls_half i _) = i
walker (calls_close i _) = i
walker (returns_half i _) = i
walker (returns_close i _) = i
walker (enters_half i _ _ _) = i
walker (skips_half i _ _ _) = i
walker (shuts i _ _) = i
walker (enters_close i _ _) = i
walker (skips_close i _ _) = i
walker (closes_stdin i _) = i
walker (closes_stdout i _) = i
walker (releases_process i _) = i

abbrev pub Asks : {s t : Sockets} → Closes s t → Type 0
Asks {s} (calls_half i _) = s.pc i ≡ outside
Asks {s} (calls_close i _) = s.pc i ≡ outside
Asks {s} (returns_half i _) = s.pc i ≡ half_closed
Asks {s} (returns_close i _) = s.pc i ≡ closed
Asks {s} (enters_half i b _ _) = (s.pc i ≡ half_entering b) × (s.write_once ≡ fresh)
Asks {s} (skips_half i b _ _) = (s.pc i ≡ half_entering b) × (s.write_once ≡ finished)
Asks {s} (shuts i b _) = s.pc i ≡ half_closing b
Asks {s} (enters_close i _ _) = (s.pc i ≡ entering) × (s.close_once ≡ fresh)
Asks {s} (skips_close i _ _) = (s.pc i ≡ entering) × (s.close_once ≡ finished)
Asks {s} (closes_stdin i _) = s.pc i ≡ closing_stdin
Asks {s} (closes_stdout i _) = s.pc i ≡ closing_stdout
Asks {s} (releases_process i _) = s.pc i ≡ releasing

pub asks : {s t : Sockets} (r : Closes s t) → Asks r
asks (calls_half i e) = e
asks (calls_close i e) = e
asks (returns_half i e) = e
asks (returns_close i e) = e
asks (enters_half i b e w) = (e, w)
asks (skips_half i b e w) = (e, w)
asks (shuts i b e) = e
asks (enters_close i e w) = (e, w)
asks (skips_close i e w) = (e, w)
asks (closes_stdin i e) = e
asks (closes_stdout i e) = e
asks (releases_process i e) = e

Closes-callers : {s t : Sockets} (r : Closes s t) → Proper s → (j : ℕ) → Stands t j (t.pc j)
Closes-callers (calls_half i e) v j = ground (arith, v.callers i, v.callers j, v.close)
Closes-callers r v j = ground (arith, asks r, v.callers (walker r), v.callers j, v.close)

Closes-close : {s t : Sockets} (r : Closes s t) → Proper s → CloseStands t t.close_once
Closes-close (calls_half i e) v = ground (arith, v.callers i, v.close)
Closes-close r v = ground (arith, asks r, v.callers (walker r), v.close)

Closes-write : {s t : Sockets} (r : Closes s t) → Proper s → WriteStands t t.write_once
Closes-write (calls_half i e) v = ground (arith, v.callers i, v.write)
Closes-write r v = ground (arith, asks r, v.callers (walker r), v.write)

-- `shutdown` is the first of all the calls.
shuts-calls :
    {s : Sockets} (i : ℕ) (b : Bool) (o : Once)
    → s.close_once ≡ o
    → s.pc i ≡ half_closing b
    → Proper s
    → shut_stdin ∷ s.log ≡ log_of (update s.pc i (after_half b)) finished o
shuts-calls i true fresh c e v = ground (arith, v.callers i, v.close, v.calls)
shuts-calls i true (busy k) c e v = ground (arith, v.callers i, v.callers k, v.close, v.calls)
shuts-calls i b fresh c e v = ground (arith, v.callers i, v.calls)
shuts-calls i b (busy k) c e v = ground (arith, v.callers i, v.callers k, v.close, v.calls)
shuts-calls i b finished c e v = ground (arith, v.callers i, v.close)

Closes-calls :
    {s t : Sockets} (r : Closes s t) → Proper s → t.log ≡ log_of t.pc t.write_once t.close_once
Closes-calls (calls_half i e) v = ground (arith, v.callers i, v.close, v.calls)
Closes-calls {s} (shuts i b e) v = shuts-calls i b s.close_once refl e v
Closes-calls r v = ground (arith, asks r, v.callers (walker r), v.close, v.write, v.calls)

pub Used-Proper : {s : Sockets} → Used s → Proper s
Used-Proper dialled = unused-Proper
Used-Proper (goes_on u r) =
    let v = Used-Proper u in
    record {
      callers = Closes-callers r v;
      close = Closes-close r v;
      write = Closes-write r v;
      calls = Closes-calls r v;
    }

-- The calls that are still to be made.
abbrev body_rest : CloserPc → List SocketCall
body_rest closing_stdout = release_process ∷ close_stdout ∷ []
body_rest releasing = release_process ∷ []
body_rest _ = release_process ∷ close_stdout ∷ close_stdin ∷ []

body-full : (p : CloserPc) → body_rest p ++ body_log p ≡ full_log
body-full closing_stdout = refl
body-full releasing = refl
body-full (half_entering _) = refl
body-full _ = refl

abbrev rest_of : (ℕ → CloserPc) → Once → Once → List SocketCall
rest_of pc finished fresh = release_process ∷ close_stdout ∷ close_stdin ∷ []
rest_of pc finished (busy i) = body_rest (pc i)
rest_of pc finished finished = []
rest_of pc _ _ = full_log

rest-full : (pc : ℕ → CloserPc) (w c : Once) → rest_of pc w c ++ log_of pc w c ≡ full_log
rest-full pc finished fresh = refl
rest-full pc finished (busy i) = body-full (pc i)
rest-full pc finished finished = refl
rest-full pc fresh c = refl
rest-full pc (busy i) c = refl

-- In every state that goroutines which close one connection reach, the calls that they have made are the
-- first of these: `shutdown` of the input, `closesocket` of the input, then of the output, and the
-- release of the process. None is made twice, and none of a socket that is closed.
pub calls_in_order : {s : Sockets} → Used s → (rest : List SocketCall) × (rest ++ s.log ≡ full_log)
calls_in_order {s} u = (
  rest_of s.pc s.write_once s.close_once,
  rw (Used-Proper u).calls (rest-full s.pc s.write_once s.close_once),
)

half_log :
    (pc : ℕ → CloserPc) (c : Once)
    → (later : List SocketCall) × (log_of pc finished c ≡ later ++ shut_stdin ∷ [])
half_log pc fresh = ([], refl)
half_log pc (busy i) = go (pc i)
  where
    go : (p : CloserPc) → (later : List SocketCall) × (body_log p ≡ later ++ shut_stdin ∷ [])
    go closing_stdout = (close_stdin ∷ [], refl)
    go releasing = (close_stdout ∷ close_stdin ∷ [], refl)
    go (half_entering _) = ([], refl)
    go _ = ([], refl)
half_log pc finished = (release_process ∷ close_stdout ∷ close_stdin ∷ [], refl)

-- When a call of `Close` returns, all the calls have been made, whoever made them.
pub closed-log : {s : Sockets} → Used s → (i : ℕ) → s.pc i ≡ closed → s.log ≡ full_log
closed-log u i e = let v = Used-Proper u in ground (arith, v.callers i, v.close, v.calls)

-- When a call of `CloseWrite` returns, the input has been shut down, before anything else.
pub half_closed-log :
    {s : Sockets}
    → Used s
    → (i : ℕ) → s.pc i ≡ half_closed
    → (later : List SocketCall) × (s.log ≡ later ++ shut_stdin ∷ [])
half_closed-log {s} u i e =
    let v = Used-Proper u in
    let f : s.write_once ≡ finished = ground (arith, v.callers i) in
    let h = half_log s.pc s.close_once in (h.0, v.calls ∙ (rw f h.1))
