-- ===== src/Tests/Demos.antt =====
-- The demo against a guest that echoes, and a relay of the proxy.
use wslcsession.Base.{
  ◌%◌, ◌^◌, if◌then◌else◌, ℕ, zero, suc, ◌≤◌, ◌≡◌, ◌≢◌, inr, refl, false, Bytes, [], ◌∷◌, ◌++◌,
  none, arith, Ends, codes, length,
}
use wslcsession.Base.{wrap_with, tcp_fallback_check, return, take, some, true}
use wslcsession.Base.Effects.{◌>>=◌}
use wslcsession.Base.Effects.Triple.{Triple-bind, Triple-return}
use wslcsession.Com.Refs.{Held}
use wslcsession.Com.Trace.{
  socket_close, socket_shutdown, Env, Trace, Reply, Call, socket_recv, socket_send,
}
use wslcsession.Conn.{close_conn, GuestConn}
use wslcsession.Demo.{default_flags}
use wslcsession.Demo.Checks.{
  check_echo, echo_text, or_refused, check_guest_tcp_dial, check_guest_tcp_dial_refused,
  ask_version, Http, run_demo,
}
use wslcsession.Demo.Checks.Conns.{recvs, RecvEnds}
use wslcsession.Demo.Checks.Rules.{HttpKeeps, close_conn-Triple}
use wslcsession.Demo.Checks.References.{run_demo-Held}
use wslcsession.Demo.Proxy.{
  Relay, Relayed, accepted, set_flow, up, dials, reads, start, step, first_wait, copying, new_flow,
}
use wslcsession.Demo.Proxy.Invariant.{open_while_used}
use wslcsession.Demo.Checks.Echo.{check_echo_lem}
use wslcsession.Demo.Checks.Fallback.{pull_limited}
use wslcsession.Conn.Close.{calls}
use wslcsession.Conn.Closed.{close_conn_closed}
use wslcsession.Demo.Checks.Version.{ask_version_lem}
use wslcsession.Demo.Checks.Seen.{arrived}
use wslcsession.Conn.Read.{RecvObeys}
use wslcsession.Conn.Write.{delivered, SendObeys}
use wslcsession.Demo.Streams.{contains_text}
use wslcsession.Demo.Reports.{Texts}
use wslcsession.Demo.Streams.{starts_with}
use wslcsession.Tests.Service.{closed_world, live_world, answer, answer_call, service}

-- The server at the other end answers the request for the version, and echoes any other text.
abbrev response : Bytes → Bytes
response b = if starts_with b (codes "GET") then codes "HTTP/1.0 200 OK" else b

abbrev answer_to : Call → Bytes → Bytes
answer_to (socket_send _ b) before = response b
answer_to _ before = before

abbrev last_sent : Trace → Bytes
last_sent [] = []
last_sent (e ∷ t) = answer_to e.call (last_sent t)

-- One `recv` gives as much of the answer as fits, and the next one the end of the file.
abbrev chunk : ℕ → Bytes → Bytes
chunk size b = take 64 (take size b)

abbrev answer_first : ℕ → Bytes → Reply
answer_first zero b = answer (length b) 0 b
answer_first (suc _) b = answer 0 0 []

abbrev answer_in : Trace → Call → Reply
answer_in t (socket_recv h size) = answer_first (recvs h t) (chunk size (last_sent t))
answer_in t c = answer_call c

abbrev echo_service : Env
echo_service = record service { reply = answer_in }

echo_service-RecvEnds : RecvEnds echo_service 1
echo_service-RecvEnds t h size k = inr (quiet_after (recvs h t) (chunk size (last_sent t)) k)
  where
    quiet_after : (n : ℕ) (b : Bytes) → 1 ≤ n → (answer_first n b).ret % 2 ^ 32 ≡ 0
    quiet_after zero b k = absurd (omega arith)
    quiet_after (suc n) b k = refl

take_max : (n : ℕ) (b : Bytes) → (length (take n b) ≤ n) × (length (take n b) ≤ length b)
take_max zero b = (omega arith, omega arith)
take_max (suc n) [] = (omega arith, omega arith)
take_max (suc n) (x ∷ b) = let k = take_max n b in (omega (arith, k.0), omega (arith, k.1))

echo_service-RecvObeys : RecvObeys echo_service
echo_service-RecvObeys t h size = inr (fits (recvs h t) (last_sent t))
  where
    fits :
        (n : ℕ) (b : Bytes)
        → let r = answer_first n (chunk size b) in
          (r.ret % 2 ^ 32 ≤ size) × (length r.bytes ≡ r.ret % 2 ^ 32)
    fits zero b =
        let (k, l) = take_max 64 (take size b) in
        let (m, _) = take_max size b in (omega arith, omega arith)
    fits (suc n) b = (omega arith, refl)

echo_service-SendObeys : SendObeys echo_service
echo_service-SendObeys t h buf = inr (omega arith)

-- A client that gets 200 and an empty body for every request.
abbrev http : Http
http = record {
  exchange = λ d q. d >>= λ c. return (record { status = 200; body = c });
  read_body = λ r. return ([], none);
  close_body = λ r. close_conn echo_service r.body >>= λ _. return tt;
}

abbrev texts : Texts
texts = record { quote = λ b. codes "\"" ++ b ++ codes "\""; system = λ e. codes "EOF" }

http-HttpKeeps : (p mgr sess : ℕ) → p ≢ 0 → HttpKeeps echo_service (λ _. refl) p mgr sess http
http-HttpKeeps p mgr sess h = record {
  exchange = λ n d q k.
      Triple-bind _ _ k (λ c. Triple-return (record { status = 200; body = c }) (λ _ k. k));
  read_body = λ n r. Triple-return ([], none) (λ _ k. k);
  close_body = λ n r. record {
    at = λ w (q, has, fresh, k).
        (Triple-bind _ _
            (close_conn-Triple echo_service (λ _. refl) p mgr sess h n q r.body has fresh)
            (λ _. Triple-return tt (λ _ k. k))).at
          w k;
  };
}

run_demo-Held_example :
    Ends
      (run_demo echo_service texts http (λ _. 512) 2 (default_flags (codes "demo")) [])
      (λ _. Held 300 0)
      (λ _. Held 300 0)
run_demo-Held_example =
    run_demo-Held echo_service (λ _. refl) texts http (λ _. 512) 1 echo_service-RecvEnds 300
      (omega arith) (λ mgr sess. http-HttpKeeps 300 mgr sess (omega arith)) 0
      (default_flags (codes "demo")) [] (refl, tt)

-- The client has sent four bytes, which wait for the guest.
abbrev dialled : Relay
dialled = record accepted { handler = first_wait; flow = λ _. new_flow copying }

abbrev has_read : Relay
has_read =
    set_flow dialled up (record (new_flow copying) { read = codes "ping"; pending = codes "ping" })

has_read-Relayed : Relayed has_read
has_read-Relayed =
    step (step start (dials refl)) (reads up (codes "ping") refl refl (omega arith) (omega arith))

open_while_used_example : (has_read.guest_closed ≡ false) × (has_read.client_closed ≡ false)
open_while_used_example = open_while_used up has_read-Relayed (λ e. cc) (λ e. cc)

-- A connection to dockerd, in an open session.
abbrev conn : GuestConn
conn = record { process = some 300; stdin = 7; stdout = 8; closed = false; write_closed = false }

ask_version_lem_example :
    Ends
      (ask_version echo_service (λ _. 512) 2 conn live_world)
      (λ _ w'.
        (delivered 7 w'.trace ≡ codes "GET /version HTTP/1.0\r\n\r\n")
        × (b : Bytes) × (arrived 8 w'.trace ≡ b)
        × (contains_text b (codes "200 OK") ≡ true))
      (λ _ _. Unit)
ask_version_lem_example =
    ask_version_lem echo_service (λ _. 512) 1 conn live_world echo_service-SendObeys
      echo_service-RecvObeys echo_service-RecvEnds

-- The registry answers the request for the image with 429.
abbrev limited : Http
limited = record {
  exchange = λ d q. return (record { status = 429; body = conn });
  read_body = λ r. return (codes "error: toomanyrequests", none);
  close_body = λ r. return tt;
}

pull_limited_example :
    or_refused echo_service texts limited
      (check_guest_tcp_dial echo_service texts limited live_world)
    ≡ wrap_with tcp_fallback_check (check_guest_tcp_dial_refused echo_service) live_world
unfolding ◌>>=◌ contains_text starts_with
pull_limited_example =
    pull_limited echo_service texts limited live_world live_world live_world live_world
      (record { status = 429; body = conn }) (codes "error: toomanyrequests") none refl refl refl
      refl refl

-- The session is closed before the connection.
close_conn_closed_example :
    Ends
      (close_conn echo_service conn closed_world)
      (λ c' w'.
        (c' ≡ record conn { closed = true; write_closed = true })
        × (calls w'.trace ≡ socket_close 8 ∷ socket_close 7 ∷ socket_shutdown 7 1 ∷ [])
        × (w'.session ≡ closed_world.session))
      (λ _ _. ⊥)
close_conn_closed_example =
    close_conn_closed echo_service conn closed_world 300 (refl, refl) refl refl

check_echo_lem_example :
    Ends
      (check_echo echo_service conn live_world)
      (λ _ w'. (delivered 7 w'.trace ≡ echo_text) × (arrived 8 w'.trace ≡ echo_text))
      (λ _ _. Unit)
check_echo_lem_example =
    check_echo_lem echo_service conn live_world echo_service-SendObeys echo_service-RecvObeys
