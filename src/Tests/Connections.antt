-- ===== src/Tests/Connections.antt =====
-- Connections of a session.
use wslcsession.Base.{
  true, false, ℕ, zero, suc, ◌≤◌, ◌≡◌, ◌≢◌, ◌⊎◌, refl, true, false, [], ◌∷◌, ◌++◌, none, some,
  codes, arith, inr, Ends, done, panic, length, drop, ◌%◌, ◌^◌, ◌<◌, eof, wrap, recv_failed, errno,
}
use wslcsession.Com.Abi.{
  slot_release, slot_process_get_std_handle, slot_session_create_root_namespace_process, fd_stdin,
  fd_stdout,
}
use wslcsession.Com.Trace.{
  Call, Event, process, descriptor, socket_recv, invoke, no_args, socket_close, socket_shutdown,
}
use wslcsession.Base.Effects.{◌>>=◌}
use wslcsession.Com.Runtime.{is_negative, com_release, shutdown_socket, close_socket}
use wslcsession.Conn.{
  close_sockets, close_write, GuestConn, read, write, close_conn, dial_conn, sd_send,
}
use wslcsession.Conn.Close.{calls, close_conn-calls, close_conn_idem}
use wslcsession.Conn.Closed.{dial_closed}
use wslcsession.Conn.References.{close_conn-Keep}
use wslcsession.Conn.Spawn.{bridge_process}
use wslcsession.Conn.Dial.{dial_conn-calls}
use wslcsession.Conn.Read.{read_lem}
use wslcsession.Conn.Write.{delivered, write_lem}
use wslcsession.Session.{on_trace, release_process, interfere, World, do_request, close}
use wslcsession.Session.Processes.{Keep}
use wslcsession.Tests.Service.{
  answer, answer_recv, mounted_world, service, live_world, closed_world,
}
use wslcsession.Tests.Service.{live_world-IsOpen, mounted-IsOpen}

dial_closed_example :
    (c : GuestConn) × (dial_conn service (codes "tcp:127.0.0.1:80") closed_world
      ≡ done c closed_world)
    × (c.process ≡ none)
    × (c.stdin ≡ 0)
    × (c.stdout ≡ 0)
    × (close_conn service c closed_world ≡ panic)
dial_closed_example =
    dial_closed service (codes "tcp:127.0.0.1:80") closed_world closed_world (refl, refl)

abbrev pub conn : GuestConn
conn = record { process = some 300; stdin = 7; stdout = 8; closed = false; write_closed = false }

wrapped : (n : ℕ) → n % 2 ^ 32 ≤ n
wrapped n = omega arith

write_lem_example :
    Ends
      (write service conn (codes "hi") [])
      (λ r t'.
        (r.0 ≤ 2)
        × (delivered 7 t' ++ drop r.0 (codes "hi") ≡ codes "hi")
        × ((r.0 ≡ 2) ⊎ (r.1 ≢ none)))
      (λ _ _. ⊥)
write_lem_example = write_lem service (λ _ _ buf. inr (wrapped (length buf))) conn (codes "hi") []

dial_conn-calls_example :
    Ends
      (dial_conn service (codes "tcp:127.0.0.1:80") mounted_world)
      (λ c w'.
        (p : ℕ) × (c.process ≡ some p)
        × (c.closed ≡ false)
        × (c.write_closed ≡ false)
        × (w'.session ≡ mounted_world.session)
        × (calls w'.trace
            ≡ invoke p slot_process_get_std_handle (descriptor fd_stdout)
              ∷ invoke p slot_process_get_std_handle (descriptor fd_stdin)
              ∷ invoke 200 slot_session_create_root_namespace_process (
                  process
                    (codes "/bin/sh" ++ 0 ∷ [])
                    (bridge_process (codes "tcp:127.0.0.1:80"))
                    0
                    0)
              ∷ []))
      (λ _ _. Unit)
dial_conn-calls_example =
    dial_conn-calls service (codes "tcp:127.0.0.1:80") mounted_world (λ _. refl) mounted-IsOpen refl

first_close_calls :
    Ends
      (close_conn service conn live_world)
      (λ c' w'.
        (c' ≡ record conn { closed = true; write_closed = true })
        × (calls w'.trace
            ≡ invoke 300 slot_release no_args
              ∷ socket_close 8
              ∷ socket_close 7
              ∷ socket_shutdown 7 sd_send
              ∷ [])
        × (w'.session ≡ live_world.session))
      (λ _ _. ⊥)
first_close_calls =
    close_conn-calls service conn live_world 300 (λ _. refl) refl refl refl (omega arith)

abbrev over : GuestConn
over = record conn { closed = true; write_closed = true }

abbrev event : Call → Event
event c = record { call = c; reply = answer 0 0 [] }

abbrev left_world : World
left_world = record {
  session = live_world.session;
  trace =
      event (invoke 300 slot_release no_args)
      ∷ event (socket_close 8)
      ∷ event (socket_close 7)
      ∷ event (socket_shutdown 7 sd_send)
      ∷ [];
}

first_close : close_conn service conn live_world ≡ done over left_world
unfolding close_conn close_sockets close_write shutdown_socket close_socket com_release on_trace
    release_process do_request interfere close ◌>>=◌
first_close = refl

second_close : close_conn service over left_world ≡ done over left_world
second_close = close_conn_idem service conn over live_world left_world first_close

obeys :
    (size : ℕ)
    → (is_negative (answer_recv size).ret ≡ true)
      ⊎ (((answer_recv size).ret % 2 ^ 32 ≤ size)
          × (length (answer_recv size).bytes ≡ (answer_recv size).ret % 2 ^ 32))
obeys zero = inr (omega arith, refl)
obeys (suc zero) = inr (omega arith, refl)
obeys (suc (suc n)) = inr (omega arith, refl)

read_lem_example :
    Ends
      (read service conn 4 [])
      (λ n t'.
        (0 < n.0)
        × (n.0 ≤ 4)
        × (n.0 ≡ length n.1)
        × (n.1 ≡ codes "ok")
        × (t' ≡ record { call = socket_recv 8 4; reply = answer 2 0 (codes "ok") } ∷ []))
      (λ e t'.
        ((e ≡ eof) ⊎ (e ≡ wrap recv_failed (errno 0)))
        × (t' ≡ record { call = socket_recv 8 4; reply = answer 2 0 (codes "ok") } ∷ []))
read_lem_example = read_lem service (λ _ _ size. obeys size) conn 4 [] (omega arith)

-- A session whose service has started the process 300.
abbrev spawned_world : World
spawned_world = record {
  session = live_world.session;
  trace =
      record { call = invoke 200 23 (process [] (bridge_process []) 0 0); reply = answer 0 300 [] }
      ∷ [];
}

close_conn-Keep_example :
    Ends
      (close_conn service conn spawned_world)
      (λ _. Keep service (λ _. refl) 300 100 200 0)
      (λ _ _. ⊥)
close_conn-Keep_example =
    close_conn-Keep service (λ _. refl) 300 100 200 0 conn 300 spawned_world (omega arith) refl refl
      ((live_world-IsOpen, refl, refl), (refl, (refl, tt)))
