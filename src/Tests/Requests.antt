-- ===== src/Tests/Requests.antt =====
-- Goroutines with their requests at concrete points.
use wslcsession.Base.{Result, Io, Option, none, some, codes, ℕ, ◌≡◌, refl, true, false}
use wslcsession.Base.Effects.{◌>>=◌}
use wslcsession.Strings.Pointers.{byte_ptr}
use wslcsession.Com.Api.{make_string_array, create_root_namespace_process, check_exec}
use wslcsession.Com.Runtime.{vtbl_call}
use wslcsession.Session.{World, spawn, on_trace}
use wslcsession.Session.Threads.Requests.{
  IsRequest, Machine, asks, enters_close, silent, refuses, answers, stops_session, Attains, begins,
  moves, outcome,
}
use wslcsession.Session.Threads.Requests.Closures.{closures-IsRequest}
use wslcsession.Session.Threads.Requests.Order.{served_in_order}
use wslcsession.Session.Threads.Requests.Serial.{Serial, Settles}
use wslcsession.Session.Threads.{
  takes_read_lock, releases_read_lock, finds_open, sends, enters_once, takes_lock, closes,
  releases_lock,
}
use wslcsession.Tests.Service.{service, live_world}

-- Caller 0 starts a process, caller 1 closes the session, and caller 0 asks once more.
unfoldable start_process : Io World (Option ℕ)
start_process = spawn service (codes "/bridge/entrypoint.sh") (codes "tcp:127.0.0.1:80")

start_process-IsRequest : IsRequest start_process
unfolding start_process
start_process-IsRequest =
    (closures-IsRequest service (codes "/bridge/entrypoint.sh") (codes "tcp:127.0.0.1:80") none 0).2

start_process_answers :
    (x : Result (Option ℕ) × World) × (outcome (start_process live_world) ≡ some x)
unfolding start_process outcome spawn create_root_namespace_process vtbl_call check_exec on_trace
    ◌>>=◌ byte_ptr make_string_array
start_process_answers = (_, refl)

abbrev after_answer : (m : Machine (Option ℕ)) × Attains service none live_world m
after_answer = (
  _,
  moves
      (moves
        (moves
          (moves (moves begins (asks 0 start_process refl start_process-IsRequest))
            (silent (takes_read_lock 0 refl refl) tt))
          (silent (finds_open 0 refl refl) tt))
        (silent (sends 0 refl refl refl) tt))
      (answers 0 start_process_answers.0.0 start_process_answers.0.1 refl start_process_answers.1),
)

abbrev after_stop : (m : Machine (Option ℕ)) × Attains service none live_world m
after_stop = (
  _,
  moves
      (moves
        (moves
          (moves (moves after_answer.1 (silent (releases_read_lock 0 refl) tt))
            (enters_close 1 refl))
          (silent (enters_once 1 refl refl) tt))
        (silent (takes_lock 1 refl refl refl) tt))
      (stops_session 1 refl),
)

abbrev after_refusal : (m : Machine (Option ℕ)) × Attains service none live_world m
after_refusal = (
  _,
  moves
      (moves
        (moves
          (moves (moves after_stop.1 (silent (closes 1 refl refl) tt))
            (silent (releases_lock 1 refl) tt))
          (asks 0 start_process refl start_process-IsRequest))
        (silent (takes_read_lock 0 refl refl) tt))
      (refuses 0 refl refl),
)

served_in_order_example :
    (v : World) × Serial service none live_world after_refusal.0.log v
    × Settles service true false after_refusal.0.world v
served_in_order_example = served_in_order service none (λ _. refl) refl refl after_refusal.1
