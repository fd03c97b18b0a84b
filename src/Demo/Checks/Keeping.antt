-- ===== src/Demo/Checks/Keeping.antt =====
-- The checks of the demo, one by one, and the references that are held.
use wslcsession.Base.{ℕ, suc, ◌≢◌, ◌≤◌, Bytes, Io, Message, return, wrap_with, ignore, []}
use wslcsession.Base.Effects.{◌>>=◌, ◌>>◌}
use wslcsession.Base.Effects.Triple.{
  Triple, Triple-return, Triple-bind, Triple-mono, Triple-wrap, Triple-ignore,
}
use wslcsession.Com.Api.{get_display_name}
use wslcsession.Com.Refs.{one}
use wslcsession.Com.Refs.Balance
use wslcsession.Com.Trace.{Env}
use wslcsession.Conn.{GuestConn, read}
use wslcsession.Demo.Checks.Conns.{
  RecvEnds, read-Held, read_all-Held, read_full-Held, write_text-Held,
}
use wslcsession.Demo.Checks.Rules
use wslcsession.Demo.Checks.Rules.{HttpKeeps, Has, K, Keeps, Connects}
use wslcsession.Demo.Checks.{
  Request, Response, Http, connect, check_guest_tcp_dial_refused, check_echo, dial_echo,
  ask_version, check_docker_version, fetch, finish, stop_container, start_test_image, unless_ok,
  check_guest_tcp_dial,
}
use wslcsession.Demo.Reports.{Texts}
use wslcsession.Demo.Streams.{read_all_loop, read_full, write_text}
use wslcsession.Session.{
  World, on_trace, dial_guest_unix, dial_guest_tcp, docker_conn, display_name,
}
use wslcsession.Session.Dial.{IsQuiet}
use wslcsession.Session.Processes.{IsOpenOn, Triple-do_request}
use wslcsession.Session.Rules.{Triple-on_trace}

module _ (env : Env) (quiet : IsQuiet env) (p mgr sess : ℕ) (h : p ≢ 0) where
  abbrev pub Kept : {A : Type 0} → Io World A → Type 0
  Kept m = Keeps env quiet p mgr sess h m

  pub Keeps-display_name : Kept (display_name env)
  unfolding display_name
  Keeps-display_name = record {
    at = λ n j.
        Triple-do_request env quiet [] _ (λ w k. k.0.0)
          (record { at = λ w k. (asks n w.session.sess (rw k.0.2 j)).at w k });
  }
    where
      asks :
          (n obj : ℕ)
          → one p obj ≤ n
          → Triple
              (K env quiet p mgr sess h n)
              (on_trace (get_display_name env obj))
              (λ _. K env quiet p mgr sess h n)
              (λ _. K env quiet p mgr sess h n)
      asks n obj j =
          Triple-on_trace (IsOpenOn env quiet p mgr sess) _
            (Balance.get_display_name-Held env p n obj j)

  abbrev Dials : Io World GuestConn → Type 0
  Dials m = Connects env quiet p mgr sess h m

  Connects-tcp : (addr : Bytes) → Dials (connect (dial_guest_tcp env addr))
  unfolding dial_guest_tcp
  Connects-tcp addr = Rules.Connects-dial _

  Connects-docker : Dials (connect (docker_conn env))
  unfolding docker_conn dial_guest_unix
  Connects-docker = Rules.Connects-dial _

  module _ (c : GuestConn) where
    Keeps-read : (size : ℕ) → Kept (on_trace (read env c size))
    Keeps-read size =
        Rules.Keeps-on_trace _
          (λ n. Triple-mono (record { at = read-Held env p n c size }) (λ _ _ k. k.1) (λ _ _ k. k))

    Keeps-write : (b : Bytes) → Kept (on_trace (write_text env c b))
    Keeps-write b = Rules.Keeps-on_trace _ (λ n. write_text-Held env p n c b)

    Keeps-read_full : (size : ℕ) → Kept (on_trace (read_full env c size))
    Keeps-read_full size = Rules.Keeps-on_trace _ (λ n. read_full-Held env p n c size)

    Keeps-check_echo : Kept (check_echo env c)
    unfolding check_echo
    Keeps-check_echo = search (Rules.keep_rules, Keeps-write, Keeps-read_full)

  Keeps-dial_echo : Kept (dial_echo env)
  unfolding dial_echo
  Keeps-dial_echo = search (Rules.keep_rules, Connects-tcp, Keeps-check_echo)

  pub Keeps-refused : Kept (check_guest_tcp_dial_refused env)
  unfolding check_guest_tcp_dial_refused
  Keeps-refused = search (Rules.keep_rules, Connects-tcp, Keeps-read)

  module _ (patience : ℕ) (ends : RecvEnds env patience) (room : ℕ → ℕ) where
    Keeps-read_all :
        (c : GuestConn) (got : Bytes)
        → Kept (on_trace (read_all_loop env (suc patience) room c got))
    Keeps-read_all c got =
        Rules.Keeps-on_trace _ (λ n. read_all-Held env p n c patience ends room got)

    pub Keeps-docker_version : Kept (check_docker_version env room (suc patience))
    unfolding check_docker_version ask_version
    Keeps-docker_version = search (Rules.keep_rules, Connects-docker, Keeps-write, Keeps-read_all)

  module _ (texts : Texts) (http : Http) (law : HttpKeeps env quiet p mgr sess http) where
    -- A success hands over a response whose body is open.
    record Asks (m : Io World Response) : Type 0 where
      at :
          (n : ℕ)
          → one p sess ≤ n
          → Triple
              (K env quiet p mgr sess h n)
              m
              (λ r. Has env quiet p mgr sess n r.body)
              (λ _. K env quiet p mgr sess h n)

    Asks-fetch : (q : Request) → Asks (fetch env http q)
    unfolding fetch
    Asks-fetch q = record { at = λ n j. law.exchange n _ q (Connects-docker.at n j) }

    Asks-wrap : (m : Message) (f : Io World Response) → Asks f → Asks (wrap_with m f)
    Asks-wrap m f k = record { at = λ n j. Triple-wrap m f (k.at n j) }

    -- A request and the end of its response.
    Keeps-asked :
        {A : Type 0} (m : Io World Response) (f : Response → Bytes → Io World A)
        → Asks m
        → ((r : Response) (b : Bytes) → Kept (f r b))
        → Kept (m >>= λ r. finish http r >>= f r)
    unfolding finish
    Keeps-asked m f k l = record {
      at = λ n j.
          Triple-bind _ _ (k.at n j) (λ r. Triple-bind _ _ (finished n r) (λ b. (l r b).at n j));
    }
      where
        finished :
            (n : ℕ) (r : Response)
            → Triple
                (Has env quiet p mgr sess n r.body)
                (http.read_body r >>= λ b. ignore (http.close_body r) >> return b.0)
                (λ _. K env quiet p mgr sess h n)
                (λ _. K env quiet p mgr sess h n)
        finished n r =
            Triple-bind _ _ (Triple-mono (law.read_body n r) (λ _ _ k. k) (λ _ _ k. absurd k)) (λ b.
              Triple-bind _ _ (Triple-ignore _ (law.close_body n r))
                (λ _. Triple-return b.0 (λ _ k. k)))

    Keeps-unless_ok : (status : ℕ) (m : Message) → Kept (unless_ok status m)
    unfolding unless_ok
    Keeps-unless_ok status m = search (Rules.keep_rules)

    Keeps-stop_container : Kept (stop_container env http)
    unfolding stop_container
    Keeps-stop_container = Keeps-asked _ _ (Asks-fetch _) (λ r b. Rules.Keeps-return tt)

    Keeps-start_test_image : Kept (start_test_image env texts http)
    unfolding start_test_image
    Keeps-start_test_image =
        search (Keeps-asked, Asks-wrap, Asks-fetch, Keeps-unless_ok, Rules.Keeps-bind) depth 16

    pub Keeps-tcp_dial : Kept (check_guest_tcp_dial env texts http)
    unfolding check_guest_tcp_dial
    Keeps-tcp_dial = search (
      Rules.Keeps-bind, Rules.Keeps-defer, Keeps-start_test_image, Keeps-dial_echo,
      Keeps-stop_container,
    )
