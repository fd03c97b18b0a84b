-- ===== src/Demo/Checks.antt =====
-- cmd/wslcdemo/demo.go: the checks that the demo runs in a session. What is printed, the pauses and
-- the flags' own parser are left out.
pub mod Conns
pub mod Version
pub mod Echo
pub mod Sessions
pub mod Fallback
pub mod Seen
pub mod Keeping
pub mod Rules
pub mod References
use wslcsession.Base.{
  ℕ, ◌/◌, Bool, Bytes, ◌++◌, Option, none, some, Error, Message, Io, return, raise, message,
  wrap_with, ignore, defer, ◌==◌, if◌then◌else◌, equal, codes, length, docker_conn_failed,
  write_request, read_response, unexpected_response, pull_image, pull_image_status, list_images,
  create_container, create_container_status, start_container, start_container_status,
  dial_guest_tcp_failed, write_failed, read_echo, echo_mismatch, new_session_failed,
  display_name_failed, docker_check, tcp_check, tcp_fallback_check, Run, done, fail, panic,
}
use wslcsession.Base.Effects.{◌>>=◌, ◌>>◌}
use wslcsession.Com.Trace.{Env, Trace}
use wslcsession.Conn.{GuestConn, new_guest_conn, read, close_conn}
use wslcsession.Demo.{SessionFlags, validate, to_options}
use wslcsession.Demo.Reports.{Texts, error_text}
use wslcsession.Demo.Streams.{contains_text, read_all_loop, read_full, write_text}
use wslcsession.Session.{
  Session, World, on_trace, docker_conn, dial_guest_tcp, display_name, new_session, close,
}

pub record Request : Type 0 where
  pub method : Bytes
  pub url : Bytes
  pub content_type : Bytes
  pub body : Option Bytes

-- The connection that the body is read from stays open until the body is closed.
pub record Response : Type 0 where
  pub status : ℕ
  pub body : GuestConn

-- `http.Client` with `DisableKeepAlives` and a function that dials; `io.ReadAll` and `io.Copy` of a
-- body, and its `Close`.
pub record Http : Type 0 where
  pub exchange : Io World GuestConn → Request → Io World Response
  pub read_body : Response → Io World (Bytes × Option Error)
  pub close_body : Response → Io World (Unit {0})

abbrev pub get : Bytes → Request
get url = record { method = codes "GET"; url = url; content_type = codes ""; body = none }

abbrev pub post : Bytes → Bytes → Option Bytes → Request
post url content_type body = record {
  method = codes "POST";
  url = url;
  content_type = content_type;
  body = body;
}

abbrev pub test_image : Bytes
test_image = codes "busybox:1-musl"

abbrev pub echo_text : Bytes
echo_text = codes "hello-from-wslcsession\n"

-- `createBody`
unfoldable pub create_body : Bytes → Bytes
create_body quoted =
    codes "{\n\t\t\"Image\": "
    ++ quoted
    ++ codes ",\n\t\t\"Cmd\": [\"nc\", \"-lk\", \"-p\", \"8765\", \"-e\", \"/bin/cat\"],"
    ++ codes "\n\t\t\"HostConfig\": {\"NetworkMode\": \"host\", \"AutoRemove\": true}\n\t}"

-- `if resp.StatusCode/100 != 2`
unfoldable pub unless_ok : ℕ → Message → Io World (Unit {0})
unless_ok status m = if status / 100 == 2 then return tt else raise (message m)

-- A session is a variable of the caller; nothing of the program outlives it but the history.
unfoldable pub in_session : {A : Type 0} → Session → Io World A → Io Trace A
in_session s m t = elim (m (record { session = s; trace = t })) [
  | done a w ↦ done a w.trace
  | fail e w ↦ fail e w.trace
  | panic ↦ panic
]

-- The `*guestConn` of a dial
unfoldable pub connect : Io World (Option ℕ × ℕ × ℕ) → Io World GuestConn
connect m = m >>= λ r. return (new_guest_conn r)

-- `body, _ := io.ReadAll(resp.Body)` and `_ = resp.Body.Close()`
unfoldable pub finish : Http → Response → Io World Bytes
finish http r = do body ← http.read_body r; ignore (http.close_body r); return body.0

module _ (env : Env) where
  -- The connection is closed however its use ends.
  unfoldable pub with_conn : {A : Type 0} → GuestConn → Io World A → Io World A
  with_conn c m = defer m (close_conn env c)

  unfoldable pub check_guest_tcp_dial_refused : Io World (Unit {0})
  check_guest_tcp_dial_refused = do
    c ← wrap_with dial_guest_tcp_failed (connect (dial_guest_tcp env (codes "127.0.0.1:1")))
    with_conn c (ignore (on_trace (read env c 64)))

  -- The end of `checkGuestTCPDial`: what is written comes back.
  unfoldable pub check_echo : GuestConn → Io World (Unit {0})
  check_echo c = do
    _ ← wrap_with write_failed (on_trace (write_text env c echo_text))
    buf ← wrap_with read_echo (on_trace (read_full env c (length echo_text)))
    if equal buf echo_text then return tt else raise (message (echo_mismatch buf echo_text))

  unfoldable pub dial_echo : Io World (Unit {0})
  dial_echo = do
    c ← wrap_with dial_guest_tcp_failed (connect (dial_guest_tcp env (codes "127.0.0.1:8765")))
    with_conn c (check_echo c)

  -- `room` is the free capacity of the buffer of `io.ReadAll`, and `patience` the fuel of its loop.
  module _ (room : ℕ → ℕ) (patience : ℕ) where
    -- Behind the dial of `checkDockerVersion`.
    unfoldable pub ask_version : GuestConn → Io World (Unit {0})
    ask_version c = do
      _ ←
          wrap_with write_request
            (on_trace (write_text env c (codes "GET /version HTTP/1.0\r\n\r\n")))
      body ← wrap_with read_response (on_trace (read_all_loop env patience room c (codes "")))
      if contains_text body (codes "200 OK")
          then return tt
          else raise (message (unexpected_response body))

    unfoldable pub check_docker_version : Io World (Unit {0})
    check_docker_version = do
      c ← wrap_with docker_conn_failed (connect (docker_conn env))
      with_conn c (ask_version c)

  module _ (http : Http) where
    unfoldable pub fetch : Request → Io World Response
    fetch q = http.exchange (connect (docker_conn env)) q

    unfoldable pub stop_container : Io World (Unit {0})
    stop_container = do
      r ←
          fetch (
            post (codes "http://localhost/containers/wslcsession-tcp-test/stop?t=1") (codes "")
              none)
      _ ← finish http r
      return tt

  module _ (texts : Texts) (http : Http) where
    unfoldable pub start_test_image : Io World (Unit {0})
    start_test_image = do
      pulled ← wrap_with pull_image (
          fetch http (
            post (codes "http://localhost/images/create?fromImage=busybox&tag=1-musl") (codes "")
              none))
      pull_text ← finish http pulled
      unless_ok pulled.status (pull_image_status pulled.status pull_text)
      images ← wrap_with list_images (fetch http (get (codes "http://localhost/images/json")))
      _ ← finish http images
      created ← wrap_with create_container (
          fetch http (
            post (codes "http://localhost/containers/create?name=wslcsession-tcp-test")
              (codes "application/json") (some (create_body (texts.quote test_image)))))
      create_text ← finish http created
      unless_ok created.status (create_container_status created.status create_text)
      started ← wrap_with start_container (
          fetch http
            (post (codes "http://localhost/containers/wslcsession-tcp-test/start") (codes "") none))
      _ ← finish http started
      unless_ok started.status (start_container_status started.status)

    unfoldable pub check_guest_tcp_dial : Io World (Unit {0})
    check_guest_tcp_dial = do start_test_image; defer dial_echo (stop_container http)

    -- What `runDemo` does with the result of `checkGuestTCPDial`.
    unfoldable pub or_refused : Run World (Unit {0}) → Run World (Unit {0})
    or_refused (done _ w) = done tt w
    or_refused (fail e w) =
        if contains_text (error_text texts e) (codes "toomanyrequests")
        then wrap_with tcp_fallback_check check_guest_tcp_dial_refused w
        else wrap_with tcp_check (raise e) w
    or_refused panic = panic

    module _ (room : ℕ → ℕ) (patience : ℕ) where
      unfoldable pub run_checks : Io World (Unit {0})
      run_checks = do
        _ ← wrap_with display_name_failed (display_name env)
        wrap_with docker_check (check_docker_version room patience)
        λ w. or_refused (check_guest_tcp_dial w)

      -- Behind `validate`.
      unfoldable pub run_session : SessionFlags → Io Trace (Unit {0})
      run_session sf = do
        s ← wrap_with new_session_failed (new_session env (to_options sf))
        in_session s (defer run_checks (close env))

      unfoldable pub run_demo : SessionFlags → Io Trace (Unit {0})
      run_demo sf = elim (validate sf) [ some e ↦ raise e | none ↦ run_session sf ]
