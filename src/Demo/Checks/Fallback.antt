-- ===== src/Demo/Checks/Fallback.antt =====
-- When the demo falls back to the check that needs no image.
use wslcsession.Base.{
  ◌/◌, ◌≡◌, refl, Bool, true, false, ◌||◌, Bytes, [], ◌∷◌, ◌++◌, Option, none, Error, done,
  wrap_with, arith, ◌==◌, codes, tcp_fallback_check, ignore,
}
use wslcsession.Base.Effects.{◌>>=◌}
use wslcsession.Com.Trace.{Env}
use wslcsession.Demo.Checks.{
  Http, Response, connect, post, fetch, finish, unless_ok, start_test_image, check_guest_tcp_dial,
  check_guest_tcp_dial_refused, or_refused,
}
use wslcsession.Demo.Reports.{Texts, error_text, message_text}
use wslcsession.Demo.Streams.{starts_with, contains_text}
use wslcsession.Session.{World, docker_conn}
use wslcsession.Strings.Decimal.{format_uint}

contains_text-append :
    (p s sub : Bytes) → contains_text s sub ≡ true → contains_text (p ++ s) sub ≡ true
unfolding contains_text
contains_text-append [] s sub h = h
contains_text-append (c ∷ p) s sub h =
    let k = contains_text-append p s sub h in
    or_true (starts_with (c ∷ (p ++ s)) sub) (contains_text (p ++ s) sub) k
  where
    or_true : (a b : Bool) → b ≡ true → (a || b) ≡ true
    or_true a b e = ground arith

-- If the request for the image is answered with a status that is not 2xx and a text that has
-- toomanyrequests in it, and the body can be read and closed, the demo runs the check that needs no image, and the result of that is the
-- result.
pub pull_limited :
    (env : Env) (texts : Texts) (http : Http) (w w1 w2 w3 : World) (r : Response) (b : Bytes)
    (x : Option Error)
    → http.exchange
        (connect (docker_conn env))
        (post (codes "http://localhost/images/create?fromImage=busybox&tag=1-musl") (codes "") none)
        w
      ≡ done r w1
    → http.read_body r w1 ≡ done (b, x) w2
    → ignore (http.close_body r) w2 ≡ done tt w3
    → (r.status / 100 == 2) ≡ false
    → contains_text b (codes "toomanyrequests") ≡ true
    → or_refused env texts http (check_guest_tcp_dial env texts http w)
      ≡ wrap_with tcp_fallback_check (check_guest_tcp_dial_refused env) w3
unfolding or_refused check_guest_tcp_dial start_test_image fetch finish unless_ok error_text
    message_text ◌>>=◌
pull_limited env texts http w w1 w2 w3 r b x asked read closed status limited =
    let sub = codes "toomanyrequests" in
    let in_text =
      contains_text-append (codes "pull image: HTTP " ++ format_uint r.status ++ codes ": ") b sub
        limited in
    rw asked (rw read (rw closed (rw status (rw in_text refl))))
