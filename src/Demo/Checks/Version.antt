-- ===== src/Demo/Checks/Version.antt =====
-- What the check of dockerd's version has sent and received when it passes.
use mathlib.Core.List.{append-nil}
use wslcsession.Base.{
  ℕ, suc, ◌≡◌, refl, true, Bytes, [], ◌++◌, arith, Ends, if◌then◌else◌, codes, message,
  write_request, read_response, unexpected_response,
}
use wslcsession.Base.Effects.{return, raise}
use wslcsession.Base.Effects.Triple.{Triple, Triple-bind, Triple-if, Triple-return, Triple-raise}
use wslcsession.Com.Trace.{Env, Trace}
use wslcsession.Conn.{GuestConn}
use wslcsession.Conn.Read.{RecvObeys}
use wslcsession.Conn.Write.{delivered, SendObeys}
use wslcsession.Demo.Checks.{ask_version}
use wslcsession.Demo.Checks.Conns.{RecvEnds}
use wslcsession.Demo.Streams.{read_all_loop, contains_text}
use wslcsession.Session.{World}
use wslcsession.Demo.Checks.Seen.{traced, arrived, Seen, write_text-Seen, read_all_loop-Seen}

-- If send and recv obey and recv gives nothing more after so many calls, the check of dockerd's
-- version ends, without a panic. If it passes, it has sent the request and nothing else, and the bytes
-- that have arrived since contain 200 OK.
pub ask_version_lem :
    (env : Env) (room : ℕ → ℕ) (patience : ℕ) (c : GuestConn) (w : World)
    → SendObeys env
    → RecvObeys env
    → RecvEnds env patience
    → Ends
        (ask_version env room (suc patience) c w)
        (λ _ w'.
          (delivered c.stdin w'.trace
            ≡ delivered c.stdin w.trace ++ codes "GET /version HTTP/1.0\r\n\r\n")
          × (b : Bytes) × (arrived c.stdout w'.trace ≡ arrived c.stdout w.trace ++ b)
          × (contains_text b (codes "200 OK") ≡ true))
        (λ _ _. Unit)
unfolding ask_version
ask_version_lem env room patience c w sends receives ends =
    (Triple-bind _ _ (traced write_request _ (write_text-Seen env c sends d a request))
        (λ _. Triple-bind _ _ (traced read_response _ (record { at = answered })) judged)).at
      w (refl, refl)
  where
    d : Bytes
    d = delivered c.stdin w.trace

    a : Bytes
    a = arrived c.stdout w.trace

    request : Bytes
    request = codes "GET /version HTTP/1.0\r\n\r\n"

    answered :
        (t : Trace)
        → Seen env c (d ++ request) a t
        → Ends
            (read_all_loop env (suc patience) room c [] t)
            (λ b. Seen env c (d ++ request) (a ++ b))
            (λ _ _. Unit {0})
    answered t k =
        read_all_loop-Seen env c receives patience ends room (d ++ request) a patience [] t
          (omega arith) (rw append-nil k)

    judged :
        (b : Bytes)
        → Triple {A = Unit {0}}
            (λ (v : World). Seen env c (d ++ request) (a ++ b) v.trace)
            (if contains_text b (codes "200 OK")
              then return tt
              else raise (message (unexpected_response b)))
            (λ _ (w' : World).
              (delivered c.stdin w'.trace ≡ d ++ request)
              × (b : Bytes) × (arrived c.stdout w'.trace ≡ a ++ b)
              × (contains_text b (codes "200 OK") ≡ true))
            (λ _ _. Unit {0})
    judged b =
        Triple-if _ _ _ (λ e. Triple-return tt (λ v k. (k.0, b, k.1, e)))
          (λ _. Triple-raise _ (λ _ _. tt))
