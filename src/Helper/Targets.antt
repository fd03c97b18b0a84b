-- ===== src/Helper/Targets.antt =====
-- bridge.c: the targets that `DialGuestUnix` and `DialGuestTCP` of session.go name.
use wslcsession.Base.{
  ℤ, pos, negsuc, false, lt→leb_false, ◌≡◌, ◌<◌, refl, ◌∙◌, sym, Bytes, codes, [], ◌∷◌, ◌++◌, some,
  none, Lacks, take, length, ◌==◌, arith,
}
use wslcsession.Base.Effects.{◌>>=◌}
use wslcsession.Demo.Streams.{starts_with}
use wslcsession.Helper.{
  enter, socket, af_unix, sock_stream, Kernel, last_colon, connect_target, connect_unix,
  connect_tcp, connect_host, after_unix_socket, resolve, path_size, host_size,
}

last_colon-none : (port : Bytes) → Lacks b':' port → last_colon port ≡ none
unfolding last_colon
last_colon-none [] h = refl
last_colon-none (c ∷ s) h = ground (arith, last_colon-none s h.1)

last_colon-append :
    (host port : Bytes) → Lacks b':' port → last_colon (host ++ b':' ∷ port) ≡ some (host, port)
unfolding last_colon
last_colon-append [] port h = ground (arith, last_colon-none port h)
last_colon-append (c ∷ host) port h = rw (last_colon-append host port h) refl

module _ (kernel : Kernel) where
  connect_target-tcp :
      (s : Bytes) → connect_target kernel (codes "tcp:" ++ s) ≡ connect_host kernel (last_colon s)
  unfolding connect_target connect_tcp starts_with
  connect_target-tcp s = refl

  connect_target-unix :
      (s : Bytes) → connect_target kernel (codes "unix:" ++ s) ≡ connect_unix kernel s
  unfolding connect_target starts_with
  connect_target-unix s = refl

  -- The helper that DialGuestTCP starts for a host and a port looks these up, if the port has no colon in
  -- it and the host has at least one and less than 256 bytes; colons in the host are kept.
  pub connect_target-resolve :
      (host port : Bytes)
      → 0 < length host
      → length host < host_size
      → Lacks b':' port
      → connect_target kernel (codes "tcp:" ++ host ++ b':' ∷ port) ≡ resolve kernel host port
  unfolding connect_host
  connect_target-resolve host port h k l =
      connect_target-tcp (host ++ b':' ∷ port)
      ∙ (let some_host : (length host == 0) ≡ false = ground arith in
          rw (last_colon-append host port l, some_host, lt→leb_false host_size (length host) k)
            refl)

  after_unix_socket-same :
      (path path' : Bytes) (n : ℤ)
      → take path_size path ≡ take path_size path'
      → after_unix_socket kernel path n ≡ after_unix_socket kernel path' n
  unfolding after_unix_socket
  after_unix_socket-same path path' (negsuc _) e = refl
  after_unix_socket-same path path' (pos sock) e = rw e refl

  connect_unix-same :
      (path path' : Bytes)
      → take path_size path ≡ take path_size path'
      → connect_unix kernel path ≡ connect_unix kernel path'
  unfolding connect_unix
  connect_unix-same path path' e i = enter kernel (socket af_unix sock_stream 0) >>= λ r.
      after_unix_socket-same path path' r.ret e i

  -- The helper connects to the first 107 bytes of the path that DialGuestUnix names: it cannot tell two
  -- paths apart that begin with the same 107 bytes.
  pub connect_target-truncates :
      (path path' : Bytes)
      → take path_size path ≡ take path_size path'
      → connect_target kernel (codes "unix:" ++ path)
        ≡ connect_target kernel (codes "unix:" ++ path')
  connect_target-truncates path path' e =
      connect_target-unix path ∙ connect_unix-same path path' e ∙ sym (connect_target-unix path')
