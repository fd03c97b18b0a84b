-- ===== src/Helper/Views/Connect.antt =====
-- bridge.c, `connect_unix` and `connect_tcp`: what they leave open.
use wslcsession.Base.{
  ℕ, zero, suc, ◌≡◌, refl, ◌∙◌, Bytes, List, [], ◌∷◌, Option, none, some, ℤ, pos, negsuc, Io,
  return, ne→==, codes, leb, take, drop, length, ◌==◌, ◌||◌,
}
use wslcsession.Base.Effects.{◌>>=◌}
use wslcsession.Base.Effects.Triple.{Triple, Triple-bind, Triple-return, Triple-if}
use wslcsession.Demo.Streams.{starts_with}
use wslcsession.Helper.{
  Syscall, socket, AddrInfo, connect_path, connect_addr, get_addr_info, close_fd, History, Kernel,
  Answer, enter, connect_unix, connect_tcp, connect_target, give_up, after_unix_connect,
  after_unix_socket, after_resolve, after_connect, after_socket, try_addresses, resolve, last_colon,
  connect_host, host_size, af_unix, sock_stream, path_size,
}
use wslcsession.Helper.Views.{View, new_view, note, view, more, IsFresh}

-- `socket` gives none of the standard streams.
abbrev pub SocketFresh : Kernel → Type 0
SocketFresh kernel = (t : History) (a b c n : ℕ) → (kernel t (socket a b c)).ret ≡ pos n → IsFresh n

-- Nothing was read, written or passed on, and so many sockets are open.
abbrev pub Untouched : ℕ → History → Type 0
Untouched held t =
    (s : ℕ) → (n : ℕ) × (view s t ≡ record new_view { opened = more held n; closed = n })

abbrev pub Connected : Option ℕ → History → Type 0
Connected none t = Untouched 0 t
Connected (some sock) t = IsFresh sock × Untouched 1 t

abbrev Opened : ℤ → History → Type 0
Opened (pos sock) t = IsFresh sock × Untouched 1 t
Opened (negsuc _) t = Untouched 0 t

pub note_close :
    (sock : ℕ) (s : ℕ) (a : Answer) (v : View)
    → IsFresh sock
    → note s (close_fd sock) a v ≡ record v { closed = suc v.closed }
note_close sock s a v f = rw (ne→== sock 1 f.1) refl

module _ (kernel : Kernel) (fresh : SocketFresh kernel) where
  give_up-Connected :
      (sock : ℕ) (next : Io History (Option ℕ))
      → IsFresh sock
      → Triple (Untouched 0) next Connected (λ _ _. ⊥)
      → Triple (Untouched 1) (give_up kernel sock next) Connected (λ _ _. ⊥)
  unfolding give_up enter ◌>>=◌
  give_up-Connected sock next f n = record {
    at = λ t u. n.at _ (λ s.
        let h = u s in
        (suc h.0, note_close sock s (kernel t (close_fd sock)) (view s t) f ∙ (rw h.1 refl)));
  }

  socket-Opened :
      (a b c : ℕ)
      → Triple (Untouched 0) (enter kernel (socket a b c)) (λ r. Opened r.ret) (λ _ _. ⊥)
  unfolding enter
  socket-Opened a b c = record { at = λ t u. go t (kernel t (socket a b c)) (fresh t a b c) u }
    where
      go :
          (t : History) (r : Answer)
          → ((n : ℕ) → r.ret ≡ pos n → IsFresh n)
          → Untouched 0 t
          → Opened r.ret (record { syscall = socket a b c; answer = r } ∷ t)
      go t r f u = split r.ret refl
        where
          split : (n : ℤ) → r.ret ≡ n → Opened n (record { syscall = socket a b c; answer = r } ∷ t)
          split (pos n) e = (f n e, λ s. let h = u s in (h.0, rw (e, h.1) refl))
          split (negsuc n) e = λ s. let h = u s in (h.0, rw (e, h.1) refl)

  connect-Untouched :
      (k : ℕ) (c : Syscall)
      → ((s : ℕ) (r : Answer) (v : View) → note s c r v ≡ v)
      → Triple (Untouched k) (enter kernel c) (λ _. Untouched k) (λ _ _. ⊥)
  unfolding enter
  connect-Untouched k c e = record { at = λ t u s. let h = u s in (h.0, e s _ _ ∙ h.1) }

  after_connect-Connected :
      (sock : ℕ) (n : ℤ) (next : Io History (Option ℕ))
      → IsFresh sock
      → Triple (Untouched 0) next Connected (λ _ _. ⊥)
      → Triple (Untouched 1) (after_connect kernel sock n next) Connected (λ _ _. ⊥)
  unfolding after_connect
  after_connect-Connected sock (pos zero) next f h = Triple-return (some sock) (λ _ u. (f, u))
  after_connect-Connected sock (pos (suc _)) next f h = give_up-Connected sock next f h
  after_connect-Connected sock (negsuc _) next f h = give_up-Connected sock next f h

  after_unix_connect-Connected :
      (sock : ℕ) (n : ℤ)
      → IsFresh sock
      → Triple (Untouched 1) (after_unix_connect kernel sock n) Connected (λ _ _. ⊥)
  unfolding after_unix_connect
  after_unix_connect-Connected sock (pos _) f = Triple-return (some sock) (λ _ u. (f, u))
  after_unix_connect-Connected sock (negsuc _) f =
      give_up-Connected sock (return none) f (Triple-return none (λ _ u. u))

  after_socket-Connected :
      (rp : AddrInfo) (n : ℤ) (next : Io History (Option ℕ))
      → Triple (Untouched 0) next Connected (λ _ _. ⊥)
      → Triple (Opened n) (after_socket kernel rp n next) Connected (λ _ _. ⊥)
  unfolding after_socket
  after_socket-Connected rp (negsuc _) next h = h
  after_socket-Connected rp (pos sock) next h = record {
    at = λ t o.
        (Triple-bind _ _ (connect-Untouched 1 (connect_addr sock rp) (λ _ _ _. refl))
            (λ r. after_connect-Connected sock r.ret next o.0 h)).at
          t o.1;
  }

  after_unix_socket-Connected :
      (path : Bytes) (n : ℤ)
      → Triple (Opened n) (after_unix_socket kernel path n) Connected (λ _ _. ⊥)
  unfolding after_unix_socket
  after_unix_socket-Connected path (negsuc _) = Triple-return none (λ _ u. u)
  after_unix_socket-Connected path (pos sock) = record {
    at = λ t o.
        (Triple-bind _ _
            (connect-Untouched 1 (connect_path sock (take path_size path)) (λ _ _ _. refl))
            (λ r. after_unix_connect-Connected sock r.ret o.0)).at
          t o.1;
  }

  try_addresses-Connected :
      (l : List AddrInfo) → Triple (Untouched 0) (try_addresses kernel l) Connected (λ _ _. ⊥)
  unfolding try_addresses
  try_addresses-Connected [] = Triple-return none (λ _ u. u)
  try_addresses-Connected (rp ∷ rest) =
      Triple-bind _ _ (socket-Opened rp.family rp.socktype rp.protocol)
        (λ r. after_socket-Connected rp r.ret _ (try_addresses-Connected rest))

  after_resolve-Connected :
      (n : ℤ) (l : List AddrInfo)
      → Triple (Untouched 0) (after_resolve kernel n l) Connected (λ _ _. ⊥)
  unfolding after_resolve
  after_resolve-Connected (pos zero) l = try_addresses-Connected l
  after_resolve-Connected (pos (suc _)) l = Triple-return none (λ _ u. u)
  after_resolve-Connected (negsuc _) l = Triple-return none (λ _ u. u)

  connect_host-Connected :
      (o : Option (Bytes × Bytes))
      → Triple (Untouched 0) (connect_host kernel o) Connected (λ _ _. ⊥)
  unfolding connect_host resolve
  connect_host-Connected none = Triple-return none (λ _ u. u)
  connect_host-Connected (some (host, port)) =
      Triple-if (length host == 0 || leb host_size (length host)) _ _
        (λ _. Triple-return none (λ _ u. u))
        (λ _.
          Triple-bind _ _ (connect-Untouched 0 (get_addr_info host port) (λ _ _ _. refl))
            (λ r. after_resolve-Connected r.ret r.addresses))

  -- A connection that succeeds leaves its socket open and no other, and one that fails leaves none.
  pub connect_target-Connected :
      (target : Bytes) → Triple (Untouched 0) (connect_target kernel target) Connected (λ _ _. ⊥)
  unfolding connect_target connect_unix connect_tcp
  connect_target-Connected target =
      Triple-if (starts_with target (codes "unix:")) _ _
        (λ _.
          Triple-bind _ _ (socket-Opened af_unix sock_stream 0)
            (λ r. after_unix_socket-Connected (drop 5 target) r.ret))
        (λ _.
          Triple-if (starts_with target (codes "tcp:")) _ _
            (λ _. connect_host-Connected (last_colon (drop 4 target)))
            (λ _. Triple-return none (λ _ u. u)))
