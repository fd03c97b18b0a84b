-- ===== src/Session/Processes.antt =====
-- The references to processes of the guest that `dial` takes.
use wslcsession.Base.{
  ℕ, ◌+◌, ◌≢◌, ◌≡◌, ◌≤◌, true, Bytes, [], ◌∷◌, ◌++◌, Option, none, some, arith, Io, Ends, Error,
  spawn_bridge, codes,
}
use wslcsession.Base.Effects.{◌>>=◌}
use wslcsession.Base.Effects.Triple.{
  Triple, Triple-return, Triple-bind, Triple-on_error, Triple-wrap, Triple-mono,
}
use wslcsession.Bridge.{guest_bridge_mount_path}
use wslcsession.Com.Abi.{fd_stdin, fd_stdout}
use wslcsession.Com.Refs.{one, Held}
use wslcsession.Com.Refs.Balance
use wslcsession.Com.Trace.{Env, Trace}
use wslcsession.Session.{
  Session, World, do_request, set_mounted, mount_now, mount_bridge, ensure_bridge_mounted, shell,
  spawn, std_handles, release_process, dial,
}
use wslcsession.Session.Dial.{IsQuiet, IsOpen, do_request_open}
use wslcsession.Session.Rules.{Triple-on_trace, Triple-accept}

module _ (env : Env) (quiet : IsQuiet env) where
  pub Triple-do_request :
      {A : Type 0} {P : World → Type 0} {Q : A → World → Type 0} {E : Error → World → Type 0}
      (zero_value : A) (f : Io World A)
      → ((w : World) → P w → IsOpen w.session)
      → Triple P f Q E
      → Triple P (do_request env zero_value f) Q E
  Triple-do_request zero_value f o h = record {
    at = λ w p. rw (do_request_open env zero_value f w quiet (o w p)) (h.at w p);
  }

  module _ (p mgr sess : ℕ) where
    -- The session is open, and its objects are `mgr` and `sess`.
    abbrev pub IsOpenOn : Session → Type 0
    IsOpenOn s = IsOpen s × (s.mgr ≡ mgr) × (s.sess ≡ sess)

    -- The session is open and `n` references to `p` are held, which was used only while one was.
    abbrev pub Keep : ℕ → World → Type 0
    Keep n w = IsOpenOn w.session × Held p n w.trace

    held : {n other : ℕ} → other ≡ sess → one p sess ≤ n → one p other ≤ n
    held e k = rw e k

    set_mounted-Keep : (n : ℕ) → Triple (Keep n) set_mounted (λ _. Keep n) (λ _. Keep n)
    unfolding set_mounted ◌>>=◌
    set_mounted-Keep n = record { at = λ w (o, h). ((ground (arith, o.0), o.1, o.2), h) }

    mount_now-Keep :
        (n : ℕ) → one p sess ≤ n → Triple (Keep n) (mount_now env) (λ _. Keep n) (λ _. Keep n)
    unfolding mount_now
    mount_now-Keep n k = record {
      at = λ w h.
          (Triple-bind _ _ (Triple-on_trace IsOpenOn _ (Balance.extract_bridge_binary-Held env p n))
              (λ dir.
                Triple-bind _ _
                  (Triple-accept _ (
                    Triple-on_trace IsOpenOn _ (
                      Balance.mount_windows_folder-Held env p n w.session.sess dir
                        guest_bridge_mount_path true (held h.0.2 k))))
                  (λ _. set_mounted-Keep n))).at
            w h;
    }

    mount_bridge-Keep :
        (n : ℕ) → one p sess ≤ n → Triple (Keep n) (mount_bridge env) (λ _. Keep n) (λ _. Keep n)
    unfolding mount_bridge ◌>>=◌
    mount_bridge-Keep n k = record { at = λ w h. ground (arith, (mount_now-Keep n k).at w h) }

    ensure_bridge_mounted-Keep :
        (n : ℕ)
        → one p sess ≤ n
        → Triple (Keep n) (ensure_bridge_mounted env) (λ _. Keep n) (λ _. Keep n)
    unfolding ensure_bridge_mounted
    ensure_bridge_mounted-Keep n k = Triple-do_request [] _ (λ w o. o.0.0) (mount_bridge-Keep n k)

    -- The reference that a connection holds.
    abbrev pub holds : Option ℕ → ℕ
    holds none = 0
    holds (some q) = one p q

    -- The same with a process that a connection is to have.
    abbrev pub KeepProcess : ℕ → Option ℕ → World → Type 0
    KeepProcess n none w = ⊥
    KeepProcess n (some q) w = Keep (n + one p q) w

    spawn-Keep :
        (n : ℕ) (script target : Bytes)
        → one p sess ≤ n
        → Triple (Keep n) (spawn env script target) (KeepProcess n) (λ _. Keep n)
    unfolding spawn
    spawn-Keep n script target k = record {
      at = λ w h.
          (Triple-mono
              (Triple-on_trace IsOpenOn _ (
                Triple-bind {R = SomeHeld} _ _
                  (Balance.create_root_namespace_process-Held env p n w.session.sess shell
                    (shell ∷ script ∷ target ∷ []) true (held h.0.2 k))
                  (λ q. Triple-return (some q) (λ _ k. k))))
              opened (λ _ _ k. k)).at
            w h;
    }
      where
        SomeHeld : Option ℕ → Trace → Type 0
        SomeHeld none t = ⊥
        SomeHeld (some q) t = Held p (n + one p q) t

        opened :
            (o : Option ℕ) (w : World) → IsOpenOn w.session × SomeHeld o w.trace → KeepProcess n o w
        opened none w (_, k) = k
        opened (some q) w k = k

    std_handles-Keep :
        (n : ℕ) (o : Option ℕ)
        → Triple (KeepProcess n o) (std_handles env o) (λ _. KeepProcess n o) (λ _. KeepProcess n o)
    unfolding std_handles
    std_handles-Keep n none = record { at = λ w k. absurd k }
    std_handles-Keep n (some q) = Triple-on_trace IsOpenOn _ (
        Triple-bind _ _ (Balance.get_std_handle-Held env p _ q fd_stdin (omega arith)) (λ i.
          Triple-bind _ _ (Balance.get_std_handle-Held env p _ q fd_stdout (omega arith))
            (λ o. Triple-return (i, o) (λ _ k. k))))

    pub release_process-Keep :
        {E : Error → World → Type 0} (n : ℕ) (o : Option ℕ)
        → p ≢ 0
        → Triple (KeepProcess n o) (release_process env o) (λ _. Keep n) E
    unfolding release_process
    release_process-Keep n none h = record { at = λ w k. absurd k }
    release_process-Keep n (some q) h =
        Triple-mono
          (Triple-do_request tt _ (λ w k. k.0.0)
            (Triple-on_trace {E = λ _ _. ⊥} IsOpenOn _ (Balance.com_release-Held env p n q h)))
          (λ _ _ k. k) (λ _ _ k. absurd k.1)

    pub dial-Triple :
        (n : ℕ) (target : Bytes)
        → p ≢ 0
        → one p sess ≤ n
        → Triple (Keep n) (dial env target) (λ r. KeepProcess n r.0) (λ _. Keep n)
    unfolding dial
    dial-Triple n target h j = Triple-bind _ _ (ensure_bridge_mounted-Keep n j) (λ dir.
        Triple-bind _ _
          (Triple-wrap (spawn_bridge target) _ (
            Triple-do_request none _ (λ w k. k.0.0)
              (spawn-Keep n (dir ++ codes "/entrypoint.sh") target j)))
          (λ o.
            Triple-bind _ _
              (Triple-on_error _ _ (Triple-do_request (0, 0) _ (opened o) (std_handles-Keep n o))
                (λ _. release_process-Keep n o h))
              (λ hs. Triple-return (o, hs.0, hs.1) (λ _ k. k))))
      where
        opened : (o : Option ℕ) (w : World) → KeepProcess n o w → IsOpen w.session
        opened none w k = absurd k
        opened (some q) w k = k.0.0

    -- Dialling on an open session that nobody closes takes a reference to one process, which the
    -- connection keeps. If anything fails behind the start of the process, it is given back. No object
    -- is used without a reference, if the one to the session is held. The session stays open, and there
    -- is no panic.
    pub dial-Keep :
        (n : ℕ) (target : Bytes) (w : World)
        → p ≢ 0
        → one p sess ≤ n
        → w.session.mgr ≡ mgr
        → w.session.sess ≡ sess
        → IsOpen w.session
        → Held p n w.trace
        → Ends (dial env target w) (λ r. KeepProcess n r.0) (λ _. Keep n)
    dial-Keep n target w h j m e o k = (dial-Triple n target h j).at w ((o, m, e), k)
