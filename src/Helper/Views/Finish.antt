-- ===== src/Helper/Views/Finish.antt =====
-- bridge.c, `main` as a whole: the connection, the relay over it and the end.
use wslcsession.Base.{ℕ, ◌≡◌, ◌⊎◌}
use wslcsession.Helper.Views.Connect.{Untouched}
use wslcsession.Helper.{History}
use wslcsession.Helper.Views.{view, IsFresh}
use wslcsession.Helper.Views.Relay.{Over}

-- What a run of `main` leaves: it gave up before anything was read, or it relayed over a socket. Every
-- socket is closed.
abbrev pub Left : ℕ → History → Type 0
Left status t =
    ((status ≡ 1) × Untouched 0 t)
    ⊎ ((status ≡ 0) × (sock : ℕ) × IsFresh sock × Over 0 (view sock t))
