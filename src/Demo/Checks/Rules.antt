-- ===== src/Demo/Checks/Rules.antt =====
-- What is held while a session is open, with and without a connection, and how actions keep it.
use wslcsession.Base.{
  Bool, ℕ, ◌+◌, ◌≡◌, ◌≢◌, ◌≤◌, refl, true, false, Bytes, Option, none, some, Io, Ends, Error,
  Message, return, raise, wrap_with, ignore, defer, if◌then◌else◌, arith,
}
use wslcsession.Base.Effects.{◌>>=◌}
use wslcsession.Base.Effects.Triple.{
  Triple, Triple-return, Triple-raise, Triple-bind, Triple-mono, Triple-wrap, Triple-ignore,
  Triple-defer,
}
use wslcsession.Com.Refs.{one, Held}
use wslcsession.Com.Trace.{Env, Trace}
use wslcsession.Conn.{GuestConn, new_guest_conn, close_conn}
use wslcsession.Conn.References.{close_conn-Keep}
use wslcsession.Demo.Checks.{Request, Response, Http, connect, with_conn}
use wslcsession.Session.{World, on_trace, dial}
use wslcsession.Session.Dial.{IsQuiet}
use wslcsession.Session.Processes.{IsOpenOn, Keep, KeepProcess, dial-Triple}
use wslcsession.Session.Rules.{Triple-on_trace}

module _ (env : Env) (quiet : IsQuiet env) (p mgr sess : ℕ) where
  -- The same references with the one of an open connection.
  abbrev pub Has : ℕ → GuestConn → World → Type 0
  Has n c w =
      (q : ℕ) × (c.process ≡ some q)
      × (c.closed ≡ false)
      × Keep env quiet p mgr sess (n + one p q) w

  -- What the documentation of net/http says of a client without keep-alives: a request that succeeds
  -- has dialled once, its response is read without an effect on others, and closing the body closes
  -- the connection; a request that fails leaves no connection open.
  pub record HttpKeeps (http : Http) : Type 0 where
    pub exchange :
        (n : ℕ) (d : Io World GuestConn) (q : Request)
        → Triple (Keep env quiet p mgr sess n) d (Has n) (λ _. Keep env quiet p mgr sess n)
        → Triple
            (Keep env quiet p mgr sess n)
            (http.exchange d q)
            (λ r. Has n r.body)
            (λ _. Keep env quiet p mgr sess n)
    pub read_body :
        (n : ℕ) (r : Response)
        → Triple (Has n r.body) (http.read_body r) (λ _. Has n r.body) (λ _ _. ⊥)
    pub close_body :
        (n : ℕ) (r : Response)
        → Triple
            (Has n r.body)
            (http.close_body r)
            (λ _. Keep env quiet p mgr sess n)
            (λ _. Keep env quiet p mgr sess n)

  module _ (h : p ≢ 0) where
    abbrev pub K : ℕ → World → Type 0
    K n = Keep env quiet p mgr sess n

    -- Neither outcome of an action changes what is held, if the session is held.
    pub record Keeps {A : Type 0} (m : Io World A) : Type 0 where
      pub at : (n : ℕ) → one p sess ≤ n → Triple (K n) m (λ _. K n) (λ _. K n)

    -- A success hands over a connection.
    pub record Connects (m : Io World GuestConn) : Type 0 where
      pub at : (n : ℕ) → one p sess ≤ n → Triple (K n) m (Has n) (λ _. K n)

    -- The `Close` of a connection, in `defer`.
    pub close_conn-Triple :
        (n q : ℕ) (c : GuestConn)
        → c.process ≡ some q
        → c.closed ≡ false
        → Triple (K (n + one p q)) (close_conn env c) (λ _. K n) (λ _. K n)
    close_conn-Triple n q c has fresh =
        Triple-mono
          (record { at = λ w held. close_conn-Keep env quiet p mgr sess n c q w h fresh has held })
          (λ _ _ k. k) (λ _ _ k. absurd k)

module _ {env : Env} {quiet : IsQuiet env} {p mgr sess : ℕ} {h : p ≢ 0} where
  module _ {A : Type 0} where
    pub Keeps-return : (a : A) → Keeps env quiet p mgr sess h (return a)
    Keeps-return a = record { at = λ n j. Triple-return a (λ _ k. k) }

    pub Keeps-raise : (e : Error) → Keeps env quiet p mgr sess h (raise {A = A} e)
    Keeps-raise e = record { at = λ n j. Triple-raise e (λ _ k. k) }

    pub Keeps-wrap :
        (m : Message) (f : Io World A)
        → Keeps env quiet p mgr sess h f
        → Keeps env quiet p mgr sess h (wrap_with m f)
    Keeps-wrap m f k = record { at = λ n j. Triple-wrap m f (k.at n j) }

    pub Keeps-ignore :
        (f : Io World A) → Keeps env quiet p mgr sess h f → Keeps env quiet p mgr sess h (ignore f)
    Keeps-ignore f k = record { at = λ n j. Triple-ignore f (k.at n j) }

    pub Keeps-if :
        (b : Bool) (m f : Io World A)
        → Keeps env quiet p mgr sess h m
        → Keeps env quiet p mgr sess h f
        → Keeps env quiet p mgr sess h (if b then m else f)
    Keeps-if true m f k l = k
    Keeps-if false m f k l = l

    pub Keeps-on_trace :
        (m : Io Trace A)
        → ((n : ℕ) → Triple (Held p n) m (λ _. Held p n) (λ _. Held p n))
        → Keeps env quiet p mgr sess h (on_trace m)
    Keeps-on_trace m k = record {
      at = λ n j. Triple-on_trace (IsOpenOn env quiet p mgr sess) m (k n);
    }

    -- The connection that a use is given is closed behind it.
    pub Keeps-with_conn :
        (m : Io World GuestConn) (f : GuestConn → Io World A)
        → Connects env quiet p mgr sess h m
        → ((c : GuestConn) → Keeps env quiet p mgr sess h (f c))
        → Keeps env quiet p mgr sess h (m >>= λ c. with_conn env c (f c))
    unfolding with_conn
    Keeps-with_conn m f k l = record { at = λ n j. Triple-bind _ _ (k.at n j) (λ c. used n c j) }
      where
        used :
            (n : ℕ) (c : GuestConn)
            → one p sess ≤ n
            → Triple
                (Has env quiet p mgr sess n c)
                (defer (f c) (close_conn env c))
                (λ _. K env quiet p mgr sess h n)
                (λ _. K env quiet p mgr sess h n)
        used n c j = record {
          at = λ w (q, has, fresh, held).
              (Triple-defer _ _ ((l c).at (n + one p q) (omega arith))
                  (λ _. close_conn-Triple env quiet p mgr sess h n q c has fresh)
                  (λ _. close_conn-Triple env quiet p mgr sess h n q c has fresh)).at
                w held;
        }

  module _ {A B : Type 0} where
    pub Keeps-bind :
        (m : Io World A) (f : A → Io World B)
        → Keeps env quiet p mgr sess h m
        → ((a : A) → Keeps env quiet p mgr sess h (f a))
        → Keeps env quiet p mgr sess h (m >>= f)
    Keeps-bind m f k l = record { at = λ n j. Triple-bind _ _ (k.at n j) (λ a. (l a).at n j) }

    pub Keeps-defer :
        (m : Io World A) (f : Io World B)
        → Keeps env quiet p mgr sess h m
        → Keeps env quiet p mgr sess h f
        → Keeps env quiet p mgr sess h (defer m f)
    Keeps-defer m f k l = record {
      at = λ n j. Triple-defer _ _ (k.at n j) (λ _. l.at n j) (λ _. l.at n j);
    }

  pub Connects-wrap :
      (m : Message) (f : Io World GuestConn)
      → Connects env quiet p mgr sess h f
      → Connects env quiet p mgr sess h (wrap_with m f)
  Connects-wrap m f k = record { at = λ n j. Triple-wrap m f (k.at n j) }

  pub Connects-dial : (target : Bytes) → Connects env quiet p mgr sess h (connect (dial env target))
  unfolding connect new_guest_conn
  Connects-dial target = record {
    at = λ n j.
        Triple-bind _ _ (dial-Triple env quiet p mgr sess n target h j)
          (λ (o, i, r). record { at = λ w k. connected n o i r w k });
  }
    where
      connected :
          (n : ℕ) (o : Option ℕ) (i r : ℕ) (w : World)
          → KeepProcess env quiet p mgr sess n o w
          → Ends
              (return (new_guest_conn (o, i, r)) w)
              (Has env quiet p mgr sess n)
              (λ _. K env quiet p mgr sess h n)
      connected n none i r w k = absurd k
      connected n (some q) i r w k =
          let c = new_guest_conn (some q, i, r) in
          (Triple-return {P = Has env quiet p mgr sess n c} {E = λ _. K env quiet p mgr sess h n} c
              (λ _ k. k)).at
            w (q, refl, refl, k)

pub ruleset keep_rules = (
  Keeps-return, Keeps-raise, Keeps-wrap, Keeps-ignore, Keeps-if, Keeps-bind, Keeps-defer,
  Keeps-with_conn, Connects-wrap,
)
