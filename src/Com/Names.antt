-- ===== src/Com/Names.antt =====
-- The name of a session on its way to the service and back.
use wslcsession.Base.{
  ℕ, zero, suc, ◌%◌, ◌^◌, ◌<◌, ◌≡◌, refl, ap, sym, ◌∙◌, List, [], ◌∷◌, ◌++◌, arith, ok, All, done,
  length, take,
}
use mathlib.Core.List.{append_assoc}
use wslcsession.Base.Effects.{◌>>=◌}
use wslcsession.Com.Abi.{slot_session_get_display_name}
use wslcsession.Com.Api.{session_name, get_display_name}
use wslcsession.Com.Runtime.{vtbl_call, check}
use wslcsession.Com.Trace.{Env, Trace, invoke, no_args}
use wslcsession.Options.{Options}
use wslcsession.Strings.Pointers.{utf16_ptr, utf16_to_string}
use wslcsession.Strings.Pointers.RoundTrip.{
  IsScalar, text, all_units, utf16_ptr-text, utf16_to_string-all_units,
}

take-append :
    (n y : ℕ) (xs ys : List ℕ)
    → length xs < n
    → (rest : List ℕ) × (take n (xs ++ y ∷ ys) ≡ xs ++ y ∷ rest)
take-append zero y xs ys h = absurd (omega arith)
take-append (suc n) y [] ys h = (take n ys, refl)
take-append (suc n) y (x ∷ xs) ys h =
    let (rest, e) = take-append n y xs ys (omega arith) in (rest, ap (λ l. x ∷ l) e)

name_back :
    (cs dn junk : List ℕ)
    → All IsScalar cs
    → length (all_units cs) < 256
    → utf16_ptr (text cs) ≡ ok dn
    → utf16_to_string (take 256 (dn ++ junk)) ≡ text cs
name_back cs dn junk h short e =
    let same : dn ≡ all_units cs ++ 0 ∷ [] = cc (e, utf16_ptr-text cs h) in
    let (rest, cut) = take-append 256 0 (all_units cs) junk short in
    ap (λ d. utf16_to_string (take 256 (d ++ junk))) same
    ∙ ap (λ d. utf16_to_string (take 256 d)) (append_assoc (all_units cs) (0 ∷ []) junk)
    ∙ ap utf16_to_string cut
    ∙ utf16_to_string-all_units cs rest h

-- The name that `CreateSession` sends, a text of code points that takes less than 256 units, comes back
-- from `GetDisplayName` when the service answers with the units that it was sent, whatever stands
-- behind them.
pub get_display_name-session_name :
    (env : Env) (sess : ℕ) (opts : Options) (cs dn junk : List ℕ) (t : Trace)
    → session_name env opts ≡ text cs
    → All IsScalar cs
    → length (all_units cs) < 256
    → utf16_ptr (session_name env opts) ≡ ok dn
    → let r = env.reply t (invoke sess slot_session_get_display_name no_args) in
      r.ret % 2 ^ 32 < 2 ^ 31
      → r.units ≡ dn ++ junk
      → get_display_name env sess t
        ≡ done
            (session_name env opts)
            (record { call = invoke sess slot_session_get_display_name no_args; reply = r } ∷ t)
unfolding get_display_name vtbl_call check ◌>>=◌
get_display_name-session_name env sess opts cs dn junk t name h short sent answered units =
    let back : utf16_to_string (take 256 (dn ++ junk)) ≡ session_name env opts =
      name_back cs dn junk h short (ap utf16_ptr (sym name) ∙ sent) ∙ sym name in
    ground (arith, units, back, answered)
