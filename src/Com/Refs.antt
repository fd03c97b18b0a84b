-- ===== src/Com/Refs.antt =====
-- Which COM references the program was given and gave back, counted in the history, and that it
-- uses an object only in between.
pub mod Balance
use wslcsession.Base.{true, ℕ, ◌+◌, ◌%◌, ◌^◌, ◌≡◌, Bool, ◌&&◌, [], ◌∷◌, ltb, ◌==◌, if◌then◌else◌}
use wslcsession.Com.Abi.{slot_release}
use wslcsession.Com.Trace.{
  Trace, Event, Reply, Call, co_create_instance, invoke, Args, settings, process,
}

-- 1 if `p` is the object.
abbrev pub one : ℕ → ℕ → ℕ
one p obj = if obj == p then 1 else 0

-- The reference that a successful call hands over.
abbrev pub handed : ℕ → Reply → ℕ
handed p r = if ltb (r.ret % 2 ^ 32) (2 ^ 31) then one p r.pointer else 0

abbrev gained_by : ℕ → Args → Reply → ℕ
gained_by p (settings _ _) r = handed p r
gained_by p (process _ _ _ _) r = handed p r
gained_by p _ r = 0

abbrev pub gained : ℕ → Call → Reply → ℕ
gained p (co_create_instance _ _ _) r = handed p r
gained p (invoke _ _ args) r = gained_by p args r
gained p _ r = 0

abbrev pub lost : ℕ → Call → ℕ
lost p (invoke obj slot _) = if slot == slot_release then one p obj else 0
lost p _ = 0

abbrev pub acquired : ℕ → Trace → ℕ
acquired p [] = 0
acquired p (e ∷ t) = acquired p t + gained p e.call e.reply

abbrev pub released : ℕ → Trace → ℕ
released p [] = 0
released p (e ∷ t) = released p t + lost p e.call

-- A method is called on `p` only while a reference to it is held: never before the object was
-- handed over, never behind the last release, and no release too many.
abbrev is_allowed : ℕ → Call → Trace → Bool
is_allowed p (invoke obj _ _) t = if obj == p then ltb (released p t) (acquired p t) else true
is_allowed p _ t = true

abbrev pub UsesHeld : ℕ → Trace → Type 0
UsesHeld p [] = Unit
UsesHeld p (e ∷ t) = (is_allowed p e.call t ≡ true) × UsesHeld p t

-- The program holds `n` references to `p`, and used it only while it held one.
abbrev pub Held : ℕ → ℕ → Trace → Type 0
Held p n t = (acquired p t ≡ released p t + n) × UsesHeld p t
