-- ===== src/Com/HResult.antt =====
-- com.go, `hresultError`, `isHRESULT` and `hrErr`. An HRESULT is the low half of a machine word.
use wslcsession.Base.{
  ℕ, ◌%◌, ◌^◌, Bool, false, Option, none, some, Error, hresult, ltb, ◌==◌, if◌then◌else◌,
}

abbrev pub error_already_exists : ℕ
error_already_exists = 0x800700b7

abbrev pub rpc_too_late : ℕ
rpc_too_late = 0x80010119

unfoldable pub is_hresult : Error → ℕ → Bool
is_hresult (hresult bits) code = bits == code
is_hresult _ code = false

-- `int32(hr) >= 0` is a test of the sign bit.
unfoldable pub hr_err : ℕ → Option Error
hr_err hr = let v = hr % 2 ^ 32 in if ltb v (2 ^ 31) then none else some (hresult v)
