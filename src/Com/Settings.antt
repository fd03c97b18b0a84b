-- ===== src/Com/Settings.antt =====
-- The numbers that the requests of comapi.go carry, and HRESULTs.
use wslcsession.Base.{
  ℕ, ◌+◌, ◌*◌, ◌%◌, ◌^◌, ◌≤◌, ◌<◌, ◌≡◌, ◌≢◌, ◌⊎◌, refl, pos, Bool, false, Bytes, List, [], ◌∷◌,
  ◌++◌, Option, none, some, arith, ok, ◌==◌, Error,
}
use wslcsession.Com.Api.{size_bytes, boot_timeout_ms, or_default, session_settings, volume_request}
use wslcsession.Com.Abi.{VolumeRequest}
use wslcsession.Com.HResult.{hr_err, is_hresult}
use wslcsession.Options.{Options, VolumeOptions}
use wslcsession.Strings.Decimal.{format_uint, parse_uint, parse_uint-format_uint}

-- A positive boot timeout below 2^32 milliseconds is sent in whole milliseconds, rounded down.
pub boot_timeout_ms_bounds :
    (n : ℕ)
    → 0 < n
    → n < 1000000 * 2 ^ 32
    → (boot_timeout_ms (pos n) * 1000000 ≤ n) × (n < boot_timeout_ms (pos n) * 1000000 + 1000000)
unfolding boot_timeout_ms
boot_timeout_ms_bounds n h k = ground arith

-- The service is never asked for no processor or no memory: a number that is not zero is passed on,
-- and zero stands for 2 processors and 2048 MB.
pub session_settings_numbers :
    (opts : Options) (dn : List ℕ) (sp : Option (List ℕ))
    → let s = session_settings opts dn sp in
      (((s.cpu_count ≡ opts.cpu_count) × (opts.cpu_count ≢ 0))
        ⊎ ((s.cpu_count ≡ 2) × (opts.cpu_count ≡ 0)))
      × (((s.memory_mb ≡ opts.memory_mb) × (opts.memory_mb ≢ 0))
          ⊎ ((s.memory_mb ≡ 2048) × (opts.memory_mb ≡ 0)))
unfolding session_settings or_default
session_settings_numbers opts dn sp = ground arith

size_bytes_small : (mb : ℕ) → mb < 2 ^ 44 → size_bytes mb ≡ mb * 2 ^ 20
unfolding size_bytes
size_bytes_small mb h = omega arith

size_bytes_multiple : (mb k : ℕ) → mb ≡ k * 2 ^ 44 → size_bytes mb ≡ 0
unfolding size_bytes
size_bytes_multiple mb k h = omega arith

-- The number of a driver option that the service reads from the request for a volume.
abbrev pub first_option : VolumeRequest → Bytes
first_option r = elim r.driver_opts [ [] ↦ [] | o ∷ _ ↦ o.value ]

-- The size that a request carries is the decimal print of the size in bytes, and reads back as the
-- megabytes times 2^20, as long as these are below 2^44.
pub size_bytes_exact :
    (v : VolumeOptions) (name driver : Bytes)
    → v.size_mb < 2 ^ 44
    → (s : Bytes) × (first_option (volume_request v name driver) ≡ s ++ 0 ∷ [])
      × (parse_uint s ≡ ok (v.size_mb * 2 ^ 20))
unfolding volume_request
size_bytes_exact v name driver h = (
  format_uint (size_bytes v.size_mb),
  refl,
  rw (size_bytes_small v.size_mb h) (parse_uint-format_uint _ (omega arith)),
)

format_zero : format_uint 0 ++ 0 ∷ [] ≡ b'0' ∷ 0 ∷ []
unfolding format_uint
format_zero = refl

-- The megabytes wrap at 2^44: the request for any multiple of it carries the size 0.
pub size_bytes_wraps :
    (v : VolumeOptions) (name driver : Bytes) (k : ℕ)
    → v.size_mb ≡ k * 2 ^ 44
    → first_option (volume_request v name driver) ≡ b'0' ∷ 0 ∷ []
unfolding volume_request
size_bytes_wraps v name driver k h = rw (size_bytes_multiple v.size_mb k h) format_zero

-- The error of an HRESULT, if any, is the one for a code that the program looks for.
abbrev pub is_error_of : Option Error → ℕ → Bool
is_error_of none code = false
is_error_of (some e) code = is_hresult e code

-- `isHRESULT` finds a failure code in the error of a call exactly if the low half of what the call
-- returned is the code.
pub hr_err-is_hresult :
    (hr code : ℕ) → 2 ^ 31 ≤ code → is_error_of (hr_err hr) code ≡ (hr % 2 ^ 32 == code)
unfolding hr_err is_hresult
hr_err-is_hresult hr code h = ground arith
