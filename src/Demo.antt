-- ===== src/Demo.antt =====
-- cmd/wslcdemo: the `-volume` flag, the flags of a session and what they become.
pub mod Laws
pub mod Reports
pub mod Streams
pub mod Checks
pub mod Proxy
pub mod Server
use wslcsession.Base.{
  map, ℕ, ◌%◌, ◌^◌, ◌-◌, ℤ, pos, Bool, true, false, Bytes, List, [], ◌∷◌, ◌++◌, Option, none, some,
  Result, ok, err, Error, message, wrap, invalid_volume, invalid_volume_size, invalid_volume_fixed,
  volume_requires_storage_path, if◌then◌else◌, equal, leb, length, take, codes,
}
use wslcsession.Options.{Options, VolumeOptions}
use wslcsession.Strings.Decimal.{parse_uint, parse_bool, format_uint, format_bool}
use wslcsession.Strings.Parts.{split, join}

-- `truncate`
unfoldable pub truncate : Bytes → ℕ → Bytes
truncate s n = if leb (length s) n then s else take n s ++ codes "...(truncated)"

abbrev pub VolumeFlag : Type 0
VolumeFlag = List VolumeOptions

-- `%v` of a `VolumeOptions`
volume_text : VolumeOptions → Bytes
volume_text o =
    codes "{"
    ++ o.name
    ++ codes " "
    ++ format_uint o.size_mb
    ++ codes " "
    ++ format_bool o.fixed
    ++ codes "}"

-- `volumeFlag.String`
unfoldable pub flag_text : VolumeFlag → Bytes
unfolding volume_text
flag_text v = codes "[" ++ join (map volume_text v) b' ' ++ codes "]"

parse_fixed : Bytes → List Bytes → Result Bool
parse_fixed s [] = ok false
parse_fixed s (f ∷ _) = elim (parse_bool f) [
  | ok b ↦ ok b
  | err e ↦ err (wrap (invalid_volume_fixed s) e)
]

parse_volume : Bytes → List Bytes → Result VolumeOptions
unfolding parse_fixed
parse_volume s [] = err (message (invalid_volume s))
parse_volume s (_ ∷ []) = err (message (invalid_volume s))
parse_volume s (name ∷ size ∷ more) = elim (parse_uint size) [
  | ok n ↦ elim (parse_fixed s more) [
    | ok b ↦ ok (record { name = name; size_mb = n; fixed = b })
    | err e ↦ err e
  ]
  | err e ↦ err (wrap (invalid_volume_size s) e)
]

-- `volumeFlag.Set`: the flag and the error; an error leaves the flag alone.
unfoldable pub set : VolumeFlag → Bytes → VolumeFlag × Option Error
unfolding parse_volume
set v s = elim (parse_volume s (split s b':')) [ ok o ↦ (v ++ o ∷ [], none) | err e ↦ (v, some e) ]

-- `sessionFlags`; a `uint` of Go has 64 bits.
pub record SessionFlags : Type 0 where
  pub name : Bytes
  pub cpu_count : ℕ
  pub memory_mb : ℕ
  pub storage_path : Bytes
  pub storage_size_mb : ℕ
  pub volumes : VolumeFlag

-- The values before the command line is read (`addSessionFlags`).
unfoldable pub default_flags : Bytes → SessionFlags
default_flags name = record {
  name = name;
  cpu_count = 2;
  memory_mb = 2048;
  storage_path = [];
  storage_size_mb = 65536;
  volumes = [];
}

unfoldable pub validate : SessionFlags → Option Error
validate sf = elim sf.volumes [
  | [] ↦ none
  | _ ∷ _ ↦ if equal sf.storage_path [] then some (message volume_requires_storage_path) else none
]

unfoldable pub to_options : SessionFlags → Options
to_options sf = record {
  display_name = sf.name;
  cpu_count = sf.cpu_count % 2 ^ 32;
  memory_mb = sf.memory_mb % 2 ^ 32;
  boot_timeout = pos 0;
  storage_path = sf.storage_path;
  max_storage_size_mb = sf.storage_size_mb;
  volumes = sf.volumes;
}
