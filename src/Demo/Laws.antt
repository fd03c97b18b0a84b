-- ===== src/Demo/Laws.antt =====
-- What the `-volume` flag accepts, and that the check of the flags is the one of `NewSession`.
use wslcsession.Base.{
  ◌<◌, ◌^◌, ◌≡◌, ◌≢◌, ◌⊎◌, sym, refl, true, false, Bytes, List, [], ◌∷◌, ◌++◌, none, Result, ok,
  err, arith, All, length, Lacks,
}
use wslcsession.Options.{VolumeOptions}
use wslcsession.Strings.Decimal.{
  format_uint, format_bool, parse_uint, parse_uint-format_uint, parse_bool-format_bool,
  format_uint-Lacks, format_bool-Lacks, parse_uint-spelled, spelled, IsDigit,
}
use wslcsession.Strings.Parts.{split, join, split-join, join-split, split-Lacks}
use wslcsession.Session.{needs_storage_path}
use wslcsession.Demo.{
  VolumeFlag, SessionFlags, set, parse_volume, parse_fixed, validate, to_options,
}

-- A volume written as the flag wants it.
abbrev pub print_volume : VolumeOptions → Bytes
print_volume o = join (o.name ∷ format_uint o.size_mb ∷ format_bool o.fixed ∷ []) b':'

split-print_volume :
    (o : VolumeOptions)
    → Lacks b':' o.name
    → split (print_volume o) b':' ≡ o.name ∷ format_uint o.size_mb ∷ format_bool o.fixed ∷ []
split-print_volume o h =
    split-join o.name _ b':' h (format_uint-Lacks o.size_mb, (format_bool-Lacks o.fixed, tt))

parse_printed :
    (s : Bytes) (o : VolumeOptions)
    → o.size_mb < 2 ^ 64
    → parse_volume s (o.name ∷ format_uint o.size_mb ∷ format_bool o.fixed ∷ []) ≡ ok o
unfolding parse_volume parse_fixed
parse_printed s o h =
    ground (arith, parse_uint-format_uint o.size_mb h, parse_bool-format_bool o.fixed)

-- A volume whose name has no colon and whose size has 64 bits, written as `name:sizeMB:fixed`, is
-- appended to the flag as it was.
pub set-print_volume :
    (v : VolumeFlag) (o : VolumeOptions)
    → Lacks b':' o.name
    → o.size_mb < 2 ^ 64
    → set v (print_volume o) ≡ (v ++ o ∷ [], none)
unfolding set
set-print_volume v o h k =
    ground (arith, split-print_volume o h, parse_printed (print_volume o) o k)

parse_volume_sound :
    (s : Bytes) (parts : List Bytes) (o : VolumeOptions)
    → parse_volume s parts ≡ ok o
    → (size : Bytes) × (more : List Bytes) × (parts ≡ o.name ∷ size ∷ more)
      × (parse_uint size ≡ ok o.size_mb)
unfolding parse_volume
parse_volume_sound s [] o h = absurd (ground arith)
parse_volume_sound s (_ ∷ []) o h = absurd (ground arith)
parse_volume_sound s (name ∷ size ∷ more) o h = (size, more, ground arith, ground arith)

set_parsed :
    (v v' : VolumeFlag) (s : Bytes)
    → set v s ≡ (v', none)
    → (o : VolumeOptions) × (parse_volume s (split s b':') ≡ ok o) × (v' ≡ v ++ o ∷ [])
unfolding set
set_parsed v v' s h = by_result (parse_volume s (split s b':')) refl
  where
    by_result :
        (r : Result VolumeOptions)
        → parse_volume s (split s b':') ≡ r
        → (o : VolumeOptions) × (parse_volume s (split s b':') ≡ ok o) × (v' ≡ v ++ o ∷ [])
    by_result (ok o) e = (o, e, ground arith)
    by_result (err x) e = absurd (ground arith)

-- A text is accepted only as `name:size` with perhaps more parts behind a colon: the name has no colon,
-- the size is digits whose value has 64 bits, and the volume with that name and that size is appended.
pub set_sound :
    (v v' : VolumeFlag) (s : Bytes)
    → set v s ≡ (v', none)
    → (o : VolumeOptions) × (size : Bytes) × (more : List Bytes) × (s
        ≡ join (o.name ∷ size ∷ more) b':')
      × Lacks b':' o.name
      × (0 < length size)
      × All IsDigit size
      × (o.size_mb ≡ spelled size 0)
      × (o.size_mb < 2 ^ 64)
      × (v' ≡ v ++ o ∷ [])
set_sound v v' s h =
    let (o, p, e) = set_parsed v v' s h in
    let (size, more, q, n) = parse_volume_sound s (split s b':') o p in
    let (ne, fits, exact, all_digits) = parse_uint-spelled size o.size_mb n in
    let lacks : All (Lacks b':') (o.name ∷ size ∷ more) = rw q at (split-Lacks s b':') in
    let back : join (o.name ∷ size ∷ more) b':' ≡ s = rw q at (join-split s b':') in
    (o, size, more, sym back, lacks.0, ne, all_digits, exact, fits, e)

-- An error of `set` leaves the flag as it was.
pub set_error : (v : VolumeFlag) (s : Bytes) → ((set v s).1 ≡ none) ⊎ ((set v s).0 ≡ v)
unfolding set
set_error v s = ground arith

-- The flags pass `validate` exactly if `NewSession` will not refuse their options for want of a
-- storage path.
pub validate-needs_storage_path :
    (sf : SessionFlags)
    → ((validate sf ≡ none) × (needs_storage_path (to_options sf) ≡ false))
      ⊎ ((validate sf ≢ none) × (needs_storage_path (to_options sf) ≡ true))
unfolding validate needs_storage_path to_options
validate-needs_storage_path sf = ground arith
