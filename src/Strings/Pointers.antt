-- ===== src/Strings/Pointers.antt =====
-- Package syscall's conversions: `BytePtrFromString`, `UTF16PtrFromString` and `UTF16ToString`.
-- A pointer to a terminated text is the list of what it points at, the terminator included.
pub mod RoundTrip
use wslcsession.Base.{
  ℕ, zero, suc, ◌+◌, ◌-◌, ◌*◌, ◌/◌, ◌%◌, Bool, false, ◌&&◌, List, [], ◌∷◌, ◌++◌, Bytes, leb, ltb,
  ◌==◌, if◌then◌else◌, Result, ok, err, einval, contains, length, drop,
}

-- `BytePtrFromString`: a text with a NUL byte has no C string.
unfoldable pub byte_ptr : Bytes → Result Bytes
byte_ptr s = if contains 0 s then err einval else ok (s ++ 0 ∷ [])

abbrev rune_error : ℕ
rune_error = 0xfffd

is_continuation : ℕ → Bool
is_continuation c = leb 0x80 c && leb c 0xbf

-- The least and greatest second byte behind the first byte `a` of three or four.
second_in_range : ℕ → ℕ → Bool
second_in_range a b =
    if a == 0xe0
    then leb 0xa0 b && leb b 0xbf
    else if a == 0xed
    then leb 0x80 b && leb b 0x9f
    else if a == 0xf0
    then leb 0x90 b && leb b 0xbf
    else if a == 0xf4
    then leb 0x80 b && leb b 0x8f
    else leb 0x80 b && leb b 0xbf

rune2 : ℕ → Bytes → ℕ × ℕ
unfolding is_continuation
rune2 a [] = (rune_error, 1)
rune2 a (b ∷ s) = if is_continuation b then ((a - 0xc0) * 64 + (b - 0x80), 2) else (rune_error, 1)

rune3 : ℕ → Bytes → ℕ × ℕ
unfolding is_continuation second_in_range
rune3 a (b ∷ c ∷ s) =
    if second_in_range a b && is_continuation c
    then ((a - 0xe0) * 4096 + (b - 0x80) * 64 + (c - 0x80), 3)
    else (rune_error, 1)
rune3 a s = (rune_error, 1)

rune4 : ℕ → Bytes → ℕ × ℕ
unfolding is_continuation second_in_range
rune4 a (b ∷ c ∷ d ∷ s) =
    if second_in_range a b && is_continuation c && is_continuation d
    then ((a - 0xf0) * 262144 + (b - 0x80) * 4096 + (c - 0x80) * 64 + (d - 0x80), 4)
    else (rune_error, 1)
rune4 a s = (rune_error, 1)

-- `utf8.DecodeRuneInString` of the text `a ∷ s`: the rune and the bytes that it takes.
decode_rune : ℕ → Bytes → ℕ × ℕ
unfolding rune2 rune3 rune4
decode_rune a s =
    if ltb a 0x80
    then (a, 1)
    else if ltb a 0xc2
    then (rune_error, 1)
    else if ltb a 0xe0
    then rune2 a s
    else if ltb a 0xf0
    then rune3 a s
    else if ltb a 0xf5
    then rune4 a s
    else (rune_error, 1)

-- `utf16.AppendRune` of a rune that is no surrogate
unfoldable pub units : ℕ → List ℕ
units r =
    if ltb r 0x10000
    then r ∷ []
    else (0xd800 + (r - 0x10000) / 0x400) ∷ (0xdc00 + (r - 0x10000) % 0x400) ∷ []

-- A surrogate in three bytes, as Windows file names can hold it.
surrogate? : ℕ → Bytes → Bool
unfolding is_continuation
surrogate? a (b ∷ c ∷ s) = a == 0xed && leb 0xa0 b && leb b 0xbf && is_continuation c
surrogate? a s = false

surrogate_rune : Bytes → ℕ
surrogate_rune (b ∷ c ∷ s) = 0xd000 + (b - 0x80) * 64 + (c - 0x80)
surrogate_rune s = rune_error

-- The loop of the encoder. Each round takes at least one byte, so the length is enough fuel.
encode : ℕ → Bytes → List ℕ
unfolding decode_rune surrogate? surrogate_rune units
encode zero s = []
encode (suc fuel) [] = []
encode (suc fuel) (a ∷ s) =
    let (r, size) = decode_rune a s in
    let lone = surrogate_rune s ∷ encode fuel (drop 2 s) in
    let rest = units r ++ encode fuel (drop (size - 1) s) in
    if r == rune_error && surrogate? a s then lone else rest

-- `UTF16PtrFromString`
unfoldable pub utf16_ptr : Bytes → Result (List ℕ)
unfolding encode
utf16_ptr s = if contains 0 s then err einval else ok (encode (length s) s ++ 0 ∷ [])

-- `utf8.AppendRune`; a lone surrogate takes three bytes.
unfoldable pub encode_rune : ℕ → Bytes
encode_rune r =
    if ltb r 0x80
    then r ∷ []
    else if ltb r 0x800
    then (0xc0 + r / 64) ∷ (0x80 + r % 64) ∷ []
    else if ltb r 0x10000
    then (0xe0 + r / 4096) ∷ (0x80 + r / 64 % 64) ∷ (0x80 + r % 64) ∷ []
    else (0xf0 + r / 262144) ∷ (0x80 + r / 4096 % 64) ∷ (0x80 + r / 64 % 64) ∷ (0x80 + r % 64) ∷ []

is_pair : ℕ → ℕ → Bool
is_pair u v = leb 0xd800 u && ltb u 0xdc00 && leb 0xdc00 v && ltb v 0xe000

decode_units : List ℕ → Bytes
unfolding encode_rune is_pair
decode_units [] = []
decode_units (u ∷ []) = encode_rune u
decode_units (u ∷ v ∷ s) =
    let pair = encode_rune (0x10000 + (u - 0xd800) * 0x400 + (v - 0xdc00)) ++ decode_units s in
    let single = encode_rune u ++ decode_units (v ∷ s) in if is_pair u v then pair else single

until_nul : List ℕ → List ℕ
until_nul [] = []
until_nul (u ∷ s) = let rest = until_nul s in if u == 0 then [] else u ∷ rest

-- `UTF16ToString`: the text before the first NUL unit.
unfoldable pub utf16_to_string : List ℕ → Bytes
unfolding until_nul decode_units
utf16_to_string s = decode_units (until_nul s)
