-- ===== src/Strings/Pointers/RoundTrip.antt =====
-- A text of code points goes to UTF-16 and back.
use mathlib.Core.List.{append-nil, append_assoc}
use wslcsession.Base.{
  ℕ, zero, suc, ◌+◌, ◌-◌, ◌*◌, ◌/◌, ◌%◌, ◌≤◌, ◌<◌, ◌≡◌, refl, ap, sym, ◌∙◌, ◌⊎◌, true, false, List,
  [], ◌∷◌, ◌++◌, Bytes, ok, contains, length, arith, All,
}
use wslcsession.Strings.Pointers.{
  is_continuation, second_in_range, rune2, rune3, rune4, decode_rune, units, surrogate?,
  surrogate_rune, encode, utf16_ptr, encode_rune, is_pair, decode_units, until_nul, utf16_to_string,
}

-- A code point other than NUL, and no surrogate.
abbrev pub IsScalar : ℕ → Type 0
IsScalar c = (0 < c) × (c < 0x110000) × ((c < 0xd800) ⊎ (0xe000 ≤ c))

-- The UTF-8 text of code points.
abbrev pub text : List ℕ → Bytes
text [] = []
text (c ∷ cs) = encode_rune c ++ text cs

abbrev pub all_units : List ℕ → List ℕ
all_units [] = []
all_units (c ∷ cs) = units c ++ all_units cs

encode_1 :
    (fuel c : ℕ) (s : Bytes) → c < 0x80 → encode (suc fuel) (c ∷ s) ≡ units c ++ encode fuel s
unfolding encode decode_rune surrogate? surrogate_rune
encode_1 fuel c s h = ground arith

encode_2 :
    (fuel c : ℕ) (s : Bytes)
    → 0x80 ≤ c
    → c < 0x800
    → encode (suc fuel) ((0xc0 + c / 64) ∷ (0x80 + c % 64) ∷ s) ≡ units c ++ encode fuel s
unfolding encode decode_rune surrogate? surrogate_rune rune2
encode_2 fuel c s h k =
    let e : (0xc0 + c / 64 - 0xc0) * 64 + (0x80 + c % 64 - 0x80) ≡ c = omega arith in
    ground (arith, e)

second_3 :
    (c : ℕ)
    → 0x800 ≤ c
    → c < 0x10000
    → (c < 0xd800) ⊎ (0xe000 ≤ c)
    → second_in_range (0xe0 + c / 4096) (0x80 + c / 64 % 64) ≡ true
unfolding second_in_range
second_3 c h k scalar = ground arith

encode_3 :
    (fuel c : ℕ) (s : Bytes)
    → 0x800 ≤ c
    → c < 0x10000
    → (c < 0xd800) ⊎ (0xe000 ≤ c)
    → encode (suc fuel) ((0xe0 + c / 4096) ∷ (0x80 + c / 64 % 64) ∷ (0x80 + c % 64) ∷ s)
      ≡ units c ++ encode fuel s
unfolding encode decode_rune surrogate? surrogate_rune rune3 is_continuation
encode_3 fuel c s h k scalar =
    let e : (0xe0 + c / 4096 - 0xe0) * 4096
          + (0x80 + c / 64 % 64 - 0x80) * 64
          + (0x80 + c % 64 - 0x80)
        ≡ c =
      omega arith in
    ground (arith, e, second_3 c h k scalar)

second_4 :
    (c : ℕ)
    → 0x10000 ≤ c
    → c < 0x110000
    → second_in_range (0xf0 + c / 262144) (0x80 + c / 4096 % 64) ≡ true
unfolding second_in_range
second_4 c h k = ground arith

encode_4 :
    (fuel c : ℕ) (s : Bytes)
    → 0x10000 ≤ c
    → c < 0x110000
    → encode
        (suc fuel)
        ((0xf0 + c / 262144) ∷ (0x80 + c / 4096 % 64) ∷ (0x80 + c / 64 % 64) ∷ (0x80 + c % 64) ∷ s)
      ≡ units c ++ encode fuel s
unfolding encode decode_rune surrogate? surrogate_rune rune4 is_continuation
encode_4 fuel c s h k =
    let e : (0xf0 + c / 262144 - 0xf0) * 262144
          + (0x80 + c / 4096 % 64 - 0x80) * 4096
          + (0x80 + c / 64 % 64 - 0x80) * 64
          + (0x80 + c % 64 - 0x80)
        ≡ c =
      omega arith in
    ground (arith, e, second_4 c h k)

encode-encode_rune :
    (fuel c : ℕ) (s : Bytes)
    → IsScalar c
    → encode (suc fuel) (encode_rune c ++ s) ≡ units c ++ encode fuel s
unfolding encode_rune
encode-encode_rune fuel c s h =
    ground (arith, encode_1 fuel c s, encode_2 fuel c s, encode_3 fuel c s, encode_4 fuel c s)

decode_one :
    (c : ℕ) (us : List ℕ)
    → (c < 0xd800) ⊎ (0xe000 ≤ c)
    → decode_units (c ∷ us) ≡ encode_rune c ++ decode_units us
unfolding decode_units is_pair
decode_one c [] h = sym (append-nil (encode_rune c))
decode_one c (v ∷ us) h = ground arith

decode_pair :
    (c : ℕ) (us : List ℕ)
    → 0x10000 ≤ c
    → c < 0x110000
    → decode_units ((0xd800 + (c - 0x10000) / 0x400) ∷ (0xdc00 + (c - 0x10000) % 0x400) ∷ us)
      ≡ encode_rune c ++ decode_units us
unfolding decode_units is_pair
decode_pair c us h k =
    let e : 0x10000
          + (0xd800 + (c - 0x10000) / 0x400 - 0xd800) * 0x400
          + (0xdc00 + (c - 0x10000) % 0x400 - 0xdc00)
        ≡ c =
      omega arith in
    ground (arith, e)

decode_units-units :
    (c : ℕ) (us : List ℕ)
    → IsScalar c
    → decode_units (units c ++ us) ≡ encode_rune c ++ decode_units us
unfolding units
decode_units-units c us h = ground (arith, decode_one c us, decode_pair c us)

decode_units-all_units : (cs : List ℕ) → All IsScalar cs → decode_units (all_units cs) ≡ text cs
unfolding decode_units
decode_units-all_units [] h = refl
decode_units-all_units (c ∷ cs) (hc, hs) =
    decode_units-units c (all_units cs) hc
    ∙ ap (λ s. encode_rune c ++ s) (decode_units-all_units cs hs)

encode-text :
    (fuel : ℕ) (cs : List ℕ)
    → All IsScalar cs
    → length cs ≤ fuel
    → encode fuel (text cs) ≡ all_units cs
unfolding encode
encode-text zero [] h enough = refl
encode-text (suc fuel) [] h enough = refl
encode-text zero (c ∷ cs) h enough = absurd (omega arith)
encode-text (suc fuel) (c ∷ cs) (hc, hs) enough =
    encode-encode_rune fuel c (text cs) hc
    ∙ ap (λ us. units c ++ us) (encode-text fuel cs hs (omega arith))

length-text : (cs : List ℕ) → length cs ≤ length (text cs)
length-text [] = omega arith
length-text (c ∷ cs) = rune_first c (text cs) (length-text cs)
  where
    rune_first :
        (c : ℕ) (s : Bytes) → length cs ≤ length s → suc (length cs) ≤ length (encode_rune c ++ s)
    rune_first c s h = unfold encode_rune in ground arith

contains-encode_rune : (c : ℕ) (s : Bytes) → 0 < c → contains 0 (encode_rune c ++ s) ≡ contains 0 s
unfolding encode_rune
contains-encode_rune c s h = ground arith

contains-text : (cs : List ℕ) → All IsScalar cs → contains 0 (text cs) ≡ false
contains-text [] h = refl
contains-text (c ∷ cs) (hc, hs) = contains-encode_rune c (text cs) hc.0 ∙ contains-text cs hs

until_nul-units :
    (c : ℕ) (us : List ℕ) → IsScalar c → until_nul (units c ++ us) ≡ units c ++ until_nul us
unfolding until_nul units
until_nul-units c us h = ground arith

until_nul-all_units :
    (cs junk : List ℕ) → All IsScalar cs → until_nul (all_units cs ++ 0 ∷ junk) ≡ all_units cs
unfolding until_nul
until_nul-all_units [] junk h = refl
until_nul-all_units (c ∷ cs) junk (hc, hs) =
    ap until_nul (append_assoc (units c) (all_units cs) (0 ∷ junk))
    ∙ until_nul-units c (all_units cs ++ 0 ∷ junk) hc
    ∙ ap (λ us. units c ++ us) (until_nul-all_units cs junk hs)

-- The UTF-16 form of a text ends in a NUL unit, and reads back as the text whatever stands behind that.
pub utf16_ptr-text :
    (cs : List ℕ) → All IsScalar cs → utf16_ptr (text cs) ≡ ok (all_units cs ++ 0 ∷ [])
unfolding utf16_ptr
utf16_ptr-text cs h =
    rw (contains-text cs h, encode-text (length (text cs)) cs h (length-text cs)) refl

pub utf16_to_string-all_units :
    (cs junk : List ℕ) → All IsScalar cs → utf16_to_string (all_units cs ++ 0 ∷ junk) ≡ text cs
unfolding utf16_to_string
utf16_to_string-all_units cs junk h =
    rw (until_nul-all_units cs junk h) (decode_units-all_units cs h)
