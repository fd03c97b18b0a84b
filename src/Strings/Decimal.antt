-- ===== src/Strings/Decimal.antt =====
-- `strconv.FormatUint`, `ParseUint` (base 10, 64 bits), `FormatBool`, `ParseBool`, and `%d` of an int32.
use wslcsession.Base.{
  ℕ, zero, suc, ◌+◌, ◌-◌, ◌*◌, ◌/◌, ◌%◌, ◌<◌, ◌≤◌, ◌^◌, ◌≡◌, refl, ◌∙◌, Bool, true, false, ◌||◌, [],
  ◌∷◌, arith, Bytes, All, Lacks, length, leb, ltb, ◌==◌, equal, codes, if◌then◌else◌, Result, ok,
  err, syntax, range, err-ne-ok,
}

-- `for n > 0`, each round puts the last digit in front; a number is reached by at most `n` rounds.
last_digit : ℕ → ℕ
last_digit n = b'0' + n % 10

digits : ℕ → ℕ → Bytes → Bytes
unfolding last_digit
digits zero n out = out
digits (suc fuel) n out =
    let rest = digits fuel (n / 10) (last_digit n ∷ out) in if n == 0 then out else rest

unfoldable pub format_uint : ℕ → Bytes
unfolding digits
format_uint n = if n == 0 then b'0' ∷ [] else digits n n []

-- `%d` of the int32 with these 32 bits
unfoldable pub format_int32 : ℕ → Bytes
unfolding format_uint
format_int32 n = if ltb n (2 ^ 31) then format_uint n else b'-' ∷ format_uint (2 ^ 32 - n)

-- The loop of `ParseUint`, with its two tests of overflow; the arithmetic is that of uint64.
scan : Bytes → ℕ → Result ℕ
scan [] n = ok n
scan (c ∷ s) n =
    if ltb c b'0' || ltb b'9' c
    then err syntax
    else if leb ((2 ^ 64 - 1) / 10 + 1) n
    then err range
    else if ltb (((n * 10) % 2 ^ 64 + (c - b'0')) % 2 ^ 64) ((n * 10) % 2 ^ 64)
    then err range
    else scan s (((n * 10) % 2 ^ 64 + (c - b'0')) % 2 ^ 64)

unfoldable pub parse_uint : Bytes → Result ℕ
unfolding scan
parse_uint [] = err syntax
parse_uint (c ∷ s) = scan (c ∷ s) 0

unfoldable pub format_bool : Bool → Bytes
format_bool true = codes "true"
format_bool false = codes "false"

one_of : Bytes → Bytes → Bytes → Bytes → Bytes → Bytes → Bytes → Bool
one_of s a b c d e f = equal s a || equal s b || equal s c || equal s d || equal s e || equal s f

unfoldable pub parse_bool : Bytes → Result Bool
unfolding one_of
parse_bool s =
    if one_of s (codes "1") (codes "t") (codes "T") (codes "true") (codes "TRUE") (codes "True")
    then ok true
    else if one_of s (codes "0") (codes "f") (codes "F") (codes "false") (codes "FALSE")
        (codes "False")
    then ok false
    else err syntax

-- The number before the last digit, and then that digit, are read as the number.
scan-last_digit :
    (n : ℕ) (more : Bytes) → n < 2 ^ 64 → scan (last_digit n ∷ more) (n / 10) ≡ scan more n
unfolding scan last_digit
scan-last_digit n more small = ground arith

scan-digits :
    (fuel n : ℕ) (more : Bytes) → n < 2 ^ 64 → n ≤ fuel → scan (digits fuel n more) 0 ≡ scan more n
unfolding digits
scan-digits zero n more small enough = let e : n ≡ 0 = omega arith in rw e
scan-digits (suc fuel) n more small enough =
    ground (arith, scan-last_digit n more small, scan-digits fuel (n / 10) (last_digit n ∷ more))

digits-length : (fuel n : ℕ) (more : Bytes) → length more ≤ length (digits fuel n more)
unfolding digits
digits-length zero n more = omega arith
digits-length (suc fuel) n more = ground (arith, digits-length fuel (n / 10) (last_digit n ∷ more))

digits_positive : (n : ℕ) → 0 < length (digits (suc n) (suc n) [])
unfolding digits
digits_positive n = ground (arith, digits-length n (suc n / 10) (last_digit (suc n) ∷ []))

parse_uint_some : (s : Bytes) → 0 < length s → parse_uint s ≡ scan s 0
unfolding parse_uint
parse_uint_some [] h = absurd (omega arith)
parse_uint_some (c ∷ s) h = refl

scan_nil : (n : ℕ) → scan [] n ≡ ok n
unfolding scan
scan_nil n = refl

-- Every uint64 is read back from its decimal print.
pub parse_uint-format_uint : (n : ℕ) → n < 2 ^ 64 → parse_uint (format_uint n) ≡ ok n
unfolding format_uint
parse_uint-format_uint zero h = unfold parse_uint scan in refl
parse_uint-format_uint (suc n) h =
    parse_uint_some _ (ground (arith, digits_positive n))
    ∙ ground (arith, scan-digits (suc n) (suc n) [], scan_nil (suc n))

abbrev pub IsDigit : ℕ → Type 0
IsDigit c = (c ≤ b'9') × (b'0' ≤ c)

-- What digits spell, read from the left behind the number `acc`, with no bound.
abbrev pub spelled : Bytes → ℕ → ℕ
spelled [] acc = acc
spelled (c ∷ s) acc = spelled s ((c - b'0') + 10 * acc)

scan-spelled :
    (s : Bytes) (acc out : ℕ)
    → scan s acc ≡ ok out
    → acc < 2 ^ 64
    → (out < 2 ^ 64) × (out ≡ spelled s acc) × All IsDigit s
unfolding scan
scan-spelled [] acc out e small = ground arith
scan-spelled (c ∷ s) acc out e small = ground (arith, scan-spelled s ((c - b'0') + 10 * acc) out)

-- A text is accepted if it has a character, all are digits, and they spell a number of 64 bits.
pub parse_uint-spelled :
    (s : Bytes) (out : ℕ)
    → parse_uint s ≡ ok out
    → (0 < length s) × (out < 2 ^ 64) × (out ≡ spelled s 0) × All IsDigit s
unfolding parse_uint
parse_uint-spelled [] out e = absurd (err-ne-ok e)
parse_uint-spelled (c ∷ s) out e =
    let (fits, exact, all) = scan-spelled (c ∷ s) 0 out e (omega arith) in
    (omega arith, fits, exact, all)

pub parse_bool-format_bool : (b : Bool) → parse_bool (format_bool b) ≡ ok b
unfolding parse_bool format_bool
parse_bool-format_bool true = refl
parse_bool-format_bool false = refl

digits-Lacks : (fuel n : ℕ) (out : Bytes) → Lacks b':' out → Lacks b':' (digits fuel n out)
unfolding digits
digits-Lacks zero n out h = h
digits-Lacks (suc fuel) n out h = ground (arith, digits-Lacks fuel (n / 10) ((b'0' + n % 10) ∷ out))

-- No print has a colon.
pub format_uint-Lacks : (n : ℕ) → Lacks b':' (format_uint n)
unfolding format_uint
format_uint-Lacks zero = ground arith
format_uint-Lacks (suc n) = ground (arith, digits-Lacks (suc n) (suc n) [] tt)

pub format_bool-Lacks : (b : Bool) → Lacks b':' (format_bool b)
unfolding format_bool
format_bool-Lacks true = ground arith
format_bool-Lacks false = ground arith
