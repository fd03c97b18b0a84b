-- ===== src/Strings/Hex.antt =====
-- `hex.DecodeString`, and the big-endian numbers of encoding/binary.
use wslcsession.Base.{
  ℕ, ◌+◌, ◌-◌, ◌*◌, ◌/◌, ◌%◌, ◌<◌, ◌≡◌, refl, ap, ◌&&◌, [], ◌∷◌, arith, Bytes, All, leb, ltb, ◌∙◌,
  map, >>=-ok, err-ne-ok, if◌then◌else◌, Result, ok, err, invalid_hex, hex_length, ◌>>=◌,
}

-- The value of a hexadecimal digit.
nibble : ℕ → Result ℕ
nibble c =
    if leb b'0' c && leb c b'9'
    then ok (c - b'0')
    else if leb b'a' c && leb c b'f'
    then ok (c - b'a' + 10)
    else if leb b'A' c && leb c b'F'
    then ok (c - b'A' + 10)
    else err invalid_hex

unfoldable pub decode : Bytes → Result Bytes
unfolding nibble
decode [] = ok []
decode (a ∷ []) = do x ← nibble a; err hex_length
decode (a ∷ b ∷ s) = do x ← nibble a; y ← nibble b; rest ← decode s; ok ((x * 16 + y) ∷ rest)

-- Lower case hexadecimal digits.
unfoldable pub digit : ℕ → ℕ
digit x = if ltb x 10 then b'0' + x else b'a' + (x - 10)

unfoldable pub encode : Bytes → Bytes
unfolding digit
encode [] = []
encode (x ∷ s) = digit (x / 16) ∷ digit (x % 16) ∷ encode s

abbrev pub IsByte : ℕ → Type 0
IsByte x = x < 256

nibble-digit : (x : ℕ) → x < 16 → nibble (digit x) ≡ ok x
unfolding nibble digit
nibble-digit x h = ground arith

decode_cons :
    (a b x y : ℕ) (s d : Bytes)
    → nibble a ≡ ok x
    → nibble b ≡ ok y
    → decode s ≡ ok d
    → decode (a ∷ b ∷ s) ≡ ok ((x * 16 + y) ∷ d)
unfolding decode
decode_cons a b x y s d ha hb hs = rw (ha, hb, hs)

-- Decoding undoes encoding.
pub decode-encode : (s : Bytes) → All IsByte s → decode (encode s) ≡ ok s
unfolding encode
decode-encode [] h = unfold decode in refl
decode-encode (x ∷ s) (hx, hs) =
    decode_cons _ _ (x / 16) (x % 16) (encode s) s (nibble-digit (x / 16) (omega arith))
      (nibble-digit (x % 16) (omega arith)) (decode-encode s hs)
    ∙ ap ok (ap (λ y. y ∷ s) (omega arith))

-- Lower case of an ASCII letter.
abbrev pub lower : ℕ → ℕ
lower c = if leb b'A' c && leb c b'Z' then c + 32 else c

digit-nibble : (c x : ℕ) → nibble c ≡ ok x → (digit x ≡ lower c) × (x < 16)
unfolding nibble digit
digit-nibble c x h = ground arith

encode_cons :
    (a b x y : ℕ) (d : Bytes)
    → nibble a ≡ ok x
    → nibble b ≡ ok y
    → encode ((x * 16 + y) ∷ d) ≡ lower a ∷ lower b ∷ encode d
unfolding encode
encode_cons a b x y d ha hb =
    let (da, la) = digit-nibble a x ha in
    let (db, lb) = digit-nibble b y hb in
    let high : (x * 16 + y) / 16 ≡ x = omega arith in
    let low : (x * 16 + y) % 16 ≡ y = omega arith in rw (high, low, da, db)

-- What is accepted is the encoding of the result, up to the case of the digits.
pub encode-decode : (s d : Bytes) → decode s ≡ ok d → (encode d ≡ map lower s) × All IsByte d
unfolding decode
encode-decode [] d h = let e : [] ≡ d = cc in rw (← e) (unfold encode in (refl, tt))
encode-decode (a ∷ []) d h =
    let (x, hx, h') = >>=-ok (nibble a) (λ _. err hex_length) _ h in absurd (err-ne-ok h')
encode-decode (a ∷ b ∷ s) d h =
    let (x, hx, hx') = >>=-ok (nibble a) _ _ h in
    let (y, hy, hy') = >>=-ok (nibble b) _ _ hx' in
    let (r, hr, hr') = >>=-ok (decode s) _ _ hy' in
    let (ih, bound) = encode-decode s r hr in
    let e : ((x * 16 + y) ∷ r) ≡ d = cc in
    let la : x < 16 = (digit-nibble a x hx).1 in
    let lb : y < 16 = (digit-nibble b y hy).1 in
    rw (← e)
      (encode_cons a b x y r hx hy ∙ ap (λ t. lower a ∷ lower b ∷ t) ih, (omega arith, bound))

-- `binary.BigEndian.Uint16` and `Uint32` of as many bytes
abbrev pub big_endian_from : ℕ → Bytes → ℕ
big_endian_from n [] = n
big_endian_from n (x ∷ s) = big_endian_from (n * 256 + x) s

abbrev pub big_endian : Bytes → ℕ
big_endian = big_endian_from 0
