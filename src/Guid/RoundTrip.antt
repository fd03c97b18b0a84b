-- ===== src/Guid/RoundTrip.antt =====
-- `parseGUID` reads a GUID back from its text.
use wslcsession.Base.{
  ℕ, zero, suc, ◌<◌, ◌^◌, ◌≡◌, ◌≢◌, refl, Bytes, List, [], ◌∷◌, ◌++◌, arith, All, All-append, Lacks,
  ok, length, take, drop, length-take, length-drop, take-append-drop,
}
use wslcsession.Strings.Hex
use wslcsession.Strings.Hex.{IsByte, lower}
use wslcsession.Strings.Parts
use wslcsession.Strings.Parts.{NoBrace}
use wslcsession.Guid.{Guid, decode_group, parse_groups, parse_guid}
use wslcsession.Guid.Text.{bytes4, bytes2, groups, format_guid, IsValid}

-- No character of a text is one that the parser treats specially.
abbrev Plain : ℕ → Type 0
Plain c = (c ≢ b'-') × NoBrace c

encode-Plain : (s : Bytes) → All IsByte s → All Plain (Hex.encode s)
unfolding Hex.encode Hex.digit
encode-Plain [] h = tt
encode-Plain (x ∷ s) (hx, hs) = ground (arith, encode-Plain s hs)

Plain-Lacks : (s : Bytes) → All Plain s → All (Lacks b'-') (s ∷ []) × All NoBrace s
Plain-Lacks [] h = ((tt, tt), tt)
Plain-Lacks (c ∷ s) (hc, hs) = let ((l, _), n) = Plain-Lacks s hs in (((hc.0, l), tt), (hc.1, n))

encode-Lacks : (s : Bytes) → All IsByte s → Lacks b'-' (Hex.encode s)
encode-Lacks s h = (Plain-Lacks _ (encode-Plain s h)).0.0

encode-NoBrace : (s : Bytes) → All IsByte s → All NoBrace (Hex.encode s)
encode-NoBrace s h = (Plain-Lacks _ (encode-Plain s h)).1

join-NoBrace :
    (p : Bytes) (ps : List Bytes)
    → All NoBrace p
    → All (All NoBrace) ps
    → All NoBrace (Parts.join (p ∷ ps) b'-')
join-NoBrace p [] h _ = h
join-NoBrace p (q ∷ ps) h (hq, hps) =
    All-append NoBrace p _ h ((omega arith, omega arith), join-NoBrace q ps hq hps)

All-take : (n : ℕ) (s : Bytes) → All IsByte s → All IsByte (take n s)
All-take zero s h = tt
All-take (suc n) [] h = tt
All-take (suc n) (x ∷ s) (hx, hs) = (hx, All-take n s hs)

All-drop : (n : ℕ) (s : Bytes) → All IsByte s → All IsByte (drop n s)
All-drop zero s h = h
All-drop (suc n) [] h = tt
All-drop (suc n) (x ∷ s) (hx, hs) = All-drop n s hs

decode_group-encode :
    (s d : Bytes) (n : ℕ) → All IsByte d → length d ≡ n → decode_group s (Hex.encode d) n ≡ ok d
unfolding decode_group
decode_group-encode s d n h e = rw (decode_group, Hex.decode-encode d h) (ground arith)

whole4 : {n : ℕ} → n < 2 ^ 32 → Hex.big_endian (bytes4 n) ≡ n
whole4 h = omega arith

whole2 : {n : ℕ} → n < 2 ^ 16 → Hex.big_endian (bytes2 n) ≡ n
whole2 h = omega arith

module _ (g : Guid) (v : IsValid g) where
  bytes4-All : All IsByte (bytes4 g.data1)
  bytes4-All = let k = v.data1_fits in omega arith

  bytes2-All : (n : ℕ) → n < 2 ^ 16 → All IsByte (bytes2 n)
  bytes2-All n h = omega arith

  parse_groups-format : (s : Bytes) → parse_groups s (Hex.encode (bytes4 g.data1) ∷ groups g) ≡ ok g
  unfolding parse_groups
  parse_groups-format s =
      let k = v.data1_fits in
      let two = length-take 2 g.data4 (omega (arith, v.eight)) in
      let six : length (drop 2 g.data4) ≡ 6 = omega (arith, v.eight, length-drop 2 g.data4) in
      rw
        (
          decode_group-encode s (bytes4 g.data1) 4 bytes4-All refl,
          decode_group-encode s (bytes2 g.data2) 2 (bytes2-All _ v.data2_fits) refl,
          decode_group-encode s (bytes2 g.data3) 2 (bytes2-All _ v.data3_fits) refl,
          decode_group-encode s (take 2 g.data4) 2 (All-take 2 _ v.bytes) two,
          decode_group-encode s (drop 2 g.data4) 6 (All-drop 2 _ v.bytes) six,
          take-append-drop 2 g.data4,
        )
        (λ i. ok (record {
          data1 = whole4 k i;
          data2 = whole2 v.data2_fits i;
          data3 = whole2 v.data3_fits i;
          data4 = g.data4;
        }))

  text-NoBrace : All NoBrace (format_guid g)
  text-NoBrace = join-NoBrace _ (groups g) (encode-NoBrace _ bytes4-All) (
    encode-NoBrace _ (bytes2-All _ v.data2_fits),
    (
      encode-NoBrace _ (bytes2-All _ v.data3_fits),
      (encode-NoBrace _ (All-take 2 _ v.bytes), (encode-NoBrace _ (All-drop 2 _ v.bytes), tt)),
    ),
  )

  split-format : Parts.split (format_guid g) b'-' ≡ Hex.encode (bytes4 g.data1) ∷ groups g
  split-format = Parts.split-join _ (groups g) b'-' (encode-Lacks _ bytes4-All) (
    encode-Lacks _ (bytes2-All _ v.data2_fits),
    (
      encode-Lacks _ (bytes2-All _ v.data3_fits),
      (encode-Lacks _ (All-take 2 _ v.bytes), (encode-Lacks _ (All-drop 2 _ v.bytes), tt)),
    ),
  )

  -- A GUID is read back from its text.
  pub parse-format : parse_guid (format_guid g) ≡ ok g
  unfolding parse_guid
  parse-format =
      rw (Parts.trim_braces-id _ text-NoBrace, split-format) (parse_groups-format (format_guid g))

  text-ne-nil : format_guid g ≢ []
  text-ne-nil = unfold Hex.encode in λ e. cc

  -- Braces around the text make no difference.
  pub parse-format_braced : parse_guid (b'{' ∷ (format_guid g ++ b'}' ∷ [])) ≡ ok g
  unfolding parse_guid
  parse-format_braced =
      rw (Parts.trim_braces-braced _ text-NoBrace text-ne-nil, split-format)
        (parse_groups-format (format_guid g))
