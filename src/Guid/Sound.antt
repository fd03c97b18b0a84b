-- ===== src/Guid/Sound.antt =====
-- What `parseGUID` accepts.
use wslcsession.Base.{
  ℕ, zero, suc, ◌+◌, ◌*◌, ◌/◌, ◌%◌, ◌<◌, ◌^◌, ◌≡◌, refl, sym, ap, ◌∙◌, Bytes, List, [], ◌∷◌, ◌++◌,
  map, arith, All, All-append, ok, length, take, drop, length-append, >>=-ok, err-ne-ok,
}
use mathlib.Core.List.{map-append}
use wslcsession.Strings.Hex
use wslcsession.Strings.Hex.{IsByte, lower}
use wslcsession.Strings.Parts
use wslcsession.Strings.Parts.{NoBrace}
use wslcsession.Guid.{Guid, decode_group, parse_groups, parse_guid}
use wslcsession.Guid.Text.{bytes4, bytes2, groups, format_guid, IsValid}

decode_group_inversion :
    (s group d : Bytes) (n : ℕ)
    → decode_group s group n ≡ ok d
    → (Hex.decode group ≡ ok d) × (length d ≡ n)
unfolding decode_group
decode_group_inversion s group d n h = ground arith

decode_group_sound :
    (s group d : Bytes) (n : ℕ)
    → decode_group s group n ≡ ok d
    → (Hex.encode d ≡ map lower group) × All IsByte d × (length d ≡ n)
decode_group_sound s group d n h =
    let (e, size) = decode_group_inversion s group d n h in
    let (text, bytes) = Hex.encode-decode group d e in (text, bytes, size)

bytes4-big_endian :
    (d : Bytes)
    → All IsByte d
    → length d ≡ 4
    → (bytes4 (Hex.big_endian d) ≡ d) × (Hex.big_endian d < 2 ^ 32)
bytes4-big_endian (a ∷ b ∷ c ∷ d ∷ []) (ha, (hb, (hc, (hd, _)))) e =
    let n = (((0 + a) * 256 + b) * 256 + c) * 256 + d in
    let q1 : n / 16777216 ≡ a = omega arith in
    let q2 : n / 65536 % 256 ≡ b = omega arith in
    let q3 : n / 256 % 256 ≡ c = omega arith in
    let q4 : n % 256 ≡ d = omega arith in (λ i. q1 i ∷ q2 i ∷ q3 i ∷ q4 i ∷ [], omega arith)
bytes4-big_endian d h e = absurd (omega arith)

bytes2-big_endian :
    (d : Bytes)
    → All IsByte d
    → length d ≡ 2
    → (bytes2 (Hex.big_endian d) ≡ d) × (Hex.big_endian d < 2 ^ 16)
bytes2-big_endian (a ∷ b ∷ []) (ha, (hb, _)) e =
    let n = (0 + a) * 256 + b in
    let q1 : n / 256 ≡ a = omega arith in
    let q2 : n % 256 ≡ b = omega arith in (λ i. q1 i ∷ q2 i ∷ [], omega arith)
bytes2-big_endian d h e = absurd (omega arith)

map-join :
    (p : Bytes) (ps : List Bytes)
    → map lower (Parts.join (p ∷ ps) b'-') ≡ Parts.join (map lower p ∷ map (map lower) ps) b'-'
map-join p [] = refl
map-join p (q ∷ ps) = map-append lower p _ ∙ ap (λ t. map lower p ++ b'-' ∷ t) (map-join q ps)

-- What the text of a parsed GUID is, up to the case of its digits.
abbrev Spells : Guid → List Bytes → Type 0
Spells g [] = ⊥
Spells g (p ∷ ps) =
    (Hex.encode (bytes4 g.data1) ∷ groups g ≡ map lower p ∷ map (map lower) ps) × IsValid g

record FiveGroups (g : Guid) (g1 g2 g3 g4 g5 : Bytes) : Type 0 where
  d1 : Bytes
  d2 : Bytes
  d3 : Bytes
  d4 : Bytes
  d5 : Bytes
  s1 : (Hex.encode d1 ≡ map lower g1) × All IsByte d1 × (length d1 ≡ 4)
  s2 : (Hex.encode d2 ≡ map lower g2) × All IsByte d2 × (length d2 ≡ 2)
  s3 : (Hex.encode d3 ≡ map lower g3) × All IsByte d3 × (length d3 ≡ 2)
  s4 : (Hex.encode d4 ≡ map lower g4) × All IsByte d4 × (length d4 ≡ 2)
  s5 : (Hex.encode d5 ≡ map lower g5) × All IsByte d5 × (length d5 ≡ 6)
  whole :
      record {
        data1 = Hex.big_endian d1;
        data2 = Hex.big_endian d2;
        data3 = Hex.big_endian d3;
        data4 = d4 ++ d5;
      }
      ≡ g

parse_groups_inversion :
    (s g1 g2 g3 g4 g5 : Bytes) (g : Guid)
    → parse_groups s (g1 ∷ g2 ∷ g3 ∷ g4 ∷ g5 ∷ []) ≡ ok g
    → FiveGroups g g1 g2 g3 g4 g5
unfolding parse_groups
parse_groups_inversion s g1 g2 g3 g4 g5 g h =
    let (d1, h1, k1) = >>=-ok (decode_group s g1 4) _ _ h in
    let (d2, h2, k2) = >>=-ok (decode_group s g2 2) _ _ k1 in
    let (d3, h3, k3) = >>=-ok (decode_group s g3 2) _ _ k2 in
    let (d4, h4, k4) = >>=-ok (decode_group s g4 2) _ _ k3 in
    let (d5, h5, k5) = >>=-ok (decode_group s g5 6) _ _ k4 in
    record {
      d1 = d1;
      d2 = d2;
      d3 = d3;
      d4 = d4;
      d5 = d5;
      s1 = decode_group_sound s g1 d1 4 h1;
      s2 = decode_group_sound s g2 d2 2 h2;
      s3 = decode_group_sound s g3 d3 2 h3;
      s4 = decode_group_sound s g4 d4 2 h4;
      s5 = decode_group_sound s g5 d5 6 h5;
      whole = cc k5;
    }

take-append : (n : ℕ) (s t : Bytes) → length s ≡ n → (take n (s ++ t) ≡ s) × (drop n (s ++ t) ≡ t)
take-append zero [] t e = (refl, refl)
take-append zero (x ∷ s) t e = absurd (omega arith)
take-append (suc n) [] t e = absurd (omega arith)
take-append (suc n) (x ∷ s) t e =
    let (a, b) = take-append n s t (omega arith) in (ap (λ r. x ∷ r) a, b)

FiveGroups-Spells :
    (g : Guid) (g1 g2 g3 g4 g5 : Bytes)
    → FiveGroups g g1 g2 g3 g4 g5
    → Spells g (g1 ∷ g2 ∷ g3 ∷ g4 ∷ g5 ∷ [])
FiveGroups-Spells g g1 g2 g3 g4 g5 f =
    let (e1, fit1) = bytes4-big_endian f.d1 f.s1.1 f.s1.2 in
    let (e2, fit2) = bytes2-big_endian f.d2 f.s2.1 f.s2.2 in
    let (e3, fit3) = bytes2-big_endian f.d3 f.s3.1 f.s3.2 in
    let (e4, e5) = take-append 2 f.d4 f.d5 f.s4.2 in
    rw (← f.whole) (
      (λ i.
          (ap Hex.encode e1 ∙ f.s1.0) i
          ∷ (ap Hex.encode e2 ∙ f.s2.0) i
          ∷ (ap Hex.encode e3 ∙ f.s3.0) i
          ∷ (ap Hex.encode e4 ∙ f.s4.0) i
          ∷ (ap Hex.encode e5 ∙ f.s5.0) i
          ∷ []),
      record {
        data1_fits = fit1;
        data2_fits = fit2;
        data3_fits = fit3;
        eight = omega (arith, length-append f.d4 f.d5, f.s4.2, f.s5.2);
        bytes = All-append IsByte f.d4 f.d5 f.s4.1 f.s5.1;
      },
    )

parse_groups-Spells :
    (s : Bytes) (ps : List Bytes) (g : Guid) → parse_groups s ps ≡ ok g → Spells g ps
parse_groups-Spells s (g1 ∷ g2 ∷ g3 ∷ g4 ∷ g5 ∷ []) g h =
    FiveGroups-Spells g g1 g2 g3 g4 g5 (parse_groups_inversion s g1 g2 g3 g4 g5 g h)
parse_groups-Spells s _ g h = unfold parse_groups in absurd (err-ne-ok h)

Spells-text :
    (g : Guid) (ps : List Bytes)
    → Spells g ps
    → (format_guid g ≡ map lower (Parts.join ps b'-')) × IsValid g
Spells-text g [] h = absurd h
Spells-text g (p ∷ ps) (e, v) = (ap (λ qs. Parts.join qs b'-') e ∙ sym (map-join p ps), v)

-- An accepted text, without its braces and in lower case, is the usual text of the result, whose
-- fields fit their widths.
pub parse_sound :
    (s : Bytes) (g : Guid)
    → parse_guid s ≡ ok g
    → (format_guid g ≡ map lower (Parts.trim_braces s)) × IsValid g
unfolding parse_guid
parse_sound s g h =
    let t = Parts.trim_braces s in
    rw (Parts.join-split t b'-') at
      (Spells-text g (Parts.split t b'-') (parse_groups-Spells t (Parts.split t b'-') g h))
