-- ===== src/Guid.antt =====
-- com.go, `GUID`, `parseGUID` and `mustGUID`.
pub mod Text
pub mod RoundTrip
pub mod Sound
use wslcsession.Base.{
  ℕ, Bytes, List, [], ◌∷◌, ◌++◌, Result, ok, err, Message, invalid_guid, message, length, ◌==◌,
  if◌then◌else◌, ◌>>=◌, codes, Run, done, panic,
}
use wslcsession.Strings.Parts
use wslcsession.Strings.Hex

pub record Guid : Type 0 where
  pub data1 : ℕ
  pub data2 : ℕ
  pub data3 : ℕ
  pub data4 : Bytes

-- One group of digits: `decode` and the test of its length.
decode_group : Bytes → Bytes → ℕ → Result Bytes
decode_group s group size = elim (Hex.decode group) [
  | ok d ↦ if length d == size then ok d else err (message (invalid_guid s))
  | err _ ↦ err (message (invalid_guid s))
]

-- The five groups of the text `s`.
parse_groups : Bytes → List Bytes → Result Guid
unfolding decode_group
parse_groups s (g1 ∷ g2 ∷ g3 ∷ g4 ∷ g5 ∷ []) = do
  d1 ← decode_group s g1 4
  d2 ← decode_group s g2 2
  d3 ← decode_group s g3 2
  d4a ← decode_group s g4 2
  d4b ← decode_group s g5 6
  ok (record {
    data1 = Hex.big_endian d1;
    data2 = Hex.big_endian d2;
    data3 = Hex.big_endian d3;
    data4 = d4a ++ d4b;
  })
parse_groups s _ = err (message (invalid_guid s))

unfoldable pub parse_guid : Bytes → Result Guid
unfolding parse_groups
parse_guid s = let t = Parts.trim_braces s in parse_groups t (Parts.split t b'-')

-- Run once for each of the program's GUIDs, when it starts.
unfoldable pub must_guid : Bytes → Run (Unit {0}) Guid
must_guid s = elim (parse_guid s) [ ok g ↦ done g tt | err _ ↦ panic ]
