-- ===== src/Guid/Text.antt =====
-- The text of a GUID, and when its fields fit their widths.
use wslcsession.Base.{ℕ, ◌/◌, ◌%◌, ◌<◌, ◌^◌, ◌≡◌, Bytes, List, [], ◌∷◌, All, length, take, drop}
use wslcsession.Strings.Hex
use wslcsession.Strings.Hex.{IsByte, lower}
use wslcsession.Strings.Parts
use wslcsession.Strings.Parts.{NoBrace}
use wslcsession.Guid.{Guid}

-- The text of a GUID in its usual form: lower case, in groups of 8, 4, 4, 4 and 12 digits.
abbrev pub bytes4 : ℕ → Bytes
bytes4 n = (n / 16777216) ∷ (n / 65536 % 256) ∷ (n / 256 % 256) ∷ (n % 256) ∷ []

abbrev pub bytes2 : ℕ → Bytes
bytes2 n = (n / 256) ∷ (n % 256) ∷ []

abbrev pub groups : Guid → List Bytes
groups g =
    Hex.encode (bytes2 g.data2)
    ∷ Hex.encode (bytes2 g.data3)
    ∷ Hex.encode (take 2 g.data4)
    ∷ Hex.encode (drop 2 g.data4)
    ∷ []

abbrev pub format_guid : Guid → Bytes
format_guid g = Parts.join (Hex.encode (bytes4 g.data1) ∷ groups g) b'-'

pub record IsValid (g : Guid) : Type 0 where
  pub data1_fits : g.data1 < 2 ^ 32
  pub data2_fits : g.data2 < 2 ^ 16
  pub data3_fits : g.data3 < 2 ^ 16
  pub eight : length g.data4 ≡ 8
  pub bytes : All IsByte g.data4
