-- ===== src/Tests/Texts.antt =====
-- GUIDs, flags, files and the numbers of requests.
use wslcsession.Base.{
  done, ap, sym, ◌∙◌, length, ℕ, ◌*◌, ◌^◌, ◌<◌, ◌≡◌, ◌≢◌, ◌⊎◌, refl, true, false, Bytes, List, [],
  ◌∷◌, ◌++◌, Option, none, some, arith, ok, All, Lacks, codes, map, Ends, Error,
}
use wslcsession.Bridge.{extract_bridge_binary, write_if_changed}
use wslcsession.Bridge.Extract.{extract_bridge_binary-content_of, write_if_changed_lem, content_of}
use wslcsession.Com.Abi.{StringArray}
use wslcsession.Com.Api.{volume_request, make_string_array, byte_ptrs}
use wslcsession.Com.Arrays.{make_string_array_sound, terminated}
use wslcsession.Com.Api.{get_display_name, session_name}
use wslcsession.Com.Names.{get_display_name-session_name}
use wslcsession.Com.Settings.{size_bytes_exact, size_bytes_wraps, first_option}
use wslcsession.Com.Trace.{Env, invoke, no_args, read_file, write_file, Trace}
use wslcsession.Demo.{set, SessionFlags, validate, to_options}
use wslcsession.Demo.Laws.{
  print_volume, set-print_volume, set_sound, set_error, validate-needs_storage_path,
}
use wslcsession.Guid.{Guid, parse_guid}
use wslcsession.Guid.RoundTrip.{parse-format, parse-format_braced}
use wslcsession.Guid.Sound.{parse_sound}
use wslcsession.Guid.Text.{IsValid, format_guid}
use wslcsession.Options.{VolumeOptions}
use wslcsession.Session.{needs_storage_path}
use wslcsession.Strings.Decimal.{parse_uint, spelled, IsDigit}
use wslcsession.Strings.Hex
use wslcsession.Strings.Parts
use wslcsession.Strings.Pointers.{byte_ptr, utf16_ptr, encode_rune, units}
use wslcsession.Strings.Pointers.RoundTrip.{text, all_units, utf16_ptr-text}
use wslcsession.Tests.Service.{answer, service, volume_x, options}

abbrev guid : Guid
guid = record {
  data1 = 0x01020304;
  data2 = 0xa0b;
  data3 = 12;
  data4 = 1 ∷ 2 ∷ 3 ∷ 4 ∷ 5 ∷ 6 ∷ 7 ∷ 255 ∷ [];
}

guid-IsValid : IsValid guid
guid-IsValid = record {
  data1_fits = omega arith;
  data2_fits = omega arith;
  data3_fits = omega arith;
  eight = refl;
  bytes = omega arith;
}

parse-format_example : parse_guid (format_guid guid) ≡ ok guid
parse-format_example = parse-format guid guid-IsValid

braced_text : parse_guid (b'{' ∷ (format_guid guid ++ b'}' ∷ [])) ≡ ok guid
braced_text = parse-format_braced guid guid-IsValid

parse_sound_example :
    (format_guid guid ≡ map Hex.lower (Parts.trim_braces (format_guid guid))) × IsValid guid
parse_sound_example = parse_sound (format_guid guid) guid parse-format_example

set-print_volume_example : set [] (print_volume volume_x) ≡ (volume_x ∷ [], none)
set-print_volume_example = set-print_volume [] volume_x (omega arith, tt) (omega arith)

set_sound_example :
    (o : VolumeOptions) × (size : Bytes) × (more : List Bytes) × (print_volume volume_x
      ≡ Parts.join (o.name ∷ size ∷ more) b':')
    × Lacks b':' o.name
    × (0 < length size)
    × All IsDigit size
    × (o.size_mb ≡ spelled size 0)
    × (o.size_mb < 2 ^ 64)
    × (volume_x ∷ [] ≡ o ∷ [])
set_sound_example = set_sound [] (volume_x ∷ []) (print_volume volume_x) set-print_volume_example

set_error_example : ((set [] (codes "x")).1 ≡ none) ⊎ ((set [] (codes "x")).0 ≡ [])
set_error_example = set_error [] (codes "x")

abbrev flags : SessionFlags
flags = record {
  name = codes "demo";
  cpu_count = 2;
  memory_mb = 2048;
  storage_path = [];
  storage_size_mb = 65536;
  volumes = volume_x ∷ [];
}

flags_agree :
    ((validate flags ≡ none) × (needs_storage_path (to_options flags) ≡ false))
    ⊎ ((validate flags ≢ none) × (needs_storage_path (to_options flags) ≡ true))
flags_agree = validate-needs_storage_path flags

extract_bridge_binary-content_of_example :
    Ends
      (extract_bridge_binary service [])
      (λ dir t'.
        (dir ≡ codes "C:\\Temp\\wslcsession-bridge")
        × (content_of (dir ++ codes "\\bridge.c") t' ≡ some (codes "int main"))
        × (content_of (dir ++ codes "\\entrypoint.sh") t' ≡ some (codes "set -e")))
      (λ _ _. Unit)
extract_bridge_binary-content_of_example = extract_bridge_binary-content_of service []

abbrev seen : Trace
seen = record { call = read_file (codes "f"); reply = answer 0 0 [] } ∷ []

abbrev written : Trace
written = record { call = write_file (codes "f") (codes "x") 420; reply = answer 0 0 [] } ∷ seen

written_once :
    Ends
      (write_if_changed service (codes "f") (codes "x") 420 [])
      (λ _ t'.
        ((◌≡◌ {A = Option Error} none none) × (◌≡◌ {A = Bytes} [] (codes "x")) × (t' ≡ seen))
        ⊎ (((◌≢◌ {A = Option Error} none none) ⊎ (◌≢◌ {A = Bytes} [] (codes "x")))
            × (◌≡◌ {A = Option Error} none none)
            × (t' ≡ written)))
      (λ e t'.
        ((◌≢◌ {A = Option Error} none none) ⊎ (◌≢◌ {A = Bytes} [] (codes "x")))
        × (◌≡◌ {A = Option Error} none (some e))
        × (t' ≡ written))
written_once = write_if_changed_lem service (codes "f") (codes "x") 420 []

volume_x_size :
    (s : Bytes) × (first_option (volume_request volume_x (codes "x") (codes "vhd")) ≡ s ++ 0 ∷ [])
    × (parse_uint s ≡ ok (1024 * 2 ^ 20))
volume_x_size = size_bytes_exact volume_x (codes "x") (codes "vhd") (omega arith)

abbrev huge : VolumeOptions
huge = record { name = codes "x"; size_mb = 0x100000000000; fixed = false }

size_bytes_wraps_example :
    first_option (volume_request huge (codes "x") (codes "vhd")) ≡ b'0' ∷ 0 ∷ []
size_bytes_wraps_example = size_bytes_wraps huge (codes "x") (codes "vhd") 1 (omega arith)

abbrev two_strings : StringArray
two_strings = record { values = some ((b'a' ∷ 0 ∷ []) ∷ (0 ∷ []) ∷ []); count = 2 }

made : make_string_array (codes "a" ∷ [] ∷ []) ≡ ok two_strings
unfolding make_string_array byte_ptrs byte_ptr
made = refl

array_made :
    All (Lacks 0) (codes "a" ∷ [] ∷ [])
    × (◌≡◌ {A = ℕ} 2 2)
    × (((◌≡◌ {A = List Bytes} (codes "a" ∷ [] ∷ []) []) × (two_strings.values ≡ none))
        ⊎ ((◌≢◌ {A = List Bytes} (codes "a" ∷ [] ∷ []) [])
            × (two_strings.values ≡ some (map terminated (codes "a" ∷ [] ∷ [])))))
array_made = make_string_array_sound (codes "a" ∷ [] ∷ []) two_strings made

-- A service that answers with the units of "demo" and a rest.
abbrev demo_units : List ℕ
demo_units = b'd' ∷ b'e' ∷ b'm' ∷ b'o' ∷ 0 ∷ []

abbrev naming_service : Env
naming_service = record service {
  reply = λ _ c. record (answer 0 0 []) { units = demo_units ++ 7 ∷ [] };
}

demo_text : text (codes "demo") ≡ codes "demo"
unfolding encode_rune
demo_text = refl

demo_name : session_name naming_service options ≡ codes "demo"
unfolding session_name
demo_name = refl

demo_sent : utf16_ptr (session_name naming_service options) ≡ ok demo_units
demo_sent =
    ap utf16_ptr (demo_name ∙ sym demo_text)
    ∙ utf16_ptr-text (codes "demo") (omega arith)
    ∙ (unfold units in refl)

demo_short : length (all_units (codes "demo")) < 256
demo_short = unfold units in omega arith

get_display_name-session_name_example :
    get_display_name naming_service 200 []
    ≡ done (session_name naming_service options) (
        record {
          call = invoke 200 4 no_args;
          reply = record (answer 0 0 []) { units = demo_units ++ 7 ∷ [] };
        }
        ∷ [])
get_display_name-session_name_example =
    get_display_name-session_name naming_service 200 options (codes "demo") demo_units (7 ∷ []) []
      (demo_name ∙ sym demo_text) (omega arith) demo_short demo_sent (omega arith) refl
