-- ===== src/Tests/Objects.antt =====
-- The objects of the client, at concrete inputs.
use bluepy.Client.Objects.Discovered.{discover-finds, last_with, HasWholeUuid, listed_services}
use bluepy.Client.Peripheral.Services.{IsCleanPrimary}
use bluepy.Tests.Client.{hello-IsPassed}
use bluepy.Client.Peripheral.Discovery.{descriptors_command}
use bluepy.Common.Hex.{hex_digit, hex_loop, show_hex, hex_value}
use bluepy.Protocol.Wire.{bytes}
use bluepy.Client.Parse.Plain.{plain-IsCleanText}
use bluepy.Client.Objects.Kept.{get_service_by_uuid-kept}
use bluepy.Client.Peripheral.{fetched}
use bluepy.Client.Peripheral.Lookups.{IsCleanDesc}
use bluepy.Protocol.{rsp_discovery, rsp_descriptors, tag_data, rsp_oob}
use bluepy.Tests.{range, connected_world, test_env}
use bluepy.Common.Hex.Digits.{All}
use bluepy.Common.Int.{pos}
use bluepy.Client.Scan.Values.Services.{concat}
use bluepy.Protocol.Responses.{field, line}
use bluepy.Gatt.Reports.{Range, primary_all_cb, char_desc_cb}
use bluepy.World.{printed_text, ret, Event}
use bluepy.Client.Scanner.{lower_digit, b2a_hex}
use bluepy.Client.Objects.Found.{IsBeyond, char_descriptors-finds, IsPlain, listed, IsWhole, made}
use bluepy.Client.Parse.{a2b_hex, int, text}
use bluepy.Client.Objects.Service.{Service}
use bluepy.Client.Peripheral.LocalOob.{OobDict, get_local_oob-raises, get_local_oob}
use bluepy.Client.Uuid.{expand, remove_dashes, make_uuid, uuid_text}
use bluepy.Client.Objects.Dictionary.{discover, find_service, ServiceMap, get_service_by_uuid}
use bluepy.Client.Objects.{char_descriptors, show_short, uuid_of_value, Characteristic, is_uuid}
use bluepy.Common.{
  none, ◌≢◌, refl, arith, ◌≡◌, some, replicate, ◌++◌, codes, ◌<◌, Text, ℕ, List, [], ◌∷◌,
}

abbrev hello : List Text
hello = codes "# hello\n" ∷ []

-- Out-of-band data that is well-formed.
abbrev oob_data : Text
oob_data =
    8 ∷ 0x1b ∷ 1 ∷ 2 ∷ 3 ∷ 4 ∷ 5 ∷ 6 ∷ 0 ∷ 2 ∷ 0x1c ∷ 0 ∷ 17 ∷ 0x22 ∷ replicate 16 7
    ++ (17 ∷ 0x23 ∷ replicate 16 9 ++ 2 ∷ 1 ∷ 5 ∷ [])

abbrev some_oob : OobDict
some_oob = record {
  address = codes "010203040506";
  addr_type = codes "00";
  role = codes "00";
  c_256 = concat (replicate 16 (codes "07"));
  r_256 = concat (replicate 16 (codes "09"));
  flags = codes "05";
}

get_local_oob-raises_example :
    (get_local_oob (hello ++ (line rsp_oob (field tag_data (bytes oob_data) ∷ []) ∷ []))).outcome
    ≢ fetched some_oob
get_local_oob-raises_example =
    get_local_oob-raises (hello ++ (line rsp_oob (field tag_data (bytes oob_data) ∷ []) ∷ []))
      some_oob

-- The UUID of 16 bytes of a short one.
abbrev whole_uuid : ℕ → ℕ → Text
whole_uuid a b =
    0 ∷ 0 ∷ a ∷ b ∷ 0 ∷ 0 ∷ 0x10 ∷ 0 ∷ 0x80 ∷ 0 ∷ 0 ∷ 0x80 ∷ 0x5f ∷ 0x9b ∷ 0x34 ∷ 0xfb ∷ []

abbrev battery_service : Service
battery_service = record {
  uuid = whole_uuid 0x18 0x0f;
  start = int (pos 1);
  end = int (pos 9);
  chars = [];
  descs = [];
}

abbrev battery_map : ServiceMap
battery_map = (whole_uuid 0x18 0x0f, battery_service) ∷ []

battery-found :
    (get_service_by_uuid (text (codes "180f")) (some battery_map) hello).outcome
    ≡ fetched (battery_map, battery_service)
unfolding get_service_by_uuid uuid_of_value make_uuid remove_dashes expand a2b_hex hex_value
    find_service
battery-found = refl

get_service_by_uuid-kept_example :
    get_service_by_uuid (text (codes "180f")) (some battery_map) []
    ≡ record { outcome = fetched (battery_map, battery_service); written = []; left = [] }
get_service_by_uuid-kept_example =
    get_service_by_uuid-kept (text (codes "180f")) (some battery_map) battery_map battery_service
      hello [] battery-found

-- A descriptor of a characteristic, and the declaration of the next one.
abbrev config : ℕ × Text
config = (4, whole_uuid 0x29 0x02)

abbrev declaration : ℕ × Text
declaration = (5, whole_uuid 0x28 0x03)

whole_uuid-IsWhole : (h a b : ℕ) → a < 256 → b < 256 → IsWhole (h, whole_uuid a b)
whole_uuid-IsWhole h a b small little = (refl, ground arith)

abbrev level : Characteristic
level = record {
  uuid = whole_uuid 0x2a 0x19;
  handle = int (pos 2);
  properties = int (pos 2);
  val_handle = int (pos 3);
  descs = [];
}

config-IsPlain : IsPlain config
unfolding is_uuid uuid_of_value make_uuid remove_dashes expand a2b_hex hex_value show_short show_hex
    hex_loop hex_digit
config-IsPlain = refl

declaration-IsBeyond : IsBeyond (declaration ∷ [])
unfolding is_uuid uuid_of_value make_uuid remove_dashes expand a2b_hex hex_value show_short show_hex
    hex_loop hex_digit
declaration-IsBeyond = refl

config-clean : All IsCleanDesc (listed (config ∷ declaration ∷ []))
unfolding uuid_text b2a_hex lower_digit
config-clean =
    ((omega arith, plain-IsCleanText _ refl), ((omega arith, plain-IsCleanText _ refl), tt))

abbrev level_now : Characteristic
level_now = record level { descs = made (config ∷ []) }

char_descriptors-finds_example :
    (es : List Event) × (char_desc_cb test_env 0
        (listed (config ∷ declaration ∷ []))
        connected_world
      ≡ ret tt (record connected_world { trace = es ++ [] }))
    × (char_descriptors none 9 level (hello ++ (printed_text es ∷ [])) ≡ record {
      outcome = fetched (level_now, made (config ∷ []));
      written = descriptors_command 4 9 ∷ [];
      left = [];
    })
    × (char_descriptors none 9 level_now hello
        ≡ record { outcome = fetched (level_now, made (config ∷ [])); written = []; left = hello })
char_descriptors-finds_example =
    char_descriptors-finds test_env level 3 9 config [] (declaration ∷ []) connected_world hello []
      hello refl refl
      (
        whole_uuid-IsWhole 4 0x29 0x02 (omega arith) (omega arith),
        (whole_uuid-IsWhole 5 0x28 0x03 (omega arith) (omega arith), tt),
      )
      config-clean (config-IsPlain, tt) declaration-IsBeyond (hello-IsPassed rsp_descriptors, tt)

-- Two services with one UUID.
abbrev first_battery : Range × Text
first_battery = (range, whole_uuid 0x18 0x0f)

abbrev second_battery : Range × Text
second_battery = (record { start = 10; end = 12 }, whole_uuid 0x18 0x0f)

whole_uuid-HasWholeUuid :
    (r : Range) (a b : ℕ) → a < 256 → b < 256 → HasWholeUuid (r, whole_uuid a b)
whole_uuid-HasWholeUuid r a b small little = (refl, ground arith)

batteries-clean : All IsCleanPrimary (listed_services (first_battery ∷ second_battery ∷ []))
unfolding uuid_text b2a_hex lower_digit
batteries-clean = (
  (omega arith, omega arith, plain-IsCleanText _ refl),
  ((omega arith, omega arith, plain-IsCleanText _ refl), tt),
)

discover-finds_example :
    (es : List Event) × (services : ServiceMap) × (primary_all_cb test_env 0
        (listed_services (first_battery ∷ second_battery ∷ []))
        connected_world
      ≡ ret tt (record connected_world { trace = es ++ [] }))
    × (discover (hello ++ (printed_text es ∷ []))
        ≡ record { outcome = fetched services; written = codes "svcs\n" ∷ []; left = [] })
    × ((u : Text)
        → find_service u services ≡ last_with u (first_battery ∷ second_battery ∷ []) none)
discover-finds_example =
    discover-finds test_env first_battery (second_battery ∷ []) connected_world hello []
      (
        whole_uuid-HasWholeUuid range 0x18 0x0f (omega arith) (omega arith),
        (
          whole_uuid-HasWholeUuid (record { start = 10; end = 12 }) 0x18 0x0f (omega arith)
              (omega arith),
          tt,
        ),
      )
      batteries-clean (hello-IsPassed rsp_discovery, tt)
