-- ===== src/Client/Objects/Service.antt =====
-- `Service`: its characteristics and its descriptors.
--
-- bluepy/btle.py, lines 137 to 163.
use bluepy.Client.Objects.{
  uuid_from, peripheral_characteristics, is_uuid, choose_descriptors, peripheral_descriptors,
  Characteristic, Descriptor, number_from,
}
use bluepy.Client.Parse.{PyValue}
use bluepy.Common.{none, same_text, ◌+◌, some, leb, if◌then◌else◌, ℕ, List, Option, Text, [], ◌∷◌}
use bluepy.Client.Talk.{done, Talk, ◌>>=◌}

-- The items that were discovered before; none is also what there is at first.
pub record Service : Type 0 where
  pub uuid : Text
  pub start : PyValue
  pub end : PyValue
  pub chars : List Characteristic
  pub descs : List Descriptor

-- The characteristics of the range, which may be empty.
abbrev chars_in : ℕ → ℕ → Talk (List Characteristic)
chars_in start end = if leb end start then done [] else peripheral_characteristics start end none

-- The first half of `getCharacteristics`
unfoldable pub fill_chars : Service → Talk Service
fill_chars svc = elim svc.chars [
  | [] ↦ do
    e ← number_from svc.end
    s ← number_from svc.start
    cs ← chars_in s e
    done (record svc { chars = cs })
  | c ∷ cs ↦ done svc
]

-- `[ch for ch in self.chars if ch.uuid==u]`
unfoldable pub chars_with : Text → List Characteristic → List Characteristic
chars_with u [] = []
chars_with u (c ∷ cs) = let rest = chars_with u cs in if same_text c.uuid u then c ∷ rest else rest

unfoldable pub choose_chars : Option PyValue → List Characteristic → Talk (List Characteristic)
choose_chars none chars = done chars
choose_chars (some v) chars = do u ← uuid_from v; done (chars_with u chars)

-- `getCharacteristics`
unfoldable pub service_characteristics :
    Option PyValue → Service → Talk (Service × List Characteristic)
service_characteristics for_uuid svc = do
  svc' ← fill_chars svc
  chars ← choose_chars for_uuid svc'.chars
  done (svc', chars)

-- `[desc for desc in all_descs if desc.uuid != 0x2803]`
unfoldable pub drop_declarations : List Descriptor → List Descriptor
drop_declarations [] = []
drop_declarations (d ∷ ds) =
    let rest = drop_declarations ds in if is_uuid 0x2803 d.uuid then rest else d ∷ rest

unfoldable pub fill_service_descs : Service → Talk Service
fill_service_descs svc = elim svc.descs [
  | [] ↦ do
    s ← number_from svc.start
    e ← number_from svc.end
    found ← peripheral_descriptors (s + 1) e
    done (record svc { descs = drop_declarations found })
  | d ∷ ds ↦ done svc
]

-- `getDescriptors`
unfoldable pub service_descriptors : Option PyValue → Service → Talk (Service × List Descriptor)
service_descriptors for_uuid svc = do
  svc' ← fill_service_descs svc
  descs ← choose_descriptors for_uuid svc'.descs
  done (svc', descs)
