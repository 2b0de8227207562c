-- ===== src/Client/Peripheral/Discovery.antt =====
-- `getCharacteristics`, `getDescriptors` and `getServiceByUUID`: their commands, and the arguments of
-- the objects that they make of the response.
--
-- bluepy/btle.py, lines 512 to 555.
use bluepy.Common.Hex.{show_hex}
use bluepy.Client.Wait.{lookup}
use bluepy.Client.Peripheral.{key_error, index_error, reply, with_key, fetched, fetch, Fetched}
use bluepy.Client.Parse.{Resp, PyValue}
use bluepy.Common.{some, none, ◌++◌, codes, Option, Text, ℕ, List, [], ◌∷◌}

-- The UUID is given as the text of a `UUID`.
unfoldable pub characteristics_command : ℕ → ℕ → Option Text → Text
characteristics_command start end none =
    codes "char " ++ show_hex start ++ codes " " ++ show_hex end ++ codes "\n"
characteristics_command start end (some uuid) =
    codes "char " ++ show_hex start ++ codes " " ++ show_hex end ++ codes " " ++ uuid ++ codes "\n"

-- The arguments of a `Characteristic`.
pub record FoundChar : Type 0 where
  pub uuid : PyValue
  pub handle : PyValue
  pub properties : PyValue
  pub val_handle : PyValue

abbrev cons_fetched : {A : Type 0} → A → Fetched (List A) → Fetched (List A)
cons_fetched x (fetched xs) = fetched (x ∷ xs)
cons_fetched x err = err

-- The comprehension over the range of `rsp['hnd']`.
abbrev pub make_chars :
    List PyValue → List PyValue → List PyValue → List PyValue → Fetched (List FoundChar)
make_chars [] _ _ _ = fetched []
make_chars (h ∷ hs) (u ∷ us) (p ∷ ps) (v ∷ vs) =
    cons_fetched (record { uuid = u; handle = h; properties = p; val_handle = v })
      (make_chars hs us ps vs)
make_chars _ _ _ _ = index_error

unfoldable pub chars_of_resp : Resp → Fetched (List FoundChar)
chars_of_resp resp = with_key (codes "hnd") resp (λ hnds. with_key (codes "uuid") resp (λ uuids.
    with_key (codes "props") resp
      (λ props. with_key (codes "vhnd") resp (λ vhnds. make_chars hnds uuids props vhnds))))

-- What `getCharacteristics` takes from the lines that come then. It makes objects of these, which is
-- `peripheral_characteristics` in Client/Objects.
unfoldable pub characteristic_args : List Text → Fetched (List FoundChar)
characteristic_args lines = fetch (reply (codes "find") lines) chars_of_resp

unfoldable pub descriptors_command : ℕ → ℕ → Text
descriptors_command start end =
    codes "desc " ++ show_hex start ++ codes " " ++ show_hex end ++ codes "\n"

-- The arguments of a `Descriptor`.
pub record FoundDesc : Type 0 where
  pub uuid : PyValue
  pub handle : PyValue

abbrev pub make_descs : List PyValue → List PyValue → Fetched (List FoundDesc)
make_descs [] _ = fetched []
make_descs (h ∷ hs) (u ∷ us) = cons_fetched (record { uuid = u; handle = h }) (make_descs hs us)
make_descs _ _ = index_error

unfoldable pub descs_of_resp : Resp → Fetched (List FoundDesc)
descs_of_resp resp =
    with_key (codes "hnd") resp
      (λ hnds. with_key (codes "uuid") resp (λ uuids. make_descs hnds uuids))

unfoldable pub get_descriptors : List Text → Fetched (List FoundDesc)
get_descriptors lines = fetch (reply (codes "desc") lines) descs_of_resp

-- What `getServiceByUUID` writes where the UUID is not in its dictionary.
unfoldable pub service_command : Text → Text
service_command uuid = codes "svcs " ++ uuid ++ codes "\n"

-- The range of handles of the service, or none where the error is raised that it is not there.
unfoldable pub range_of_resp : Resp → Fetched (Option (PyValue × PyValue))
range_of_resp resp = elim (lookup (codes "hstart") resp) [
  | [] ↦ fetched none
  | s ∷ ss ↦ elim (lookup (codes "hend") resp) [ [] ↦ key_error | e ∷ es ↦ fetched (some (s, e)) ]
]

unfoldable pub get_service : List Text → Fetched (Option (PyValue × PyValue))
get_service lines = fetch (reply (codes "find") lines) range_of_resp
