-- ===== src/Client/Objects/Dictionary.antt =====
-- The services that a `Peripheral` knows, by their UUID.
--
-- bluepy/btle.py, lines 486 to 525. A call that ends with an exception gives no dictionary.
use bluepy.Client.Wait.{gatt_error}
use bluepy.Client.Uuid.{uuid_text}
use bluepy.Client.Peripheral.Methods.{expect}
use bluepy.Client.Peripheral.Discovery.{range_of_resp, service_command}
use bluepy.Client.Objects.{uuid_from}
use bluepy.Client.Objects.Service.{Service}
use bluepy.Client.Peripheral.{services_of_resp, failed, Found}
use bluepy.Client.Parse.{Resp, PyValue}
use bluepy.Common.{same_text, if◌then◌else◌, codes, none, some, List, Option, Text, [], ◌∷◌}
use bluepy.Client.Talk.{with_outcome, done, write, Talk, ◌>>=◌, ◌>>◌}

-- A dictionary in insertion order, from the bytes of a UUID.
abbrev pub ServiceMap : Type 0
ServiceMap = List (Text × Service)

-- `self._serviceMap[uuid] = svc`
unfoldable pub put_service : Text → Service → ServiceMap → ServiceMap
put_service uuid svc [] = (uuid, svc) ∷ []
put_service uuid svc ((k, old) ∷ services) =
    let rest = put_service uuid svc services in
    if same_text k uuid then (k, svc) ∷ services else (k, old) ∷ rest

-- `self._serviceMap[uuid]`, where it is there.
unfoldable pub find_service : Text → ServiceMap → Option Service
find_service uuid [] = none
find_service uuid ((k, svc) ∷ services) =
    let rest = find_service uuid services in if same_text k uuid then some svc else rest

abbrev pub new_service : Text → PyValue → PyValue → Service
new_service uuid start end = record {
  uuid = uuid;
  start = start;
  end = end;
  chars = [];
  descs = [];
}

-- The loop of `discoverServices`, where a later service takes the place of one with its UUID.
unfoldable pub put_found : List Found → ServiceMap → Talk ServiceMap
put_found [] services = done services
put_found (f ∷ fs) services = do
  u ← uuid_from f.uuid
  put_found fs (put_service u (new_service u f.start f.end) services)

-- `discoverServices`
unfoldable pub discover : Talk ServiceMap
discover = do
  write (codes "svcs\n")
  resp ← expect (codes "find")
  items ← with_outcome (services_of_resp resp)
  put_found items []

-- `services` and `getServices`: the dictionary is made if there is none yet.
unfoldable pub get_services : Option ServiceMap → Talk ServiceMap
get_services none = discover
get_services (some services) = done services

-- `self._serviceMap`, or an empty one.
abbrev pub known : Option ServiceMap → ServiceMap
known none = []
known (some services) = services

-- The error that the service is not found, or the service of the range.
abbrev found_service : Text → Resp → Option (PyValue × PyValue) → Talk Service
found_service uuid resp none = with_outcome (failed (gatt_error resp))
found_service uuid resp (some (start, end)) = done (new_service uuid start end)

-- What `getServiceByUUID` does where the UUID is not in the dictionary.
unfoldable pub ask_service : Text → Talk Service
ask_service uuid = do
  write (service_command (uuid_text uuid))
  resp ← expect (codes "find")
  range ← with_outcome (range_of_resp resp)
  found_service uuid resp range

-- `getServiceByUUID`, with the dictionary behind it.
unfoldable pub get_service_by_uuid : PyValue → Option ServiceMap → Talk (ServiceMap × Service)
get_service_by_uuid uuid_val services = do
  u ← uuid_from uuid_val
  elim (find_service u (known services)) [
    | some svc ↦ done (known services, svc)
    | none ↦ do svc ← ask_service u; done (put_service u svc (known services), svc)
  ]
