-- ===== src/Client/Peripheral.antt =====
-- `Peripheral`: what its methods write, and what they take from the queue of lines.
--
-- bluepy/btle.py, lines 422 to 571: `_getResp`, the discovery and the reading of values. The objects
-- that are made of the results stand in Client/Objects.
use bluepy.Client.Scanner.{b2a_hex}
use bluepy.Common.Hex.{show_hex}
use bluepy.Client.Wait.{
  wait_resp, wait_rest, is_wanted, crashed, first_value, lookup, waiting, response, Waited,
}
use bluepy.Client.Parse.{Resp, PyValue}
pub mod Queue
pub mod Lines
pub mod Values
pub mod Services
pub mod Writing
pub mod Connect
pub mod Discovery
pub mod Items
pub mod Characteristics
pub mod Lookups
pub mod Methods
pub mod Managed
pub mod LocalOob
use bluepy.Common.{
  Bool, zero, ◌&&◌, ◌==◌, suc, ◌++◌, none, ◌+◌, some, length, if◌then◌else◌, codes, ℕ, Text, Option,
  List, [], ◌∷◌,
}

-- The handle and the data that the delegate is told, if there is one.
abbrev pub Notification : Type 0
Notification = PyValue × PyValue

-- How a call of `_getResp` ends, what the delegate has been told before, and the lines that are left
-- in the queue.
pub record Got : Type 0 where
  pub notified : List Notification
  pub outcome : Waited
  pub left : List Text

-- `['ntfy', 'ind']`
abbrev pub event_types : List Text
event_types = codes "ntfy" ∷ codes "ind" ∷ []

abbrev ending : Waited → List Text → Got
ending w lines = record { notified = []; outcome = w; left = lines }

-- `resp['hnd'][0]` and `resp['d'][0]`
unfoldable pub notification : Resp → Option Notification
notification resp = elim (first_value (codes "hnd") resp) [
  | none ↦ none
  | some hnd ↦ elim (first_value (codes "d") resp) [ none ↦ none | some data' ↦ some (hnd, data') ]
]

abbrev pub notify : Option Notification → List Text → Got → Got
notify none lines got = ending crashed lines
notify (some n) lines got = record {
  notified = n ∷ got.notified;
  outcome = got.outcome;
  left = got.left;
}

module _ (want_type : List Text) where
  -- The test at the end of the loop, where `again` is what another round gives.
  unfoldable pub finish : PyValue → Resp → Got → List Text → Got
  finish kind resp again lines =
      if is_wanted want_type kind then ending (response resp) lines else again

  -- One round of the loop, given how `_waitResp` ended and the lines that it left.
  unfoldable pub take_resp : Got → List Text → Waited → Got
  take_resp again lines (response resp) = elim (first_value (codes "rsp") resp) [
    | none ↦ ending crashed lines
    | some kind ↦
        let done = finish kind resp again lines in
        if is_wanted event_types kind then notify (notification resp) lines done else done
  ]
  take_resp again lines w = ending w lines

  -- The loop of `_getResp`. Each round takes a line at least.
  unfoldable pub get_resp : ℕ → List Text → Got
  get_resp zero lines = ending waiting lines
  get_resp (suc fuel) lines =
      let rest = wait_rest (want_type ++ event_types) lines in
      let again = get_resp fuel rest in
      take_resp again rest (wait_resp (want_type ++ event_types) lines)

-- What a method returns, or the exception that ends it: a missing key, a list that is too short, a
-- failed assertion, or how the wait for the response ended.
pub data Fetched {ℓ} (A : Type ℓ) : Type ℓ where
  fetched : A → Fetched A
  key_error index_error assertion_error : Fetched A
  failed : Waited → Fetched A

abbrev pub fetch {ℓ} : {A : Type ℓ} → Waited → (Resp → Fetched A) → Fetched A
fetch (response resp) f = f resp
fetch w f = failed w

-- `self._getResp(kind)`
abbrev pub get_reply : Text → List Text → Got
get_reply kind lines = get_resp (kind ∷ []) (length lines + 1) lines

abbrev pub reply : Text → List Text → Waited
reply kind lines = (get_reply kind lines).outcome

-- `resp[tag]`: a tag that is there has a value.
unfoldable pub with_key {ℓ} : {A : Type ℓ} → Text → Resp → (List PyValue → Fetched A) → Fetched A
with_key tag resp f = elim (lookup tag resp) [ [] ↦ key_error | v ∷ vs ↦ f (v ∷ vs) ]

-- What `readCharacteristic` writes.
unfoldable pub read_command : ℕ → Text
read_command handle = codes "rd " ++ show_hex handle ++ codes "\n"

abbrev first_of : List PyValue → Fetched PyValue
first_of [] = index_error
first_of (v ∷ vs) = fetched v

-- What `readCharacteristic` makes of the lines that come then.
unfoldable pub read_characteristic : List Text → Fetched PyValue
read_characteristic lines =
    fetch (reply (codes "rd") lines) (λ resp. with_key (codes "d") resp first_of)

-- What `writeCharacteristic` writes.
unfoldable pub write_command : Bool → ℕ → Text → Text
write_command with_response handle val =
    (if with_response then codes "wrr" else codes "wr")
    ++ codes " "
    ++ show_hex handle
    ++ codes " "
    ++ b2a_hex val
    ++ codes "\n"

-- The response that `writeCharacteristic` returns.
unfoldable pub write_characteristic : List Text → Fetched Resp
write_characteristic lines = fetch (reply (codes "wr") lines) (λ resp. fetched resp)

-- The arguments of a `Service`.
pub record Found : Type 0 where
  pub uuid : PyValue
  pub start : PyValue
  pub end : PyValue

-- The loop over the range of `uuids`, for lists of the same length.
abbrev pub zip_services : List PyValue → List PyValue → List PyValue → Fetched (List Found)
zip_services (u ∷ us) (s ∷ ss) (e ∷ es) = elim (zip_services us ss es) [
  | fetched rest ↦ fetched (record { uuid = u; start = s; end = e } ∷ rest)
  | err ↦ err
]
zip_services [] _ _ = fetched []
zip_services _ _ _ = index_error

unfoldable pub make_services : List PyValue → List PyValue → List PyValue → Fetched (List Found)
make_services starts ends uuids =
    if length starts == length uuids && length ends == length uuids
    then zip_services uuids starts ends
    else assertion_error

-- What `discoverServices` makes of the response.
unfoldable pub services_of_resp : Resp → Fetched (List Found)
services_of_resp resp = with_key (codes "hstart") resp (λ starts.
    with_key (codes "hend") resp
      (λ ends. with_key (codes "uuid") resp (λ uuids. make_services starts ends uuids)))

-- What `discoverServices` takes from the lines that come then. It makes a dictionary of these, which
-- is `discover` in Client/Objects/Dictionary.
unfoldable pub service_args : List Text → Fetched (List Found)
service_args lines = fetch (reply (codes "find") lines) services_of_resp
