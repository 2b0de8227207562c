-- ===== src/Client/Peripheral/Services.antt =====
-- The discovery of services: what the helper has been told is what the client gets.
use bluepy.Client.Peripheral.Queue.{IsPassed}
use bluepy.World.{printed_text, ret, Event, World, Env}
use bluepy.Client.Parse.Plain.{plain-IsCleanText}
use bluepy.Protocol.Responses.{field}
use bluepy.Common.Int.{pos}
use bluepy.Client.Wait.{lookup}
use bluepy.Gatt.Lines.{primary_all_cb-line, primary_fields, all_fields}
use bluepy.Client.Parse.RoundTrip.{IsCleanText, IsCleanField}
use bluepy.Protocol.{tag_response, rsp_discovery}
use bluepy.Client.Lookup.{values_of}
use bluepy.Client.Peripheral.Lines.{reply-line, lookup-resp_of, resp_of}
use bluepy.Common.Hex.Digits.{All}
use bluepy.Client.Parse.{add_value, int, text, PyValue}
use bluepy.Client.Peripheral.{
  services_of_resp, key_error, service_args, zip_services, fetched, Found, with_key, make_services,
}
use bluepy.Gatt.Reports.{primary_all_cb, Primary}
use bluepy.Protocol.Wire.{Field, sym as symbol}
use bluepy.Common.{
  arith, ◌++◌, true, ◌&&◌, ◌==◌, codes, ◌^◌, refl, Text, ◌≡◌, length, ◌<◌, ℕ, List, [], ◌∷◌,
}

-- The values of one field of each service, in their order.
starts_of : List Primary → List PyValue
starts_of [] = []
starts_of (p ∷ ps) = int (pos p.range.start) ∷ starts_of ps

ends_of : List Primary → List PyValue
ends_of [] = []
ends_of (p ∷ ps) = int (pos p.range.end) ∷ ends_of ps

uuids_of : List Primary → List PyValue
uuids_of [] = []
uuids_of (p ∷ ps) = text p.uuid ∷ uuids_of ps

-- What the client is to find.
abbrev pub services_of : List Primary → List Found
services_of [] = []
services_of (p ∷ ps) =
    record { uuid = text p.uuid; start = int (pos p.range.start); end = int (pos p.range.end) }
    ∷ services_of ps

-- A service that the protocol can carry.
abbrev pub IsCleanPrimary : Primary → Type 0
IsCleanPrimary p = (p.range.start < 2 ^ 32) × (p.range.end < 2 ^ 32) × IsCleanText p.uuid

abbrev pub fields_of : List Primary → List Field
fields_of ps = all_fields primary_fields ps ++ []

values_of-starts : (ps : List Primary) → values_of (codes "hstart") (fields_of ps) ≡ starts_of ps
unfolding starts_of
values_of-starts [] = refl
values_of-starts (p ∷ ps) = rw (values_of-starts ps) refl

values_of-ends : (ps : List Primary) → values_of (codes "hend") (fields_of ps) ≡ ends_of ps
unfolding ends_of
values_of-ends [] = refl
values_of-ends (p ∷ ps) = rw (values_of-ends ps) refl

values_of-uuids : (ps : List Primary) → values_of (codes "uuid") (fields_of ps) ≡ uuids_of ps
unfolding uuids_of
values_of-uuids [] = refl
values_of-uuids (p ∷ ps) = rw (values_of-uuids ps) refl

pub fields-IsCleanField :
    (ps : List Primary) → All IsCleanPrimary ps → All IsCleanField (fields_of ps)
fields-IsCleanField [] h = tt
fields-IsCleanField (p ∷ ps) ((s, e, u), hs) = (
  (plain-IsCleanText (codes "hstart") refl, s),
  (
    (plain-IsCleanText (codes "hend") refl, e),
    ((plain-IsCleanText (codes "uuid") refl, u), fields-IsCleanField ps hs),
  ),
)

zip_services-of :
    (ps : List Primary)
    → zip_services (uuids_of ps) (starts_of ps) (ends_of ps) ≡ fetched (services_of ps)
unfolding uuids_of starts_of ends_of
zip_services-of [] = refl
zip_services-of (p ∷ ps) = rw (zip_services-of ps) refl

length-of :
    (ps : List Primary)
    → (length (starts_of ps) ≡ length (uuids_of ps)) × (length (ends_of ps) ≡ length (uuids_of ps))
unfolding uuids_of starts_of ends_of
length-of [] = (refl, refl)
length-of (p ∷ ps) = let (s, e) = length-of ps in (rw s refl, rw e refl)

same_lengths : (a b c : ℕ) → a ≡ c → b ≡ c → (a == c && b == c) ≡ true
same_lengths a b c h k = ground arith

make_services-of :
    (ps : List Primary)
    → make_services (starts_of ps) (ends_of ps) (uuids_of ps) ≡ fetched (services_of ps)
unfolding make_services
make_services-of ps =
    let (s, e) = length-of ps in rw (make_services, same_lengths _ _ _ s e) (zip_services-of ps)

module _ (ps : List Primary) where
  found :
      (tag : Text)
      → lookup tag (resp_of rsp_discovery (fields_of ps))
        ≡ values_of tag (field tag_response (symbol rsp_discovery) ∷ fields_of ps)
  found tag = lookup-resp_of tag rsp_discovery (fields_of ps)

pub services_of_resp-of :
    (p : Primary) (ps : List Primary)
    → services_of_resp (resp_of rsp_discovery (fields_of (p ∷ ps))) ≡ fetched (services_of (p ∷ ps))
unfolding services_of_resp with_key starts_of ends_of uuids_of
services_of_resp-of p ps =
    rw
      (
        services_of_resp,
        with_key,
        found (p ∷ ps) (codes "hstart"),
        found (p ∷ ps) (codes "hend"),
        found (p ∷ ps) (codes "uuid"),
        values_of-starts ps,
        values_of-ends ps,
        values_of-uuids ps,
      )
      (make_services-of (p ∷ ps))

-- Where the device has no service, the callback of the helper prints an answer with which
-- `discoverServices`, behind any lines that are passed over, ends with a missing key.
pub discover_services-empty :
    (env : Env) (v : World) (before after : List Text)
    → All (IsPassed (rsp_discovery ∷ [])) before
    → (es : List Event) × (primary_all_cb env 0 [] v ≡ ret tt (record v { trace = es ++ v.trace }))
      × (service_args (before ++ (printed_text es ∷ after)) ≡ key_error)
unfolding service_args services_of_resp with_key lookup add_value
discover_services-empty env v before after passed =
    let (es, eq, shown, only) = (primary_all_cb-line env []).emits v in
    (
      es,
      eq,
      rw
          (
            shown,
            service_args,
            reply-line rsp_discovery [] before after (plain-IsCleanText rsp_discovery refl) refl tt
                passed,
          )
          refl,
    )
