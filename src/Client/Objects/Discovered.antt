-- ===== src/Client/Objects/Discovered.antt =====
-- The dictionary of services, from what the helper reports.
use bluepy.Client.Parse.Plain.{plain-IsCleanText}
use bluepy.Client.Objects.Found.{expect-line}
use bluepy.Gatt.Lines.{primary_all_cb-line}
use bluepy.Client.Peripheral.{fetched}
use bluepy.Client.Lookup.{same_text_refl, same_text→eq}
use bluepy.Protocol.{rsp_discovery}
use bluepy.Client.Uuid.Shown.{make_uuid-uuid_text}
use bluepy.Client.Peripheral.Queue.{IsPassed}
use bluepy.Client.Talk.{done}
use bluepy.Common.Int.{pos}
use bluepy.Client.Peripheral.Services.{
  services_of_resp-of, fields-IsCleanField, fields_of, services_of, IsCleanPrimary,
}
use bluepy.Common.Hex.Digits.{All}
use bluepy.Client.Uuid.{uuid_text}
use bluepy.Client.Objects.Service.{Service}
use bluepy.Client.Objects.{uuid_of_value}
use bluepy.World.{printed_text, ret, Event, World, Env}
use bluepy.Gatt.Reports.{primary_all_cb, Primary, Range}
use bluepy.Client.Objects.Dictionary.{
  new_service, ServiceMap, put_service, find_service, discover, put_found,
}
use bluepy.Common.{
  none, codes, false, true, sym, ◌++◌, inr, inl, Bool-cases, refl, some, ap, same_text, ◌∙◌, ◌<◌,
  if◌then◌else◌, ◌≡◌, length, Option, List, Text, [], ◌∷◌,
}
use bluepy.Client.Parse.{int}

-- The range and the bytes of the UUID of each service, as the library gives them.
abbrev pub listed_services : List (Range × Text) → List Primary
listed_services [] = []
listed_services (p ∷ ps) = record { range = p.0; uuid = uuid_text p.1 } ∷ listed_services ps

-- A UUID of 16 bytes.
abbrev pub HasWholeUuid : Range × Text → Type 0
HasWholeUuid p = (length p.1 ≡ 16) × All (λ b. b < 256) p.1

abbrev pub service_of : Range × Text → Service
service_of p = new_service p.1 (int (pos p.0.start)) (int (pos p.0.end))

-- The last service in the list with that UUID.
abbrev pub last_with : Text → List (Range × Text) → Option Service → Option Service
last_with u [] o = o
last_with u (p ∷ ps) o = last_with u ps (if same_text p.1 u then some (service_of p) else o)

put_all : List (Range × Text) → ServiceMap → ServiceMap
put_all [] services = services
put_all (p ∷ ps) services = put_all ps (put_service p.1 (service_of p) services)

put_found-listed :
    (ps : List (Range × Text)) (services : ServiceMap) (lines : List Text)
    → All HasWholeUuid ps
    → put_found (services_of (listed_services ps)) services lines ≡ done (put_all ps services) lines
unfolding put_found put_all uuid_of_value
put_found-listed [] services lines h = refl
put_found-listed (p ∷ ps) services lines ((whole, bytes), hs) =
    rw (put_found, uuid_of_value, make_uuid-uuid_text p.1 whole bytes)
      (put_found-listed ps (put_service p.1 (service_of p) services) lines hs)

find_service-put_service :
    (u v : Text) (svc : Service) (services : ServiceMap)
    → find_service u (put_service v svc services)
      ≡ (if same_text v u then some svc else find_service u services)
unfolding find_service put_service
find_service-put_service u v svc [] = refl
find_service-put_service u v svc ((k, old) ∷ services) = elim (Bool-cases (same_text k v)) [
  | inl e ↦
      let same = same_text→eq k v e in
      elim (Bool-cases (same_text v u)) [
        | inl f ↦ let here : same_text k u ≡ true = rw same f in rw (e, here, f) refl
        | inr f ↦ let here : same_text k u ≡ false = rw same f in rw (e, here, f) refl
      ]
  | inr e ↦ elim (Bool-cases (same_text k u)) [
    | inl f ↦ elim (Bool-cases (same_text v u)) [
      | inl g ↦
          let both : k ≡ v = same_text→eq k u f ∙ sym (same_text→eq v u g) in
          let differ : true ≡ false = sym (same_text_refl v) ∙ rw both at e in cc
      | inr g ↦ rw (e, f, g) refl
    ]
    | inr f ↦ rw (e, f) (find_service-put_service u v svc services)
  ]
]

find_service-put_all :
    (u : Text) (ps : List (Range × Text)) (services : ServiceMap)
    → find_service u (put_all ps services) ≡ last_with u ps (find_service u services)
unfolding put_all
find_service-put_all u [] services = refl
find_service-put_all u (p ∷ ps) services =
    find_service-put_all u ps (put_service p.1 (service_of p) services)
    ∙ ap (last_with u ps) (find_service-put_service u p.1 (service_of p) services)

-- The library has found at least one service, with handles of 32 bits and UUIDs of 16 bytes that the
-- protocol can carry. Then the callback of the helper, in whatever world, returns with something
-- printed, of which `discoverServices`, behind any lines that are passed over, makes a dictionary,
-- with the command for all services written. The dictionary has under each UUID the last service with
-- it that was found, with its start and its end, and nothing under a UUID that no service has.
pub discover-finds :
    (env : Env) (p : Range × Text) (ps : List (Range × Text)) (v : World) (before after : List Text)
    → All HasWholeUuid (p ∷ ps)
    → All IsCleanPrimary (listed_services (p ∷ ps))
    → All (IsPassed (rsp_discovery ∷ [])) before
    → (es : List Event) × (services : ServiceMap) × (primary_all_cb env 0
          (listed_services (p ∷ ps))
          v
        ≡ ret tt (record v { trace = es ++ v.trace }))
      × (discover (before ++ (printed_text es ∷ after))
          ≡ record { outcome = fetched services; written = codes "svcs\n" ∷ []; left = after })
      × ((u : Text) → find_service u services ≡ last_with u (p ∷ ps) none)
unfolding discover find_service
discover-finds env p ps v before after whole clean passed =
    let (es, eq, shown, only) = (primary_all_cb-line env (listed_services (p ∷ ps))).emits v in
    let first : Primary = record { range = p.0; uuid = uuid_text p.1 } in
    (
      es,
      put_all (p ∷ ps) [],
      eq,
      rw
          (
            shown,
            discover,
            expect-line rsp_discovery (fields_of (listed_services (p ∷ ps))) before after
                (plain-IsCleanText rsp_discovery refl) refl
                (fields-IsCleanField (listed_services (p ∷ ps)) clean) passed,
            services_of_resp-of first (listed_services ps),
            put_found-listed (p ∷ ps) [] after whole,
          )
          refl,
      λ u. find_service-put_all u (p ∷ ps) [],
    )
