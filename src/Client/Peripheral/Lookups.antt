-- ===== src/Client/Peripheral/Lookups.antt =====
-- The discovery of descriptors, and of one service by its UUID.
use bluepy.Gatt.Exchange.{when_connected-allowed}
use bluepy.Client.Peripheral.Items.{all_fields-IsCleanField, values_of-all}
use bluepy.Client.Parse.Plain.{plain-IsCleanText}
use bluepy.Client.Peripheral.Queue.{IsPassed}
use bluepy.Common.Int.{pos}
use bluepy.Protocol.{rsp_discovery, rsp_descriptors}
use bluepy.Client.Parse.RoundTrip.{IsCleanText, IsCleanField}
use bluepy.Gatt.Lines.{
  char_desc_cb-line, primary_by_uuid_cb-line, range_fields, desc_fields, all_fields,
}
use bluepy.Common.Hex.Digits.{All}
use bluepy.Client.Peripheral.{fetched, with_key}
use bluepy.World.{printed_text, ret, Event, connected, on_option, World, Uuid, Env, steps}
use bluepy.Protocol.Wire.{Field}
use bluepy.Client.Peripheral.Lines.{reply-line, lookup-resp_of, resp_of}
use bluepy.Gatt.Discovery.{cmd_primary}
use bluepy.Commands.{commands, find_command, run, run_words, parse_line}
use bluepy.Gatt.Reports.{primary_by_uuid_cb, char_desc_cb, Range, Desc}
use bluepy.Client.Peripheral.Discovery.{
  service_command, make_descs, FoundDesc, get_descriptors, descs_of_resp, range_of_resp,
  get_service,
}
use bluepy.Common.{refl, some, none, ◌≡◌, ◌++◌, ◌^◌, map, codes, ◌<◌, Option, Text, List, [], ◌∷◌}
use bluepy.Client.Parse.{PyValue, text, int}

abbrev pub found_desc : Desc → FoundDesc
found_desc d = record { uuid = text d.uuid; handle = int (pos d.handle) }

-- A descriptor that the protocol can carry.
abbrev pub IsCleanDesc : Desc → Type 0
IsCleanDesc d = (d.handle < 2 ^ 32) × IsCleanText d.uuid

pub desc_fields-IsCleanField : (d : Desc) → IsCleanDesc d → All IsCleanField (desc_fields d)
desc_fields-IsCleanField d (h, u) =
    ((plain-IsCleanText (codes "hnd") refl, h), ((plain-IsCleanText (codes "uuid") refl, u), tt))

abbrev pub descs_fields : List Desc → List Field
descs_fields ds = all_fields desc_fields ds ++ []

make_descs-of :
    (ds : List Desc)
    → make_descs (map (λ d. int (pos d.handle)) ds) (map (λ d. text d.uuid) ds)
      ≡ fetched (map found_desc ds)
make_descs-of [] = refl
make_descs-of (d ∷ ds) = rw (make_descs-of ds) refl

pub descs_of_resp-of :
    (d : Desc) (ds : List Desc)
    → descs_of_resp (resp_of rsp_descriptors (descs_fields (d ∷ ds)))
      ≡ fetched (map found_desc (d ∷ ds))
unfolding descs_of_resp with_key
descs_of_resp-of d ds =
    rw
      (
        descs_of_resp,
        with_key,
        lookup-resp_of (codes "hnd") rsp_descriptors (descs_fields (d ∷ ds)),
        lookup-resp_of (codes "uuid") rsp_descriptors (descs_fields (d ∷ ds)),
        values_of-all desc_fields (codes "hnd") (λ x. int (pos x.handle)) ds (λ x rest. refl),
        values_of-all desc_fields (codes "uuid") (λ x. text x.uuid) ds (λ x rest. refl),
      )
      (make_descs-of (d ∷ ds))

-- Where the library has found a descriptor at least, with handles of 32 bits and UUIDs that the
-- protocol can carry, the callback of the helper, in whatever world, returns with something printed,
-- of which `getDescriptors`, behind any lines that are passed over, makes the descriptors that were
-- found: all of them, in their order, each with its UUID and its handle.
pub get_descriptors-finds :
    (env : Env) (d : Desc) (ds : List Desc) (v : World) (before after : List Text)
    → All IsCleanDesc (d ∷ ds)
    → All (IsPassed (rsp_descriptors ∷ [])) before
    → (es : List Event) × (char_desc_cb env 0 (d ∷ ds) v
        ≡ ret tt (record v { trace = es ++ v.trace }))
      × (get_descriptors (before ++ (printed_text es ∷ after)) ≡ fetched (map found_desc (d ∷ ds)))
unfolding get_descriptors
get_descriptors-finds env d ds v before after clean passed =
    let (es, eq, shown, only) = (char_desc_cb-line env (d ∷ ds)).emits v in
    (
      es,
      eq,
      rw
          (
            shown,
            get_descriptors,
            reply-line rsp_descriptors (descs_fields (d ∷ ds)) before after
                (plain-IsCleanText rsp_descriptors refl) refl
                (all_fields-IsCleanField desc_fields IsCleanDesc (d ∷ ds) desc_fields-IsCleanField
                  clean)
                passed,
          )
          (descs_of_resp-of d ds),
    )

-- A range that the protocol can carry.
abbrev pub IsCleanRange : Range → Type 0
IsCleanRange r = (r.start < 2 ^ 32) × (r.end < 2 ^ 32)

range_fields-IsCleanField : (r : Range) → IsCleanRange r → All IsCleanField (range_fields r)
range_fields-IsCleanField r (s, e) =
    ((plain-IsCleanText (codes "hstart") refl, s), ((plain-IsCleanText (codes "hend") refl, e), tt))

abbrev ranges_fields : List Range → List Field
ranges_fields rs = all_fields range_fields rs ++ []

-- The first range, if there is one.
abbrev pub first_range : List Range → Option (PyValue × PyValue)
first_range [] = none
first_range (r ∷ rs) = some (int (pos r.start), int (pos r.end))

range_of_resp-of :
    (rs : List Range)
    → range_of_resp (resp_of rsp_discovery (ranges_fields rs)) ≡ fetched (first_range rs)
unfolding range_of_resp
range_of_resp-of [] = rw (range_of_resp, lookup-resp_of (codes "hstart") rsp_discovery []) refl
range_of_resp-of (r ∷ rs) =
    rw
      (
        range_of_resp,
        lookup-resp_of (codes "hstart") rsp_discovery (ranges_fields (r ∷ rs)),
        lookup-resp_of (codes "hend") rsp_discovery (ranges_fields (r ∷ rs)),
      )
      refl

-- Connected, the command with a UUID asks the library for the services with it.
cmd_primary-uuid :
    (env : Env) (name uuid : Text) (u : Uuid) (w : World)
    → w.conn_state ≡ connected
    → env.string_to_uuid uuid ≡ some u
    → cmd_primary env (name ∷ uuid ∷ []) w
      ≡ ret tt (record w { trace = Event.discover_primary w.attrib (some u) ∷ w.trace })
unfolding cmd_primary steps
cmd_primary-uuid env name uuid u w c known = rw (when_connected-allowed, c, known) refl

abbrev pub service_words : Text → Text
service_words uuid = codes "svcs " ++ uuid

parse_line-service :
    (env : Env) (uuid : Text) (u : Uuid) (w : World)
    → w.conn_state ≡ connected
    → env.string_to_uuid uuid ≡ some u
    → env.strstrip (service_command uuid) ≡ service_words uuid
    → env.shell_parse_argv (service_words uuid) ≡ some (codes "svcs" ∷ uuid ∷ [])
    → parse_line env (service_command uuid) w
      ≡ ret tt (record w { trace = Event.discover_primary w.attrib (some u) ∷ w.trace })
unfolding parse_line run_words run on_option find_command commands
parse_line-service env uuid u w c known strip words =
    rw (parse_line, strip, run_words, words) (cmd_primary-uuid env (codes "svcs") uuid u w c known)

-- Looking for a service by its UUID, from end to end. The helper is connected, and the library reads
-- the line, its words and the UUID as they were written. Then the command makes one request, to
-- discover the services with that UUID; and whatever ranges of 32-bit handles the library finds, also
-- none, the callback, in whatever world, returns with something printed, of which the client, behind
-- any lines that are passed over, makes the first range, or that there is none.
pub get_service-finds :
    (env : Env) (uuid : Text) (u : Uuid) (w v : World) (rs : List Range) (before after : List Text)
    → w.conn_state ≡ connected
    → env.string_to_uuid uuid ≡ some u
    → env.strstrip (service_command uuid) ≡ service_words uuid
    → env.shell_parse_argv (service_words uuid) ≡ some (codes "svcs" ∷ uuid ∷ [])
    → All IsCleanRange rs
    → All (IsPassed (rsp_discovery ∷ [])) before
    → (parse_line env (service_command uuid) w
        ≡ ret tt (record w { trace = Event.discover_primary w.attrib (some u) ∷ w.trace }))
      × (es : List Event) × (primary_by_uuid_cb env 0 rs v
          ≡ ret tt (record v { trace = es ++ v.trace }))
      × (get_service (before ++ (printed_text es ∷ after)) ≡ fetched (first_range rs))
unfolding get_service
get_service-finds env uuid u w v rs before after state known strip words clean passed =
    let (es, eq, shown, only) = (primary_by_uuid_cb-line env rs).emits v in
    (
      parse_line-service env uuid u w state known strip words,
      es,
      eq,
      rw
          (
            shown,
            get_service,
            reply-line rsp_discovery (ranges_fields rs) before after
                (plain-IsCleanText rsp_discovery refl) refl
                (all_fields-IsCleanField range_fields IsCleanRange rs range_fields-IsCleanField
                  clean)
                passed,
          )
          (range_of_resp-of rs),
    )
