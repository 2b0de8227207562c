-- ===== src/Gatt/Lines.antt =====
-- The responses of the discovery callbacks, as fields.
use bluepy.Common.{List, [], ◌∷◌, ◌++◌, Text}
use bluepy.World.{Env, Action}
use bluepy.Protocol.{
  rsp_discovery, rsp_descriptors, tag_range_start, tag_range_end, tag_uuid, tag_handle,
  tag_properties, tag_value_handle,
}
use bluepy.Protocol.Wire.{Field, uint, str}
use bluepy.Protocol.Responses.{
  field, Sends, Prints, Sends->>, Sends-skip, Sends-uint, Sends-str, Finishes->>, Finishes-end,
  Prints-response,
}
use bluepy.Gatt.Reports.{
  Range, Primary, Included, Char, Desc, send_each, send_range, send_primary, send_included,
  send_char, send_desc, report_list, unless_error, primary_all_cb, primary_by_uuid_cb, included_cb,
  char_cb, char_desc_cb,
}

abbrev pub range_fields : Range → List Field
range_fields r = field tag_range_start (uint r.start) ∷ field tag_range_end (uint r.end) ∷ []

abbrev pub primary_fields : Primary → List Field
primary_fields p = range_fields p.range ++ (field tag_uuid (str p.uuid) ∷ [])

abbrev pub included_fields : Included → List Field
included_fields i =
    field tag_handle (uint i.handle) ∷ (range_fields i.range ++ (field tag_uuid (str i.uuid) ∷ []))

abbrev pub char_fields : Char → List Field
char_fields c =
    field tag_handle (uint c.handle)
    ∷ field tag_properties (uint c.properties)
    ∷ field tag_value_handle (uint c.value_handle)
    ∷ field tag_uuid (str c.uuid)
    ∷ []

abbrev pub desc_fields : Desc → List Field
desc_fields d = field tag_handle (uint d.handle) ∷ field tag_uuid (str d.uuid) ∷ []

-- The fields of all items, in their order.
abbrev pub all_fields : {A : Type 0} → (A → List Field) → List A → List Field
all_fields f [] = []
all_fields f (x ∷ xs) = f x ++ all_fields f xs

Sends-range : (r : Range) → Sends (send_range r) (range_fields r)
unfolding send_range
Sends-range r = Sends->> (Sends-uint _ _) (Sends-uint _ _)

Sends-primary : (p : Primary) → Sends (send_primary p) (primary_fields p)
unfolding send_primary
Sends-primary p = Sends->> (Sends-range p.range) (Sends-str _ _)

Sends-included : (i : Included) → Sends (send_included i) (included_fields i)
unfolding send_included
Sends-included i = Sends->> (Sends-uint _ _) (Sends->> (Sends-range i.range) (Sends-str _ _))

Sends-char : (c : Char) → Sends (send_char c) (char_fields c)
unfolding send_char
Sends-char c =
    Sends->> (Sends-uint _ _)
      (Sends->> (Sends-uint _ _) (Sends->> (Sends-uint _ _) (Sends-str _ _)))

Sends-desc : (d : Desc) → Sends (send_desc d) (desc_fields d)
unfolding send_desc
Sends-desc d = Sends->> (Sends-uint _ _) (Sends-str _ _)

module _ {A : Type 0} (send : A → Action) (fields : A → List Field)
    (sends : (x : A) → Sends (send x) (fields x)) where
  Sends-each : (xs : List A) → Sends (send_each send xs) (all_fields fields xs)
  unfolding send_each
  Sends-each [] = Sends-skip
  Sends-each (x ∷ xs) = Sends->> (sends x) (Sends-each xs)

  report_list-line :
      (kind : Text) (xs : List A)
      → Prints (report_list kind send xs) kind (all_fields fields xs ++ [])
  unfolding report_list
  report_list-line kind xs = Prints-response kind (Finishes->> (Sends-each xs) Finishes-end)

module _ (env : Env) where
  -- With status 0 the callback prints one response and does nothing else; it has the range and the UUID of every service,
  -- in the order in which they were found.
  pub primary_all_cb-line :
      (services : List Primary)
      → Prints
          (primary_all_cb env 0 services)
          rsp_discovery
          (all_fields primary_fields services ++ [])
  unfolding primary_all_cb unless_error
  primary_all_cb-line services =
      report_list-line send_primary primary_fields Sends-primary rsp_discovery services

  -- With status 0 the callback prints one response and does nothing else; it has the range of every service,
  -- in the order in which they were found.
  pub primary_by_uuid_cb-line :
      (ranges : List Range)
      → Prints
          (primary_by_uuid_cb env 0 ranges)
          rsp_discovery
          (all_fields range_fields ranges ++ [])
  unfolding primary_by_uuid_cb unless_error
  primary_by_uuid_cb-line ranges =
      report_list-line send_range range_fields Sends-range rsp_discovery ranges

  -- With status 0 the callback prints one response and does nothing else; it has the handle, the range and the UUID of every included service,
  -- in the order in which they were found.
  pub included_cb-line :
      (includes : List Included)
      → Prints
          (included_cb env 0 includes)
          rsp_discovery
          (all_fields included_fields includes ++ [])
  unfolding included_cb unless_error
  included_cb-line includes =
      report_list-line send_included included_fields Sends-included rsp_discovery includes

  -- With status 0 the callback prints one response and does nothing else; it has the handle, the properties, the value's handle and the UUID of every characteristic,
  -- in the order in which they were found.
  pub char_cb-line :
      (found : List Char)
      → Prints (char_cb env 0 found) rsp_discovery (all_fields char_fields found ++ [])
  unfolding char_cb unless_error
  char_cb-line found = report_list-line send_char char_fields Sends-char rsp_discovery found

  -- With status 0 the callback prints one response and does nothing else; it has the handle and the UUID of every descriptor,
  -- in the order in which they were found.
  pub char_desc_cb-line :
      (found : List Desc)
      → Prints (char_desc_cb env 0 found) rsp_descriptors (all_fields desc_fields found ++ [])
  unfolding char_desc_cb unless_error
  char_desc_cb-line found = report_list-line send_desc desc_fields Sends-desc rsp_descriptors found

  -- With status 0 each of the five discovery callbacks prints one response and does nothing else. The
  -- response has the fields of every item, in the order in which they were found: the range and the
  -- UUID of a service, the range of a service that was looked for by its UUID, the handle, range and
  -- UUID of an included service, the handle, properties, value handle and UUID of a characteristic,
  -- and the handle and UUID of a descriptor.
  pub discovery-lines :
      (services : List Primary) (ranges : List Range) (includes : List Included)
      (characteristics : List Char) (descriptors : List Desc)
      → Prints
          (primary_all_cb env 0 services)
          rsp_discovery
          (all_fields primary_fields services ++ [])
        × Prints
            (primary_by_uuid_cb env 0 ranges)
            rsp_discovery
            (all_fields range_fields ranges ++ [])
        × Prints
            (included_cb env 0 includes)
            rsp_discovery
            (all_fields included_fields includes ++ [])
        × Prints
            (char_cb env 0 characteristics)
            rsp_discovery
            (all_fields char_fields characteristics ++ [])
        × Prints
            (char_desc_cb env 0 descriptors)
            rsp_descriptors
            (all_fields desc_fields descriptors ++ [])
  discovery-lines services ranges includes characteristics descriptors = (
    primary_all_cb-line services,
    primary_by_uuid_cb-line ranges,
    included_cb-line includes,
    char_cb-line characteristics,
    char_desc_cb-line descriptors,
  )
