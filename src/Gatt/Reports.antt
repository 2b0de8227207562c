-- ===== src/Gatt/Reports.antt =====
-- The callbacks that print what a discovery has found.
--
-- bluepy/bluepy-helper.c, lines 630 to 734.
use bluepy.Common.{ℕ, List, [], ◌∷◌, Text, ◌==◌, if◌then◌else◌}
use bluepy.World.{Env, Action, skip, ◌>>◌}
use bluepy.Protocol.{
  resp_begin, resp_end, send_uint, send_str, resp_att_error, rsp_discovery, rsp_descriptors,
  tag_range_start, tag_range_end, tag_uuid, tag_handle, tag_properties, tag_value_handle,
}

-- `struct att_range`
pub record Range : Type 0 where
  pub start : ℕ
  pub end : ℕ

-- `struct gatt_primary`
pub record Primary : Type 0 where
  pub range : Range
  pub uuid : Text

-- `struct gatt_included`
pub record Included : Type 0 where
  pub handle : ℕ
  pub range : Range
  pub uuid : Text

-- `struct gatt_char`
pub record Char : Type 0 where
  pub handle : ℕ
  pub properties : ℕ
  pub value_handle : ℕ
  pub uuid : Text

-- `struct gatt_desc`
pub record Desc : Type 0 where
  pub handle : ℕ
  pub uuid : Text

-- A callback that is given a status other than 0 reports it and returns.
unfoldable pub unless_error : Env → ℕ → Action → Action
unless_error env status report = if status == 0 then report else resp_att_error env status

-- The loop of a callback over its list.
unfoldable pub send_each : {A : Type 0} → (A → Action) → List A → Action
send_each send [] = skip
send_each send (x ∷ xs) = do send x; send_each send xs

unfoldable pub send_range : Range → Action
send_range range = do send_uint tag_range_start range.start; send_uint tag_range_end range.end

unfoldable pub send_primary : Primary → Action
send_primary prim = do send_range prim.range; send_str tag_uuid prim.uuid

unfoldable pub send_included : Included → Action
send_included incl = do
  send_uint tag_handle incl.handle
  send_range incl.range
  send_str tag_uuid incl.uuid

unfoldable pub send_char : Char → Action
send_char chars = do
  send_uint tag_handle chars.handle
  send_uint tag_properties chars.properties
  send_uint tag_value_handle chars.value_handle
  send_str tag_uuid chars.uuid

unfoldable pub send_desc : Desc → Action
send_desc desc = do send_uint tag_handle desc.handle; send_str tag_uuid desc.uuid

-- A response of the type given with the items of a list.
unfoldable pub report_list : {A : Type 0} → Text → (A → Action) → List A → Action
report_list rsptype send items = do resp_begin rsptype; send_each send items; resp_end

module _ (env : Env) (status : ℕ) where
  unfoldable pub primary_all_cb : List Primary → Action
  primary_all_cb services =
      unless_error env status (report_list rsp_discovery send_primary services)

  unfoldable pub primary_by_uuid_cb : List Range → Action
  primary_by_uuid_cb ranges = unless_error env status (report_list rsp_discovery send_range ranges)

  unfoldable pub included_cb : List Included → Action
  included_cb includes = unless_error env status (report_list rsp_discovery send_included includes)

  unfoldable pub char_cb : List Char → Action
  char_cb characteristics =
      unless_error env status (report_list rsp_discovery send_char characteristics)

  unfoldable pub char_desc_cb : List Desc → Action
  char_desc_cb descriptors =
      unless_error env status (report_list rsp_descriptors send_desc descriptors)
