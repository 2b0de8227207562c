-- ===== src/Safety/Gatt.antt =====
-- The commands and callbacks of the GATT client keep the invariant.
use bluepy.Common.{refl, codes, ◌∷◌, ◌≢◌, List, Text, ℕ, Bool, true, false, Option, none, []}
use bluepy.World.{SecLevel, print, Env, Buffer, Ptr}
use bluepy.Protocol.{tag_data, rsp_read, rsp_write}
use bluepy.Protocol.Responses.{
  field, Prints, Sends-data, Finishes->>, Finishes-end, Prints-response,
}
use bluepy.Gatt.Discovery.{cmd_primary, cmd_included, cmd_char, cmd_char_desc}
use bluepy.Gatt.Read.{report_value, cmd_read_hnd, cmd_read_uuid, read_uuid_range, char_read_cb}
use bluepy.Gatt.Write.{
  report_written, write_value, write_arg, char_write_req_cb, cmd_char_write_common, cmd_char_write,
  cmd_char_write_rsp,
}
use bluepy.Gatt.Security.{apply_sec_level, cmd_sec_level}
use bluepy.Gatt.Mtu.{cmd_mtu, apply_mtu, exchange_mtu_cb}
use bluepy.Protocol.Wire.{bytes}
use bluepy.Safety.Invariant.{Keeps-print, Keeps, Keeps-line}
use bluepy.Safety.Rules.{keeping}

pub report_written-line : Prints report_written rsp_write []
unfolding report_written
report_written-line = Prints-response rsp_write Finishes-end

pub report_value-line :
    (value : Text) → Prints (report_value value) rsp_read (field tag_data (bytes value) ∷ [])
unfolding report_value
report_value-line value = Prints-response rsp_read (Finishes->> (Sends-data value) Finishes-end)

Keeps-report_written : Keeps report_written
Keeps-report_written = Keeps-line report_written-line

Keeps-report_value : (value : Text) → Keeps (report_value value)
Keeps-report_value value = Keeps-line (report_value-line value)

Keeps-mtu_comment : Keeps (print (codes "# Error exchanging MTU\n"))
Keeps-mtu_comment = Keeps-print _ (λ e. cc) refl

Keeps-write_value :
    (with_response : Bool) (attrib : Option Ptr) (handle plen : ℕ) (value : Option Buffer)
    → attrib ≢ none
    → Keeps (write_value with_response attrib handle plen value)
unfolding write_value
Keeps-write_value true attrib handle plen value a = search keeping
Keeps-write_value false attrib handle plen value a = search (keeping, Keeps-report_written)

module _ (env : Env) where
  pub Keeps-cmd_primary : (argv : List Text) → Keeps (cmd_primary env argv)
  unfolding cmd_primary
  Keeps-cmd_primary argv = search keeping depth 8

  pub Keeps-cmd_char : (argv : List Text) → Keeps (cmd_char env argv)
  unfolding cmd_char
  Keeps-cmd_char argv = search keeping depth 8

  pub Keeps-cmd_read_uuid : (argv : List Text) → Keeps (cmd_read_uuid env argv)
  unfolding cmd_read_uuid read_uuid_range
  Keeps-cmd_read_uuid argv = search keeping depth 8

  pub Keeps-char_read_cb : (status : ℕ) (pdu : Text) → Keeps (char_read_cb env status pdu)
  unfolding char_read_cb
  Keeps-char_read_cb status pdu = search (keeping, Keeps-report_value) depth 8

  pub Keeps-char_write_req_cb : (status : ℕ) (pdu : Text) → Keeps (char_write_req_cb env status pdu)
  unfolding char_write_req_cb
  Keeps-char_write_req_cb status pdu = search (keeping, Keeps-report_written) depth 8

  Keeps-cmd_char_write_common :
      (argv : List Text) (with_response : Bool)
      → Keeps (cmd_char_write_common env argv with_response)
  unfolding cmd_char_write_common write_arg
  Keeps-cmd_char_write_common argv with_response = search (keeping, Keeps-write_value) depth 8

  pub Keeps-cmd_char_write : (argv : List Text) → Keeps (cmd_char_write env argv)
  unfolding cmd_char_write
  Keeps-cmd_char_write argv = Keeps-cmd_char_write_common argv false

  pub Keeps-cmd_char_write_rsp : (argv : List Text) → Keeps (cmd_char_write_rsp env argv)
  unfolding cmd_char_write_rsp
  Keeps-cmd_char_write_rsp argv = Keeps-cmd_char_write_common argv true

  Keeps-apply_sec_level : (level : SecLevel) → Keeps (apply_sec_level env level)
  unfolding apply_sec_level
  Keeps-apply_sec_level level = search keeping depth 8

  pub Keeps-cmd_sec_level : (argv : List Text) → Keeps (cmd_sec_level env argv)
  unfolding cmd_sec_level
  Keeps-cmd_sec_level argv = search (keeping, Keeps-apply_sec_level) depth 8

  Keeps-apply_mtu : (answered : ℕ) → Keeps (apply_mtu env answered)
  unfolding apply_mtu
  Keeps-apply_mtu answered = search (keeping, Keeps-mtu_comment) depth 8

  pub Keeps-exchange_mtu_cb : (status : ℕ) (pdu : Text) → Keeps (exchange_mtu_cb env status pdu)
  unfolding exchange_mtu_cb
  Keeps-exchange_mtu_cb status pdu = search (keeping, Keeps-apply_mtu) depth 8

module _ (argv : List Text) where
  pub Keeps-cmd_included : Keeps (cmd_included argv)
  unfolding cmd_included
  Keeps-cmd_included = search keeping depth 8

  pub Keeps-cmd_char_desc : Keeps (cmd_char_desc argv)
  unfolding cmd_char_desc
  Keeps-cmd_char_desc = search keeping depth 8

  pub Keeps-cmd_read_hnd : Keeps (cmd_read_hnd argv)
  unfolding cmd_read_hnd
  Keeps-cmd_read_hnd = search keeping depth 8

  pub Keeps-cmd_mtu : Keeps (cmd_mtu argv)
  unfolding cmd_mtu
  Keeps-cmd_mtu = search keeping depth 10
