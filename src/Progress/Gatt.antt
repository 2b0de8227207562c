-- ===== src/Progress/Gatt.antt =====
-- The commands and callbacks of the GATT client are answered.
use bluepy.Gatt.Mtu.{apply_mtu, exchange_mtu_cb, cmd_mtu}
use bluepy.Gatt.Security.{apply_sec_level}
use bluepy.Progress.Runs.{Runs->>, Runs-skip, running, Runs}
use bluepy.Progress.Protocol.{
  responding, Runs-resp_begin, Replies-resp_att_error, Replies-resp_error, sending,
}
use bluepy.Progress.Replies.{
  Replies-resp_end, Replies->>, replying, Replies-if, Replies-get, Replies,
}
use bluepy.Common.{[], ◌∷◌, ◌∷◌, false, true, ◌==◌, List, Option, ℕ, Bool, Text}
use bluepy.Gatt.Write.{
  write_arg, cmd_char_write_common, cmd_char_write_rsp, cmd_char_write, char_write_req_cb,
  write_value, report_written,
}
use bluepy.Gatt.Read.{read_uuid_range, cmd_read_uuid, char_read_cb, cmd_read_hnd, report_value}
use bluepy.Gatt.Reports.{
  Range, Included, Primary, Desc, Char, send_char, send_primary, send_range, send_included,
  send_desc, char_cb, included_cb, char_desc_cb, primary_all_cb, send_each, primary_by_uuid_cb,
  report_list, unless_error,
}
use bluepy.Gatt.Discovery.{cmd_char, cmd_included, cmd_char_desc, cmd_primary, when_connected}
use bluepy.World.{SecLevel, Buffer, Ptr, Action, World, Env}

Replies-when_connected :
    {env : Env} {body : World → Action}
    → ((w : World) → Replies env (body w))
    → Replies env (when_connected body)
unfolding when_connected
Replies-when_connected k = Replies-get _ _ (λ w. Replies-if _ (Replies-resp_error _) (k w))

Replies-unless_error :
    {report : Action} (env : Env) (status : ℕ)
    → Replies env report
    → Replies env (unless_error env status report)
unfolding unless_error
Replies-unless_error env status h = Replies-if (status == 0) h (Replies-resp_att_error status)

ruleset gatt = (Replies-when_connected, Replies-unless_error)

Runs-send_each :
    {A : Type 0} (send : A → Action) (xs : List A)
    → ((x : A) → Runs (send x))
    → Runs (send_each send xs)
unfolding send_each
Runs-send_each send [] h = Runs-skip
Runs-send_each send (x ∷ xs) h = Runs->> (h x) (Runs-send_each send xs h)

module _ {env : Env} where
  Replies-report_written : Replies env report_written
  unfolding report_written
  Replies-report_written = search (replying, sending)

  Replies-report_value : (value : Text) → Replies env (report_value value)
  unfolding report_value
  Replies-report_value value = search (replying, sending)

  Replies-write_value :
      (with_response : Bool) (attrib : Option Ptr) (handle plen : ℕ) (value : Option Buffer)
      → Replies env (write_value with_response attrib handle plen value)
  unfolding write_value
  Replies-write_value true attrib handle plen value = search (replying, running)
  Replies-write_value false attrib handle plen value =
      search (replying, running, Replies-report_written)

  -- A response that is a list of items.
  Replies-report_list :
      {A : Type 0} (kind : Text) (send : A → Action) (xs : List A)
      → ((x : A) → Runs (send x))
      → Replies env (report_list kind send xs)
  unfolding report_list
  Replies-report_list kind send xs h =
      Replies->> (Runs-resp_begin kind) (Replies->> (Runs-send_each send xs h) Replies-resp_end)

module _ (env : Env) where
  pub Replies-cmd_primary : (argv : List Text) → Replies env (cmd_primary env argv)
  unfolding cmd_primary
  Replies-cmd_primary argv = search (replying, responding, gatt) depth 8

  pub Replies-cmd_char : (argv : List Text) → Replies env (cmd_char env argv)
  unfolding cmd_char
  Replies-cmd_char argv = search (replying, responding, gatt) depth 8

  pub Replies-cmd_read_uuid : (argv : List Text) → Replies env (cmd_read_uuid env argv)
  unfolding cmd_read_uuid read_uuid_range
  Replies-cmd_read_uuid argv = search (replying, responding, gatt) depth 8

  pub Replies-cmd_included : (argv : List Text) → Replies env (cmd_included argv)
  unfolding cmd_included
  Replies-cmd_included argv = search (replying, responding, gatt) depth 8

  pub Replies-cmd_char_desc : (argv : List Text) → Replies env (cmd_char_desc argv)
  unfolding cmd_char_desc
  Replies-cmd_char_desc argv = search (replying, running, responding, gatt) depth 10

  pub Replies-cmd_read_hnd : (argv : List Text) → Replies env (cmd_read_hnd argv)
  unfolding cmd_read_hnd
  Replies-cmd_read_hnd argv = search (replying, responding, gatt) depth 8

  pub Replies-cmd_mtu : (argv : List Text) → Replies env (cmd_mtu argv)
  unfolding cmd_mtu
  Replies-cmd_mtu argv = search (replying, running, responding, gatt) depth 10

  Replies-cmd_char_write_common :
      (argv : List Text) (with_response : Bool)
      → Replies env (cmd_char_write_common env argv with_response)
  unfolding cmd_char_write_common write_arg
  Replies-cmd_char_write_common argv with_response =
      search (replying, responding, gatt, Replies-write_value) depth 8

  pub Replies-cmd_char_write : (argv : List Text) → Replies env (cmd_char_write env argv)
  unfolding cmd_char_write
  Replies-cmd_char_write argv = Replies-cmd_char_write_common argv false

  pub Replies-cmd_char_write_rsp : (argv : List Text) → Replies env (cmd_char_write_rsp env argv)
  unfolding cmd_char_write_rsp
  Replies-cmd_char_write_rsp argv = Replies-cmd_char_write_common argv true

  pub Replies-apply_sec_level : (level : SecLevel) → Replies env (apply_sec_level env level)
  unfolding apply_sec_level
  Replies-apply_sec_level level = search (replying, running, responding) depth 8

  pub Replies-primary_all_cb :
      (status : ℕ) (xs : List Primary) → Replies env (primary_all_cb env status xs)
  unfolding primary_all_cb send_primary send_range
  Replies-primary_all_cb status xs = search (gatt, Replies-report_list, running, sending) depth 8

  pub Replies-primary_by_uuid_cb :
      (status : ℕ) (xs : List Range) → Replies env (primary_by_uuid_cb env status xs)
  unfolding primary_by_uuid_cb send_range
  Replies-primary_by_uuid_cb status xs =
      search (gatt, Replies-report_list, running, sending) depth 8

  pub Replies-included_cb :
      (status : ℕ) (xs : List Included) → Replies env (included_cb env status xs)
  unfolding included_cb send_included send_range
  Replies-included_cb status xs = search (gatt, Replies-report_list, running, sending) depth 8

  pub Replies-char_cb : (status : ℕ) (xs : List Char) → Replies env (char_cb env status xs)
  unfolding char_cb send_char
  Replies-char_cb status xs = search (gatt, Replies-report_list, running, sending) depth 8

  pub Replies-char_desc_cb :
      (status : ℕ) (xs : List Desc) → Replies env (char_desc_cb env status xs)
  unfolding char_desc_cb send_desc
  Replies-char_desc_cb status xs = search (gatt, Replies-report_list, running, sending) depth 8

  pub Replies-char_read_cb : (status : ℕ) (pdu : Text) → Replies env (char_read_cb env status pdu)
  unfolding char_read_cb
  Replies-char_read_cb status pdu =
      search (replying, responding, gatt, Replies-report_value) depth 8

  pub Replies-char_write_req_cb :
      (status : ℕ) (pdu : Text) → Replies env (char_write_req_cb env status pdu)
  unfolding char_write_req_cb
  Replies-char_write_req_cb status pdu =
      search (replying, responding, gatt, Replies-report_written) depth 8

  pub Replies-exchange_mtu_cb :
      (status : ℕ) (pdu : Text) → Replies env (exchange_mtu_cb env status pdu)
  unfolding exchange_mtu_cb apply_mtu
  Replies-exchange_mtu_cb status pdu = search (replying, running, responding, gatt) depth 10
