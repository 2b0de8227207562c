-- ===== src/Progress/Att.antt =====
-- The handlers of the peer's PDUs return for PDUs of the lengths that they expect, and for no others.
use bluepy.Progress.Protocol.{Runs-resp_error, Runs-resp_end, sending, Runs-cmd_status}
use bluepy.Progress.Runs.{
  Ran, Runs-on_option, Runs-skip, Runs-print, Runs->>, Runs-if, running, Runs-get, Runs,
}
use bluepy.Main.{handle_pdu}
use bluepy.Att.Server.{
  gatts_mtu_req, gatts_exec_write_req, gatts_prep_write_req, gatts_signed_write_cmd,
  gatts_write_cmd, gatts_write_req, gatts_read_by_group_req, gatts_read_multi_req,
  gatts_read_blob_req, gatts_read_req, gatts_read_by_type_req, gatts_find_by_type_req,
  gatts_find_info_req, accept_mtu, answer_mtu, refuse,
}
use bluepy.Common.{
  refl, ◌&&◌, byte_at, if◌then◌else◌, [], not, false, ◌||◌, ◌==◌, length, leb, true, ℕ, Text, ◌≡◌,
  Bool,
}
use bluepy.Att.Events.{
  att_op_handle_ind, att_op_handle_notify, confirm, events_handler, report_event, send_pdu,
}
use bluepy.World.{aborted, Outcome, ◌>>=◌, World, ◌>>◌, assert, Env, Handler, Action}

-- The lengths that the handlers assert; `events_handler` asserts one for its two opcodes alone.
abbrev pub well_sized : Handler → Text → Bool
well_sized Handler.events_handler p =
    (not (byte_at p 0 == att_op_handle_notify) && not (byte_at p 0 == att_op_handle_ind))
    || leb 3 (length p)
well_sized Handler.gatts_find_info_req p = length p == 5
well_sized Handler.gatts_find_by_type_req p = leb 7 (length p)
well_sized Handler.gatts_read_by_type_req p = length p == 7 || length p == 21
well_sized Handler.gatts_read_req p = length p == 3
well_sized Handler.gatts_read_blob_req p = length p == 5
well_sized Handler.gatts_read_multi_req p = leb 5 (length p)
well_sized Handler.gatts_read_by_group_req p = leb 7 (length p)
well_sized Handler.gatts_write_req p = leb 3 (length p)
well_sized Handler.gatts_write_cmd p = leb 3 (length p)
well_sized Handler.gatts_signed_write_cmd p = leb 15 (length p)
well_sized Handler.gatts_prep_write_req p = leb 5 (length p)
well_sized Handler.gatts_exec_write_req p = length p == 5
well_sized Handler.gatts_mtu_req p = leb 3 (length p)

Runs-send_pdu : (opdu : Text) → Runs (send_pdu opdu)
unfolding send_pdu
Runs-send_pdu opdu = search running

-- The run returns, or it ends at a failed assertion before anything is done.
abbrev pub Fate : Bool → World → Outcome (Unit {0}) → Type 0
Fate true w o = Ran w o
Fate false w o = o ≡ aborted w

guarded-Fate : {m : Action} (b : Bool) (w : World) → Runs m → Fate b w ((assert b >> m) w)
unfolding assert ◌>>◌ ◌>>=◌
guarded-Fate true w h = h.runs w
guarded-Fate false w h = refl

guard-Fate : (b : Bool) (w : World) → Fate b w (assert b w)
unfolding assert
guard-Fate true w = ([], refl)
guard-Fate false w = refl

unless-Fate :
    {m k : Action} (other b : Bool) (w : World)
    → Runs m
    → Runs k
    → Fate (other || b) w ((if other then m else assert b >> k) w)
unless-Fate true b w h r = h.runs w
unless-Fate false b w h r = guarded-Fate b w r

Fate→Ran : (b : Bool) (w : World) (o : Outcome (Unit {0})) → b ≡ true → Fate b w o → Ran w o
Fate→Ran true w o e h = h
Fate→Ran false w o e h = cc

module _ (env : Env) where
  Runs-report_event : (p : Text) → Runs (report_event env p)
  unfolding report_event
  Runs-report_event p = search (running, sending, Runs-resp_end) depth 8

  events_handler-Fate :
      (p : Text) (w : World) → Fate (well_sized Handler.events_handler p) w (events_handler env p w)
  unfolding events_handler confirm
  events_handler-Fate p w =
      unless-Fate
        (not (byte_at p 0 == att_op_handle_notify) && not (byte_at p 0 == att_op_handle_ind))
        (leb 3 (length p)) w (Runs-print _)
        (Runs->> (Runs-report_event p)
          (Runs-if _ Runs-skip (Runs-get _ _ (λ plen. Runs-send_pdu _))))

  Runs-refuse : (opcode handle : ℕ) → Runs (refuse env opcode handle)
  unfolding refuse
  Runs-refuse opcode handle = Runs-get _ _ (λ plen. Runs-send_pdu _)

  Runs-answer_mtu : (opcode mtu : ℕ) → Runs (answer_mtu env opcode mtu)
  unfolding answer_mtu accept_mtu
  Runs-answer_mtu opcode mtu = search (running, Runs-send_pdu, Runs-cmd_status) depth 12

  -- A handler that is registered for PDUs of the peer, with whatever PDU and in whatever state, returns
  -- if the PDU has a length that the handler expects; with any other it ends the process at a failed
  -- assertion, before it has done anything. The lengths are 5 for finding information, 7 or 21 for
  -- reading by type, 3 for reading, 5 for reading a blob, at least 5 for reading several, at least 7
  -- for finding or reading by group or type value, at least 3 for writing and for the MTU, at least 15
  -- for a signed write, at least 5 for preparing a write, 5 for executing one, though the request of
  -- the protocol has 2, and at least 3 for a notification or indication; with another opcode
  -- `events_handler` returns for any length.
  pub handle_pdu-Fate :
      (handler : Handler) (p : Text) (w : World)
      → Fate (well_sized handler p) w (handle_pdu env handler p w)
  unfolding handle_pdu gatts_find_info_req gatts_find_by_type_req gatts_read_by_type_req
      gatts_read_req gatts_read_blob_req gatts_read_multi_req gatts_read_by_group_req
      gatts_write_req gatts_write_cmd gatts_signed_write_cmd gatts_prep_write_req
      gatts_exec_write_req gatts_mtu_req
  handle_pdu-Fate Handler.events_handler p w = events_handler-Fate p w
  handle_pdu-Fate Handler.gatts_mtu_req p w =
      guarded-Fate _ w (Runs-on_option _ _ _ (Runs-resp_error _) (λ mtu. Runs-answer_mtu _ mtu))
  handle_pdu-Fate Handler.gatts_write_cmd p w = guard-Fate _ w
  handle_pdu-Fate Handler.gatts_signed_write_cmd p w = guard-Fate _ w
  handle_pdu-Fate _ p w = guarded-Fate _ w (Runs-refuse _ _)

  pub Runs-handle_pdu :
      (handler : Handler) (p : Text) → well_sized handler p ≡ true → Runs (handle_pdu env handler p)
  Runs-handle_pdu handler p h = record {
    runs = λ w. Fate→Ran (well_sized handler p) w _ h (handle_pdu-Fate handler p w);
  }
