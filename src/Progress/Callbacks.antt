-- ===== src/Progress/Callbacks.antt =====
-- The callbacks that complete a request answer.
use bluepy.Client.Wait.{is_skipped}
use bluepy.Mgmt.Notices.{device_found_size, discovering_size}
use bluepy.Protocol.{resp_att_error}
use bluepy.Progress.Protocol.{
  Runs-send_data, Runs-resp_begin, Runs-send_uint, Replies-resp_att_error,
}
use bluepy.Common.Hex.Digits.{All}
use bluepy.Progress.Runs.{Runs-pure, Runs-print, Runs-if, Runs-call, Runs-require, Runs->>, Runs}
use bluepy.Progress.Replies.{
  Replied, Replies-second, Replies-resp_end, Replies->>, Replies→Runs, Replies-if, Replies,
}
use bluepy.Progress.Att.{well_sized}
use bluepy.World.{
  undefined, aborted, Event, ret, Outcome, printed_text, World, require, CharacteristicData, Env,
}
use bluepy.Gatt.Read.{att_ecode_attr_not_found, char_read_by_uuid_cb, report_rows, send_rows}
use bluepy.Main.{
  hci_readable, oob_read, oob_added, mgmt_found, mgmt_discovering, hang_up, char_read_by_uuid,
  input, pdu, Incoming,
}
use bluepy.Common.{
  ◌++◌, ◌+◌, ◌&&◌, refl, length, leb, none, if◌then◌else◌, ◌≢◌, some, ◌==◌, false, true, Text,
  Option, not, ℕ, List, ◌≡◌, Bool, [], ◌∷◌,
}

-- The arguments of a callback are such as the code expects them: a PDU is as long as its handler
-- asserts, the rows of a read by UUID hold a handle each, and the events of the management interface
-- have the size that their structures have.
abbrev pub IsWellFormed : Env → Incoming → Type 0
IsWellFormed env (pdu handler p) = well_sized handler p ≡ true
IsWellFormed env (char_read_by_uuid status p d) =
    (rows : List Text)
    → env.dec_read_by_type_resp p ≡ some rows
    → All (λ value. leb 2 (length value) ≡ true) rows
IsWellFormed env (oob_read status rp) = rp ≢ none
IsWellFormed env (mgmt_discovering len on) = (len == discovering_size) ≡ true
IsWellFormed env (mgmt_found len ev) = (len == device_found_size + ev.eir_len) ≡ true
IsWellFormed env _ = Unit

-- Whether a callback completes a command, so that the client waits for what it prints. The others
-- are the input, a hang-up, what a peer or the controller tells, and the passive scan.
abbrev pub completes : Incoming → Bool
completes (input error) = false
completes (hang_up chan) = false
completes (pdu handler p) = false
completes (mgmt_discovering len on) = false
completes (mgmt_found len ev) = false
completes hci_readable = false
completes _ = true

-- Two completions leave the client without a response: out-of-band data that was added, and a read
-- by UUID that ends behind the first row.
abbrev pub is_unsaid : Incoming → Bool
is_unsaid (oob_added status) = status == 0
is_unsaid (char_read_by_uuid status p d) =
    status == att_ecode_attr_not_found && not (d.start == d.orig_start)
is_unsaid _ = false

-- The run returns; what it has printed is nothing or a comment.
abbrev pub Unsaid : World → Outcome (Unit {0}) → Type 0
Unsaid w (ret a v) =
    (es : List Event) × (v.trace ≡ es ++ w.trace) × (is_skipped (printed_text es) ≡ true)
Unsaid w (aborted v) = ⊥
Unsaid w (undefined v) = ⊥

-- Either that, or an answer.
abbrev pub Completed : Bool → Env → World → Outcome (Unit {0}) → Type 0
Completed false env w o = Replied env w o
Completed true env w o = Unsaid w o

Runs-require_long : (b : Bool) → b ≡ true → Runs (require b)
Runs-require_long true h = Runs-require
Runs-require_long false h = cc

Runs-send_rows :
    (rows : List Text) (d : CharacteristicData)
    → All (λ value. leb 2 (length value) ≡ true) rows
    → Runs (send_rows rows d)
unfolding send_rows
Runs-send_rows [] d h = Runs-pure d
Runs-send_rows (value ∷ rows) d (long, rest) =
    Runs->> (Runs-require_long _ long)
      (Runs->> (Runs-send_uint _ _) (Runs->> (Runs-send_data _) (Runs-send_rows rows _ rest)))

module _ (env : Env) where
  Replies-report_rows :
      (rows : Option (List Text)) (d : CharacteristicData)
      → ((xs : List Text) → rows ≡ some xs → All (λ value. leb 2 (length value) ≡ true) xs)
      → Replies env (report_rows rows d)
  unfolding report_rows
  Replies-report_rows none d h = Replies->> (Runs-resp_begin _) Replies-resp_end
  Replies-report_rows (some rows) d h =
      Replies->> (Runs-resp_begin _)
        (Replies-second (Runs-send_rows rows d (h rows refl)) (λ _. Replies-resp_end))

  -- The part of `char_read_by_uuid_cb` that reports.
  Replies-report_uuid :
      (status : ℕ) (p : Text) (d : CharacteristicData)
      → IsWellFormed env (char_read_by_uuid status p d)
      → Replies env (
          if status == 0
          then report_rows (env.dec_read_by_type_resp p) d
          else resp_att_error env status)
  Replies-report_uuid status p d h =
      Replies-if (status == 0) (Replies-report_rows (env.dec_read_by_type_resp p) d h)
        (Replies-resp_att_error status)

  pub Runs-char_read_by_uuid_cb :
      (status : ℕ) (p : Text) (d : CharacteristicData)
      → IsWellFormed env (char_read_by_uuid status p d)
      → Runs (char_read_by_uuid_cb env status p d)
  unfolding char_read_by_uuid_cb
  Runs-char_read_by_uuid_cb status p d h =
      Runs->> (Runs-if _ (Runs-print _) (Replies→Runs (Replies-report_uuid status p d h)))
        (Runs-call _)
