-- ===== src/Client/Scanner/Control/Starting.antt =====
-- How `start` goes with the answers of the helper.
use bluepy.Status.Lines.{status_fields}
use bluepy.Protocol.{rsp_status}
use bluepy.Protocol.Responses.{line}
use bluepy.Client.Peripheral.Connect.Handshake.{state-value, status-IsCleanField, IsCleanStatus}
use bluepy.Client.Wait.{is_text}
use bluepy.Client.Peripheral.{fetched}
use bluepy.Client.Parse.Plain.{plain-IsCleanText}
use bluepy.Protocol.Wire.{Field}
use bluepy.Common.Hex.Digits.{All}
use bluepy.Client.Talk.Lines.{
  wait-line, value_of-code, wait-mgmt, mgmt_cmd-success, IsIgnored, mgmt_line, IsAnswer,
}
use bluepy.Client.Scanner.Control.{scan_word, stat_types, restart_scan, scanner_start}
use bluepy.Client.Talk.{mgmt_types, value_of, mgmt_cmd}
use bluepy.World.{World, disconnected}
use bluepy.Common.{inr, inl, Bool-cases, refl, false, ◌≡◌, codes, ◌++◌, Bool, List, Text, [], ◌∷◌}
use bluepy.Client.Parse.{text}

-- The answer that a command to the management interface has succeeded, behind lines that are skipped.
abbrev pub succeeded : List Text → List Text → List Text
succeeded before after = before ++ (mgmt_line (codes "success") [] ∷ after)

abbrev pub AllIgnored : List Text → Type 0
AllIgnored before = All (IsIgnored mgmt_types) before

success-IsAnswer : (before : List Text) → AllIgnored before → IsAnswer (codes "success") [] before
success-IsAnswer before ignored = record {
  clean = plain-IsCleanText (codes "success") refl;
  fields = tt;
  ignored = ignored;
}

pub mgmt_cmd-succeeded :
    (cmd : Text) (before after : List Text)
    → AllIgnored before
    → mgmt_cmd cmd (succeeded before after)
      ≡ record { outcome = fetched tt; written = (cmd ++ codes "\n") ∷ []; left = after }
mgmt_cmd-succeeded cmd before after ignored =
    mgmt_cmd-success (codes "success") [] before after (success-IsAnswer before ignored) cmd refl

-- The helper has switched LE on, and answers the command to scan with a code other than that it is
-- busy, behind lines that are skipped. Then `start` returns, with the two commands written and the
-- lines behind left: also where the code is not that of success.
pub scanner_start-answered :
    (passive : Bool) (code : Text) (fs : List Field) (first second after : List Text)
    → AllIgnored first
    → IsAnswer code fs second
    → is_text (text code) (codes "busy") ≡ false
    → scanner_start passive (succeeded first (second ++ (mgmt_line code fs ∷ after))) ≡ record {
      outcome = fetched tt;
      written = codes "le on\n" ∷ (scan_word passive ++ codes "\n") ∷ [];
      left = after;
    }
unfolding scanner_start
scanner_start-answered passive code fs first second after ignored answer other =
    let tail = second ++ (mgmt_line code fs ∷ after) in
    elim (Bool-cases (is_text (text code) (codes "success"))) [
      | inl e ↦
          rw
            (
              scanner_start,
              mgmt_cmd-succeeded (codes "le on") first tail ignored,
              wait-mgmt code fs second after answer,
              value_of-code code fs second after answer after,
              e,
            )
            refl
      | inr e ↦
          rw
            (
              scanner_start,
              mgmt_cmd-succeeded (codes "le on") first tail ignored,
              wait-mgmt code fs second after answer,
              value_of-code code fs second after answer after,
              e,
              other,
            )
            refl
    ]

busy-IsAnswer : (before : List Text) → AllIgnored before → IsAnswer (codes "busy") [] before
busy-IsAnswer before ignored = record {
  clean = plain-IsCleanText (codes "busy") refl;
  fields = tt;
  ignored = ignored;
}

-- A previous scan is still going on when the scan is started. The helper answers that it is busy,
-- ends that scan, reports that it is disconnected, and starts the scan, each answer behind lines that
-- are skipped. Then `start` returns with four commands written: to switch LE on, to scan, to end
-- the scan, and to scan again.
pub scanner_start-busy :
    (passive : Bool) (w : World) (first second third fourth fifth after : List Text)
    → w.conn_state ≡ disconnected
    → IsCleanStatus w
    → AllIgnored first
    → AllIgnored second
    → AllIgnored third
    → All (IsIgnored stat_types) fourth
    → AllIgnored fifth
    → scanner_start passive (
        succeeded first (
          second
          ++ (mgmt_line (codes "busy") []
              ∷ succeeded third
                  (fourth ++ (line rsp_status (status_fields w) ∷ succeeded fifth after)))))
      ≡ record {
        outcome = fetched tt;
        written =
            codes "le on\n"
            ∷ (scan_word passive ++ codes "\n")
            ∷ (scan_word passive ++ codes "end" ++ codes "\n")
            ∷ (scan_word passive ++ codes "\n")
            ∷ [];
        left = after;
      }
unfolding scanner_start restart_scan value_of
scanner_start-busy passive w first second third fourth fifth after c clean i1 i2 i3 i4 i5 =
    let restarted = succeeded fifth after in
    let reported = fourth ++ (line rsp_status (status_fields w) ∷ restarted) in
    let ended = succeeded third reported in
    rw
      (
        mgmt_cmd-succeeded (codes "le on") first (second ++ (mgmt_line (codes "busy") [] ∷ ended))
            i1,
        wait-mgmt (codes "busy") [] second ended (busy-IsAnswer second i2),
        value_of-code (codes "busy") [] second ended (busy-IsAnswer second i2) ended,
        restart_scan,
        mgmt_cmd-succeeded (scan_word passive ++ codes "end") third reported i3,
        wait-line stat_types rsp_status (status_fields w) fourth restarted
            (plain-IsCleanText rsp_status refl) (status-IsCleanField w clean) refl i4,
        value_of,
        state-value w disconnected c,
        mgmt_cmd-succeeded (scan_word passive) fifth after i5,
      )
      refl
