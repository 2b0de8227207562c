-- ===== src/Client/Scanner/Control.antt =====
-- `Scanner`: starting, processing and stopping a scan.
--
-- bluepy/btle.py, lines 817 to 878. Where `_update` raises an error, the call ends as in Client/Scanner.
use bluepy.Client.Peripheral.{assertion_error, failed}
use bluepy.Client.Parse.{Resp}
use bluepy.Client.Scanner.{on_scan, Discovery, ScannedDevices}
use bluepy.Client.Wait.{waiting, wait_rest, internal, wait_resp, is_text, Waited}
pub mod Starting
pub mod Processing
use bluepy.Client.Talk.{
  mgmt_types, wait, waited, stop_helper, write, with_outcome, mgmt_cmd, value_of, done, Talk, ◌>>=◌,
  ◌>>◌,
}
use bluepy.Common.{
  zero, some, false, true, suc, ◌++◌, none, if◌then◌else◌, codes, Text, ℕ, Bool, List, Option, [],
  ◌∷◌,
}

-- `_cmd`
abbrev pub scan_word : Bool → Text
scan_word true = codes "pasv"
scan_word false = codes "scan"

-- The texts that are `in 'stat'`.
abbrev pub stat_types : List Text
stat_types =
    codes "stat"
    ∷ codes "sta"
    ∷ codes "tat"
    ∷ codes "st"
    ∷ codes "ta"
    ∷ codes "at"
    ∷ codes "s"
    ∷ codes "t"
    ∷ codes "a"
    ∷ []
    ∷ []

-- What is done where a previous scan goes on.
unfoldable pub restart_scan : Bool → Talk (Unit {0})
restart_scan passive = do
  mgmt_cmd (scan_word passive ++ codes "end")
  rsp ← wait stat_types
  state ← value_of (codes "state") rsp
  if is_text state (codes "disc")
      then mgmt_cmd (scan_word passive)
      else with_outcome assertion_error

-- `start`, behind the start of the helper
unfoldable pub scanner_start : Bool → Talk (Unit {0})
scanner_start passive = do
  mgmt_cmd (codes "le on")
  write (scan_word passive ++ codes "\n")
  rsp ← wait mgmt_types
  code ← value_of (codes "code") rsp
  if is_text code (codes "success")
      then done tt
      else if is_text code (codes "busy")
      then restart_scan passive
      else done tt

-- `stop`
unfoldable pub scanner_stop : Bool → Talk (Unit {0})
scanner_stop passive = do mgmt_cmd (scan_word passive ++ codes "end"); stop_helper

-- `['scan', 'stat']`
abbrev pub process_types : List Text
process_types = codes "scan" ∷ codes "stat" ∷ []

-- A status response: a scan that has ended is started again.
unfoldable pub on_stat : Bool → Resp → Talk (Unit {0})
on_stat passive resp = do
  state ← value_of (codes "state") resp
  if is_text state (codes "disc") then mgmt_cmd (scan_word passive) else done tt

-- The devices that are known, and what the delegate is told, in its order.
abbrev pub Seen : Type 0
Seen = ScannedDevices × List Discovery

abbrev add_discovery : Option (ScannedDevices × Discovery) → List Discovery → Talk Seen
add_discovery none told = with_outcome (failed internal)
add_discovery (some (scanned, found)) told = done (scanned, told ++ (found ∷ []))

-- What a round does with a response.
unfoldable pub on_process : Bool → Resp → Seen → Talk Seen
on_process passive resp (scanned, told) = do
  kind ← value_of (codes "rsp") resp
  if is_text kind (codes "stat")
      then (do on_stat passive resp; done (scanned, told))
      else if is_text kind (codes "scan")
      then add_discovery (on_scan resp scanned) told
      else with_outcome (failed internal)

-- The end of a wait with a timeout: `none` is the timeout, which is where no line is left.
abbrev pub timed : Waited → Talk (Option Resp)
timed waiting = done none
timed w = waited w >>= λ resp. done (some resp)

-- `process`, where the time runs out after so many rounds.
unfoldable pub process : Bool → ℕ → Seen → Talk Seen
process passive zero seen = done seen
process passive (suc rounds) seen = do
  resp ← λ lines. timed (wait_resp process_types lines) (wait_rest process_types lines)
  elim resp [
    | none ↦ done seen
    | some r ↦ on_process passive r seen >>= λ seen'. process passive rounds seen'
  ]
