-- ===== src/Client/Peripheral/Methods.antt =====
-- The other methods of `BluepyHelper` and `Peripheral` that talk to the helper.
--
-- bluepy/btle.py, lines 397 to 608. The delegate is told of the notifications that a wait passes over;
-- these are left out here.
use bluepy.Common.Hex.{show_hex}
use bluepy.Mgmt.Oob.{OobArgs}
use bluepy.Client.Parse.{split, Resp, PyValue}
use bluepy.Client.Peripheral.{failed, fetched, event_types, get_resp, get_reply, Fetched}
use bluepy.Client.Wait.{waiting, response, Waited}
use bluepy.Client.Talk.{
  stop_helper, wait, waited, write, value_of, done, mgmt_cmd, Talk, ◌>>=◌, ◌>>◌,
}
use bluepy.Common.{
  ◌||◌, same_text, true, false, ◌+◌, ◌&&◌, none, ◌==◌, ◌++◌, codes, length, some, Option, List,
  Bool, ℕ, Text, [], ◌∷◌,
}

-- `self._getResp(kind)`
unfoldable pub expect : Text → Talk Resp
expect kind lines = let got = get_reply kind lines in waited got.outcome got.left

-- `status`
unfoldable pub status : Talk Resp
status = do write (codes "stat\n"); wait (codes "stat" ∷ [])

-- `getState`
unfoldable pub get_state : Talk PyValue
get_state = do resp ← status; value_of (codes "state") resp

-- `disconnect`, told whether there is a helper
unfoldable pub disconnect : Bool → Talk (Unit {0})
disconnect false = done tt
disconnect true = do write (codes "disc\n"); resp ← expect (codes "stat"); stop_helper

-- `setSecurityLevel`
unfoldable pub set_security_level : Text → Talk Resp
set_security_level level = do write (codes "secu " ++ level ++ codes "\n"); expect (codes "stat")

-- `pair` and `unpair`
unfoldable pub pair : Talk (Unit {0})
pair = mgmt_cmd (codes "pair")

unfoldable pub unpair : Talk (Unit {0})
unpair = mgmt_cmd (codes "unpair")

-- `_getIncludedServices`
unfoldable pub get_included_services : ℕ → ℕ → Talk Resp
get_included_services start end = do
  write (codes "incl " ++ show_hex start ++ codes " " ++ show_hex end ++ codes "\n")
  expect (codes "find")

-- `_readCharacteristicByUUID`, for the text of a `UUID`
unfoldable pub read_characteristic_by_uuid : Text → ℕ → ℕ → Talk Resp
read_characteristic_by_uuid uuid start end = do
  write (
      codes "rdu "
      ++ uuid
      ++ codes " "
      ++ show_hex start
      ++ codes " "
      ++ show_hex end
      ++ codes "\n")
  expect (codes "rd")

abbrev is_told : Waited → Fetched Bool
is_told (response resp) = fetched true
is_told waiting = fetched false
is_told w = failed w

-- `waitForNotifications`; the timeout is where no line is left.
unfoldable pub wait_for_notifications : List Text → Fetched Bool
wait_for_notifications lines = is_told (get_resp event_types (length lines + 1) lines).outcome

-- The tests of `_connect` on its arguments.
unfoldable pub accepts_address : Text → Text → Bool
accepts_address addr addr_type =
    length (split b':' addr) == 6
    && (same_text addr_type (codes "public") || same_text addr_type (codes "random"))

-- A pair of keys in the command of `_setRemoteOOB`.
abbrev key_pair : Text → Text → Option Text → Option Text → Text
key_pair c r (some hash) (some rand) =
    codes " " ++ c ++ codes " " ++ hash ++ codes " " ++ r ++ codes " " ++ rand
key_pair c r _ _ = []

abbrev interface : Option Text → Text
interface none = []
interface (some iface) = codes " hci" ++ iface

-- What `_setRemoteOOB` writes.
unfoldable pub remote_oob_command : Text → Text → OobArgs → Option Text → Text
remote_oob_command address address_type oob_data iface =
    codes "remote_oob "
    ++ address
    ++ codes " "
    ++ address_type
    ++ key_pair (codes "C_192") (codes "R_192") oob_data.c192 oob_data.r192
    ++ key_pair (codes "C_256") (codes "R_256") oob_data.c256 oob_data.r256
    ++ interface iface
