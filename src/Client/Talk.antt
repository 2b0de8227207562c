-- ===== src/Client/Talk.antt =====
-- What a method of the client does with the helper: the commands that it writes and the lines that
-- it takes from the queue, which are given beforehand.
--
-- bluepy/btle.py, lines 302 to 325 and 349 to 395.
pub mod Lines
use bluepy.Client.Peripheral.{assertion_error, index_error, key_error, failed, fetched, Fetched}
use bluepy.Client.Parse.{PyValue, Resp}
use bluepy.Client.Wait.{
  management_error, is_text, wait_rest, first_value, wait_resp, response, Waited, disconnected,
}
use bluepy.Common.{some, none, if◌then◌else◌, ◌++◌, Text, List, codes, [], ◌∷◌}

-- How a call ends, what it has written, and the lines that are left.
pub record Reply {ℓ} (A : Type ℓ) : Type ℓ where
  pub outcome : Fetched A
  pub written : List Text
  pub left : List Text

abbrev pub Talk {ℓ} : Type ℓ → Type ℓ
Talk A = List Text → Reply A

-- The call ends here with that outcome.
abbrev pub with_outcome {ℓ} : {A : Type ℓ} → Fetched A → Talk A
with_outcome o lines = record { outcome = o; written = []; left = lines }

abbrev pub done {ℓ} : {A : Type ℓ} → A → Talk A
done a = with_outcome (fetched a)

abbrev pub write : Text → Talk (Unit {0})
write cmd lines = record { outcome = fetched tt; written = cmd ∷ []; left = lines }

abbrev after_reply {ℓ} : {A : Type ℓ} → List Text → Reply A → Reply A
after_reply cmds r = record { outcome = r.outcome; written = cmds ++ r.written; left = r.left }

abbrev pub go_on {ℓ κ} :
    {A : Type ℓ} {B : Type κ} → Fetched A → List Text → List Text → (A → Talk B) → Reply B
go_on (fetched a) cmds lines f = after_reply cmds (f a lines)
go_on key_error cmds lines f = record { outcome = key_error; written = cmds; left = lines }
go_on index_error cmds lines f = record { outcome = index_error; written = cmds; left = lines }
go_on assertion_error cmds lines f = record {
  outcome = assertion_error;
  written = cmds;
  left = lines;
}
go_on (failed w) cmds lines f = record { outcome = failed w; written = cmds; left = lines }

infixl 5 ◌>>=◌
abbrev pub ◌>>=◌ {ℓ κ} : {A : Type ℓ} {B : Type κ} → Talk A → (A → Talk B) → Talk B
(m >>= f) lines = go_on (m lines).outcome (m lines).written (m lines).left f

infixl 5 ◌>>◌
abbrev pub ◌>>◌ {ℓ} : {B : Type ℓ} → Talk (Unit {0}) → Talk B → Talk B
m >> k = m >>= λ _. k

-- `_stopHelper`
unfoldable pub stop_helper : Talk (Unit {0})
stop_helper = write (codes "quit\n")

-- The end of `_waitResp`: the helper is stopped where the device is disconnected.
abbrev pub waited : Waited → Talk Resp
waited (response resp) = done resp
waited (disconnected resp) = do stop_helper; with_outcome (failed (disconnected resp))
waited w = with_outcome (failed w)

-- `_waitResp` of a list of types
unfoldable pub wait : List Text → Talk Resp
wait want_type lines = waited (wait_resp want_type lines) (wait_rest want_type lines)

-- `rsp[tag][0]`
unfoldable pub value_of : Text → Resp → Talk PyValue
value_of tag resp = elim (first_value tag resp) [ none ↦ with_outcome key_error | some v ↦ done v ]

-- The texts that are `in 'mgmt'`: the test for a string is that for a part of it.
abbrev pub mgmt_types : List Text
mgmt_types =
    codes "mgmt"
    ∷ codes "mgm"
    ∷ codes "gmt"
    ∷ codes "mg"
    ∷ codes "gm"
    ∷ codes "mt"
    ∷ codes "m"
    ∷ codes "g"
    ∷ codes "t"
    ∷ []
    ∷ []

-- `_mgmtCmd`
unfoldable pub mgmt_cmd : Text → Talk (Unit {0})
mgmt_cmd cmd = do
  write (cmd ++ codes "\n")
  rsp ← wait mgmt_types
  code ← value_of (codes "code") rsp
  if is_text code (codes "success")
      then done tt
      else do stop_helper; with_outcome (failed (management_error rsp))
