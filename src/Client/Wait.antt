-- ===== src/Client/Wait.antt =====
-- `_waitResp`
--
-- bluepy/btle.py, lines 349 to 395, without the log, the test that the helper still runs, and the
-- copy of the MTU that the client keeps (lines 370 to 375).
use bluepy.Common.{
  Bool, true, false, Option, none, some, List, [], ◌∷◌, Text, codes, same_text, ◌==◌, ◌||◌,
  if◌then◌else◌,
}
use bluepy.Client.Parse.{ok, value_error, internal_error, PyValue, text, Resp, parse_resp}

-- How a call of `_waitResp` ends. `waiting` is a queue with no line left.
pub data Waited : Type 0 where
  waiting : Waited
  response : Resp → Waited
  disconnected : Resp → Waited
  management_error : Resp → Waited
  gatt_error : Resp → Waited
  helper_error : Resp → Waited
  internal : Waited
  crashed : Waited

unfoldable pub lookup : Text → Resp → List PyValue
lookup tag [] = []
lookup tag ((t, vals) ∷ resp) = if same_text t tag then vals else lookup tag resp

-- `resp[tag][0]`, where the tag is there.
unfoldable pub first_value : Text → Resp → Option PyValue
first_value tag resp = elim (lookup tag resp) [ [] ↦ none | v ∷ vs ↦ some v ]

-- `v == s` for a string s
abbrev pub is_text : PyValue → Text → Bool
is_text (text t) s = same_text t s
is_text _ s = false

-- `v in wantType` for a list of strings
abbrev pub is_wanted : List Text → PyValue → Bool
is_wanted [] v = false
is_wanted (s ∷ ss) v = is_text v s || is_wanted ss v

-- `rv.startswith('#') or rv == '\n' or len(rv) == 0`
unfoldable pub is_skipped : Text → Bool
is_skipped [] = true
is_skipped (c ∷ s) = c == b'#' || same_text (c ∷ s) (codes "\n")

-- The branch on `errcode`.
unfoldable pub on_error : Resp → Waited
on_error resp = elim (first_value (codes "code") resp) [
  | none ↦ crashed
  | some code ↦
      if is_text code (codes "nomgmt")
      then management_error resp
      else if is_text code (codes "atterr")
      then gatt_error resp
      else helper_error resp
]

-- A status response that was not asked for matters if the device is disconnected.
unfoldable pub on_status : Resp → Option Waited
on_status resp = elim (first_value (codes "state") resp) [
  | none ↦ none
  | some state ↦ if is_text state (codes "disc") then some (disconnected resp) else none
]

module _ (want_type : List Text) where
  -- What is done with a response of a type: `none` goes on to the next line.
  unfoldable pub on_kind : PyValue → Resp → Option Waited
  on_kind kind resp =
      if is_wanted want_type kind
      then some (response resp)
      else if is_text kind (codes "stat")
      then on_status resp
      else if is_text kind (codes "err")
      then some (on_error resp)
      else if is_text kind (codes "scan")
      then none
      else some internal

  unfoldable pub on_response : Resp → Option Waited
  on_response resp = elim (first_value (codes "rsp") resp) [
    | none ↦ some internal
    | some kind ↦ on_kind kind resp
  ]

  unfoldable pub on_line : Text → Option Waited
  on_line line = if is_skipped line then none else elim (parse_resp line) [
    | ok resp ↦ on_response resp
    | value_error ↦ some crashed
    | internal_error ↦ some internal
  ]

  -- The loop over the lines of the queue.
  unfoldable pub wait_resp : List Text → Waited
  wait_resp [] = waiting
  wait_resp (line ∷ lines) = elim (on_line line) [ none ↦ wait_resp lines | some w ↦ w ]

  -- The lines that are left in the queue when that loop ends.
  unfoldable pub wait_rest : List Text → List Text
  wait_rest [] = []
  wait_rest (line ∷ lines) = elim (on_line line) [ none ↦ wait_rest lines | some w ↦ lines ]
