-- ===== src/Client/Seen.antt =====
-- What the client makes of the status report of a process that is disconnected.
use bluepy.Common.Hex.Digits.{All}
use bluepy.Common.Int.{to_u32-bound, to_u32, pos}
use bluepy.Status.Lines.{status_fields}
use bluepy.Protocol.Responses.{field, line}
use bluepy.Client.Parse.RoundTrip.{parse_resp-encode, IsCleanText}
use bluepy.Common.{some, false, ◌++◌, true, [], Text, refl, List, ◌∷◌, arith, ◌≡◌, codes}
use bluepy.Client.Wait.{
  Waited, is_wanted, lookup, first_value, is_skipped, on_status, on_kind, on_response, on_line,
  wait_resp,
}
use bluepy.Protocol.Wire.{sym as symbol}
use bluepy.Protocol.{rsp_status, tag_response}
use bluepy.World.{World, disconnected}
use bluepy.Client.Parse.{ok, parse_resp, Resp, add_value, rstrip, text, int}

rsp-IsCleanText : IsCleanText (codes "rsp")
unfolding rstrip
rsp-IsCleanText = record {
  no_delim = (omega arith, (omega arith, (omega arith, tt)));
  no_equals = (omega arith, (omega arith, (omega arith, tt)));
  stripped = refl;
}

stat-IsCleanText : IsCleanText (codes "stat")
unfolding rstrip
stat-IsCleanText = record {
  no_delim = (omega arith, (omega arith, (omega arith, (omega arith, tt))));
  no_equals = (omega arith, (omega arith, (omega arith, (omega arith, tt))));
  stripped = refl;
}

state-IsCleanText : IsCleanText (codes "state")
unfolding rstrip
state-IsCleanText = record {
  no_delim = (omega arith, (omega arith, (omega arith, (omega arith, (omega arith, tt)))));
  no_equals = (omega arith, (omega arith, (omega arith, (omega arith, (omega arith, tt)))));
  stripped = refl;
}

disc-IsCleanText : IsCleanText (codes "disc")
unfolding rstrip
disc-IsCleanText = record {
  no_delim = (omega arith, (omega arith, (omega arith, (omega arith, tt))));
  no_equals = (omega arith, (omega arith, (omega arith, (omega arith, tt))));
  stripped = refl;
}

mtu-IsCleanText : IsCleanText (codes "mtu")
unfolding rstrip
mtu-IsCleanText = record {
  no_delim = (omega arith, (omega arith, (omega arith, tt)));
  no_equals = (omega arith, (omega arith, (omega arith, tt)));
  stripped = refl;
}

sec-IsCleanText : IsCleanText (codes "sec")
unfolding rstrip
sec-IsCleanText = record {
  no_delim = (omega arith, (omega arith, (omega arith, tt)));
  no_equals = (omega arith, (omega arith, (omega arith, tt)));
  stripped = refl;
}

-- The dictionary of that report.
abbrev pub disconnected_resp : World → Resp
disconnected_resp w =
    (codes "rsp", text (codes "stat") ∷ [])
    ∷ (codes "state", text (codes "disc") ∷ [])
    ∷ (codes "mtu", int (pos (to_u32 w.opt_mtu)) ∷ [])
    ∷ (codes "sec", text w.opt_sec_level ∷ [])
    ∷ []

parse_resp-disconnected :
    (w : World)
    → w.conn_state ≡ disconnected
    → IsCleanText w.opt_sec_level
    → parse_resp (line rsp_status (status_fields w)) ≡ ok (disconnected_resp w)
unfolding add_value
parse_resp-disconnected w c clean = rw c (
    parse_resp-encode (field tag_response (symbol rsp_status))
      (status_fields (record w { conn_state = disconnected })) (rsp-IsCleanText, stat-IsCleanText)
      (
        (state-IsCleanText, disc-IsCleanText),
        ((mtu-IsCleanText, to_u32-bound w.opt_mtu), ((sec-IsCleanText, clean), tt)),
      ))

on_line-parsed :
    (want_type : List Text) (s : Text) (resp : Resp)
    → is_skipped s ≡ false
    → parse_resp s ≡ ok resp
    → on_line want_type s ≡ on_response want_type resp
unfolding on_line
on_line-parsed want_type s resp h p = rw (on_line, h, p)

on_response-disconnected :
    (want_type : List Text) (w : World)
    → is_wanted want_type (text rsp_status) ≡ false
    → on_response want_type (disconnected_resp w) ≡ some (Waited.disconnected (disconnected_resp w))
unfolding on_response on_kind on_status first_value lookup
on_response-disconnected want_type w other = rw other refl

-- If the helper is disconnected and its security level is a text that the protocol can carry, a call
-- of `_waitResp` that does not wait for a status and finds the helper's status report next in the
-- queue ends with the error that the device is disconnected, whatever lines follow, and the error
-- has the fields of the report.
pub wait_resp-disconnected :
    (want_type : List Text) (w : World) (lines : List Text)
    → w.conn_state ≡ disconnected
    → IsCleanText w.opt_sec_level
    → is_wanted want_type (text rsp_status) ≡ false
    → wait_resp want_type (line rsp_status (status_fields w) ∷ lines)
      ≡ Waited.disconnected (disconnected_resp w)
unfolding wait_resp on_line is_skipped
wait_resp-disconnected want_type w lines c clean other = rw (
  on_line-parsed want_type (line rsp_status (status_fields w)) (disconnected_resp w) refl
      (parse_resp-disconnected w c clean),
  on_response-disconnected want_type w other,
  wait_resp,
)

-- Lines that are skipped, such as the comments of the helper, do not change what a call of
-- `_waitResp` ends with.
pub wait_resp-skipped :
    (want_type : List Text) (skipped lines : List Text)
    → All (λ s. is_skipped s ≡ true) skipped
    → wait_resp want_type (skipped ++ lines) ≡ wait_resp want_type lines
unfolding wait_resp on_line is_skipped
wait_resp-skipped want_type [] lines h = refl
wait_resp-skipped want_type (s ∷ skipped) lines (h, rest) =
    rw (wait_resp, on_line, h) (wait_resp-skipped want_type skipped lines rest)
