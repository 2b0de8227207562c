-- ===== src/Safety/Rules.antt =====
-- The rules by which `search` shows that a block of statements keeps the invariant.
use bluepy.Safety.Invariant.{
  Keeps-comment, Keeps->>=, Keeps->>, Keeps-get, Keeps-skip, Keeps-pure, Keeps-assert, Keeps-if,
  Keeps-modify, Keeps-call, Keeps-on_option,
}
use bluepy.Safety.Basics.{
  Keeps-resp_error, Keeps-resp_str_error, Keeps-resp_mgmt, Keeps-resp_att_error,
  Keeps-resp_mgmt_err, Keeps-cmd_status, Keeps-when_connected, Keeps-unless_error,
}

pub ruleset keeping = (
  Keeps->>, Keeps-get, Keeps-skip, Keeps-pure, Keeps-if, Keeps-call, Keeps-on_option, Keeps->>=,
  Keeps-resp_error, Keeps-resp_str_error, Keeps-resp_mgmt, Keeps-resp_att_error,
  Keeps-resp_mgmt_err, Keeps-cmd_status, Keeps-when_connected, Keeps-unless_error, Keeps-comment,
  Keeps-assert, Keeps-modify,
)
