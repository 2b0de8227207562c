-- ===== src/Client/Mtu.antt =====
-- The MTU that the client keeps, and `setMTU`.
--
-- bluepy/btle.py, lines 350 to 375 and 587 to 589. `_waitResp` looks at the MTU of each line that it
-- takes, before it looks at the type of the response. Where the MTU is not a number, which the helper
-- never sends, the conversion of other values is left out.
use bluepy.Common.Hex.{show_hex}
use bluepy.Client.Wait.{is_skipped, first_value}
use bluepy.Client.Peripheral.{fetched, get_reply, reply, fetch, Fetched}
use bluepy.Common.Int.{ℤ}
pub mod Lower
pub mod Exchange
use bluepy.Common.{
  some, ◌-◌, none, ◌++◌, if◌then◌else◌, to_lower, length, codes, map, take, Text, ℕ, List, [], ◌∷◌,
}
use bluepy.Client.Parse.{ok, parse_resp, Resp, text, int, PyValue}

-- `new_mtu`, or what there was.
unfoldable pub note_mtu : Resp → ℤ → ℤ
note_mtu resp mtu = elim (first_value (codes "mtu") resp) [ some (int new_mtu) ↦ new_mtu | _ ↦ mtu ]

-- A line that has no response type raises an error before.
unfoldable pub response_mtu : Resp → ℤ → ℤ
response_mtu resp mtu = elim (first_value (codes "rsp") resp) [
  | none ↦ mtu
  | some kind ↦ note_mtu resp mtu
]

-- What a line does to `_mtu`.
unfoldable pub line_mtu : Text → ℤ → ℤ
line_mtu line mtu =
    if is_skipped line
    then mtu
    else elim (parse_resp line) [ ok resp ↦ response_mtu resp mtu | _ ↦ mtu ]

-- The same for the lines that are taken, one after the other.
unfoldable pub mtu_after : List Text → ℤ → ℤ
mtu_after [] mtu = mtu
mtu_after (line ∷ lines) mtu = mtu_after lines (line_mtu line mtu)

-- The lines that a wait for a response takes from the queue.
unfoldable pub taken : Text → List Text → List Text
taken kind lines = take (length lines - length (get_reply kind lines).left) lines

-- `_mtu` after `_getResp` has waited for that type.
unfoldable pub get_mtu : Text → List Text → ℤ → ℤ
get_mtu kind lines mtu = mtu_after (taken kind lines) mtu

-- `%x`
unfoldable pub lower_hex : ℕ → Text
lower_hex n = map to_lower (show_hex n)

-- What `setMTU` writes.
unfoldable pub mtu_command : ℕ → Text
mtu_command mtu = codes "mtu " ++ lower_hex mtu ++ codes "\n"

-- The response that it returns.
unfoldable pub set_mtu : List Text → Fetched Resp
set_mtu lines = fetch (reply (codes "stat") lines) (λ resp. fetched resp)
