-- ===== src/Att/Server.antt =====
-- Requests of the peer, which are answered by an error response: the `gatts_` handlers.
use bluepy.Common.{ℕ, ◌%◌, Bool, ◌||◌, Text, byte_at, length, ◌==◌, leb, if◌then◌else◌}
use bluepy.Common.Int.{pos}
use bluepy.World.{
  on_option, Env, World, attrib_set_mtu, Action, get, modify, call, assert, ◌>>=◌, ◌>>◌,
}
use bluepy.Protocol.{resp_error, err_decoding}
use bluepy.Status.{cmd_status}
use bluepy.Att.Events.{get_le16, get_buffer, send_pdu}

abbrev pub att_ecode_req_not_supp : ℕ
att_ecode_req_not_supp = 0x06

module _ (env : Env) where
  -- The lines that the handlers share: a buffer, an error response into it, and its sending.
  unfoldable pub refuse : ℕ → ℕ → Action
  refuse opcode handle = do
    plen ← get (get_buffer env)
    send_pdu (env.enc_error_resp opcode handle att_ecode_req_not_supp plen)

  unfoldable pub gatts_find_info_req : Text → Action
  gatts_find_info_req pdu = do assert (length pdu == 5); refuse (byte_at pdu 0) (get_le16 pdu 1)

  unfoldable pub gatts_find_by_type_req : Text → Action
  gatts_find_by_type_req pdu = do
    assert (leb 7 (length pdu))
    refuse (byte_at pdu 0) (get_le16 pdu 1)

  unfoldable pub gatts_read_by_type_req : Text → Action
  gatts_read_by_type_req pdu = do
    assert (length pdu == 7 || length pdu == 21)
    refuse (byte_at pdu 0) (get_le16 pdu 1)

  unfoldable pub gatts_read_req : Text → Action
  gatts_read_req pdu = do assert (length pdu == 3); refuse (byte_at pdu 0) (get_le16 pdu 1)

  unfoldable pub gatts_read_blob_req : Text → Action
  gatts_read_blob_req pdu = do assert (length pdu == 5); refuse (byte_at pdu 0) (get_le16 pdu 1)

  unfoldable pub gatts_read_multi_req : Text → Action
  gatts_read_multi_req pdu = do assert (leb 5 (length pdu)); refuse (byte_at pdu 0) (get_le16 pdu 1)

  unfoldable pub gatts_read_by_group_req : Text → Action
  gatts_read_by_group_req pdu = do
    assert (leb 7 (length pdu))
    refuse (byte_at pdu 0) (get_le16 pdu 1)

  unfoldable pub gatts_write_req : Text → Action
  gatts_write_req pdu = do assert (leb 3 (length pdu)); refuse (byte_at pdu 0) (get_le16 pdu 1)

  unfoldable pub gatts_write_cmd : Text → Action
  gatts_write_cmd pdu = assert (leb 3 (length pdu))

  unfoldable pub gatts_signed_write_cmd : Text → Action
  gatts_signed_write_cmd pdu = assert (leb 15 (length pdu))

  -- `handle` is a uint8_t here, so that the handle loses its high byte.
  unfoldable pub gatts_prep_write_req : Text → Action
  gatts_prep_write_req pdu = do
    assert (leb 5 (length pdu))
    refuse (byte_at pdu 0) (get_le16 pdu 1 % 256)

  unfoldable pub gatts_exec_write_req : Text → Action
  gatts_exec_write_req pdu = do assert (length pdu == 5); refuse (byte_at pdu 0) 0

  -- `g_attrib_set_mtu(attrib, mtu)`
  unfoldable pub set_mtu : ℕ → World → Bool
  set_mtu mtu w = env.attrib_set_mtu w.trace w.attrib mtu

  -- The new MTU is stored and reported before the response to the peer is sent.
  unfoldable pub accept_mtu : ℕ → ℕ → Action
  accept_mtu mtu plen = do
    modify (λ w. record w { opt_mtu = pos mtu })
    cmd_status
    send_pdu (env.enc_mtu_resp mtu plen)

  -- The answer of `gatts_mtu_req` once the PDU is decoded.
  unfoldable pub answer_mtu : ℕ → ℕ → Action
  answer_mtu opcode mtu = do
    plen ← get (get_buffer env)
    accepted ← get (set_mtu mtu)
    w ← get (λ w. w)
    call (attrib_set_mtu w.attrib mtu)
    if accepted
        then accept_mtu mtu plen
        else send_pdu (env.enc_error_resp opcode mtu att_ecode_req_not_supp plen)

  unfoldable pub gatts_mtu_req : Text → Action
  gatts_mtu_req pdu = do
    assert (leb 3 (length pdu))
    on_option (env.dec_mtu_req pdu) (resp_error err_decoding)
        (λ mtu. answer_mtu (byte_at pdu 0) mtu)
