-- ===== src/Tests/Progress.antt =====
-- The theorems that the helper goes on, at concrete inputs.
use bluepy.Mgmt.Oob.{add_remote_oob_data}
use bluepy.Mgmt.Oob.Freed.{add_remote_oob_data-undefined, DecodesKey}
use bluepy.Progress.Att.{handle_pdu-Fate}
use bluepy.World.{undefined, World, Env, aborted, Handler}
use bluepy.Commands.{Function, run}
use bluepy.Main.{handle_pdu}
use bluepy.Tests.{connected_world, test_env}
use bluepy.Common.Hex.Digits.{All}
use bluepy.Hci.Bounds.{handle_event-Agree, Agree}
use bluepy.Hci.Monitor.{handle_event, Mem}
use bluepy.Progress.Commands.{run-Behaves, Behaves}
use bluepy.Common.{
  none, replicate, some, refl, zero, suc, byte_at, ltb, codes, arith, ◌<◌, false, if◌then◌else◌,
  ◌≡◌, Text, ℕ, [], ◌∷◌,
}

run-Behaves_example :
    Behaves false test_env connected_world
      (run test_env Function.read_hnd (codes "rd" ∷ codes "2A" ∷ []) connected_world)
run-Behaves_example =
    run-Behaves test_env Function.read_hnd (codes "rd" ∷ codes "2A" ∷ []) connected_world refl

-- The request of the protocol to execute a write.
handle_pdu-Fate_example :
    handle_pdu test_env Handler.gatts_exec_write_req (0x18 ∷ 1 ∷ []) connected_world
    ≡ aborted connected_world
handle_pdu-Fate_example =
    handle_pdu-Fate test_env Handler.gatts_exec_write_req (0x18 ∷ 1 ∷ []) connected_world

-- A library that decodes keys, with the management interface.
abbrev key_env : Env
key_env = record test_env {
  attr_data = λ es s. (16, some (record { addr = 9; size = 16; mem = λ i. 7 }));
}

abbrev key_world : World
key_world = record connected_world { mgmt_master = some 3 }

abbrev key_text : Text
key_text = replicate 32 0x37

key-DecodesKey : DecodesKey key_env key_text
key-DecodesKey es = (record { addr = 9; size = 16; mem = λ i. 7 }, refl, refl, refl)

add_remote_oob_data-undefined_example :
    ((v : World) × (add_remote_oob_data key_env [] 1
          (some key_text)
          (some key_text)
          none
          none
          key_world
        ≡ undefined v))
    × ((v : World) × (add_remote_oob_data key_env [] 1 none none
            (some key_text)
            (some key_text)
            key_world
          ≡ undefined v))
    × ((v : World) × (add_remote_oob_data key_env [] 1 none none none none key_world ≡ undefined v))
add_remote_oob_data-undefined_example =
    add_remote_oob_data-undefined key_env 3 [] key_text key_text 1 key_world refl key-DecodesKey
      key-DecodesKey (omega arith)

-- Two memories that differ behind the packet.
abbrev packet : Mem
packet i = if ltb i 269 then byte_at (0x3e ∷ 12 ∷ 2 ∷ 1 ∷ []) i else 0

abbrev other_packet : Mem
other_packet i = if ltb i 269 then byte_at (0x3e ∷ 12 ∷ 2 ∷ 1 ∷ []) i else 7

byte_at-bound : (s : Text) (i : ℕ) → All (λ b. b < 256) s → byte_at s i < 256
byte_at-bound [] i h = omega arith
byte_at-bound (c ∷ s) zero h = h.0
byte_at-bound (c ∷ s) (suc i) h = byte_at-bound s i h.1

packet-IsBytes : (i : ℕ) → packet i < 256
packet-IsBytes i =
    let b =
      byte_at-bound (0x3e ∷ 12 ∷ 2 ∷ 1 ∷ []) i
        (omega arith, (omega arith, (omega arith, (omega arith, tt)))) in
    ground arith

packet-Agree : Agree 269 packet other_packet
packet-Agree i h = ground arith

handle_event-Agree_example : handle_event packet ≡ handle_event other_packet
handle_event-Agree_example = handle_event-Agree packet other_packet packet-IsBytes packet-Agree
