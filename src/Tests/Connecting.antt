-- ===== src/Tests/Connecting.antt =====
-- The making of a connection, at concrete inputs.
use bluepy.Client.Peripheral.Connect.Failure.{peripheral_connect-fails}
use bluepy.Status.Lines.{status_fields}
use bluepy.Client.Peripheral.Lines.{resp_of}
use bluepy.Client.Wait.{Waited}
use bluepy.Protocol.{rsp_status}
use bluepy.Tests.Client.{hello-IsPassed}
use bluepy.Client.Parse.Plain.{plain-IsCleanText}
use bluepy.Client.Peripheral.{failed, fetched}
use bluepy.Connection.{connect_cb}
use bluepy.Client.Peripheral.Connect.Handshake.{connect-connects, connect_words}
use bluepy.Commands.{parse_line}
use bluepy.Main.{initial}
use bluepy.Tests.{test_env}
use bluepy.World.{disconnected, printed_text, connected, ret, Env, World}
use bluepy.Client.Peripheral.Connect.{peripheral_connect, connect_command}
use bluepy.Common.{◌++◌, refl, ◌≡◌, none, some, codes, Text, take, [], ◌∷◌}

-- Libraries that give the words of the command, and that find out the MTU.
abbrev connect_env : Env
connect_env = record test_env {
  strstrip = λ s. take 29 s;
  shell_parse_argv = λ s. some (codes "conn" ∷ codes "00:11:22:33:44:55" ∷ codes "public" ∷ []);
  io_get = λ es io. some (23, 4);
}

strstrip-connect :
    take 29 (connect_command (codes "00:11:22:33:44:55") (codes "public") none)
    ≡ connect_words (codes "00:11:22:33:44:55") (codes "public")
unfolding connect_command
strstrip-connect = refl

abbrev ready_world : World
ready_world = record initial { opt_sec_level = codes "low" }

connect-connects_example :
    (v u : World) × (s t : Text) × (parse_line connect_env
        (connect_command (codes "00:11:22:33:44:55") (codes "public") none)
        ready_world
      ≡ ret tt v)
    × (connect_cb connect_env 1 none v ≡ ret tt u)
    × (u.conn_state ≡ connected)
    × (printed_text v.trace ≡ printed_text ready_world.trace ++ s)
    × (printed_text u.trace ≡ printed_text v.trace ++ t)
    × (peripheral_connect ((codes "# hello\n" ∷ []) ++ (s ∷ ((codes "# hello\n" ∷ []) ++ (t ∷ []))))
        ≡ fetched tt)
connect-connects_example =
    connect-connects connect_env (codes "00:11:22:33:44:55") (codes "public") 1 (23, 4) ready_world
      (codes "# hello\n" ∷ []) (codes "# hello\n" ∷ []) [] refl strstrip-connect refl (λ es. refl)
      (λ es. refl) (plain-IsCleanText (codes "00:11:22:33:44:55") refl)
      (plain-IsCleanText (codes "low") refl) (hello-IsPassed rsp_status, tt)
      (hello-IsPassed rsp_status, tt)

peripheral_connect-fails_example :
    (v u : World) × (s t more : Text) × (parse_line connect_env
        (connect_command (codes "00:11:22:33:44:55") (codes "public") none)
        ready_world
      ≡ ret tt v)
    × (connect_cb connect_env 1 (some (codes "Host is down")) v ≡ ret tt u)
    × (u.conn_state ≡ disconnected)
    × (printed_text v.trace ≡ printed_text ready_world.trace ++ s)
    × (printed_text u.trace ≡ printed_text v.trace ++ (t ++ more))
    × (peripheral_connect ((codes "# hello\n" ∷ []) ++ (s ∷ ((codes "# hello\n" ∷ []) ++ (t ∷ []))))
        ≡ failed (Waited.disconnected (resp_of rsp_status (status_fields u))))
peripheral_connect-fails_example =
    peripheral_connect-fails connect_env (codes "00:11:22:33:44:55") (codes "public")
      (codes "Host is down") 1 ready_world (codes "# hello\n" ∷ []) (codes "# hello\n" ∷ []) [] refl
      strstrip-connect refl (λ es. refl) (plain-IsCleanText (codes "00:11:22:33:44:55") refl)
      (plain-IsCleanText (codes "low") refl) (hello-IsPassed rsp_status, tt)
      (hello-IsPassed rsp_status, tt)
