-- ===== src/Tests/States.antt =====
-- The life of the connection, at concrete inputs.
use bluepy.Protocol.{resp_end, send_uint, send_str, send_sym, resp_begin}
use bluepy.Status.{status_state, cmd_status, set_state}
use bluepy.States.Loop.{main_loop-Session}
use bluepy.Connection.{register_all, choose_mtu, attach, set_up_attrib, connect_cb}
use bluepy.Tests.{test_env, session}
use bluepy.States.Order.{main_loop-connected, Told, IsEstablished}
use bluepy.States.{Session}
use bluepy.Common.{refl, ◌≡◌, some, none, ◌≢◌, [], ◌∷◌}
use bluepy.World.{steps, world_of, Env, disconnected, connected}
use bluepy.Main.{initial, deliver, main_loop, connection}

main_loop-Session_example : Session session initial (world_of (main_loop test_env session initial))
main_loop-Session_example = main_loop-Session test_env session initial

-- Libraries that find out the MTU.
abbrev mtu_env : Env
mtu_env = record test_env { io_get = λ es io. some (23, 4) }

initial-not_connected : disconnected ≢ connected
initial-not_connected e = cc

main_loop-ends_connected :
    (world_of (main_loop mtu_env (connection 1 none ∷ []) initial)).conn_state ≡ connected
unfolding main_loop deliver connect_cb set_up_attrib attach choose_mtu register_all set_state
    cmd_status status_state resp_begin send_sym send_str send_uint resp_end steps
main_loop-ends_connected = refl

main_loop-connected_example :
    IsEstablished (connection 1 none ∷ [])
    × Told connected (world_of (main_loop mtu_env (connection 1 none ∷ []) initial))
main_loop-connected_example =
    main_loop-connected mtu_env (connection 1 none ∷ []) initial initial-not_connected
      main_loop-ends_connected
