-- ===== src/Main/Quit.antt =====
-- The end of the event loop.
use bluepy.Common.{refl, ◌≡◌, ◌∷◌, true, List}
use bluepy.Connection.{cmd_exit}
use bluepy.Commands.{prompt_read}
use bluepy.Main.{input, Incoming, deliver, main_loop}
use bluepy.World.{Event, ret, World, Env, steps}

-- After an error condition or end of file on the watch of standard input nothing that would
-- happen later is looked at: the loop returns, having done nothing but to quit the event loop.
pub main_loop-eof :
    (env : Env) (later : List Incoming) (w : World)
    → main_loop env (input true ∷ later) w
      ≡ ret tt (record w { quitting = true; trace = Event.main_loop_quit ∷ w.trace })
unfolding main_loop deliver prompt_read cmd_exit steps
main_loop-eof env later w = refl
