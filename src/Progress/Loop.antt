-- ===== src/Progress/Loop.antt =====
-- The event loop and the whole process return.
use bluepy.Safety.Invariant.{Inv}
use bluepy.Progress.Commands.{is_adding}
use bluepy.Commands.{commands, find_command, Function}
use bluepy.Progress.Runs.{Runs}
use bluepy.World.{undefined, aborted, ret, Env, World, Outcome}
use bluepy.Common.{arg, ◌≡◌, some, false, Text, List}

-- The words are no command to add out-of-band data.
abbrev pub AddsNot : List Text → Type 0
AddsNot argv =
    (func : Function) → find_command (arg argv 0) commands ≡ some func → is_adding func ≡ false

-- No line is such a command.
abbrev pub AddsNone : Env → Type 0
AddsNone env = (s : Text) (argv : List Text) → env.shell_parse_argv s ≡ some argv → AddsNot argv

-- The outcome is a return, in a world that satisfies the invariant of the process.
abbrev pub Ends : Outcome (Unit {0}) → Type 0
Ends (ret a w) = Inv w
Ends (aborted w) = ⊥
Ends (undefined w) = ⊥
