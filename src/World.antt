-- ===== src/World.antt =====
-- The process as the source sees it: its global variables, and the calls that it makes.
--
-- bluepy/bluepy-helper.c, lines 71 to 104. Every call that leaves the process, and every print, is
-- an entry of the trace, newest first. What a library call returns is a field of `Env`, a function
-- of its arguments and of the trace, so that it may differ from call to call.
mod Data
mod Monad
pub use Data.*
unfoldable pub use Monad.*
