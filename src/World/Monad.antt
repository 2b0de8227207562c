-- ===== src/World/Monad.antt =====
-- C statements as functions on the world, and what a run prints.
use bluepy.Common.{
  Option, none, some, Bool, true, false, List, [], ◌∷◌, ◌++◌, ◌≡◌, Text, append_assoc, append-nil,
}
use bluepy.World.Data.{World, Event, printed}

-- A call returns, a failed assert ends the process, or the C code reads out of bounds.
pub data Outcome (A : Type 0) : Type 0 where
  ret : A → World → Outcome A
  aborted : World → Outcome A
  undefined : World → Outcome A

abbrev pub M : Type 0 → Type 0
M A = World → Outcome A

-- A `void` function.
abbrev pub Action : Type 0
Action = M (Unit {0})

unfoldable pub pure : {A : Type 0} → A → M A
pure a w = ret a w

unfoldable pub skip : Action
skip w = ret tt w

infixl 5 ◌>>=◌ ◌>>◌
unfoldable pub ◌>>=◌ : {A B : Type 0} → M A → (A → M B) → M B
◌>>=◌ m f w = elim (m w) [
  | ret a w' ↦ f a w'
  | aborted w' ↦ aborted w'
  | undefined w' ↦ undefined w'
]

unfoldable pub ◌>>◌ : {B : Type 0} → Action → M B → M B
m >> k = m >>= λ _. k

unfoldable pub get : {A : Type 0} → (World → A) → M A
get f w = ret (f w) w

unfoldable pub modify : (World → World) → Action
modify f w = ret tt (f w)

-- A library call is recorded; its result is asked for first, at the trace before it.
unfoldable pub call : Event → Action
call e w = ret tt (record w { trace = e ∷ w.trace })

-- `printf` of a text that is already formatted.
unfoldable pub print : Text → Action
print s = call (printed s)

-- `assert`
unfoldable pub assert : Bool → Action
assert true w = ret tt w
assert false w = aborted w

-- What the C code relies on without a test.
unfoldable pub require : Bool → Action
require true w = ret tt w
require false w = undefined w

-- A match on a result that may be missing.
unfoldable pub on_option : {A B : Type 0} → Option A → M B → (A → M B) → M B
on_option none m f = m
on_option (some a) m f = f a

-- All of the operations above, for the `unfolding` line of a proof that runs a program.
unfoldable pub steps : Unit {0}
unfolding pure skip ◌>>=◌ ◌>>◌ get modify call print assert require on_option
steps = tt

-- What the events of a trace, newest first, have printed.
unfoldable pub printed_text : List Event → Text
printed_text [] = []
printed_text (printed s ∷ es) = printed_text es ++ s
printed_text (_ ∷ es) = printed_text es

-- Standard output so far.
abbrev pub stdout : World → Text
stdout w = printed_text w.trace

abbrev pub world_of : {A : Type 0} → Outcome A → World
world_of (ret a w) = w
world_of (aborted w) = w
world_of (undefined w) = w

pub printed_text-append :
    (es fs : List Event) → printed_text (es ++ fs) ≡ printed_text fs ++ printed_text es
unfolding printed_text
printed_text-append [] fs = rw append-nil
printed_text-append (printed s ∷ es) fs = rw (printed_text-append es fs) (rw append_assoc)
printed_text-append (_ ∷ es) fs = printed_text-append es fs
