-- ===== src/Progress/Runs.antt =====
-- Functions that return whatever the world is, and only add to the trace.
use bluepy.Protocol.Responses.{Prints}
use bluepy.Protocol.Emits.{Emits}
use bluepy.Protocol.Wire.{Field}
use bluepy.Common.{
  false, if◌then◌else◌, refl, append_assoc, sym, none, some, ◌∷◌, ◌++◌, Option, true, Bool, [], ◌≡◌,
  List, Text,
}
use bluepy.World.{
  undefined, aborted, ret, printed, Event, Outcome, get, ◌>>=◌, call, pure, World, require, ◌>>◌, M,
  skip, Action, on_option, modify, assert, print,
}

-- The run returns, with the trace grown.
abbrev pub Ran : {A : Type 0} → World → Outcome A → Type 0
Ran w (ret a v) = (es : List Event) × (v.trace ≡ es ++ w.trace)
Ran w (aborted v) = ⊥
Ran w (undefined v) = ⊥

pub record Runs {A : Type 0} (m : M A) : Type 0 where
  pub runs : (w : World) → Ran w (m w)

Ran-after :
    {B : Type 0} (w v : World) (es : List Event) (o : Outcome B)
    → v.trace ≡ es ++ w.trace
    → Ran v o
    → Ran w o
Ran-after w v es (ret b u) e (fs, g) = (fs ++ es, rw (g, e) (sym (append_assoc fs es w.trace)))
Ran-after w v es (aborted u) e h = h
Ran-after w v es (undefined u) e h = h

Ran-bind :
    {A B : Type 0} (w : World) (o : Outcome A) (f : A → M B)
    → Ran w o
    → ((a : A) → Runs (f a))
    → Ran w (((λ _. o) >>= f) w)
unfolding ◌>>=◌
Ran-bind w (ret a v) f (es, e) k = Ran-after w v es (f a v) e ((k a).runs v)
Ran-bind w (aborted v) f h k = absurd h
Ran-bind w (undefined v) f h k = absurd h

pub Runs->>= :
    {A B : Type 0} {m : M A} {f : A → M B} → Runs m → ((a : A) → Runs (f a)) → Runs (m >>= f)
unfolding ◌>>=◌
Runs->>= {m} {f} h k = record { runs = λ w. Ran-bind w (m w) f (h.runs w) k }

pub Runs->> : {B : Type 0} {m : Action} {k : M B} → Runs m → Runs k → Runs (m >> k)
unfolding ◌>>◌
Runs->> h j = Runs->>= h (λ _. j)

pub Runs-get :
    {A B : Type 0} (g : World → A) (f : A → M B) → ((a : A) → Runs (f a)) → Runs (get g >>= f)
unfolding ◌>>=◌ get
Runs-get g f k = record { runs = λ w. (k (g w)).runs w }

pub Runs-skip : Runs skip
unfolding skip
Runs-skip = record { runs = λ w. ([], refl) }

pub Runs-pure : {A : Type 0} (a : A) → Runs (pure a)
unfolding pure
Runs-pure a = record { runs = λ w. ([], refl) }

pub Runs-assert : Runs (assert true)
unfolding assert
Runs-assert = record { runs = λ w. ([], refl) }

pub Runs-require : Runs (require true)
unfolding require
Runs-require = record { runs = λ w. ([], refl) }

pub Runs-call : (e : Event) → Runs (call e)
unfolding call
Runs-call e = record { runs = λ w. (e ∷ [], refl) }

pub Runs-print : (s : Text) → Runs (print s)
unfolding print
Runs-print s = Runs-call (printed s)

pub Runs-modify : (f : World → World) → ((w : World) → (f w).trace ≡ w.trace) → Runs (modify f)
unfolding modify
Runs-modify f same = record { runs = λ w. ([], same w) }

pub Runs-if : {A : Type 0} {m k : M A} (b : Bool) → Runs m → Runs k → Runs (if b then m else k)
Runs-if true h j = h
Runs-if false h j = j

pub Runs-on_option :
    {A B : Type 0} (o : Option A) (m : M B) (f : A → M B)
    → Runs m
    → ((a : A) → Runs (f a))
    → Runs (on_option o m f)
unfolding on_option
Runs-on_option none m f h k = h
Runs-on_option (some a) m f h k = k a

-- A function that prints a text, and nothing else, returns.
pub Runs-Emits : {m : Action} {t : Text} → Emits m t → Runs m
Runs-Emits e = record { runs = λ w. let (es, eq, text, only) = e w in rw eq (es, refl) }

pub Runs-Prints : {m : Action} {kind : Text} {fs : List Field} → Prints m kind fs → Runs m
Runs-Prints p = Runs-Emits p.emits

pub ruleset running = (
  Runs->>, Runs-get, Runs-skip, Runs-pure, Runs-if, Runs-call, Runs-print, Runs-on_option, Runs->>=,
  Runs-assert, Runs-modify,
)
