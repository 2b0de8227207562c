-- ===== src/States/Moves.antt =====
-- Functions that change the connection state along the edges of a relation only.
use bluepy.Protocol.Responses.{Prints}
use bluepy.Protocol.Wire.{Field}
use bluepy.Protocol.Emits.{EmitsAt, Emits}
use bluepy.Status.Lines.{cmd_status-line}
use bluepy.Status.{set_state, cmd_status}
use bluepy.States.{quiet, Route, Route-append, move, stay}
use bluepy.World.{
  undefined, aborted, ret, world_of, printed, Outcome, get, Event, World, M, skip, print, on_option,
  ◌>>◌, assert, ◌>>=◌, require, pure, Action, modify, call, ConnState,
}
use bluepy.Common.{
  ◌∷◌, [], refl, ◌∙◌, false, true, none, List, some, Option, Text, if◌then◌else◌, Bool, ◌≡◌,
}

pub record Moves {A : Type 0} (E : ConnState → ConnState → Type 0) (m : M A) : Type 0 where
  pub moves : (w : World) → Route E w (world_of (m w))

-- The same, of a run from one state.
abbrev pub Starts : {A : Type 0} → (ConnState → ConnState → Type 0) → ConnState → M A → Type 0
Starts E s m = (w : World) → w.conn_state ≡ s → Route E w (world_of (m w))

module _ {E : ConnState → ConnState → Type 0} where
  bind-Route :
      {A B : Type 0} (w : World) (o : Outcome A) (f : A → M B)
      → Route E w (world_of o)
      → ((a : A) → Moves E (f a))
      → Route E w (world_of (((λ _. o) >>= f) (world_of o)))
  unfolding ◌>>=◌
  bind-Route w (ret a v) f p k = Route-append p ((k a).moves v)
  bind-Route w (aborted v) f p k = p
  bind-Route w (undefined v) f p k = p

  pub Moves->>= :
      {A B : Type 0} {m : M A} {f : A → M B}
      → Moves E m
      → ((a : A) → Moves E (f a))
      → Moves E (m >>= f)
  unfolding ◌>>=◌
  Moves->>= {m} {f} h k = record { moves = λ w. bind-Route w (m w) f (h.moves w) k }

  pub Moves->> : {B : Type 0} {m : Action} {k : M B} → Moves E m → Moves E k → Moves E (m >> k)
  unfolding ◌>>◌
  Moves->> h j = Moves->>= h (λ _. j)

  pub Moves-get :
      {A B : Type 0} (g : World → A) (f : A → M B)
      → ((a : A) → Moves E (f a))
      → Moves E (get g >>= f)
  unfolding ◌>>=◌ get
  Moves-get g f k = record { moves = λ w. (k (g w)).moves w }

  pub Moves-skip : Moves E skip
  unfolding skip
  Moves-skip = record { moves = λ w. stay }

  pub Moves-pure : {A : Type 0} (a : A) → Moves E (pure a)
  unfolding pure
  Moves-pure a = record { moves = λ w. stay }

  pub Moves-call : (e : Event) → Moves E (call e)
  unfolding call
  Moves-call e = record { moves = λ w. quiet (e ∷ []) refl refl stay }

  pub Moves-print : (s : Text) → Moves E (print s)
  unfolding print
  Moves-print s = Moves-call (printed s)

  assert-Route : (b : Bool) (w : World) → Route E w (world_of (assert b w))
  unfolding assert
  assert-Route true w = stay
  assert-Route false w = stay

  pub Moves-assert : (b : Bool) → Moves E (assert b)
  Moves-assert b = record { moves = assert-Route b }

  require-Route : (b : Bool) (w : World) → Route E w (world_of (require b w))
  unfolding require
  require-Route true w = stay
  require-Route false w = stay

  pub Moves-require : (b : Bool) → Moves E (require b)
  Moves-require b = record { moves = require-Route b }

  pub Moves-modify :
      (f : World → World)
      → ((w : World) → ((f w).conn_state ≡ w.conn_state) × ((f w).trace ≡ w.trace))
      → Moves E (modify f)
  unfolding modify
  Moves-modify f same = record { moves = λ w. quiet [] (same w).1 (same w).0 stay }

  pub Moves-if :
      {A : Type 0} {m k : M A} (b : Bool) → Moves E m → Moves E k → Moves E (if b then m else k)
  Moves-if true h j = h
  Moves-if false h j = j

  pub Moves-on_option :
      {A B : Type 0} (o : Option A) (m : M B) (f : A → M B)
      → Moves E m
      → ((a : A) → Moves E (f a))
      → Moves E (on_option o m f)
  unfolding on_option
  Moves-on_option none m f h k = h
  Moves-on_option (some a) m f h k = k a

  -- A function that prints a text, and nothing else.
  EmitsAt-Route : (m : Action) {t : Text} (w : World) → EmitsAt w m t → Route E w (world_of (m w))
  EmitsAt-Route m w (es, eq, text, only) = rw eq (quiet es refl refl stay)

  pub Moves-Emits : {m : Action} {t : Text} → Emits m t → Moves E m
  Moves-Emits {m} e = record { moves = λ w. EmitsAt-Route m w (e w) }

  pub Moves-Prints : {m : Action} {kind : Text} {fs : List Field} → Prints m kind fs → Moves E m
  Moves-Prints p = Moves-Emits p.emits

  pub Moves-cmd_status : Moves E cmd_status
  Moves-cmd_status = record { moves = λ w. EmitsAt-Route cmd_status w (cmd_status-line w) }

  -- The change itself, in a state from which the edge starts, and its announcement.
  set_state-Route :
      (t : ConnState) (w : World) → E w.conn_state t → Route E w (world_of (set_state t w))
  unfolding set_state ◌>>◌ ◌>>=◌ modify
  set_state-Route t w e =
      let (es, eq, text, only) = cmd_status-line (record w { conn_state = t }) in
      rw eq (move e (es, refl, text) stay)

  pub Moves-set_state : (t : ConnState) → ((s : ConnState) → E s t) → Moves E (set_state t)
  Moves-set_state t e = record { moves = λ w. set_state-Route t w (e w.conn_state) }

  pub Moves-Starts : {A : Type 0} {m : M A} (s : ConnState) → Moves E m → Starts E s m
  Moves-Starts s h w e = h.moves w

  pub Starts-set_state :
      {B : Type 0} (s t : ConnState) {m : M B} → E s t → Moves E m → Starts E s (set_state t >> m)
  unfolding ◌>>◌ ◌>>=◌
  Starts-set_state s t {m} edge h w e =
      bind-Route w (set_state t w) (λ _. m) (set_state-Route t w (rw e edge)) (λ _. h)

  pub Starts-modify :
      (s : ConnState) (f : World → World) (m : Action)
      → ((w : World) → ((f w).conn_state ≡ w.conn_state) × ((f w).trace ≡ w.trace))
      → Starts E s m
      → Starts E s (modify f >> m)
  unfolding ◌>>◌ ◌>>=◌ modify
  Starts-modify s f m same h w e = quiet [] (same w).1 (same w).0 (h (f w) ((same w).0 ∙ e))

  pub Starts-get :
      {A : Type 0} (s : ConnState) (f : World → M A)
      → ((v : World) → Starts E s (f v))
      → Starts E s (get (λ w. w) >>= f)
  unfolding ◌>>=◌ get
  Starts-get s f h w e = h w w e

  -- A block that depends on the state it is entered in.
  pub Moves-by_state :
      {A : Type 0} (f : World → M A)
      → ((w : World) → Starts E w.conn_state (f w))
      → Moves E (get (λ w. w) >>= f)
  unfolding ◌>>=◌ get
  Moves-by_state f h = record { moves = λ w. h w w refl }

pub ruleset moving = (
  Moves->>, Moves-get, Moves-skip, Moves-pure, Moves-if, Moves-call, Moves-print, Moves-on_option,
  Moves->>=, Moves-assert, Moves-require, Moves-modify,
)
