-- ===== src/Safety/Invariant.antt =====
-- The invariant of the event loop, and rules to show that an action keeps it.
use bluepy.Common.{
  Option, some, Bool, true, false, none, List, [], ◌∷◌, ◌++◌, ◌≡◌, ◌≢◌, refl, Text, if◌then◌else◌,
}
use bluepy.Common.Hex.Digits.{All}
use bluepy.World.{
  on_option, World, connected, Event, printed, Outcome, ret, aborted, undefined, M, Action, get,
  modify, call, skip, pure, print, assert, require, ◌>>=◌, ◌>>◌, printed_text, printed_text-append,
}
use bluepy.Protocol.{tag_response}
use bluepy.Protocol.Emits.{Emits, EmitsAt, IsPrinted, Emits-print}
use bluepy.Protocol.Wire.{Field, sym, encode}
use bluepy.Protocol.Responses.{field, line, Prints}

-- Nothing has been printed since the last newline.
abbrev pub EndsLine : Text → Type 0
EndsLine [] = Unit
EndsLine (c ∷ []) = c ≡ 10
EndsLine (c ∷ d ∷ s) = EndsLine (d ∷ s)

pub append-EndsLine : (s t : Text) → t ≢ [] → EndsLine t → EndsLine (s ++ t)
append-EndsLine [] t n h = h
append-EndsLine (c ∷ []) [] n h = absurd (n refl)
append-EndsLine (c ∷ []) (d ∷ t) n h = h
append-EndsLine (c ∷ d ∷ s) t n h = append-EndsLine (d ∷ s) t n h

-- A request to the GATT library is made on an attribute channel; anything else may be called.
abbrev pub IsAttached : Event → Type 0
IsAttached (Event.discover_primary a _) = a ≢ none
IsAttached (Event.find_included a _ _) = a ≢ none
IsAttached (Event.discover_char a _ _ _) = a ≢ none
IsAttached (Event.discover_desc a _ _) = a ≢ none
IsAttached (Event.read_char a _) = a ≢ none
IsAttached (Event.read_char_by_uuid a _ _ _) = a ≢ none
IsAttached (Event.write_char a _ _) = a ≢ none
IsAttached (Event.write_cmd a _ _) = a ≢ none
IsAttached (Event.exchange_mtu a _) = a ≢ none
IsAttached _ = Unit

pub record Inv (w : World) : Type 0 where
  -- standard output ends with a whole line
  pub at_line : EndsLine (printed_text w.trace)
  -- a connected process has an attribute channel
  pub attached : w.conn_state ≡ connected → w.attrib ≢ none
  -- no request was made without one
  pub requests : All IsAttached w.trace

-- What is left of the invariant while a line is being printed, or at an end of the process.
abbrev pub Mid : World → Type 0
Mid w = (w.conn_state ≡ connected → w.attrib ≢ none) × All IsAttached w.trace

-- Where the run returns, the world is as described; where it ends otherwise, `Mid` is left.
abbrev pub On : {A : Type 0} → (World → Type 0) → Outcome A → Type 0
On P (ret a w) = P w
On P (aborted w) = Mid w
On P (undefined w) = Mid w

abbrev pub Holds : {A : Type 0} → Outcome A → Type 0
Holds o = On Inv o

pub record Keeps {A : Type 0} (m : M A) : Type 0 where
  pub keeps : (w : World) → Inv w → Holds (m w)

printed-IsAttached :
    (es fs : List Event) → All IsPrinted es → All IsAttached fs → All IsAttached (es ++ fs)
printed-IsAttached [] fs h k = k
printed-IsAttached (printed s ∷ es) fs h k = (tt, printed-IsAttached es fs h.1 k)
printed-IsAttached (_ ∷ es) fs h k = absurd h.0

-- Printing up to the end of a line, also where the last line was left open.
pub Holds-EmitsAt :
    (w : World) (m : Action) (t : Text)
    → EmitsAt w m t
    → t ≢ []
    → EndsLine t
    → (w.conn_state ≡ connected → w.attrib ≢ none)
    → All IsAttached w.trace
    → Holds (m w)
Holds-EmitsAt w m t (es, eq, text, only) n h attached requests = rw eq (record {
  at_line =
      rw (printed_text-append es w.trace, text) (append-EndsLine (printed_text w.trace) t n h);
  attached = attached;
  requests = printed-IsAttached es w.trace only requests;
})

-- Printing whole lines keeps the invariant.
pub Inv-EmitsAt :
    (w : World) (m : Action) (t : Text) → EmitsAt w m t → t ≢ [] → EndsLine t → Inv w → Holds (m w)
Inv-EmitsAt w m t e n h inv = Holds-EmitsAt w m t e n h inv.attached inv.requests

pub line-EndsLine : (kind : Text) (fs : List Field) → EndsLine (line kind fs)
line-EndsLine kind fs =
    append-EndsLine (encode (field tag_response (sym kind)) fs) (10 ∷ []) (λ e. cc) refl

pub line-ne-nil : (s : Text) → s ++ 10 ∷ [] ≢ []
line-ne-nil [] = λ e. cc
line-ne-nil (c ∷ s) = λ e. cc

pub Inv-line :
    (w : World) (m : Action) (kind : Text) (fs : List Field)
    → EmitsAt w m (line kind fs)
    → Inv w
    → Holds (m w)
Inv-line w m kind fs e =
    Inv-EmitsAt w m (line kind fs) e (line-ne-nil (encode (field tag_response (sym kind)) fs))
      (line-EndsLine kind fs)

pub Keeps-line : {m : Action} {kind : Text} {fs : List Field} → Prints m kind fs → Keeps m
Keeps-line {m} {kind} {fs} e = record { keeps = λ w. Inv-line w m kind fs (e.emits w) }

-- A print that ends its line.
pub Keeps-print : (t : Text) → t ≢ [] → EndsLine t → Keeps (print t)
Keeps-print t n h = record { keeps = λ w. Inv-EmitsAt w (print t) t (Emits-print _ _ refl w) n h }

pub Keeps-comment : (s : Text) → Keeps (print (s ++ 10 ∷ []))
Keeps-comment s =
    Keeps-print (s ++ 10 ∷ []) (line-ne-nil s) (append-EndsLine s (10 ∷ []) (λ e. cc) refl)

pub Mid-Emits : (m : Action) (t : Text) → Emits m t → (w : World) → Mid w → On Mid (m w)
Mid-Emits m t e w (attached, requests) =
    let (es, eq, text, only) = e w in rw eq (attached, printed-IsAttached es w.trace only requests)

bind-Outcome :
    {A B : Type 0} (P Q : World → Type 0) (o : Outcome A) (f : A → M B)
    → On P o
    → ((a : A) (v : World) → P v → On Q (f a v))
    → On Q (elim o [ ret a w ↦ f a w | aborted w ↦ aborted w | undefined w ↦ undefined w ])
bind-Outcome P Q (ret a w) f h k = k a w h
bind-Outcome P Q (aborted w) f h k = h
bind-Outcome P Q (undefined w) f h k = h

pub bind-On :
    {A B : Type 0} (P Q : World → Type 0) (m : M A) (f : A → M B) (w : World)
    → On P (m w)
    → ((a : A) (v : World) → P v → On Q (f a v))
    → On Q ((m >>= f) w)
unfolding ◌>>=◌
bind-On P Q m f w h k = bind-Outcome P Q (m w) f h k

pub Keeps->>= :
    {A B : Type 0} {m : M A} {f : A → M B} → Keeps m → ((a : A) → Keeps (f a)) → Keeps (m >>= f)
Keeps->>= {m} {f} h k = record {
  keeps = λ w inv. bind-On Inv Inv m f w (h.keeps w inv) (λ a. (k a).keeps);
}

pub Keeps->> : {B : Type 0} {m : Action} {k : M B} → Keeps m → Keeps k → Keeps (m >> k)
unfolding ◌>>◌
Keeps->> h j = Keeps->>= h (λ _. j)

pub Keeps-get :
    {A B : Type 0} (g : World → A) (f : A → M B) → ((a : A) → Keeps (f a)) → Keeps (get g >>= f)
unfolding ◌>>=◌ get
Keeps-get g f k = record { keeps = λ w. (k (g w)).keeps w }

pub Keeps-skip : Keeps skip
unfolding skip
Keeps-skip = record { keeps = λ w inv. inv }

pub Keeps-pure : {A : Type 0} (a : A) → Keeps (pure a)
unfolding pure
Keeps-pure a = record { keeps = λ w inv. inv }

pub Keeps-assert : (b : Bool) → Keeps (assert b)
unfolding assert
Keeps-assert true = record { keeps = λ w inv. inv }
Keeps-assert false = record { keeps = λ w inv. (inv.attached, inv.requests) }

pub Keeps-require : (b : Bool) → Keeps (require b)
unfolding require
Keeps-require true = record { keeps = λ w inv. inv }
Keeps-require false = record { keeps = λ w inv. (inv.attached, inv.requests) }

pub Keeps-if : {A : Type 0} {m k : M A} (b : Bool) → Keeps m → Keeps k → Keeps (if b then m else k)
Keeps-if true h j = h
Keeps-if false h j = j

-- An assignment to a variable that the invariant does not speak of.
pub Keeps-modify :
    (f : World → World)
    → ((w : World)
        → ((f w).trace ≡ w.trace) × ((f w).conn_state ≡ w.conn_state) × ((f w).attrib ≡ w.attrib))
    → Keeps (modify f)
unfolding modify
Keeps-modify f same = record {
  keeps = λ w inv.
      let (t, c, a) = same w in
      record {
        at_line = rw t inv.at_line;
        attached = rw (c, a) inv.attached;
        requests = rw t inv.requests;
      };
}

-- A library call that is allowed.
abbrev pub IsAllowed : Event → Type 0
IsAllowed (printed s) = ⊥
IsAllowed e = IsAttached e

IsAllowed→IsAttached : (e : Event) → IsAllowed e → IsAttached e
IsAllowed→IsAttached (printed s) h = tt
IsAllowed→IsAttached _ h = h

printed_text-call :
    (e : Event) (es : List Event) → IsAllowed e → printed_text (e ∷ es) ≡ printed_text es
unfolding printed_text
printed_text-call (printed s) es h = absurd h
printed_text-call _ es h = refl

pub Keeps-call : (e : Event) → IsAllowed e → Keeps (call e)
unfolding call
Keeps-call e h = record {
  keeps = λ w inv. record {
    at_line = rw (printed_text-call e w.trace h) inv.at_line;
    attached = inv.attached;
    requests = (IsAllowed→IsAttached e h, inv.requests);
  };
}

pub Keeps-on_option :
    {A B : Type 0} (o : Option A) (m : M B) (f : A → M B)
    → Keeps m
    → ((a : A) → Keeps (f a))
    → Keeps (on_option o m f)
unfolding on_option
Keeps-on_option none m f h k = h
Keeps-on_option (some a) m f h k = k a
