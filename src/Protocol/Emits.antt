-- ===== src/Protocol/Emits.antt =====
-- Actions that only print, and what they print.
use bluepy.Common.{List, [], ◌∷◌, ◌++◌, ◌≡◌, refl, ap₂, ◌∙◌, Text, append_assoc, subst}
use bluepy.Common.Hex.Digits.{All}
use bluepy.World.{
  call, World, Event, printed, ret, Action, ◌>>=◌, ◌>>◌, skip, print, printed_text,
  printed_text-append,
}

abbrev pub IsPrinted : Event → Type 0
IsPrinted (printed s) = Unit
IsPrinted _ = ⊥

append-All : (es fs : List Event) → All IsPrinted es → All IsPrinted fs → All IsPrinted (es ++ fs)
append-All [] fs h k = k
append-All (e ∷ es) fs h k = (h.0, append-All es fs h.1 k)

-- In that world the action returns, changes nothing but the trace, calls nothing, and prints
-- exactly this text.
abbrev pub EmitsAt : World → Action → Text → Type 0
EmitsAt w m t =
    (es : List Event) × (m w ≡ ret tt (record w { trace = es ++ w.trace }))
    × (printed_text es ≡ t)
    × All IsPrinted es

abbrev pub Emits : Action → Text → Type 0
Emits m t = (w : World) → EmitsAt w m t

pub Emits-print : (s t : Text) → s ≡ t → Emits (print s) t
unfolding printed_text print call
Emits-print s t e w = (printed s ∷ [], refl, e, (tt, tt))

pub Emits-skip : Emits skip []
unfolding printed_text skip
Emits-skip w = ([], refl, refl, tt)

pub Emits-eq : (m : Action) (s t : Text) → s ≡ t → Emits m s → Emits m t
Emits-eq m s t e h = subst (λ u. Emits m u) e h

pub Emits->> : (m k : Action) (s t : Text) → Emits m s → Emits k t → Emits (m >> k) (s ++ t)
unfolding ◌>>◌ ◌>>=◌
Emits->> m k s t em ek w =
    let (es, em_eq, es_text, es_only) = em w in
    let w' : World = record w { trace = es ++ w.trace } in
    let (fs, ek_eq, fs_text, fs_only) = ek w' in
    (
      fs ++ es,
      rw (append_assoc, em_eq, ◌>>=◌) ek_eq,
      printed_text-append fs es ∙ ap₂ ◌++◌ es_text fs_text,
      append-All fs es fs_only es_only,
    )
