-- ===== src/States/Order.antt =====
-- What the relation says of the order of the callbacks.
use bluepy.Status.Lines.{status_fields}
use bluepy.Protocol.{rsp_status}
use bluepy.Protocol.Responses.{line}
use bluepy.States.Loop.{main_loop-Session}
use bluepy.States.{
  establish, monitor, end_scan, begin_scan, lose, fail, listen, stay, close, ended, dial, move,
  next, quiet, Session, Route, Edge,
}
use bluepy.Main.{main_loop, connection, Incoming}
use bluepy.World.{
  scanning, connecting, disconnected, printed_text, world_of, connected, Event, World, Ptr,
  ConnState, Env,
}
use bluepy.Common.{refl, inr, append_assoc, ◌∙◌, sym, inl, ◌⊎◌, none, ◌++◌, ◌≢◌, ◌≡◌, List, [], ◌∷◌}

edge_connected :
    (i : Incoming) (s t : ConnState)
    → Edge i s t
    → t ≡ connected
    → (io : Ptr) × (i ≡ connection io none)
edge_connected (connection io none) s connected establish e = (io, refl)
edge_connected _ _ _ dial e = cc
edge_connected _ _ _ close e = cc
edge_connected _ _ _ listen e = cc
edge_connected _ _ _ fail e = cc
edge_connected _ _ _ lose e = cc
edge_connected _ _ _ begin_scan e = cc
edge_connected _ _ _ end_scan e = cc
edge_connected _ _ _ monitor e = cc

state_cases : (s : ConnState) → (s ≡ connected) ⊎ (s ≢ connected)
state_cases connected = inl refl
state_cases disconnected = inr (λ e. cc)
state_cases connecting = inr (λ e. cc)
state_cases scanning = inr (λ e. cc)

-- At some point a report of the state was printed, all that it says included.
abbrev pub Told : ConnState → World → Type 0
Told s v =
    (after : List Event) × (es : List Event) × (before : List Event) × (u : World) × (v.trace
      ≡ after ++ (es ++ before))
    × (u.conn_state ≡ s)
    × (printed_text es ≡ line rsp_status (status_fields u))

module _ (s : ConnState) where
  Told-later : (v u : World) (es : List Event) → u.trace ≡ es ++ v.trace → Told s v → Told s u
  Told-later v u es e (after, mid, before, x, f, g, h) =
      (es ++ after, mid, before, x, rw (e, f) (sym (append_assoc es after (mid ++ before))), g, h)

  Told-Route :
      {E : ConnState → ConnState → Type 0} (v u : World) → Route E v u → Told s v → Told s u
  Told-Route v _ stay t = t
  Told-Route v u (quiet {v = x} es e f r) t = Told-Route x u r (Told-later v x es e t)
  Told-Route v u (move {v = x} e (es, f, g) r) t = Told-Route x u r (Told-later v x es f t)

  Told-Session : (hs : List Incoming) (v u : World) → Session hs v u → Told s v → Told s u
  Told-Session hs v _ ended t = t
  Told-Session (i ∷ rest) v u (next {v = x} r q) t = Told-Session rest x u q (Told-Route v x r t)

module _ (i : Incoming) where
  connecting-Route :
      (w v : World)
      → Route (Edge i) w v
      → v.conn_state ≡ connected
      → w.conn_state ≢ connected
      → ((io : Ptr) × (i ≡ connection io none)) × Told connected v
  connecting-Route w _ stay e n = absurd (n e)
  connecting-Route w v (quiet {v = x} es e f r) g n = connecting-Route x v r g (λ h. n (sym f ∙ h))
  connecting-Route w v (move {v = x} edge (es, f, text) r) g n = elim (state_cases x.conn_state) [
    | inl h ↦
        (edge_connected i _ _ edge h, Told-Route connected x v r ([], es, w.trace, x, f, h, text))
    | inr h ↦ connecting-Route x v r g h
  ]

-- Among what happened there is a connection that was made.
abbrev pub IsEstablished : List Incoming → Type 0
IsEstablished [] = ⊥
IsEstablished (i ∷ rest) = ((io : Ptr) × (i ≡ connection io none)) ⊎ IsEstablished rest

connected-Session :
    (hs : List Incoming) (w v : World)
    → Session hs w v
    → v.conn_state ≡ connected
    → w.conn_state ≢ connected
    → IsEstablished hs × Told connected v
connected-Session hs w _ ended e n = absurd (n e)
connected-Session (i ∷ rest) w v (next {v = x} r q) e n = elim (state_cases x.conn_state) [
  | inl h ↦
      let (made, told) = connecting-Route i w x r h n in
      (inl made, Told-Session connected rest x v q told)
  | inr h ↦ let (made, told) = connected-Session rest x v q e h in (inr made, told)
]

-- Where the event loop, begun in a state other than connected, leaves the process connected, the
-- library has reported a connection without an error among the callbacks made, and a status report
-- of a connected state has been printed. The callbacks, the library and the input are arbitrary.
pub main_loop-connected :
    (env : Env) (happenings : List Incoming) (w : World)
    → w.conn_state ≢ connected
    → (world_of (main_loop env happenings w)).conn_state ≡ connected
    → IsEstablished happenings × Told connected (world_of (main_loop env happenings w))
main_loop-connected env happenings w n e =
    connected-Session happenings w _ (main_loop-Session env happenings w) e n
