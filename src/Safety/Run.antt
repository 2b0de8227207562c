-- ===== src/Safety/Run.antt =====
-- A run of the event loop, and the end of the process, keep the invariant.
use bluepy.Safety.Loop.{Holds-deliver, IsTimely}
use bluepy.Safety.Basics.{Keeps-cmd_disconnect, disconnected_ne_connected}
use bluepy.Connection.{cmd_disconnect}
use bluepy.Safety.Connection.{GivesAttrib}
use bluepy.Main.{deliver, Incoming, initial, serve, main_loop}
use bluepy.Safety.Invariant.{
  Keeps-modify, Keeps-call, Keeps-get, Keeps->>, bind-On, Holds, Inv, Keeps,
}
use bluepy.Common.{refl, true, if◌then◌else◌, false, none, ◌≡◌, Bool, List, [], ◌∷◌}
use bluepy.World.{
  undefined, aborted, ret, modify, Outcome, Event, World, call, get, skip, Env, printed_text, ◌>>=◌,
  ◌>>◌,
}

-- This holds of each callback of a run from that world on.
abbrev pub AreTimely : Env → List Incoming → World → Type 0
AreTimely env [] w = Unit
AreTimely env (i ∷ rest) w =
    IsTimely i w
    × ((v : World) → deliver env i w ≡ ret tt v → v.quitting ≡ false → AreTimely env rest v)

module _ (env : Env) where
  loop_on :
      (rest : List Incoming) (v : World) (b : Bool)
      → v.quitting ≡ b
      → Inv v
      → (v.quitting ≡ false → Holds (main_loop env rest v))
      → Holds ((if b then skip else main_loop env rest) v)
  unfolding skip
  loop_on rest v true e h k = h
  loop_on rest v false e h k = k e

  loop-Outcome :
      GivesAttrib env
      → (i : Incoming) (rest : List Incoming) (w : World) (o : Outcome (Unit {0}))
      → deliver env i w ≡ o
      → Holds o
      → ((v : World)
          → deliver env i w ≡ ret tt v
          → v.quitting ≡ false
          → Inv v
          → Holds (main_loop env rest v))
      → Holds (
          ((λ _. o) >>= λ _. get (λ w. w) >>= λ v. if v.quitting then skip else main_loop env rest)
            w)
  unfolding ◌>>=◌ get skip
  loop-Outcome gives i rest w (ret tt v) e h k = loop_on rest v v.quitting refl h (λ q. k v e q h)
  loop-Outcome gives i rest w (aborted v) e h k = h
  loop-Outcome gives i rest w (undefined v) e h k = h

  Holds-main_loop :
      GivesAttrib env
      → (happenings : List Incoming) (w : World) → Inv w
      → AreTimely env happenings w
      → Holds (main_loop env happenings w)
  unfolding main_loop skip ◌>>=◌ ◌>>◌
  Holds-main_loop gives [] w inv timely = inv
  Holds-main_loop gives (i ∷ rest) w inv (timely, later) =
      loop-Outcome gives i rest w (deliver env i w) refl (Holds-deliver env gives i w inv timely)
        (λ v e q kept. Holds-main_loop gives rest v kept (later v e q))

  -- What `main` does behind the event loop.
  Keeps-close_down : Keeps (do
    cmd_disconnect []
    w ← get (λ w. w)
    call (Event.mgmt_unregister_index w.mgmt_master w.mgmt_ind)
    call (Event.mgmt_cancel_index w.mgmt_master w.mgmt_ind)
    call (Event.mgmt_unref w.mgmt_master)
    modify (λ v. record v { mgmt_master = none }))
  Keeps-close_down = Keeps->> (Keeps-cmd_disconnect []) (
      Keeps-get _ _ (λ w. Keeps->> (Keeps-call _ tt) (
        Keeps->> (Keeps-call _ tt)
          (Keeps->> (Keeps-call _ tt) (Keeps-modify _ (λ v. (refl, refl, refl)))))))

  -- Suppose that the library gives an attribute channel for each I/O channel, and that in this run a
  -- connection is reported as made only while there is an I/O channel. From a world in which standard
  -- output ends with a whole line, a connected process has an attribute channel and no GATT request
  -- was made without one, such as that before the event loop, with whatever other callbacks in
  -- whatever order: wherever the process ends, also at a failed `assert` or where the code reads or
  -- frees memory that it must not, a process that is connected has an attribute channel, and no GATT
  -- request was made without one; where it comes to its end, all that was printed is whole lines.
  pub serve-Inv :
      (happenings : List Incoming) (w : World)
      → GivesAttrib env
      → AreTimely env happenings w
      → Inv w
      → Holds (serve env happenings w)
  unfolding serve ◌>>◌
  serve-Inv happenings w gives timely inv =
      bind-On Inv Inv (main_loop env happenings) _ w (Holds-main_loop gives happenings w inv timely)
        (λ _. Keeps-close_down.keeps)

pub initial-Inv : Inv initial
unfolding printed_text
initial-Inv = record {
  at_line = tt;
  attached = λ e. absurd (disconnected_ne_connected e);
  requests = tt;
}
