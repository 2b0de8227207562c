-- ===== src/Progress/Replies.antt =====
-- Functions that are sure to answer: with the end of a line, or with a request.
use bluepy.Progress.Runs.{Ran, Runs}
use bluepy.Protocol.{resp_end}
use bluepy.Common.{
  false, true, if◌then◌else◌, append_assoc, refl, none, subst, ◌≢◌, sym, some, inl, [], ◌⊎◌, ◌≡◌,
  inr, Option, Bool, ◌∷◌, ◌++◌, List,
}
use bluepy.World.{
  undefined, aborted, ret, Outcome, Action, printed, print, Event, call, World, ◌>>◌, M, on_option,
  get, ◌>>=◌, Env,
}

-- An event that answers, after the trace before it: the end of a response, a request to the GATT
-- library, a request to the management interface that could be sent, or the end of the process.
abbrev pub IsAnswer : Env → Event → List Event → Type 0
IsAnswer env (printed s) past = s ≡ 10 ∷ []
IsAnswer env (Event.discover_primary a u) past = Unit
IsAnswer env (Event.find_included a s e) past = Unit
IsAnswer env (Event.discover_char a s e u) past = Unit
IsAnswer env (Event.discover_desc a s e) past = Unit
IsAnswer env (Event.read_char a h) past = Unit
IsAnswer env (Event.read_char_by_uuid a s e d) past = Unit
IsAnswer env (Event.write_char a h v) past = Unit
IsAnswer env (Event.exchange_mtu a m) past = Unit
IsAnswer env (Event.mgmt_send master opcode index cp) past =
    env.mgmt_send past master opcode index cp ≢ 0
IsAnswer env Event.main_loop_quit past = Unit
IsAnswer env _ past = ⊥

-- One of these events, newest first, answers.
abbrev pub Answered : Env → List Event → List Event → Type 0
Answered env [] past = ⊥
Answered env (e ∷ es) past = IsAnswer env e (es ++ past) ⊎ Answered env es past

-- The run returns, and has answered.
abbrev pub Replied : {A : Type 0} → Env → World → Outcome A → Type 0
Replied env w (ret a v) = (es : List Event) × (v.trace ≡ es ++ w.trace) × Answered env es w.trace
Replied env w (aborted v) = ⊥
Replied env w (undefined v) = ⊥

pub record Replies {A : Type 0} (env : Env) (m : M A) : Type 0 where
  pub replies : (w : World) → Replied env w (m w)

Answered-before :
    (env : Env) (fs es past : List Event) → Answered env es past → Answered env (fs ++ es) past
Answered-before env [] es past h = h
Answered-before env (f ∷ fs) es past h = inr (Answered-before env fs es past h)

Answered-after :
    (env : Env) (fs es past : List Event)
    → Answered env fs (es ++ past)
    → Answered env (fs ++ es) past
Answered-after env [] es past h = absurd h
Answered-after env (f ∷ fs) es past (inl h) =
    inl (subst (λ t. IsAnswer env f t) (sym (append_assoc fs es past)) h)
Answered-after env (f ∷ fs) es past (inr h) = inr (Answered-after env fs es past h)

-- An answer before a run that only adds to the trace.
pub Replied-then :
    {B : Type 0} (env : Env) (w v : World) (es : List Event) (o : Outcome B)
    → v.trace ≡ es ++ w.trace
    → Answered env es w.trace
    → Ran v o
    → Replied env w o
Replied-then env w v es (ret b u) e h (fs, g) =
    (fs ++ es, rw (g, e) (sym (append_assoc fs es w.trace)), Answered-before env fs es w.trace h)
Replied-then env w v es (aborted u) e h r = absurd r
Replied-then env w v es (undefined u) e h r = absurd r

-- A run that only adds to the trace before an answer.
pub Ran-then :
    {B : Type 0} (env : Env) (w v : World) (es : List Event) (o : Outcome B)
    → v.trace ≡ es ++ w.trace
    → Replied env v o
    → Replied env w o
Ran-then env w v es (ret b u) e (fs, g, h) = (
  fs ++ es,
  rw (g, e) (sym (append_assoc fs es w.trace)),
  Answered-after env fs es w.trace (subst (λ t. Answered env fs t) e h),
)
Ran-then env w v es (aborted u) e r = absurd r
Ran-then env w v es (undefined u) e r = absurd r

bind-first :
    {A B : Type 0} (env : Env) (w : World) (o : Outcome A) (f : A → M B)
    → Replied env w o
    → ((a : A) → Runs (f a))
    → Replied env w (((λ _. o) >>= f) w)
unfolding ◌>>=◌
bind-first env w (ret a v) f (es, e, h) k = Replied-then env w v es (f a v) e h ((k a).runs v)
bind-first env w (aborted v) f h k = absurd h
bind-first env w (undefined v) f h k = absurd h

bind-second :
    {A B : Type 0} (env : Env) (w : World) (o : Outcome A) (f : A → M B)
    → Ran w o
    → ((a : A) → Replies env (f a))
    → Replied env w (((λ _. o) >>= f) w)
unfolding ◌>>=◌
bind-second env w (ret a v) f (es, e) k = Ran-then env w v es (f a v) e ((k a).replies v)
bind-second env w (aborted v) f h k = absurd h
bind-second env w (undefined v) f h k = absurd h

module _ {env : Env} where
  pub Replies-first :
      {A B : Type 0} {m : M A} {f : A → M B}
      → Replies env m
      → ((a : A) → Runs (f a))
      → Replies env (m >>= f)
  unfolding ◌>>=◌
  Replies-first {m} {f} h k = record { replies = λ w. bind-first env w (m w) f (h.replies w) k }

  pub Replies-second :
      {A B : Type 0} {m : M A} {f : A → M B}
      → Runs m
      → ((a : A) → Replies env (f a))
      → Replies env (m >>= f)
  unfolding ◌>>=◌
  Replies-second {m} {f} h k = record { replies = λ w. bind-second env w (m w) f (h.runs w) k }

  pub Replies-then :
      {B : Type 0} {m : Action} {k : M B} → Replies env m → Runs k → Replies env (m >> k)
  unfolding ◌>>◌
  Replies-then h j = Replies-first h (λ _. j)

  pub Replies->> :
      {B : Type 0} {m : Action} {k : M B} → Runs m → Replies env k → Replies env (m >> k)
  unfolding ◌>>◌
  Replies->> h j = Replies-second h (λ _. j)

  pub Replies-get :
      {A B : Type 0} (g : World → A) (f : A → M B)
      → ((a : A) → Replies env (f a))
      → Replies env (get g >>= f)
  unfolding ◌>>=◌ get
  Replies-get g f k = record { replies = λ w. (k (g w)).replies w }

  pub Replies-if :
      {A : Type 0} {m k : M A} (b : Bool)
      → Replies env m
      → Replies env k
      → Replies env (if b then m else k)
  Replies-if true h j = h
  Replies-if false h j = j

  pub Replies-on_option :
      {A B : Type 0} (o : Option A) (m : M B) (f : A → M B)
      → Replies env m
      → ((a : A) → Replies env (f a))
      → Replies env (on_option o m f)
  unfolding on_option
  Replies-on_option none m f h k = h
  Replies-on_option (some a) m f h k = k a

  pub Replies-call :
      (e : Event) → ((past : List Event) → IsAnswer env e past) → Replies env (call e)
  unfolding call
  Replies-call e h = record { replies = λ w. (e ∷ [], refl, inl (h w.trace)) }

  pub Replies-resp_end : Replies env resp_end
  unfolding resp_end print
  Replies-resp_end = Replies-call (printed (10 ∷ [])) (λ past. refl)

-- What has answered has returned.
pub Replied→Ran : {A : Type 0} (env : Env) (w : World) (o : Outcome A) → Replied env w o → Ran w o
Replied→Ran env w (ret a v) (es, e, h) = (es, e)
Replied→Ran env w (aborted v) h = h
Replied→Ran env w (undefined v) h = h

pub Replies→Runs : {A : Type 0} {env : Env} {m : M A} → Replies env m → Runs m
Replies→Runs {env} {m} h = record { runs = λ w. Replied→Ran env w (m w) (h.replies w) }

pub ruleset replying = (
  Replies-then, Replies->>, Replies-get, Replies-if, Replies-on_option, Replies-resp_end,
  Replies-call, Replies-first, Replies-second,
)
