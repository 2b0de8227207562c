-- ===== src/Client/Peripheral/Queue.antt =====
-- The two loops over the queue as one, and what the lines before a response do.
use bluepy.Client.Parse.{ok, parse_resp, PyValue, Resp}
use bluepy.Common.Hex.Digits.{All}
use bluepy.Client.Peripheral.{Notification, finish, event_types, take_resp, Got, get_resp}
use bluepy.Client.Wait.{
  Waited, response, is_wanted, first_value, is_skipped, wait_rest, wait_resp, on_kind, waiting,
  on_response, on_line,
}
use bluepy.Common.{
  true, codes, zero, Option-cases, suc, arith, false, ◌<◌, length, refl, ℕ, ◌⊎◌, some, inr, none,
  inl, ◌≡◌, ◌++◌, Text, List, [], ◌∷◌,
}

module _ (want_type : List Text) where
  -- Reads one line after the other.
  unfoldable pub respond : List Text → Got
  respond [] = record { notified = []; outcome = waiting; left = [] }
  respond (line ∷ lines) =
      let rest = respond lines in
      elim (on_line (want_type ++ event_types) line) [
        | none ↦ rest
        | some w ↦ take_resp want_type rest lines w
      ]

  get_resp-skip :
      (fuel : ℕ) (line : Text) (lines : List Text)
      → on_line (want_type ++ event_types) line ≡ none
      → get_resp want_type (suc fuel) (line ∷ lines) ≡ get_resp want_type (suc fuel) lines
  unfolding get_resp wait_resp wait_rest
  get_resp-skip fuel line lines e = rw (get_resp, wait_resp, wait_rest, e) refl

  get_resp-take :
      (fuel : ℕ) (line : Text) (lines : List Text) (w : Waited)
      → on_line (want_type ++ event_types) line ≡ some w
      → get_resp want_type (suc fuel) (line ∷ lines)
        ≡ take_resp want_type (get_resp want_type fuel lines) lines w
  unfolding get_resp wait_resp wait_rest
  get_resp-take fuel line lines w e = rw (get_resp, wait_resp, wait_rest, e) refl

  -- With more fuel than there are lines, the loop of `_getResp` around the loop of `_waitResp` ends
  -- as one loop does that looks at each line once, in their order.
  pub get_resp-respond :
      (fuel : ℕ) (lines : List Text)
      → length lines < fuel
      → get_resp want_type fuel lines ≡ respond lines
  unfolding get_resp respond take_resp wait_resp wait_rest
  get_resp-respond zero lines h = absurd (omega arith)
  get_resp-respond (suc fuel) [] h = refl
  get_resp-respond (suc fuel) (line ∷ lines) h =
      elim (Option-cases (on_line (want_type ++ event_types) line)) [
        | inl e ↦
            rw (get_resp-skip fuel line lines e, respond, e)
              (get_resp-respond (suc fuel) lines (omega arith))
        | inr (w, e) ↦ rw (
          get_resp-take fuel line lines w e,
          respond,
          e,
          get_resp-respond fuel lines (omega arith),
        )
      ]

  -- The line is passed over: it is skipped, or it has a notification.
  abbrev pub IsPassed : Text → Type 0
  IsPassed line =
      (on_line (want_type ++ event_types) line ≡ none)
      ⊎ ((rest : Got) (lines : List Text)
          → (n : Notification) × (elim (on_line (want_type ++ event_types) line) [
            | none ↦ rest
            | some w ↦ take_resp want_type rest lines w
          ]
              ≡ record { notified = n ∷ rest.notified; outcome = rest.outcome; left = rest.left }))

  -- The outcome and what is left are those of the lines behind the ones that are passed over.
  pub respond-passed :
      (before lines : List Text)
      → All IsPassed before
      → ((respond (before ++ lines)).outcome ≡ (respond lines).outcome)
        × ((respond (before ++ lines)).left ≡ (respond lines).left)
  unfolding respond
  respond-passed [] lines h = (refl, refl)
  respond-passed (line ∷ before) lines (inl e, hs) =
      let (o, l) = respond-passed before lines hs in (rw (respond, e) o, rw (respond, e) l)
  respond-passed (line ∷ before) lines (inr f, hs) =
      let (o, l) = respond-passed before lines hs in
      let (n, e) = f (respond (before ++ lines)) (before ++ lines) in
      (rw (respond, e) o, rw (respond, e) l)

  pub on_line-response :
      (line : Text) (resp : Resp) (kind : PyValue)
      → is_skipped line ≡ false
      → parse_resp line ≡ ok resp
      → first_value (codes "rsp") resp ≡ some kind
      → is_wanted want_type kind ≡ true
      → on_line want_type line ≡ some (response resp)
  unfolding on_line on_response on_kind
  on_line-response line resp kind s p k want = rw (on_line, s, p, on_response, k, on_kind, want)

  take_resp-response :
      (rest : Got) (lines : List Text) (resp : Resp) (kind : PyValue)
      → first_value (codes "rsp") resp ≡ some kind
      → is_wanted want_type kind ≡ true
      → is_wanted event_types kind ≡ false
      → take_resp want_type rest lines (response resp)
        ≡ record { notified = []; outcome = response resp; left = lines }
  unfolding take_resp finish
  take_resp-response rest lines resp kind k want other = rw (take_resp, k, other, finish, want)

-- A response of the type that is waited for, which is not an event, ends the wait.
pub respond-response :
    (want_type : List Text) (line : Text) (lines : List Text) (resp : Resp) (kind : PyValue)
    → is_skipped line ≡ false
    → parse_resp line ≡ ok resp
    → first_value (codes "rsp") resp ≡ some kind
    → is_wanted want_type kind ≡ true
    → is_wanted (want_type ++ event_types) kind ≡ true
    → is_wanted event_types kind ≡ false
    → respond want_type (line ∷ lines)
      ≡ record { notified = []; outcome = response resp; left = lines }
unfolding respond
respond-response want_type line lines resp kind s p k want all other = rw (
  respond,
  on_line-response (want_type ++ event_types) line resp kind s p k all,
  take_resp-response want_type (respond want_type lines) lines resp kind k want other,
)
