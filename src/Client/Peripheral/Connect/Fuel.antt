-- ===== src/Client/Peripheral/Connect/Fuel.antt =====
-- The loop of `_connect` ends: each response takes a line at least.
use bluepy.Client.Peripheral.Lines.{get_reply-respond}
use bluepy.Client.Peripheral.Queue.{respond}
use bluepy.Client.Parse.{PyValue, Resp}
use bluepy.Client.Peripheral.{
  notification, reply, event_types, fetch, notify, Notification, get_reply, take_resp, finish,
  Fetched, Got,
}
use bluepy.Client.Wait.{waiting, is_wanted, on_line, first_value, response, Waited}
use bluepy.Client.Peripheral.Connect.{on_state, connect_loop}
use bluepy.Common.{
  ◌∙◌, sym, inr, zero, refl, inl, ap, none, some, ◌++◌, codes, suc, arith, Bool-cases, ◌≤◌, ◌<◌,
  Option-cases, ◌≡◌, Option, length, List, ℕ, Text, [], ◌∷◌,
}

-- A wait that ended with a response has left at most that many lines.
abbrev LeavesAtMost : ℕ → Got → Type 0
LeavesAtMost n got = (resp : Resp) → got.outcome ≡ response resp → length got.left ≤ n

module _ (want_type : List Text) where
  finish-LeavesAtMost :
      (kind : PyValue) (r : Resp) (again : Got) (lines : List Text)
      → LeavesAtMost (length lines) again
      → LeavesAtMost (length lines) (finish want_type kind r again lines)
  unfolding finish
  finish-LeavesAtMost kind r again lines h = elim (Bool-cases (is_wanted want_type kind)) [
    | inl e ↦ rw e (λ resp o. omega arith)
    | inr e ↦ rw e h
  ]

  notify-LeavesAtMost :
      (n : Option Notification) (lines : List Text) (got : Got)
      → LeavesAtMost (length lines) got
      → LeavesAtMost (length lines) (notify n lines got)
  notify-LeavesAtMost none lines got h = λ resp o. omega arith
  notify-LeavesAtMost (some n) lines got h = h

  take_response-LeavesAtMost :
      (r : Resp) (again : Got) (lines : List Text)
      → LeavesAtMost (length lines) again
      → LeavesAtMost (length lines) (take_resp want_type again lines (response r))
  unfolding take_resp
  take_response-LeavesAtMost r again lines h = elim (Option-cases (first_value (codes "rsp") r)) [
    | inl e ↦ rw (take_resp, e) (λ resp o. omega arith)
    | inr (kind, e) ↦
        let done = finish-LeavesAtMost kind r again lines h in
        elim (Bool-cases (is_wanted event_types kind)) [
          | inl f ↦ rw (take_resp, e, f) (notify-LeavesAtMost (notification r) lines _ done)
          | inr f ↦ rw (take_resp, e, f) done
        ]
  ]

  take_resp-LeavesAtMost :
      (w : Waited) (again : Got) (lines : List Text)
      → LeavesAtMost (length lines) again
      → LeavesAtMost (length lines) (take_resp want_type again lines w)
  unfolding take_resp
  take_resp-LeavesAtMost (response r) again lines h = take_response-LeavesAtMost r again lines h
  take_resp-LeavesAtMost _ again lines h = λ resp o. omega arith

  respond-LeavesAtMost :
      (line : Text) (lines : List Text)
      → LeavesAtMost (length lines) (respond want_type (line ∷ lines))
  unfolding respond
  respond-LeavesAtMost line [] = elim (Option-cases (on_line (want_type ++ event_types) line)) [
    | inl e ↦ rw (respond, e) (λ resp o. omega arith)
    | inr (w, e) ↦ rw (respond, e) (take_resp-LeavesAtMost w _ [] (λ resp o. omega arith))
  ]
  respond-LeavesAtMost line (next ∷ lines) =
      let weaker : LeavesAtMost (suc (length lines)) (respond want_type (next ∷ lines)) =
        λ resp o. omega (arith, respond-LeavesAtMost next lines resp o) in
      elim (Option-cases (on_line (want_type ++ event_types) line)) [
        | inl e ↦ rw (respond, e) weaker
        | inr (w, e) ↦ rw (respond, e) (take_resp-LeavesAtMost w _ (next ∷ lines) weaker)
      ]

get_reply-shorter :
    (kind : Text) (lines : List Text) (resp : Resp)
    → (get_reply kind lines).outcome ≡ response resp
    → length (get_reply kind lines).left < length lines
unfolding respond
get_reply-shorter kind [] resp o =
    let e = get_reply-respond kind [] in
    let never : waiting ≡ response resp = sym (ap (λ got. got.outcome) e) ∙ o in cc
get_reply-shorter kind (line ∷ lines) resp o =
    let e = get_reply-respond kind (line ∷ lines) in
    rw e (omega (arith, respond-LeavesAtMost (kind ∷ []) line lines resp (rw e at o)))

fetch-same :
    (o : Waited) (a b : Fetched (Unit {0}))
    → ((resp : Resp) → o ≡ response resp → a ≡ b)
    → fetch o (λ resp. on_state a resp) ≡ fetch o (λ resp. on_state b resp)
fetch-same (response resp) a b h = ap (λ x. on_state x resp) (h resp refl)
fetch-same _ a b h = refl

-- With more fuel than there are lines, more fuel changes nothing in the loop of `_connect`.
pub connect_loop-fuel :
    (f g : ℕ) (lines : List Text)
    → length lines < f
    → length lines < g
    → connect_loop f lines ≡ connect_loop g lines
unfolding connect_loop
connect_loop-fuel zero g lines h k = absurd (omega arith)
connect_loop-fuel (suc f) zero lines h k = absurd (omega arith)
connect_loop-fuel (suc f) (suc g) lines h k = fetch-same (reply (codes "stat") lines) _ _ (λ resp o.
    let shorter = get_reply-shorter (codes "stat") lines resp o in
    connect_loop-fuel f g (get_reply (codes "stat") lines).left (omega arith) (omega arith))
