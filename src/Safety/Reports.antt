-- ===== src/Safety/Reports.antt =====
-- The callbacks of reads and discoveries keep the invariant.
use bluepy.Common.{some, Bool, true, false, Text, [], ◌∷◌, refl, ℕ, List, Option, none}
use bluepy.World.{Action, Env, World, M, CharacteristicData, require, pure, ◌>>◌}
use bluepy.Gatt.Read.{send_rows, report_rows, char_read_by_uuid_cb}
use bluepy.Protocol.Emits.{Emits-print}
use bluepy.Protocol.{resp_begin, rsp_read, resp_end}
use bluepy.Protocol.Responses.{Sends-uint, Sends-data, Prints-response, Finishes-end}
use bluepy.Gatt.Reports.{
  Range, Primary, Included, Char, Desc, unless_error, primary_all_cb, primary_by_uuid_cb,
  included_cb, char_cb, char_desc_cb,
}
use bluepy.Gatt.Lines.{
  primary_all_cb-line, primary_by_uuid_cb-line, included_cb-line, char_cb-line, char_desc_cb-line,
}
use bluepy.Safety.Basics.{Keeps-resp_att_error, Keeps-unless_error}
use bluepy.Safety.Invariant.{
  Keeps->>, Keeps-if, Keeps-call, Keeps-print, Inv, On, bind-On, Mid-Emits, Holds, Holds-EmitsAt,
  Mid, Keeps, Keeps-line,
}

module _ (env : Env) where
  pub Keeps-primary_all_cb : (status : ℕ) (xs : List Primary) → Keeps (primary_all_cb env status xs)
  unfolding primary_all_cb unless_error
  Keeps-primary_all_cb status xs =
      Keeps-unless_error env status (Keeps-line (primary_all_cb-line env xs))

  pub Keeps-primary_by_uuid_cb :
      (status : ℕ) (xs : List Range) → Keeps (primary_by_uuid_cb env status xs)
  unfolding primary_by_uuid_cb unless_error
  Keeps-primary_by_uuid_cb status xs =
      Keeps-unless_error env status (Keeps-line (primary_by_uuid_cb-line env xs))

  pub Keeps-included_cb : (status : ℕ) (xs : List Included) → Keeps (included_cb env status xs)
  unfolding included_cb unless_error
  Keeps-included_cb status xs = Keeps-unless_error env status (Keeps-line (included_cb-line env xs))

  pub Keeps-char_cb : (status : ℕ) (xs : List Char) → Keeps (char_cb env status xs)
  unfolding char_cb unless_error
  Keeps-char_cb status xs = Keeps-unless_error env status (Keeps-line (char_cb-line env xs))

  pub Keeps-char_desc_cb : (status : ℕ) (xs : List Desc) → Keeps (char_desc_cb env status xs)
  unfolding char_desc_cb unless_error
  Keeps-char_desc_cb status xs =
      Keeps-unless_error env status (Keeps-line (char_desc_cb-line env xs))

Holds-resp_end : (w : World) → Mid w → Holds (resp_end w)
Holds-resp_end w (attached, requests) =
    Holds-EmitsAt w resp_end (10 ∷ []) (Finishes-end.emits w) (λ e. cc) refl attached requests

Mid-require : (b : Bool) (w : World) → Mid w → On Mid (require b w)
unfolding require
Mid-require true w m = m
Mid-require false w m = m

Mid->> :
    {B : Type 0} (m : Action) (k : M B)
    → ((w : World) → Mid w → On Mid (m w))
    → ((w : World) → Mid w → On Mid (k w))
    → (w : World) → Mid w
    → On Mid ((m >> k) w)
unfolding ◌>>◌
Mid->> m k h j w mid = bind-On Mid Mid m (λ _. k) w (h w mid) (λ _. j)

Mid-send_rows :
    (rows : List Text) (char_data : CharacteristicData) (w : World)
    → Mid w
    → On Mid (send_rows rows char_data w)
unfolding send_rows pure
Mid-send_rows [] char_data w m = m
Mid-send_rows (value ∷ rows) char_data w m =
    Mid->> _ _ (Mid-require _)
      (Mid->> _ _ (Mid-Emits _ _ (Sends-uint _ _).emits)
        (Mid->> _ _ (Mid-Emits _ _ (Sends-data _).emits) (Mid-send_rows rows _)))
      w m

Keeps-report_rows :
    (rows : Option (List Text)) (char_data : CharacteristicData)
    → Keeps (report_rows rows char_data)
unfolding report_rows resp_begin ◌>>◌
Keeps-report_rows none char_data = Keeps-line (Prints-response rsp_read Finishes-end)
Keeps-report_rows (some rows) char_data = record {
  keeps = λ w inv.
      bind-On Mid Inv (resp_begin rsp_read) _ w
        (Mid-Emits _ _ (Emits-print _ _ refl) w (inv.attached, inv.requests))
        (λ _ v m.
          bind-On Mid Inv (send_rows rows char_data) _ v (Mid-send_rows rows char_data v m)
            (λ _. Holds-resp_end));
}

module _ (env : Env) where
  pub Keeps-char_read_by_uuid_cb :
      (status : ℕ) (pdu : Text) (char_data : CharacteristicData)
      → Keeps (char_read_by_uuid_cb env status pdu char_data)
  unfolding char_read_by_uuid_cb
  Keeps-char_read_by_uuid_cb status pdu char_data =
      Keeps->>
        (Keeps-if _ (Keeps-print _ (λ e. cc) refl)
          (Keeps-if _ (Keeps-report_rows _ _) (Keeps-resp_att_error env status)))
        (Keeps-call _ tt)
