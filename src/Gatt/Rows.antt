-- ===== src/Gatt/Rows.antt =====
-- The response to a read by UUID.
use bluepy.Gatt.Read.{send_rows, report_rows}
use bluepy.Att.Events.{get_le16}
use bluepy.Protocol.{resp_end, rsp_read, tag_data, tag_handle}
use bluepy.Protocol.Responses.{
  Finishes-end, Sends-data, Sends-uint, Finishes->>, Finishes, Sends, Prints-response, Prints,
  field,
}
use bluepy.Common.Hex.Digits.{All}
use bluepy.Protocol.Wire.{bytes, uint, Field}
use bluepy.Common.{refl, some, drop, [], ◌++◌, true, ◌∷◌, ◌≡◌, length, leb, Text, List}
use bluepy.World.{
  printed_text, World, pure, undefined, aborted, ret, Action, M, ◌>>◌, Outcome, require, ◌>>=◌,
  CharacteristicData,
}

abbrev pub row_fields : Text → List Field
row_fields value =
    field tag_handle (uint (get_le16 value 0)) ∷ field tag_data (bytes (drop 2 value)) ∷ []

abbrev pub rows_fields : List Text → List Field
rows_fields [] = []
rows_fields (value ∷ rows) = row_fields value ++ rows_fields rows

assoc_Outcome :
    {A B C : Type 0} (o : Outcome A) (f : A → M B) (g : B → M C) (w : World)
    → (((λ _. o) >>= f) >>= g) w ≡ ((λ _. o) >>= λ a. f a >>= g) w
unfolding ◌>>=◌
assoc_Outcome (ret a v) f g w = refl
assoc_Outcome (aborted v) f g w = refl
assoc_Outcome (undefined v) f g w = refl

then_assoc : {B C : Type 0} (m : Action) (k : M B) (g : B → M C) → (m >> k) >>= g ≡ m >> (k >>= g)
unfolding ◌>>=◌ ◌>>◌
then_assoc m k g = λ i w. assoc_Outcome (m w) (λ _. k) g w i

Sends-require : Sends (require true) []
unfolding require printed_text
Sends-require = record { emits = λ w. ([], refl, refl, tt) }

Finishes-pure : {A : Type 0} (a : A) → Finishes (pure a >>= λ _. resp_end) []
unfolding pure ◌>>=◌
Finishes-pure a = Finishes-end

Finishes-send_rows :
    (rows : List Text) (char_data : CharacteristicData)
    → All (λ value. leb 2 (length value) ≡ true) rows
    → Finishes (send_rows rows char_data >>= λ _. resp_end) (rows_fields rows)
unfolding send_rows
Finishes-send_rows [] char_data h = Finishes-pure char_data
Finishes-send_rows (value ∷ rows) char_data (long, rest) =
    rw (then_assoc, then_assoc, then_assoc, long)
      (Finishes->> Sends-require (
        Finishes->> (Sends-uint _ _) (Finishes->> (Sends-data _) (Finishes-send_rows rows _ rest))))

-- When each row of the answer has the two bytes of a handle, the report of a read by UUID is one
-- line that has the handle and the value of each row, in the order of the rows.
pub report_rows-line :
    (rows : List Text) (char_data : CharacteristicData)
    → All (λ value. leb 2 (length value) ≡ true) rows
    → Prints (report_rows (some rows) char_data) rsp_read (rows_fields rows)
unfolding report_rows
report_rows-line rows char_data h = Prints-response rsp_read (Finishes-send_rows rows char_data h)
