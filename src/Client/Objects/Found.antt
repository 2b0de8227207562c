-- ===== src/Client/Objects/Found.antt =====
-- The descriptors of a characteristic, from what the helper reports.
use bluepy.Gatt.Lines.{char_desc_cb-line, desc_fields}
use bluepy.Client.Peripheral.Items.{all_fields-IsCleanField}
use bluepy.Client.Parse.Plain.{plain-IsCleanText}
use bluepy.Client.Peripheral.Discovery.{descriptors_command}
use bluepy.Client.Peripheral.Lines.{left-line, reply-line, resp_of}
use bluepy.Client.Peripheral.Methods.{expect}
use bluepy.Client.Uuid.Shown.{make_uuid-uuid_text}
use bluepy.Protocol.Responses.{line}
use bluepy.Client.Talk.{done}
use bluepy.Protocol.{rsp_descriptors}
use bluepy.Client.Peripheral.{fetched, event_types}
use bluepy.World.{printed_text, ret, Event, World, Env}
use bluepy.Client.Peripheral.Queue.{IsPassed}
use bluepy.Client.Wait.{is_wanted}
use bluepy.Client.Parse.RoundTrip.{IsCleanField, IsCleanText}
use bluepy.Client.Uuid.{uuid_text}
use bluepy.Common.Int.{pos}
use bluepy.Client.Peripheral.Lookups.{
  descs_of_resp-of, desc_fields-IsCleanField, descs_fields, found_desc, IsCleanDesc,
}
use bluepy.Common.Hex.Digits.{All}
use bluepy.Gatt.Reports.{char_desc_cb, Desc}
use bluepy.Protocol.Wire.{Field}
use bluepy.Client.Objects.{
  Characteristic, choose_descriptors, uuid_of_value, Descriptor, is_declaration, fill_descriptors,
  make_descriptors, peripheral_descriptors, until_declaration, char_descriptors,
}
use bluepy.Common.{
  ◌+◌, none, ◌<◌, true, false, refl, ◌++◌, ◌≡◌, map, length, Text, ℕ, List, [], ◌∷◌,
}
use bluepy.Client.Parse.{text, int}

-- The handle and the bytes of the UUID of each descriptor, as the library gives them.
abbrev pub listed : List (ℕ × Text) → List Desc
listed [] = []
listed (d ∷ ds) = record { handle = d.0; uuid = uuid_text d.1 } ∷ listed ds

-- What the client makes of them.
abbrev pub made : List (ℕ × Text) → List Descriptor
made [] = []
made (d ∷ ds) = record { uuid = d.1; handle = int (pos d.0) } ∷ made ds

-- A UUID of 16 bytes.
abbrev pub IsWhole : ℕ × Text → Type 0
IsWhole d = (length d.1 ≡ 16) × All (λ b. b < 256) d.1

make_descriptors-listed :
    (ds : List (ℕ × Text)) (lines : List Text)
    → All IsWhole ds
    → make_descriptors (map found_desc (listed ds)) lines ≡ done (made ds) lines
unfolding make_descriptors uuid_of_value
make_descriptors-listed [] lines h = refl
make_descriptors-listed (d ∷ ds) lines ((whole, bytes), hs) =
    rw
      (
        make_descriptors,
        uuid_of_value,
        make_uuid-uuid_text d.1 whole bytes,
        make_descriptors-listed ds lines hs,
      )
      refl

module _ (kind : Text) (fs : List Field) (before after : List Text) (clean : IsCleanText kind)
    (other : is_wanted event_types (text kind) ≡ false) (fields : All IsCleanField fs)
    (passed : All (IsPassed (kind ∷ [])) before) where
  pub expect-line : expect kind (before ++ (line kind fs ∷ after)) ≡ done (resp_of kind fs) after
  unfolding expect
  expect-line =
      rw
        (
          expect,
          reply-line kind fs before after clean other fields passed,
          left-line kind fs before after clean other fields passed,
        )
        refl

peripheral_descriptors-line :
    (start end : ℕ) (d : ℕ × Text) (ds : List (ℕ × Text)) (before after : List Text)
    → All IsWhole (d ∷ ds)
    → All IsCleanDesc (listed (d ∷ ds))
    → All (IsPassed (rsp_descriptors ∷ [])) before
    → peripheral_descriptors start end
        (before ++ (line rsp_descriptors (descs_fields (listed (d ∷ ds))) ∷ after))
      ≡ record {
        outcome = fetched (made (d ∷ ds));
        written = descriptors_command start end ∷ [];
        left = after;
      }
unfolding peripheral_descriptors
peripheral_descriptors-line start end d ds before after whole clean passed =
    rw
      (
        peripheral_descriptors,
        expect-line rsp_descriptors (descs_fields (listed (d ∷ ds))) before after
            (plain-IsCleanText rsp_descriptors refl) refl
            (all_fields-IsCleanField desc_fields IsCleanDesc (listed (d ∷ ds))
              desc_fields-IsCleanField clean)
            passed,
        descs_of_resp-of (record { handle = d.0; uuid = uuid_text d.1 }) (listed ds),
        make_descriptors-listed (d ∷ ds) after whole,
      )
      refl

-- What follows is nothing, or begins with another characteristic or service.
abbrev pub IsBeyond : List (ℕ × Text) → Type 0
IsBeyond [] = Unit {0}
IsBeyond (d ∷ ds) = is_declaration d.1 ≡ true

-- A descriptor that is no declaration.
abbrev pub IsPlain : ℕ × Text → Type 0
IsPlain d = is_declaration d.1 ≡ false

until_declaration-made :
    (own beyond : List (ℕ × Text))
    → All IsPlain own
    → IsBeyond beyond
    → until_declaration (made (own ++ beyond)) ≡ made own
unfolding until_declaration
until_declaration-made [] [] h b = refl
until_declaration-made [] (d ∷ ds) h b = rw b refl
until_declaration-made (d ∷ own) beyond (h, hs) b =
    rw (h, until_declaration-made own beyond hs b) refl

-- The descriptors of a characteristic, from the helper to the object. They have not been discovered
-- yet, and the handle of the value is a number. The library finds some descriptors, with UUIDs of 16
-- bytes and handles of 32 bits that the protocol can carry: one or more that are no declarations,
-- and behind them nothing, or a declaration of a characteristic or service and anything else. Then
-- the callback of the helper, in whatever world, returns with something printed, of which
-- `Characteristic.getDescriptors`, behind any lines that are passed over, makes the former alone, in
-- their order, with the command written that asks for what follows the value; and when it is called
-- again, it gives the same ones with nothing written and no line taken.
pub char_descriptors-finds :
    (env : Env) (char : Characteristic) (h end : ℕ) (d : ℕ × Text) (own beyond : List (ℕ × Text))
    (v : World) (before after later : List Text)
    → char.descs ≡ []
    → char.val_handle ≡ int (pos h)
    → All IsWhole (d ∷ (own ++ beyond))
    → All IsCleanDesc (listed (d ∷ (own ++ beyond)))
    → All IsPlain (d ∷ own)
    → IsBeyond beyond
    → All (IsPassed (rsp_descriptors ∷ [])) before
    → (let now : Characteristic = record char { descs = made (d ∷ own) } in
        (es : List Event) × (char_desc_cb env 0 (listed (d ∷ (own ++ beyond))) v
          ≡ ret tt (record v { trace = es ++ v.trace }))
        × (char_descriptors none end char (before ++ (printed_text es ∷ after)) ≡ record {
          outcome = fetched (now, made (d ∷ own));
          written = descriptors_command (h + 1) end ∷ [];
          left = after;
        })
        × (char_descriptors none end now later
            ≡ record { outcome = fetched (now, made (d ∷ own)); written = []; left = later }))
unfolding char_descriptors fill_descriptors choose_descriptors
char_descriptors-finds env char h end d own beyond v before after later empty number whole clean
      plain past passed =
    let (es, eq, shown, only) = (char_desc_cb-line env (listed (d ∷ (own ++ beyond)))).emits v in
    (
      es,
      eq,
      rw
          (
            shown,
            char_descriptors,
            fill_descriptors,
            empty,
            number,
            peripheral_descriptors-line (h + 1) end d (own ++ beyond) before after whole clean
                passed,
            until_declaration-made (d ∷ own) beyond plain past,
          )
          refl,
      refl,
    )
