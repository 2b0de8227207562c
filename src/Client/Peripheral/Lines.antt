-- ===== src/Client/Peripheral/Lines.antt =====
-- What `_getResp` makes of a response that the helper has printed.
use bluepy.Client.Parse.Plain.{plain-IsCleanText}
use bluepy.Protocol.Wire.{sym as symbol, Field}
use bluepy.Client.Peripheral.Queue.{
  respond, respond-response, respond-passed, get_resp-respond, IsPassed,
}
use bluepy.Protocol.{tag_response}
use bluepy.Common.Hex.Digits.{All}
use bluepy.Protocol.Responses.{line, field}
use bluepy.Client.Peripheral.{get_reply, reply, event_types}
use bluepy.Client.Lookup.{lookup-collect, same_text_refl, values_of}
use bluepy.Client.Parse.{text, Resp}
use bluepy.Client.Parse.RoundTrip.{parse_resp-encode, IsCleanField, collect, IsCleanText}
use bluepy.Client.Wait.{response, is_wanted, first_value, lookup, is_skipped}
use bluepy.Common.{
  ap, ◌∙◌, arith, ◌+◌, length, ◌++◌, refl, false, true, some, ◌≡◌, codes, List, Text, [], ◌∷◌,
}

-- The dictionary of such a response.
abbrev pub resp_of : Text → List Field → Resp
resp_of kind fs = collect (field tag_response (symbol kind) ∷ fs) []

pub lookup-resp_of :
    (tag kind : Text) (fs : List Field)
    → lookup tag (resp_of kind fs) ≡ values_of tag (field tag_response (symbol kind) ∷ fs)
unfolding lookup
lookup-resp_of tag kind fs = lookup-collect tag (field tag_response (symbol kind) ∷ fs) []

pub first_value-resp_of :
    (kind : Text) (fs : List Field) → first_value (codes "rsp") (resp_of kind fs) ≡ some (text kind)
unfolding first_value
first_value-resp_of kind fs = rw (first_value, lookup-resp_of (codes "rsp") kind fs) refl

is_wanted_self : (kind : Text) (types : List Text) → is_wanted (kind ∷ types) (text kind) ≡ true
is_wanted_self kind types = rw (same_text_refl kind) refl

pub get_reply-respond :
    (kind : Text) (lines : List Text) → get_reply kind lines ≡ respond (kind ∷ []) lines
get_reply-respond kind lines = get_resp-respond (kind ∷ []) (length lines + 1) lines (omega arith)

module _ (kind : Text) (fs : List Field) (before after : List Text) (clean : IsCleanText kind)
    (other : is_wanted event_types (text kind) ≡ false) (fields : All IsCleanField fs)
    (passed : All (IsPassed (kind ∷ [])) before) where
  responded :
      respond (kind ∷ []) (line kind fs ∷ after)
      ≡ record { notified = []; outcome = response (resp_of kind fs); left = after }
  unfolding is_skipped
  responded =
      respond-response (kind ∷ []) (line kind fs) after (resp_of kind fs) (text kind) refl
        (parse_resp-encode (field tag_response (symbol kind)) fs
          (plain-IsCleanText (codes "rsp") refl, clean) fields)
        (first_value-resp_of kind fs) (is_wanted_self kind []) (is_wanted_self kind event_types)
        other

  -- A response that the helper has printed, behind lines that are passed over, is what the wait for
  -- its kind ends with, and the lines behind it are left.
  pub reply-line : reply kind (before ++ (line kind fs ∷ after)) ≡ response (resp_of kind fs)
  reply-line =
      ap (λ got. got.outcome) (get_reply-respond kind (before ++ (line kind fs ∷ after)))
      ∙ (respond-passed (kind ∷ []) before (line kind fs ∷ after) passed).0
      ∙ ap (λ got. got.outcome) responded

  pub left-line : (get_reply kind (before ++ (line kind fs ∷ after))).left ≡ after
  left-line =
      ap (λ got. got.left) (get_reply-respond kind (before ++ (line kind fs ∷ after)))
      ∙ (respond-passed (kind ∷ []) before (line kind fs ∷ after) passed).1
      ∙ ap (λ got. got.left) responded
