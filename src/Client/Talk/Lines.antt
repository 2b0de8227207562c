-- ===== src/Client/Talk/Lines.antt =====
-- What a wait makes of a response that the helper has printed.
use bluepy.Client.Peripheral.Queue.{on_line-response}
use bluepy.Client.Parse.Plain.{plain-IsCleanText}
use bluepy.Client.Peripheral.{fetched, failed}
use bluepy.Common.Hex.Digits.{All}
use bluepy.Protocol.{tag_response, tag_errcode, rsp_mgmt}
use bluepy.Client.Peripheral.Lines.{first_value-resp_of, lookup-resp_of, resp_of}
use bluepy.Protocol.Responses.{field, line}
use bluepy.Client.Parse.RoundTrip.{parse_resp-encode, IsCleanField, IsCleanText}
use bluepy.Client.Wait.{
  management_error, is_skipped, response, is_wanted, is_text, first_value, wait_rest, on_line,
  wait_resp,
}
use bluepy.Protocol.Wire.{Field, sym as symbol}
use bluepy.Common.{◌∙◌, refl, ◌++◌, some, false, true, codes, none, ◌≡◌, List, Text, [], ◌∷◌}
use bluepy.Client.Talk.{done, mgmt_types, stop_helper, wait, value_of, mgmt_cmd}
use bluepy.Client.Parse.{Resp, text}

-- The line is skipped by a wait for those types.
abbrev pub IsIgnored : List Text → Text → Type 0
IsIgnored want_type s = on_line want_type s ≡ none

module _ (want_type : List Text) where
  wait_resp-ignored :
      (before lines : List Text)
      → All (IsIgnored want_type) before
      → (wait_resp want_type (before ++ lines) ≡ wait_resp want_type lines)
        × (wait_rest want_type (before ++ lines) ≡ wait_rest want_type lines)
  unfolding wait_resp wait_rest
  wait_resp-ignored [] lines h = (refl, refl)
  wait_resp-ignored (s ∷ before) lines (h, hs) =
      let (r, l) = wait_resp-ignored before lines hs in (rw (wait_resp, h) r, rw (wait_rest, h) l)

  module _ (kind : Text) (fs : List Field) (before after : List Text) (clean : IsCleanText kind)
      (fields : All IsCleanField fs) (wanted : is_wanted want_type (text kind) ≡ true)
      (ignored : All (IsIgnored want_type) before) where
    response_line : on_line want_type (line kind fs) ≡ some (response (resp_of kind fs))
    unfolding is_skipped
    response_line =
        on_line-response want_type (line kind fs) (resp_of kind fs) (text kind) refl
          (parse_resp-encode (field tag_response (symbol kind)) fs
            (plain-IsCleanText (codes "rsp") refl, clean) fields)
          (first_value-resp_of kind fs) wanted

    pub wait_resp-line :
        (wait_resp want_type (before ++ (line kind fs ∷ after)) ≡ response (resp_of kind fs))
        × (wait_rest want_type (before ++ (line kind fs ∷ after)) ≡ after)
    unfolding wait_resp wait_rest
    wait_resp-line =
        let (r, l) = wait_resp-ignored before (line kind fs ∷ after) ignored in
        (r ∙ rw (wait_resp, response_line) refl, l ∙ rw (wait_rest, response_line) refl)

    -- A response of a type that is waited for, behind lines that are skipped, is what the wait gives.
    pub wait-line : wait want_type (before ++ (line kind fs ∷ after)) ≡ done (resp_of kind fs) after
    unfolding wait
    wait-line = rw (wait, wait_resp-line.0, wait_resp-line.1) refl

-- A response of the management interface: its code, and what may follow.
abbrev pub mgmt_line : Text → List Field → Text
mgmt_line code fs = line rsp_mgmt (field tag_errcode (symbol code) ∷ fs)

abbrev pub mgmt_resp : Text → List Field → Resp
mgmt_resp code fs = resp_of rsp_mgmt (field tag_errcode (symbol code) ∷ fs)

-- Such a response can be read, and its code is the first value of its tag.
pub record IsAnswer (code : Text) (fs : List Field) (before : List Text) : Type 0 where
  pub clean : IsCleanText code
  pub fields : All IsCleanField fs
  pub ignored : All (IsIgnored mgmt_types) before

module _ (code : Text) (fs : List Field) (before after : List Text)
    (answer : IsAnswer code fs before) where
  pub wait-mgmt :
      wait mgmt_types (before ++ (mgmt_line code fs ∷ after)) ≡ done (mgmt_resp code fs) after
  wait-mgmt =
      wait-line mgmt_types rsp_mgmt (field tag_errcode (symbol code) ∷ fs) before after
        (plain-IsCleanText rsp_mgmt refl)
        ((plain-IsCleanText tag_errcode refl, answer.clean), answer.fields) refl answer.ignored

  code-value : first_value (codes "code") (mgmt_resp code fs) ≡ some (text code)
  unfolding first_value
  code-value =
      rw
        (first_value, lookup-resp_of (codes "code") rsp_mgmt (field tag_errcode (symbol code) ∷ fs))
        refl

  pub value_of-code :
      (lines : List Text)
      → value_of (codes "code") (mgmt_resp code fs) lines ≡ done (text code) lines
  unfolding value_of
  value_of-code lines = rw (value_of, code-value) refl

  -- A command to the management interface that succeeds.
  pub mgmt_cmd-success :
      (cmd : Text)
      → is_text (text code) (codes "success") ≡ true
      → mgmt_cmd cmd (before ++ (mgmt_line code fs ∷ after))
        ≡ record { outcome = fetched tt; written = (cmd ++ codes "\n") ∷ []; left = after }
  unfolding mgmt_cmd
  mgmt_cmd-success cmd good = rw (mgmt_cmd, wait-mgmt, value_of-code after, good) refl

  -- One that is refused: the helper is stopped, and the error has the response.
  pub mgmt_cmd-refused :
      (cmd : Text)
      → is_text (text code) (codes "success") ≡ false
      → mgmt_cmd cmd (before ++ (mgmt_line code fs ∷ after)) ≡ record {
        outcome = failed (management_error (mgmt_resp code fs));
        written = (cmd ++ codes "\n") ∷ codes "quit\n" ∷ [];
        left = after;
      }
  unfolding mgmt_cmd stop_helper
  mgmt_cmd-refused cmd bad = rw (mgmt_cmd, wait-mgmt, value_of-code after, bad) refl
