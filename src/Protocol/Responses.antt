-- ===== src/Protocol/Responses.antt =====
-- What the functions of the protocol print, as fields of the wire format.
use bluepy.Common.{
  if◌then◌else◌, Bool, true, false, ℕ, zero, suc, List, [], ◌∷◌, ◌++◌, ◌≡◌, refl, sym, Text,
  byte_at, append_assoc, append-nil,
}
use bluepy.Common.Hex.{show_byte}
use bluepy.World.{Action, ◌>>◌}
use bluepy.Protocol.{
  err_att_err, err_mgmt_err, tag_errmsg, resp_att_error, resp_mgmt_err, rsp_mgmt, skip, tag_errstat,
  resp_str_error, Env, resp_mgmt, tag_response, tag_errcode, tag_data, tag_addr, tag_type,
  rsp_error, resp_begin, resp_end, send_sym, send_uint, send_str, send_bytes, send_data,
  send_addr_bytes, send_addr, AddrInfo, resp_error,
}
use bluepy.Protocol.Emits.{Emits, Emits-print, Emits-skip, Emits-eq, Emits->>}
use bluepy.Protocol.Wire.{
  Value, sym as symbol, uint, str, bytes, Field, hex_bytes, encode_more, encode,
}

abbrev pub field : Text → Value → Field
field t v = record { tag = t; value = v }

-- A whole response with its newline.
abbrev pub line : Text → List Field → Text
line kind fs = encode (field tag_response (symbol kind)) fs ++ 10 ∷ []

-- The action prints these fields, each behind a delimiter.
pub record Sends (m : Action) (fs : List Field) : Type 0 where
  pub emits : Emits m (encode_more fs)

-- The action prints these fields and ends the line.
pub record Finishes (m : Action) (fs : List Field) : Type 0 where
  pub emits : Emits m (encode_more fs ++ 10 ∷ [])

-- The action prints this response.
pub record Prints (m : Action) (kind : Text) (fs : List Field) : Type 0 where
  pub emits : Emits m (line kind fs)

encode_more-append :
    (fs gs : List Field) → encode_more (fs ++ gs) ≡ encode_more fs ++ encode_more gs
encode_more-append [] gs = refl
encode_more-append (f ∷ fs) gs = simp (encode_more-append fs gs, append_assoc)

pub Sends-skip : Sends skip []
Sends-skip = record { emits = Emits-skip }

pub Sends->> :
    {m k : Action} {fs gs : List Field} → Sends m fs → Sends k gs → Sends (m >> k) (fs ++ gs)
Sends->> {m} {k} {fs} {gs} h j = record {
  emits = Emits-eq _ _ _ (sym (encode_more-append fs gs)) (Emits->> m k _ _ h.emits j.emits);
}

pub Sends-if :
    {m k : Action} {fs gs : List Field} (b : Bool)
    → Sends m fs
    → Sends k gs
    → Sends (if b then m else k) (if b then fs else gs)
Sends-if true h j = h
Sends-if false h j = j

pub Finishes->> :
    {m k : Action} {fs gs : List Field} → Sends m fs → Finishes k gs → Finishes (m >> k) (fs ++ gs)
Finishes->> {m} {k} {fs} {gs} h j = record {
  emits =
      Emits-eq _ _ _ (rw (encode_more-append fs gs, append_assoc))
        (Emits->> m k _ _ h.emits j.emits);
}

pub Prints-response :
    (kind : Text) {k : Action} {fs : List Field}
    → Finishes k fs
    → Prints (resp_begin kind >> k) kind fs
unfolding resp_begin
Prints-response kind {k} h = record {
  emits = Emits-eq _ _ _ (simp append_assoc) (
      Emits->> (resp_begin kind) k (tag_response ++ 61 ∷ 36 ∷ kind) _ (Emits-print _ _ refl)
        h.emits);
}

pub Sends-sym : (t v : Text) → Sends (send_sym t v) (field t (symbol v) ∷ [])
unfolding send_sym
Sends-sym t v = record { emits = Emits-print _ _ (simp (append_assoc, append-nil)) }

pub Sends-uint : (t : Text) (n : ℕ) → Sends (send_uint t n) (field t (uint n) ∷ [])
unfolding send_uint
Sends-uint t n = record { emits = Emits-print _ _ (simp (append_assoc, append-nil)) }

pub Sends-str : (t v : Text) → Sends (send_str t v) (field t (str v) ∷ [])
unfolding send_str
Sends-str t v = record { emits = Emits-print _ _ (simp (append_assoc, append-nil)) }

Emits-send_bytes : (val : Text) → Emits (send_bytes val) (hex_bytes val)
unfolding send_bytes
Emits-send_bytes [] = Emits-skip
Emits-send_bytes (b ∷ val) =
    Emits->> _ (send_bytes val) (show_byte b) (hex_bytes val) (Emits-print _ _ refl)
      (Emits-send_bytes val)

pub Sends-data : (val : Text) → Sends (send_data val) (field tag_data (bytes val) ∷ [])
unfolding send_data
Sends-data val = record {
  emits = Emits-eq _ _ _ (rw append-nil) (
      Emits->> _ (send_bytes val) (0x1e ∷ tag_data ++ 61 ∷ 98 ∷ []) _ (Emits-print _ _ refl)
        (Emits-send_bytes val));
}

-- The first `len` bytes of an address, last first.
abbrev pub reversed_bytes : Text → ℕ → Text
reversed_bytes val zero = []
reversed_bytes val (suc len) = byte_at val len ∷ reversed_bytes val len

Emits-send_addr_bytes :
    (val : Text) (len : ℕ) → Emits (send_addr_bytes val len) (hex_bytes (reversed_bytes val len))
unfolding send_addr_bytes
Emits-send_addr_bytes val zero = Emits-skip
Emits-send_addr_bytes val (suc len) =
    Emits->> _ (send_addr_bytes val len) (show_byte (byte_at val len)) _ (Emits-print _ _ refl)
      (Emits-send_addr_bytes val len)

-- The address is sent with its bytes reversed, and then its type.
abbrev pub addr_fields : AddrInfo → List Field
addr_fields a =
    field tag_addr (bytes (reversed_bytes a.bdaddr 6)) ∷ field tag_type (uint a.addr_type) ∷ []

pub Sends-addr : (a : AddrInfo) → Sends (send_addr a) (addr_fields a)
unfolding send_addr
Sends-addr a = record {
  emits = Emits-eq _ _ _ (simp (append_assoc, append-nil)) (
      Emits->> _ _ (0x1e ∷ tag_addr ++ 61 ∷ 98 ∷ []) _ (Emits-print _ _ refl) (
        Emits->> _ _ _ _ (Emits-send_addr_bytes a.bdaddr 6)
          (Sends-uint tag_type a.addr_type).emits));
}

pub Finishes-end : Finishes resp_end []
unfolding resp_end
Finishes-end = record { emits = Emits-print _ _ refl }

-- The fields of the five error and result responses.
abbrev pub code_field : Text → List Field
code_field code = field tag_errcode (symbol code) ∷ []

abbrev pub code_fields : Text → ℕ → Text → List Field
code_fields code status message =
    field tag_errcode (symbol code)
    ∷ field tag_errstat (uint status)
    ∷ field tag_errmsg (str message)
    ∷ []

pub resp_error-line : (code : Text) → Prints (resp_error code) rsp_error (code_field code)
unfolding resp_error
resp_error-line code =
    Prints-response rsp_error (Finishes->> (Sends-sym tag_errcode code) Finishes-end)

pub resp_str_error-line :
    (code msg : Text)
    → Prints
        (resp_str_error code msg)
        rsp_error
        (field tag_errcode (symbol code) ∷ field tag_errmsg (str msg) ∷ [])
unfolding resp_str_error
resp_str_error-line code msg =
    Prints-response rsp_error (
      Finishes->> (Sends-sym tag_errcode code)
        (Finishes->> (Sends-str tag_errmsg msg) Finishes-end))

pub resp_mgmt-line : (code : Text) → Prints (resp_mgmt code) rsp_mgmt (code_field code)
unfolding resp_mgmt
resp_mgmt-line code =
    Prints-response rsp_mgmt (Finishes->> (Sends-sym tag_errcode code) Finishes-end)

module _ (env : Env) (status : ℕ) where
  pub resp_att_error-line :
      Prints
        (resp_att_error env status)
        rsp_error
        (code_fields err_att_err status (env.att_ecode_str status))
  unfolding resp_att_error
  resp_att_error-line = Prints-response rsp_error (
      Finishes->> (Sends-sym tag_errcode err_att_err) (
        Finishes->> (Sends-uint tag_errstat status)
          (Finishes->> (Sends-str tag_errmsg (env.att_ecode_str status)) Finishes-end)))

  pub resp_mgmt_err-line :
      Prints
        (resp_mgmt_err env status)
        rsp_mgmt
        (code_fields err_mgmt_err status (env.mgmt_errstr status))
  unfolding resp_mgmt_err
  resp_mgmt_err-line = Prints-response rsp_mgmt (
      Finishes->> (Sends-sym tag_errcode err_mgmt_err) (
        Finishes->> (Sends-uint tag_errstat status)
          (Finishes->> (Sends-str tag_errmsg (env.mgmt_errstr status)) Finishes-end)))
