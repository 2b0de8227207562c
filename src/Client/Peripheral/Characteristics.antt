-- ===== src/Client/Peripheral/Characteristics.antt =====
-- The discovery of characteristics: the command, the request, and what the client finds.
use bluepy.Gatt.Handle.RoundTrip.{strtohandle-show_hex}
use bluepy.Gatt.Exchange.{when_connected-allowed}
use bluepy.Client.Peripheral.Items.{all_fields-IsCleanField, values_of-all}
use bluepy.Protocol.Responses.{line}
use bluepy.Common.Hex.{show_hex}
use bluepy.Client.Parse.Plain.{plain-IsCleanText}
use bluepy.Protocol.{rsp_discovery}
use bluepy.Gatt.Lines.{char_cb-line, char_fields, all_fields}
use bluepy.Client.Peripheral.Lines.{reply-line, lookup-resp_of, resp_of}
use bluepy.Client.Peripheral.Queue.{IsPassed}
use bluepy.Client.Parse.RoundTrip.{IsCleanText, IsCleanField}
use bluepy.Common.Int.{pos}
use bluepy.Common.Hex.Digits.{All}
use bluepy.Protocol.Wire.{Field}
use bluepy.Client.Peripheral.{fetched, with_key}
use bluepy.Commands.{commands, find_command, run, run_words, parse_line}
use bluepy.Gatt.Discovery.{cmd_char}
use bluepy.World.{printed_text, Event, ret, connected, on_option, World, steps, Env}
use bluepy.Client.Peripheral.Discovery.{
  characteristics_command, make_chars, FoundChar, characteristic_args, chars_of_resp,
}
use bluepy.Gatt.Reports.{char_cb, Char}
use bluepy.Common.{
  arith, ◌%◌, some, none, refl, ◌++◌, map, codes, ◌≡◌, ◌^◌, Text, ◌<◌, List, ℕ, [], ◌∷◌,
}
use bluepy.Client.Parse.{text, int}

-- What the client is to find.
abbrev pub found_char : Char → FoundChar
found_char c = record {
  uuid = text c.uuid;
  handle = int (pos c.handle);
  properties = int (pos c.properties);
  val_handle = int (pos c.value_handle);
}

-- A characteristic that the protocol can carry.
abbrev pub IsCleanChar : Char → Type 0
IsCleanChar c =
    (c.handle < 2 ^ 32) × (c.properties < 2 ^ 32) × (c.value_handle < 2 ^ 32) × IsCleanText c.uuid

char_fields-IsCleanField : (c : Char) → IsCleanChar c → All IsCleanField (char_fields c)
char_fields-IsCleanField c (h, p, v, u) = (
  (plain-IsCleanText (codes "hnd") refl, h),
  (
    (plain-IsCleanText (codes "props") refl, p),
    ((plain-IsCleanText (codes "vhnd") refl, v), ((plain-IsCleanText (codes "uuid") refl, u), tt)),
  ),
)

abbrev chars_fields : List Char → List Field
chars_fields cs = all_fields char_fields cs ++ []

make_chars-of :
    (cs : List Char)
    → make_chars
        (map (λ c. int (pos c.handle)) cs)
        (map (λ c. text c.uuid) cs)
        (map (λ c. int (pos c.properties)) cs)
        (map (λ c. int (pos c.value_handle)) cs)
      ≡ fetched (map found_char cs)
make_chars-of [] = refl
make_chars-of (c ∷ cs) = rw (make_chars-of cs) refl

chars_of_resp-of :
    (c : Char) (cs : List Char)
    → chars_of_resp (resp_of rsp_discovery (chars_fields (c ∷ cs)))
      ≡ fetched (map found_char (c ∷ cs))
unfolding chars_of_resp with_key
chars_of_resp-of c cs =
    rw
      (
        chars_of_resp,
        with_key,
        lookup-resp_of (codes "hnd") rsp_discovery (chars_fields (c ∷ cs)),
        lookup-resp_of (codes "uuid") rsp_discovery (chars_fields (c ∷ cs)),
        lookup-resp_of (codes "props") rsp_discovery (chars_fields (c ∷ cs)),
        lookup-resp_of (codes "vhnd") rsp_discovery (chars_fields (c ∷ cs)),
        values_of-all char_fields (codes "hnd") (λ x. int (pos x.handle)) cs (λ x rest. refl),
        values_of-all char_fields (codes "uuid") (λ x. text x.uuid) cs (λ x rest. refl),
        values_of-all char_fields (codes "props") (λ x. int (pos x.properties)) cs (λ x rest. refl),
        values_of-all char_fields (codes "vhnd") (λ x. int (pos x.value_handle)) cs
            (λ x rest. refl),
      )
      (make_chars-of (c ∷ cs))

get_characteristics-line :
    (c : Char) (cs : List Char) (before after : List Text)
    → All IsCleanChar (c ∷ cs)
    → All (IsPassed (rsp_discovery ∷ [])) before
    → characteristic_args (before ++ (line rsp_discovery (chars_fields (c ∷ cs)) ∷ after))
      ≡ fetched (map found_char (c ∷ cs))
unfolding characteristic_args
get_characteristics-line c cs before after clean passed =
    rw
      (
        characteristic_args,
        reply-line rsp_discovery (chars_fields (c ∷ cs)) before after
            (plain-IsCleanText rsp_discovery refl) refl
            (all_fields-IsCleanField char_fields IsCleanChar (c ∷ cs) char_fields-IsCleanField
              clean)
            passed,
      )
      (chars_of_resp-of c cs)

-- Connected, the command with a range in hexadecimal asks the library for that range.
cmd_char-range :
    (env : Env) (name : Text) (n m : ℕ) (w : World)
    → w.conn_state ≡ connected
    → n < 65536
    → m < 65536
    → cmd_char env (name ∷ show_hex n ∷ show_hex m ∷ []) w
      ≡ ret tt (record w { trace = Event.discover_char w.attrib n m none ∷ w.trace })
unfolding cmd_char steps
cmd_char-range env name n m w c low high =
    let fits : n % 65536 ≡ n = omega arith in
    let fits' : m % 65536 ≡ m = omega arith in
    rw
      (
        when_connected-allowed,
        c,
        strtohandle-show_hex n (omega arith),
        strtohandle-show_hex m (omega arith),
        fits,
        fits',
      )
      refl

-- The text of `characteristics_command` without its newline.
abbrev pub char_words : ℕ → ℕ → Text
char_words n m = codes "char " ++ show_hex n ++ codes " " ++ show_hex m

parse_line-char :
    (env : Env) (n m : ℕ) (w : World)
    → w.conn_state ≡ connected
    → n < 65536
    → m < 65536
    → env.strstrip (characteristics_command n m none) ≡ char_words n m
    → env.shell_parse_argv (char_words n m) ≡ some (codes "char" ∷ show_hex n ∷ show_hex m ∷ [])
    → parse_line env (characteristics_command n m none) w
      ≡ ret tt (record w { trace = Event.discover_char w.attrib n m none ∷ w.trace })
unfolding parse_line run_words run on_option find_command commands
parse_line-char env n m w c low high strip words =
    rw (parse_line, strip, run_words, words) (cmd_char-range env (codes "char") n m w c low high)

-- The discovery of characteristics, from end to end. The helper is connected, and the library's
-- `strstrip` and its splitting into words do to the command of the client what they are for. Then
-- the command makes one request, to discover the characteristics of the range of handles that the
-- client gave; and where the library has found one at least, with numbers of 32 bits and UUIDs that
-- the protocol can carry, the callback, in whatever world, returns with something printed, of which
-- the client, behind any lines that are passed over, makes the characteristics that were found: all
-- of them, in their order, each with its UUID, its handle, its properties and its value's handle.
pub get_characteristics-finds :
    (env : Env) (n m : ℕ) (w v : World) (c : Char) (cs : List Char) (before after : List Text)
    → w.conn_state ≡ connected
    → n < 65536
    → m < 65536
    → env.strstrip (characteristics_command n m none) ≡ char_words n m
    → env.shell_parse_argv (char_words n m) ≡ some (codes "char" ∷ show_hex n ∷ show_hex m ∷ [])
    → All IsCleanChar (c ∷ cs)
    → All (IsPassed (rsp_discovery ∷ [])) before
    → (parse_line env (characteristics_command n m none) w
        ≡ ret tt (record w { trace = Event.discover_char w.attrib n m none ∷ w.trace }))
      × (es : List Event) × (char_cb env 0 (c ∷ cs) v ≡ ret tt (record v { trace = es ++ v.trace }))
      × (characteristic_args (before ++ (printed_text es ∷ after))
          ≡ fetched (map found_char (c ∷ cs)))
get_characteristics-finds env n m w v c cs before after state low high strip words clean passed =
    let (es, eq, shown, only) = (char_cb-line env (c ∷ cs)).emits v in
    (
      parse_line-char env n m w state low high strip words,
      es,
      eq,
      rw shown (get_characteristics-line c cs before after clean passed),
    )
