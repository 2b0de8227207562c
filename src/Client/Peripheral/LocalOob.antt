-- ===== src/Client/Peripheral/LocalOob.antt =====
-- `Peripheral.getLocalOOB`, without an interface and with a helper that runs.
--
-- bluepy/btle.py, lines 620 to 660, in Python 3, where the elements of bytes are numbers. An exception
-- of Python is `failed crashed`; an error of the management interface that has no response has an
-- empty one.
use bluepy.Client.Peripheral.Methods.{expect}
use bluepy.Client.Wait.{crashed, management_error, first_value}
use bluepy.Client.Peripheral.{assertion_error, index_error, key_error, fetched, failed, Fetched}
use bluepy.Common.{
  refl, inr, inl, Bool-cases, ◌+◌, ◌==◌, not, some, if◌then◌else◌, drop, codes, take, ◌≢◌, ℕ, List,
  Text, [], ◌∷◌,
}
use bluepy.Client.Parse.{nothing, bytes, Resp}
use bluepy.Client.Talk.{go_on, write, done, with_outcome, Talk, ◌>>=◌, ◌>>◌}

-- `struct.unpack_from('<B', data, i)[0]`, which fails behind the end.
abbrev byte_or_error : Text → Fetched ℕ
byte_or_error [] = failed crashed
byte_or_error (b ∷ bs) = fetched b

abbrev management_failure : {A : Type 0} → Talk A
management_failure = with_outcome (failed (management_error []))

-- The test of a size and a type, from the left; the error says that the data is malformed.
unfoldable pub check_header : Text → ℕ → ℕ → ℕ → Talk (Unit {0})
check_header data' i size kind = do
  b ← with_outcome (byte_or_error (drop i data'))
  if not (b == size) then management_failure else do
    t ← with_outcome (byte_or_error (drop (i + 1) data'))
    if t == kind then done tt else management_failure

-- `resp.get('d', [''])[0]`, on which the first test fails unless it is bytes.
unfoldable pub oob_payload : Resp → Talk Text
oob_payload resp = elim (first_value (codes "d") resp) [
  | some (bytes s) ↦ done s
  | some nothing ↦ management_failure
  | _ ↦ with_outcome (failed crashed)
]

-- `''.join(["%02X" % struct.unpack('<B',c)[0] for c in s])`: an element is a number, which `unpack`
-- does not take.
unfoldable pub join_hex : Text → Talk Text
join_hex [] = done []
join_hex (c ∷ s) = with_outcome (failed crashed)

-- The dictionary that is returned.
pub record OobDict : Type 0 where
  pub address : Text
  pub addr_type : Text
  pub role : Text
  pub c_256 : Text
  pub r_256 : Text
  pub flags : Text

-- `data[i:j]`, given `i` and `j - i`
abbrev part : Text → ℕ → ℕ → Text
part data' i n = take n (drop i data')

unfoldable pub show_oob : Text → Talk OobDict
show_oob data' = do
  address ← join_hex (part data' 2 6)
  addr_type ← join_hex (part data' 8 1)
  role ← join_hex (part data' 11 1)
  confirm ← join_hex (part data' 14 16)
  random ← join_hex (part data' 32 16)
  flags ← join_hex (part data' 50 1)
  done (record {
    address = address;
    addr_type = addr_type;
    role = role;
    c_256 = confirm;
    r_256 = random;
    flags = flags;
  })

-- The tests of the data, one after the other.
unfoldable pub check_oob : Text → Talk (Unit {0})
check_oob data' = do
  check_header data' 0 8 0x1b
  check_header data' 9 2 0x1c
  check_header data' 12 17 0x22
  check_header data' 30 17 0x23
  check_header data' 48 2 0x01

-- What is done with the data of the response.
unfoldable pub decode_oob : Text → Talk OobDict
decode_oob data' = do check_oob data'; show_oob data'

-- `getLocalOOB`
unfoldable pub get_local_oob : Talk OobDict
get_local_oob = do
  write (codes "local_oob\n")
  resp ← expect (codes "oob")
  data' ← oob_payload resp
  decode_oob data'

-- A call never returns where what follows its first part never does.
go_on-never :
    {A B : Type 0} (b : B) (o : Fetched A) (cmds lines : List Text) (f : A → Talk B)
    → ((a : A) → (f a lines).outcome ≢ fetched b)
    → (go_on o cmds lines f).outcome ≢ fetched b
go_on-never b (fetched a) cmds lines f h = h a
go_on-never b key_error cmds lines f h = λ e. cc
go_on-never b index_error cmds lines f h = λ e. cc
go_on-never b assertion_error cmds lines f h = λ e. cc
go_on-never b (failed w) cmds lines f h = λ e. cc

never :
    {A B : Type 0} (b : B) (m : Talk A) (f : A → Talk B) (lines : List Text)
    → ((a : A) → (f a (m lines).left).outcome ≢ fetched b)
    → ((m >>= f) lines).outcome ≢ fetched b
never b m f lines h = go_on-never b (m lines).outcome (m lines).written (m lines).left f h

-- Data that ends before the second structure fails a test.
check_oob-short :
    (a b : ℕ) (lines : List Text) → (check_oob (a ∷ b ∷ []) lines).outcome ≢ fetched tt
unfolding check_oob check_header
check_oob-short a b lines = elim (Bool-cases (a == 8)) [
  | inr e ↦ rw e (λ f. cc)
  | inl e ↦ elim (Bool-cases (b == 0x1b)) [
    | inl f ↦ rw (e, f) (λ g. cc)
    | inr f ↦ rw (e, f) (λ g. cc)
  ]
]

check_oob-single : (a : ℕ) (lines : List Text) → (check_oob (a ∷ []) lines).outcome ≢ fetched tt
unfolding check_oob check_header
check_oob-single a lines = elim (Bool-cases (a == 8)) [
  | inl e ↦ rw e (λ f. cc)
  | inr e ↦ rw e (λ f. cc)
]

-- Nor does one whose first part never returns.
go_on-fails :
    {A B : Type 0} (b : B) (o : Fetched A) (cmds lines : List Text) (f : A → Talk B)
    → ((a : A) → o ≢ fetched a)
    → (go_on o cmds lines f).outcome ≢ fetched b
go_on-fails b (fetched a) cmds lines f h = absurd (h a refl)
go_on-fails b key_error cmds lines f h = λ e. cc
go_on-fails b index_error cmds lines f h = λ e. cc
go_on-fails b assertion_error cmds lines f h = λ e. cc
go_on-fails b (failed w) cmds lines f h = λ e. cc

module _ (oob : OobDict) where
  show_oob-raises :
      (a b c : ℕ) (s : Text) (lines : List Text)
      → (show_oob (a ∷ b ∷ c ∷ s) lines).outcome ≢ fetched oob
  unfolding show_oob join_hex
  show_oob-raises a b c s lines = λ e. cc

  failed_check :
      (data' : Text) (lines : List Text)
      → (check_oob data' lines).outcome ≢ fetched tt
      → (decode_oob data' lines).outcome ≢ fetched oob
  unfolding decode_oob
  failed_check data' lines h =
      go_on-fails oob (check_oob data' lines).outcome (check_oob data' lines).written
        (check_oob data' lines).left (λ u. show_oob data') (λ u. h)

  decode_oob-raises :
      (data' : Text) (lines : List Text) → (decode_oob data' lines).outcome ≢ fetched oob
  unfolding decode_oob check_oob check_header
  decode_oob-raises [] lines = λ e. cc
  decode_oob-raises (a ∷ []) lines = failed_check (a ∷ []) lines (check_oob-single a lines)
  decode_oob-raises (a ∷ b ∷ []) lines = failed_check (a ∷ b ∷ []) lines (check_oob-short a b lines)
  decode_oob-raises (a ∷ b ∷ c ∷ s) lines =
      never oob (check_oob (a ∷ b ∷ c ∷ s)) (λ u. show_oob (a ∷ b ∷ c ∷ s)) lines
        (λ u. show_oob-raises a b c s (check_oob (a ∷ b ∷ c ∷ s) lines).left)

-- `getLocalOOB` never returns a dictionary, whatever lines the helper prints, also where the data of
-- the response is well-formed.
pub get_local_oob-raises :
    (lines : List Text) (oob : OobDict) → (get_local_oob lines).outcome ≢ fetched oob
unfolding get_local_oob
get_local_oob-raises lines oob =
    never oob (expect (codes "oob")) (λ resp. oob_payload resp >>= λ s. decode_oob s) lines
      (λ resp.
        never oob (oob_payload resp) (λ s. decode_oob s) (expect (codes "oob") lines).left
          (λ s. decode_oob-raises oob s (oob_payload resp (expect (codes "oob") lines).left).left))
