-- ===== src/Client/Lookup.antt =====
-- What is under a tag in the dictionary of a response: the values of the fields with that tag.
use bluepy.Common.Hex.Digits.{All}
use bluepy.Client.Parse.RoundTrip.{parse_resp-encode, IsCleanField, decode, collect}
use bluepy.Protocol.Wire.{encode, Field}
use bluepy.Client.Wait.{lookup}
use bluepy.Client.Parse.{ok, parse_resp, Resp, PyValue, add_value}
use bluepy.Common.{
  append_assoc, inr, arith, false, inl, refl, append-nil, Bool-cases, true, if◌then◌else◌, ◌≡◌,
  ◌++◌, ◌&&◌, same_text, List, ◌==◌, ℕ, Text, Bool, [], ◌∷◌,
}

pub same_text_refl : (s : Text) → same_text s s ≡ true
same_text_refl [] = refl
same_text_refl (c ∷ s) = rw (same_text_refl s) (ground arith)

cons-same :
    (c d : ℕ) (s t : Text) → (c == d && same_text s t) ≡ true → (c ≡ d) × (same_text s t ≡ true)
cons-same c d s t h = elim (Bool-cases (c == d)) [
  | inl e ↦ (ground arith, rw e at h)
  | inr e ↦ let absurd_eq : false ≡ true = rw e at h in cc
]

pub same_text→eq : (s t : Text) → same_text s t ≡ true → s ≡ t
same_text→eq [] [] h = refl
same_text→eq [] (c ∷ t) h = cc
same_text→eq (c ∷ s) [] h = cc
same_text→eq (c ∷ s) (d ∷ t) h =
    let (e, rest) = cons-same c d s t h in rw (e, same_text→eq s t rest)

-- The values of the fields that have the tag, in their order.
abbrev pub values_of : Text → List Field → List PyValue
values_of tag [] = []
values_of tag (f ∷ fs) =
    if same_text f.tag tag then decode f.value ∷ values_of tag fs else values_of tag fs

-- `lookup` in a dictionary that a value has been added to.
abbrev with_value : Bool → List PyValue → PyValue → List PyValue
with_value true vals val = vals ++ (val ∷ [])
with_value false vals val = vals

lookup-add_value :
    (t tag : Text) (val : PyValue) (resp : Resp)
    → lookup t (add_value tag val resp) ≡ with_value (same_text tag t) (lookup t resp) val
unfolding add_value lookup
lookup-add_value t tag val [] = elim (Bool-cases (same_text tag t)) [
  | inl e ↦ rw e refl
  | inr e ↦ rw e refl
]
lookup-add_value t tag val ((k, vals) ∷ resp) = elim (Bool-cases (same_text k tag)) [
  | inl e ↦
      let same = same_text→eq k tag e in
      elim (Bool-cases (same_text tag t)) [
        | inl f ↦ rw (e, same, f) refl
        | inr f ↦ rw (e, same, f) refl
      ]
  | inr e ↦ elim (Bool-cases (same_text k t)) [
    | inl f ↦
        let same = same_text→eq k t f in
        elim (Bool-cases (same_text tag t)) [
          | inl g ↦
              let back : same_text t tag ≡ true = rw (same_text→eq tag t g) (same_text_refl t) in cc
          | inr g ↦ rw (e, f, g) refl
        ]
    | inr f ↦ rw (e, f) (lookup-add_value t tag val resp)
  ]
]

pub lookup-collect :
    (t : Text) (fs : List Field) (resp : Resp)
    → lookup t (collect fs resp) ≡ lookup t resp ++ values_of t fs
lookup-collect t [] resp = rw append-nil
lookup-collect t (f ∷ fs) resp = elim (Bool-cases (same_text f.tag t)) [
  | inl e ↦
      rw
        (
          lookup-collect t fs (add_value f.tag (decode f.value) resp),
          lookup-add_value t f.tag (decode f.value) resp,
          e,
        )
        (append_assoc (lookup t resp) (decode f.value ∷ []) (values_of t fs))
  | inr e ↦ rw (
    lookup-collect t fs (add_value f.tag (decode f.value) resp),
    lookup-add_value t f.tag (decode f.value) resp,
    e,
  )
]

-- A line of fields whose texts have no delimiter, no equals sign and no white space at their end,
-- whose numbers are below 2^32 and whose bytes are below 256 is parsed into a dictionary that has
-- under each tag the values of all the fields with that tag, in their order, and nothing under a tag
-- that no field has.
pub parse_resp-finds :
    (f : Field) (fs : List Field)
    → IsCleanField f
    → All IsCleanField fs
    → (resp : Resp) × (parse_resp (encode f fs ++ 10 ∷ []) ≡ ok resp)
      × ((tag : Text) → lookup tag resp ≡ values_of tag (f ∷ fs))
unfolding lookup
parse_resp-finds f fs h hs =
    (collect (f ∷ fs) [], parse_resp-encode f fs h hs, λ tag. lookup-collect tag (f ∷ fs) [])
