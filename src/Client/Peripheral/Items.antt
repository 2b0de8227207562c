-- ===== src/Client/Peripheral/Items.antt =====
-- Responses that list items: the values under one tag, and that the protocol can carry them.
use bluepy.Gatt.Lines.{all_fields}
use bluepy.Client.Lookup.{values_of}
use bluepy.Client.Parse.RoundTrip.{IsCleanField}
use bluepy.Client.Parse.{PyValue}
use bluepy.Common.Hex.Digits.{All-append, All}
use bluepy.Protocol.Wire.{Field}
use bluepy.Common.{refl, ap, map, append_assoc, ◌≡◌, ◌++◌, Text, List, [], ◌∷◌}

module _ {A : Type 0} (fields : A → List Field) where
  -- The values under a tag that each item has once.
  pub values_of-all :
      (tag : Text) (value : A → PyValue) (xs : List A)
      → ((x : A) (rest : List Field)
          → values_of tag (fields x ++ rest) ≡ value x ∷ values_of tag rest)
      → values_of tag (all_fields fields xs ++ []) ≡ map value xs
  values_of-all tag value [] once = refl
  values_of-all tag value (x ∷ xs) once =
      rw (append_assoc (fields x) (all_fields fields xs) [], once x (all_fields fields xs ++ []))
        (ap (λ vs. value x ∷ vs) (values_of-all tag value xs once))

  pub all_fields-IsCleanField :
      (IsClean : A → Type 0) (xs : List A)
      → ((x : A) → IsClean x → All IsCleanField (fields x))
      → All IsClean xs
      → All IsCleanField (all_fields fields xs ++ [])
  all_fields-IsCleanField IsClean [] clean h = tt
  all_fields-IsCleanField IsClean (x ∷ xs) clean (h, hs) =
      rw (append_assoc (fields x) (all_fields fields xs) []) (
        All-append IsCleanField (fields x) _ (clean x h)
          (all_fields-IsCleanField IsClean xs clean hs))
