-- ===== src/Client/Parse/Plain.antt =====
-- Texts with no special character at all survive the protocol.
use bluepy.Client.Parse.RoundTrip.{IsCleanText}
use bluepy.Client.Parse.Split.{Lacks}
use bluepy.Client.Parse.{strip_head, is_py_space, rstrip}
use bluepy.Common.{arith, false, ◌==◌, refl, ◌≢◌, true, not, ◌≡◌, ◌&&◌, Bool, Text, ℕ, [], ◌∷◌}

abbrev pub is_plain : Text → Bool
is_plain [] = true
is_plain (c ∷ s) = not (c == 0x1e) && (not (c == b'=') && (not (is_py_space c) && is_plain s))

both : (a b : Bool) → (a && b) ≡ true → (a ≡ true) × (b ≡ true)
both true b h = (refl, h)
both false b h = cc

not-true : (b : Bool) → not b ≡ true → b ≡ false
not-true true h = cc
not-true false h = refl

ne_of : (c d : ℕ) → not (c == d) ≡ true → c ≢ d
ne_of c d h = ground arith

-- The first character, and the rest.
plain-parts :
    (c : ℕ) (s : Text)
    → is_plain (c ∷ s) ≡ true
    → (c ≢ 0x1e) × (c ≢ b'=') × (is_py_space c ≡ false) × (is_plain s ≡ true)
plain-parts c s h =
    let (d, h1) = both _ _ h in
    let (e, h2) = both _ _ h1 in
    let (p, h3) = both _ _ h2 in (ne_of c 0x1e d, ne_of c b'=' e, not-true (is_py_space c) p, h3)

plain-Lacks_delim : (s : Text) → is_plain s ≡ true → Lacks 0x1e s
plain-Lacks_delim [] h = tt
plain-Lacks_delim (c ∷ s) h =
    let (d, e, p, rest) = plain-parts c s h in (d, plain-Lacks_delim s rest)

plain-Lacks_equals : (s : Text) → is_plain s ≡ true → Lacks b'=' s
plain-Lacks_equals [] h = tt
plain-Lacks_equals (c ∷ s) h =
    let (d, e, p, rest) = plain-parts c s h in (e, plain-Lacks_equals s rest)

strip_head-plain : (c : ℕ) (s : Text) → is_py_space c ≡ false → strip_head c s ≡ c ∷ s
strip_head-plain c [] p = rw p refl
strip_head-plain c (d ∷ s) p = refl

rstrip-plain : (s : Text) → is_plain s ≡ true → rstrip s ≡ s
unfolding rstrip
rstrip-plain [] h = refl
rstrip-plain (c ∷ s) h =
    let (d, e, p, rest) = plain-parts c s h in rw (rstrip-plain s rest) (strip_head-plain c s p)

pub plain-IsCleanText : (s : Text) → is_plain s ≡ true → IsCleanText s
plain-IsCleanText s h = record {
  no_delim = plain-Lacks_delim s h;
  no_equals = plain-Lacks_equals s h;
  stripped = rstrip-plain s h;
}
