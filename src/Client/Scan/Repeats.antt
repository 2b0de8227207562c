-- ===== src/Client/Scan/Repeats.antt =====
-- Advertising data that is repeated is not new.
use bluepy.Client.Lookup.{same_text→eq, same_text_refl}
use bluepy.Client.Scan.Structures.{update_data-lay_out, lay_out, news, set_items}
use bluepy.Client.Scan.{update_data, ScanData, set_item, has_item}
use bluepy.Common.{
  length-append, ◌≤◌, ◌++◌, inr, refl, inl, arith, Bool-cases, ◌<◌, false, true, length, ◌≡◌, ◌≢◌,
  Text, ◌==◌, ℕ, List, [], ◌∷◌,
}

-- No other item has the type.
abbrev IsFresh : ℕ → List (ℕ × Text) → Type 0
IsFresh k [] = Unit
IsFresh k ((j, v) ∷ items) = (j ≢ k) × IsFresh k items

-- No two structures have one type.
abbrev pub IsDistinct : List (ℕ × Text) → Type 0
IsDistinct [] = Unit
IsDistinct ((k, v) ∷ items) = IsFresh k items × IsDistinct items

-- All items are in the dictionary.
abbrev AllIn : List (ℕ × Text) → ScanData → Type 0
AllIn [] scan_data = Unit
AllIn ((k, v) ∷ items) scan_data = (has_item k v scan_data ≡ true) × AllIn items scan_data

eq_self : (k : ℕ) → (k == k) ≡ true
eq_self k = ground arith

ne-false : (j k : ℕ) → j ≢ k → (j == k) ≡ false
ne-false j k h = ground arith

eq-true : (j k : ℕ) → (j == k) ≡ true → j ≡ k
eq-true j k h = ground arith

has_item-set_item :
    (k : ℕ) (v : Text) (scan_data : ScanData) → has_item k v (set_item k v scan_data) ≡ true
unfolding has_item set_item
has_item-set_item k v [] = rw (eq_self k) (same_text_refl v)
has_item-set_item k v ((j, u) ∷ scan_data) = elim (Bool-cases (j == k)) [
  | inl e ↦ rw (e, e) (same_text_refl v)
  | inr e ↦ rw (e, e) (has_item-set_item k v scan_data)
]

-- Another type is not touched.
has_item-set_other :
    (k j : ℕ) (v u : Text) (scan_data : ScanData)
    → j ≢ k
    → has_item k v scan_data ≡ true
    → has_item k v (set_item j u scan_data) ≡ true
unfolding has_item set_item
has_item-set_other k j v u [] n h = cc
has_item-set_other k j v u ((i, x) ∷ scan_data) n h = elim (Bool-cases (i == j)) [
  | inl e ↦
      let other : (i == k) ≡ false = ne-false i k (rw (eq-true i j e) n) in
      rw (set_item, e, has_item, other) (rw (has_item, other) at h)
  | inr e ↦ elim (Bool-cases (i == k)) [
    | inl f ↦ rw (set_item, e, has_item, f) (rw (has_item, f) at h)
    | inr f ↦
        rw (set_item, e, has_item, f)
          (has_item-set_other k j v u scan_data n (rw (has_item, f) at h))
  ]
]

has_item-set_items :
    (k : ℕ) (v : Text) (items : List (ℕ × Text)) (scan_data : ScanData)
    → IsFresh k items
    → has_item k v scan_data ≡ true
    → has_item k v (set_items items scan_data) ≡ true
has_item-set_items k v [] scan_data f h = h
has_item-set_items k v ((j, u) ∷ items) scan_data (n, f) h =
    has_item-set_items k v items (set_item j u scan_data) f
      (has_item-set_other k j v u scan_data n h)

set_items-AllIn :
    (items : List (ℕ × Text)) (scan_data : ScanData)
    → IsDistinct items
    → AllIn items (set_items items scan_data)
set_items-AllIn [] scan_data d = tt
set_items-AllIn ((k, v) ∷ items) scan_data (f, d) = (
  has_item-set_items k v items (set_item k v scan_data) f (has_item-set_item k v scan_data),
  set_items-AllIn items (set_item k v scan_data) d,
)

-- To set what is there changes nothing.
set_item-same :
    (k : ℕ) (v : Text) (scan_data : ScanData)
    → has_item k v scan_data ≡ true
    → set_item k v scan_data ≡ scan_data
unfolding has_item set_item
set_item-same k v [] h = cc
set_item-same k v ((j, u) ∷ scan_data) h = elim (Bool-cases (j == k)) [
  | inl e ↦ let same : v ≡ u = same_text→eq v u (rw (has_item, e) at h) in rw (set_item, e, same)
  | inr e ↦ rw (set_item, e, set_item-same k v scan_data (rw (has_item, e) at h))
]

known-AllIn :
    (items : List (ℕ × Text)) (scan_data : ScanData)
    → AllIn items scan_data
    → (set_items items scan_data ≡ scan_data) × (news items scan_data ≡ false)
known-AllIn [] scan_data h = (refl, refl)
known-AllIn ((k, v) ∷ items) scan_data (h, hs) =
    let (s, n) = known-AllIn items scan_data hs in
    (rw (set_item-same k v scan_data h) s, rw (h, set_item-same k v scan_data h) n)

-- When advertising data, of structures with different types and at most one byte behind them, is
-- taken a second time, the dictionary stays as the first time left it, and nothing counts as new.
pub update_data-repeated :
    (items : List (ℕ × Text)) (rest : Text) (scan_data : ScanData)
    → IsDistinct items
    → length rest < 2
    → (let data' = lay_out items ++ rest in
        let once = update_data (length data') data' scan_data false in
        update_data (length data') data' once.0 false ≡ (once.0, false))
update_data-repeated items rest scan_data d r =
    let data' = lay_out items ++ rest in
    let enough : length (lay_out items) ≤ length data' =
      omega (arith, length-append (lay_out items) rest) in
    let (s, n) =
      known-AllIn items (set_items items scan_data) (set_items-AllIn items scan_data d) in
    rw
      (
        update_data-lay_out (length data') items rest scan_data false enough r,
        update_data-lay_out (length data') items rest (set_items items scan_data) false enough r,
        s,
        n,
      )
      refl
