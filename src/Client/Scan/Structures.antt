-- ===== src/Client/Scan/Structures.antt =====
-- The structures of advertising data, as they are laid out in bytes and read back.
use bluepy.Client.Scan.{has_item, set_item, ScanData, update_data}
use bluepy.Common.{
  length-drop, take-append, drop-append, sym, ◌∙◌, true, length-append, zero, append_assoc, not,
  arith, refl, suc, ◌<◌, ◌+◌, ◌≤◌, ◌++◌, false, length, ◌≡◌, drop, ◌||◌, take, ℕ, Text, Bool, List,
  [], ◌∷◌,
}

-- A structure: its type and its bytes, behind the length of both.
abbrev pub lay_out : List (ℕ × Text) → Text
lay_out [] = []
lay_out ((sdid, val) ∷ items) = (length val + 1) ∷ sdid ∷ (val ++ lay_out items)

-- The dictionary after all items, in their order.
abbrev pub set_items : List (ℕ × Text) → ScanData → ScanData
set_items [] scan_data = scan_data
set_items ((sdid, val) ∷ items) scan_data = set_items items (set_item sdid val scan_data)

-- One of the items is not what the dictionary has when it is its turn.
abbrev pub news : List (ℕ × Text) → ScanData → Bool
news [] scan_data = false
news ((sdid, val) ∷ items) scan_data =
    not (has_item sdid val scan_data) || news items (set_item sdid val scan_data)

or_shift : (a b c : Bool) → (b || (a || c)) ≡ ((a || b) || c)
or_shift true true c = refl
or_shift true false c = refl
or_shift false b c = refl

two_more : (n : ℕ) → n + 1 + 1 ≡ suc (suc n)
two_more n = omega arith

-- `data[2 : sdlen + 1]` and `data[sdlen + 1 :]`
slice-value :
    (sdid : ℕ) (val t : Text)
    → drop 2 (take (length val + 1 + 1) ((length val + 1) ∷ sdid ∷ (val ++ t))) ≡ val
slice-value sdid val t = rw (two_more (length val)) (take-append val t)

slice-rest :
    (sdid : ℕ) (val t : Text) → drop (length val + 1 + 1) ((length val + 1) ∷ sdid ∷ (val ++ t)) ≡ t
slice-rest sdid val t = rw (two_more (length val)) (drop-append val t)

update_data-structure :
    (fuel sdid : ℕ) (val t : Text) (scan_data : ScanData) (is_new : Bool)
    → update_data (suc fuel) ((length val + 1) ∷ sdid ∷ (val ++ t)) scan_data is_new
      ≡ update_data fuel t
          (set_item sdid val scan_data)
          (not (has_item sdid val scan_data) || is_new)
unfolding update_data
update_data-structure fuel sdid val t scan_data is_new =
    rw (update_data, slice-value sdid val t, slice-rest sdid val t) refl

update_data-end :
    (fuel : ℕ) (rest : Text) (scan_data : ScanData) (is_new : Bool)
    → length rest < 2
    → update_data fuel rest scan_data is_new ≡ (scan_data, is_new)
unfolding update_data
update_data-end zero rest scan_data is_new h = refl
update_data-end (suc fuel) [] scan_data is_new h = refl
update_data-end (suc fuel) (c ∷ []) scan_data is_new h = refl
update_data-end (suc fuel) (c ∷ d ∷ rest) scan_data is_new h = absurd (omega arith)

-- Structures that are laid out one behind the other, and at most one byte behind them, are all read
-- back: `set_item` has been done for each of them in its order, and there is new data if `has_item`
-- denied one of them when its turn came.
pub update_data-lay_out :
    (fuel : ℕ) (items : List (ℕ × Text)) (rest : Text) (scan_data : ScanData) (is_new : Bool)
    → length (lay_out items) ≤ fuel
    → length rest < 2
    → update_data fuel (lay_out items ++ rest) scan_data is_new
      ≡ (set_items items scan_data, (news items scan_data || is_new))
unfolding update_data
update_data-lay_out fuel [] rest scan_data is_new h r = update_data-end fuel rest scan_data is_new r
update_data-lay_out zero ((sdid, val) ∷ items) rest scan_data is_new h r = absurd (omega arith)
update_data-lay_out (suc fuel) ((sdid, val) ∷ items) rest scan_data is_new h r = rw (
  append_assoc val (lay_out items) rest,
  update_data-structure fuel sdid val (lay_out items ++ rest) scan_data is_new,
  update_data-lay_out fuel items rest (set_item sdid val scan_data)
      (not (has_item sdid val scan_data) || is_new)
      (omega (arith, length-append val (lay_out items))) r,
  or_shift,
)

length-drop_suc : (n c : ℕ) (s : Text) → length (drop (n + 1) (c ∷ s)) ≤ length s
length-drop_suc n c s = let e : n + 1 ≡ suc n = omega arith in rw e (omega (arith, length-drop n s))

-- As much fuel as there are bytes is enough for any data, also for structures whose length is 0 or
-- more than is left: more fuel changes nothing.
pub update_data-fuel :
    (f g : ℕ) (data' : Text) (scan_data : ScanData) (is_new : Bool)
    → length data' ≤ f
    → length data' ≤ g
    → update_data f data' scan_data is_new ≡ update_data g data' scan_data is_new
unfolding update_data
update_data-fuel f g [] scan_data is_new h k =
    update_data-end f [] scan_data is_new (omega arith)
    ∙ sym (update_data-end g [] scan_data is_new (omega arith))
update_data-fuel f g (c ∷ []) scan_data is_new h k =
    update_data-end f (c ∷ []) scan_data is_new (omega arith)
    ∙ sym (update_data-end g (c ∷ []) scan_data is_new (omega arith))
update_data-fuel zero g (c ∷ d ∷ s) scan_data is_new h k = absurd (omega arith)
update_data-fuel (suc f) zero (c ∷ d ∷ s) scan_data is_new h k = absurd (omega arith)
update_data-fuel (suc f) (suc g) (c ∷ d ∷ s) scan_data is_new h k =
    update_data-fuel f g (drop (c + 1) (c ∷ d ∷ s)) _ _ (omega (arith, length-drop_suc c c (d ∷ s)))
      (omega (arith, length-drop_suc c c (d ∷ s)))
