-- ===== src/Client/Scan/Dictionary.antt =====
-- The data of a device as a function from the type of a structure to its bytes.
use bluepy.Client.Scan.Structures.{update_data-lay_out, lay_out, set_items, news}
use bluepy.Client.Scan.Values.{get_item}
use bluepy.Client.Scan.{update_data, has_item, set_item, ScanData}
use bluepy.Common.{
  ◌++◌, ◌<◌, none, inr, ◌||◌, ◌≤◌, same_text, inl, some, ◌∙◌, Bool-cases, not, true, arith, refl,
  length, ◌≡◌, false, if◌then◌else◌, ◌==◌, Text, Bool, ℕ, Option, List, [], ◌∷◌,
}

-- What is known under each type.
abbrev pub Known : Type 0
Known = ℕ → Option Text

-- The same with one type known anew.
abbrev pub learn : Known → ℕ → Text → Known
learn f sdid val k = if sdid == k then some val else f k

abbrev pub learn_all : List (ℕ × Text) → Known → Known
learn_all [] f = f
learn_all ((sdid, val) ∷ items) f = learn_all items (learn f sdid val)

-- That value is known.
abbrev pub knows : Option Text → Text → Bool
knows none val = false
knows (some old) val = same_text val old

-- One of the items is not known when it is its turn.
abbrev pub any_news : List (ℕ × Text) → Known → Bool
any_news [] f = false
any_news ((sdid, val) ∷ items) f = not (knows (f sdid) val) || any_news items (learn f sdid val)

abbrev pub known_of : ScanData → Known
known_of scan_data k = get_item k scan_data

has_item-known :
    (sdid : ℕ) (val : Text) (scan_data : ScanData)
    → has_item sdid val scan_data ≡ knows (get_item sdid scan_data) val
unfolding has_item get_item
has_item-known sdid val [] = refl
has_item-known sdid val ((k, v) ∷ scan_data) = elim (Bool-cases (k == sdid)) [
  | inl e ↦ rw e refl
  | inr e ↦ rw e (has_item-known sdid val scan_data)
]

eq-true : (j k : ℕ) → (j == k) ≡ true → j ≡ k
eq-true j k h = ground arith

eq-swap : (j k : ℕ) (b : Bool) → (j == k) ≡ b → (k == j) ≡ b
eq-swap j k true h = ground arith
eq-swap j k false h = ground arith

get_item-set_item :
    (sdid : ℕ) (val : Text) (scan_data : ScanData) (k : ℕ)
    → get_item k (set_item sdid val scan_data) ≡ learn (known_of scan_data) sdid val k
unfolding set_item get_item
get_item-set_item sdid val [] k = refl
get_item-set_item sdid val ((j, v) ∷ scan_data) k = elim (Bool-cases (j == sdid)) [
  | inl e ↦ elim (Bool-cases (sdid == k)) [
    | inl f ↦ let g : (j == k) ≡ true = ground arith in rw (e, f) (rw (get_item, g) refl)
    | inr f ↦ let g : (j == k) ≡ false = ground arith in rw (e, f) (rw (get_item, g) refl)
  ]
  | inr e ↦ elim (Bool-cases (j == k)) [
    | inl f ↦ let g : (sdid == k) ≡ false = ground arith in rw (e, g) (rw (get_item, f) refl)
    | inr f ↦ rw (e, f) (get_item-set_item sdid val scan_data k)
  ]
]

-- Functions that agree are made to agree, and to bring the same news, by the same items.
learn-Agree :
    (f g : Known) (sdid : ℕ) (val : Text)
    → ((k : ℕ) → f k ≡ g k)
    → (k : ℕ) → learn f sdid val k ≡ learn g sdid val k
learn-Agree f g sdid val h k = elim (Bool-cases (sdid == k)) [
  | inl e ↦ rw e refl
  | inr e ↦ rw e (h k)
]

learn_all-Agree :
    (items : List (ℕ × Text)) (f g : Known)
    → ((k : ℕ) → f k ≡ g k)
    → (k : ℕ) → learn_all items f k ≡ learn_all items g k
learn_all-Agree [] f g h k = h k
learn_all-Agree ((sdid, val) ∷ items) f g h k =
    learn_all-Agree items _ _ (learn-Agree f g sdid val h) k

any_news-Agree :
    (items : List (ℕ × Text)) (f g : Known)
    → ((k : ℕ) → f k ≡ g k)
    → any_news items f ≡ any_news items g
any_news-Agree [] f g h = refl
any_news-Agree ((sdid, val) ∷ items) f g h =
    rw (h sdid, any_news-Agree items _ _ (learn-Agree f g sdid val h)) refl

set_items-learn_all :
    (items : List (ℕ × Text)) (scan_data : ScanData) (k : ℕ)
    → get_item k (set_items items scan_data) ≡ learn_all items (known_of scan_data) k
set_items-learn_all [] scan_data k = refl
set_items-learn_all ((sdid, val) ∷ items) scan_data k =
    set_items-learn_all items (set_item sdid val scan_data) k
    ∙ learn_all-Agree items _ _ (get_item-set_item sdid val scan_data) k

news-any_news :
    (items : List (ℕ × Text)) (scan_data : ScanData)
    → news items scan_data ≡ any_news items (known_of scan_data)
news-any_news [] scan_data = refl
news-any_news ((sdid, val) ∷ items) scan_data =
    rw
      (
        has_item-known sdid val scan_data,
        news-any_news items (set_item sdid val scan_data),
        any_news-Agree items _ _ (get_item-set_item sdid val scan_data),
      )
      refl

-- Structures that are laid out one behind the other, and at most one byte behind them, are all read
-- back, with as much fuel as they have bytes or more: afterwards there is under each type the value of
-- the last structure of that type, or what was there before if there is none; and there is new data if
-- there was before, or if one of the structures has another value than was there when its turn came,
-- or a type that was not there.
pub update_data-learns :
    (fuel : ℕ) (items : List (ℕ × Text)) (rest : Text) (scan_data : ScanData) (is_new : Bool)
    → length (lay_out items) ≤ fuel
    → length rest < 2
    → (let taken = update_data fuel (lay_out items ++ rest) scan_data is_new in
        ((sdid : ℕ) → get_item sdid taken.0 ≡ learn_all items (known_of scan_data) sdid)
        × (taken.1 ≡ (any_news items (known_of scan_data) || is_new)))
update_data-learns fuel items rest scan_data is_new enough short =
    rw (update_data-lay_out fuel items rest scan_data is_new enough short)
      (set_items-learn_all items scan_data, rw (news-any_news items scan_data) refl)
