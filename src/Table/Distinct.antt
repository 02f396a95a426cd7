-- ===== src/Table/Distinct.antt =====
-- No two of the scanned places hold entries with equal names, through the changes of
-- src/routingTable.c.
use rn_praktikum.Base.{
  ℕ, zero, suc, ◌≡◌, refl, ◌∙◌, inl, inr, List, [], ◌∷◌, Option, none, some, Bool, true, false,
  ◌&&◌, arith, Option-cases, str_eq, str_eq_sym,
}
use rn_praktikum.Table.{Entry, Slot, Mutex, unlock}
use rn_praktikum.Table.Lookup.{lookup_from, adjust_from}
use rn_praktikum.Table.Places.{lookup_from-insert_other}
use rn_praktikum.Table.Update.{insert_from}
use rn_praktikum.Table.Delete.{delete_from}

abbrev pub is_none : Option Entry → Bool
is_none none = true
is_none (some e) = false

unfoldable pub distinct_from : ℕ → List Slot → Bool
unfolding lookup_from
distinct_from zero slots = true
distinct_from (suc n) [] = true
distinct_from (suc n) (s ∷ slots) =
    let rest = distinct_from n slots in
    elim s.entry [ none ↦ rest | some e ↦ is_none (lookup_from n slots e.chat_name) && rest ]

abbrev pub Distinct : ℕ → List Slot → Type 0
Distinct n slots = distinct_from n slots ≡ true

-- What a search that finds nothing says of the first place.
lookup_from-none :
    (n : ℕ) (s : Slot) (slots : List Slot) (name : List ℕ) {e : Entry}
    → lookup_from (suc n) (s ∷ slots) name ≡ none
    → s.entry ≡ some e
    → (str_eq e.chat_name name ≡ false) × (lookup_from n slots name ≡ none)
unfolding lookup_from
lookup_from-none n s slots name h p = ground arith

lookup_from-insert_none :
    (n : ℕ) (e : Entry) (r name : List ℕ) (slots slots' : List Slot)
    → insert_from n e r slots ≡ some slots'
    → str_eq e.chat_name name ≡ false
    → lookup_from n slots name ≡ none
    → lookup_from n slots' name ≡ none
lookup_from-insert_none n e r name slots slots' h d k =
    lookup_from-insert_other n e r name slots slots' h d ∙ k

pub insert_from-Distinct :
    (n : ℕ) (e : Entry) (r : List ℕ) (slots slots' : List Slot)
    → insert_from n e r slots ≡ some slots'
    → lookup_from n slots e.chat_name ≡ none
    → Distinct n slots
    → Distinct n slots'
unfolding insert_from distinct_from
insert_from-Distinct zero e r slots slots' h k d = refl
insert_from-Distinct (suc n) e r [] slots' h k d = cc
insert_from-Distinct (suc n) e r (s ∷ slots) slots' h k d = elim (Option-cases s.entry) [
  | inl p ↦ ground arith
  | inr (x, p) ↦ elim (Option-cases (insert_from n e r slots)) [
    | inl z ↦ ground arith
    | inr (rest, z) ↦ ground (
      arith,
      insert_from-Distinct n e r slots rest z,
      lookup_from-insert_none n e r x.chat_name slots rest z,
      str_eq_sym e.chat_name x.chat_name,
    )
  ]
]

module _ (f : Slot → Slot) (g : Entry → Entry)
    (fg : (s : Slot) (e : Entry) → s.entry ≡ some e → (f s).entry ≡ some (g e))
    (keeps : (e : Entry) → (g e).chat_name ≡ e.chat_name) (name : List ℕ) where
  lookup_from-adjust_none :
      (other : List ℕ) (n : ℕ) (slots : List Slot)
      → lookup_from n slots other ≡ none
      → lookup_from n (adjust_from f name n slots) other ≡ none
  unfolding adjust_from lookup_from
  lookup_from-adjust_none other zero slots h = refl
  lookup_from-adjust_none other (suc n) [] h = refl
  lookup_from-adjust_none other (suc n) (s ∷ slots) h = elim (Option-cases s.entry) [
    | inl p ↦ ground (arith, lookup_from-adjust_none other n slots)
    | inr (x, p) ↦ ground (arith, fg s x p, keeps x, lookup_from-adjust_none other n slots)
  ]

  pub adjust_from-Distinct :
      (n : ℕ) (slots : List Slot) → Distinct n slots → Distinct n (adjust_from f name n slots)
  unfolding adjust_from distinct_from
  adjust_from-Distinct zero slots d = refl
  adjust_from-Distinct (suc n) [] d = refl
  adjust_from-Distinct (suc n) (s ∷ slots) d = elim (Option-cases s.entry) [
    | inl p ↦ ground (arith, adjust_from-Distinct n slots)
    | inr (x, p) ↦ ground (
      arith,
      adjust_from-Distinct n slots,
      fg s x p,
      keeps x,
      lookup_from-adjust_none x.chat_name n slots,
    )
  ]

pub lookup_from-delete_none :
    (other : List ℕ) (n : ℕ) (name : List ℕ) (slots : List Slot) (free : ℕ) (m : Mutex)
    → lookup_from n slots other ≡ none
    → lookup_from n (delete_from n name slots free m).slots other ≡ none
unfolding delete_from lookup_from
lookup_from-delete_none other zero name slots free m h = refl
lookup_from-delete_none other (suc n) name [] free m h = refl
lookup_from-delete_none other (suc n) name (s ∷ slots) free m h = ground (
  arith,
  lookup_from-delete_none other n name slots (suc free) (unlock m),
  lookup_from-delete_none other n name slots free m,
)

pub delete_from-Distinct :
    (n : ℕ) (name : List ℕ) (slots : List Slot) (free : ℕ) (m : Mutex)
    → Distinct n slots
    → Distinct n (delete_from n name slots free m).slots
unfolding delete_from distinct_from
delete_from-Distinct zero name slots free m d = refl
delete_from-Distinct (suc n) name [] free m d = refl
delete_from-Distinct (suc n) name (s ∷ slots) free m d = elim (Option-cases s.entry) [
  | inl p ↦ ground (arith, delete_from-Distinct n name slots free m)
  | inr (x, p) ↦ ground (
    arith,
    delete_from-Distinct n name slots (suc free) (unlock m),
    delete_from-Distinct n name slots free m,
    lookup_from-delete_none x.chat_name n name slots (suc free) (unlock m),
    lookup_from-delete_none x.chat_name n name slots free m,
  )
]
