-- ===== src/Table/Count.antt =====
-- How many of the scanned places hold an entry, through the changes of src/routingTable.c.
use rn_praktikum.Base.{
  ℕ, zero, suc, ◌+◌, ◌≤◌, ◌<◌, ◌≡◌, refl, inl, inr, List, [], ◌∷◌, none, some, arith, length,
  Option-cases,
}
use rn_praktikum.Table.{Entry, Slot, Mutex, unlock}
use rn_praktikum.Table.Lookup.{adjust_from}
use rn_praktikum.Table.Update.{insert_from}
use rn_praktikum.Table.Delete.{delete_from}

-- The places among the first `n` that hold an entry.
unfoldable pub used_from : ℕ → List Slot → ℕ
used_from zero slots = 0
used_from (suc n) [] = 0
used_from (suc n) (s ∷ slots) =
    let rest = used_from n slots in elim s.entry [ none ↦ rest | some _ ↦ suc rest ]

pub used_from-le : (n : ℕ) (slots : List Slot) → used_from n slots ≤ n
unfolding used_from
used_from-le zero slots = omega arith
used_from-le (suc n) [] = omega arith
used_from-le (suc n) (s ∷ slots) = ground (arith, used_from-le n slots)

-- An entry is put in while one of the places is free.
pub insert_from-total :
    (n : ℕ) (e : Entry) (r : List ℕ) (slots : List Slot)
    → n ≤ length slots
    → used_from n slots < n
    → (slots' : List Slot) × (insert_from n e r slots ≡ some slots')
unfolding insert_from used_from
insert_from-total zero e r slots h k = absurd (omega arith)
insert_from-total (suc n) e r [] h k = absurd (omega arith)
insert_from-total (suc n) e r (s ∷ slots) h k = elim (Option-cases s.entry) [
  | inl p ↦ (record { entry = some e; name = r; reachable = 1 } ∷ slots, ground arith)
  | inr (x, p) ↦
      let (rest, q) = insert_from-total n e r slots (omega arith) (ground arith) in
      (s ∷ rest, ground arith)
]

-- None is put in when all are taken.
pub insert_from-full :
    (n : ℕ) (e : Entry) (r : List ℕ) (slots : List Slot)
    → used_from n slots ≡ n
    → insert_from n e r slots ≡ none
unfolding insert_from used_from
insert_from-full zero e r slots h = refl
insert_from-full (suc n) e r [] h = refl
insert_from-full (suc n) e r (s ∷ slots) h =
    ground (arith, insert_from-full n e r slots, used_from-le n slots)

pub used_from-insert :
    (n : ℕ) (e : Entry) (r : List ℕ) (slots slots' : List Slot)
    → insert_from n e r slots ≡ some slots'
    → (used_from n slots' ≡ suc (used_from n slots)) × (length slots' ≡ length slots)
unfolding insert_from used_from
used_from-insert zero e r slots slots' h = cc
used_from-insert (suc n) e r [] slots' h = cc
used_from-insert (suc n) e r (s ∷ slots) slots' h = elim (Option-cases s.entry) [
  | inl p ↦ ground arith
  | inr (x, p) ↦ elim (Option-cases (insert_from n e r slots)) [
    | inl z ↦ ground arith
    | inr (rest, z) ↦ ground (arith, used_from-insert n e r slots rest z)
  ]
]

module _ (f : Slot → Slot) (g : Entry → Entry)
    (fg : (s : Slot) (e : Entry) → s.entry ≡ some e → (f s).entry ≡ some (g e))
    (name : List ℕ) where
  pub used_from-adjust :
      (n : ℕ) (slots : List Slot)
      → (used_from n (adjust_from f name n slots) ≡ used_from n slots)
        × (length (adjust_from f name n slots) ≡ length slots)
  unfolding adjust_from used_from
  used_from-adjust zero slots = (refl, refl)
  used_from-adjust (suc n) [] = (refl, refl)
  used_from-adjust (suc n) (s ∷ slots) = elim (Option-cases s.entry) [
    | inl p ↦ ground (arith, used_from-adjust n slots)
    | inr (x, p) ↦ ground (arith, fg s x p, used_from-adjust n slots)
  ]

-- Every entry that a deletion removes is one more free place.
pub used_from-delete :
    (n : ℕ) (name : List ℕ) (slots : List Slot) (free : ℕ) (m : Mutex)
    → let t = delete_from n name slots free m in
      (t.free_entries + used_from n t.slots ≡ free + used_from n slots)
      × (length t.slots ≡ length slots)
unfolding delete_from used_from
used_from-delete zero name slots free m = (refl, refl)
used_from-delete (suc n) name [] free m = (refl, refl)
used_from-delete (suc n) name (s ∷ slots) free m = ground (
  arith,
  used_from-delete n name slots (suc free) (unlock m),
  used_from-delete n name slots free m,
)
