-- ===== src/Table/Front.antt =====
-- The entries of routingTable stand in the places that the loops of src/routingTable.c reach, at
-- the front of the array, through all its changes.
use rn_praktikum.Base.{
  ℕ, zero, suc, ◌≡◌, refl, inl, inr, List, [], ◌∷◌, some, Bool, true, ◌&&◌, arith, Option-cases,
}
use rn_praktikum.Table.{Entry, Slot, Mutex, unlock}
use rn_praktikum.Table.Lookup.{adjust_from}
use rn_praktikum.Table.Distinct.{is_none}
use rn_praktikum.Table.Update.{insert_from, change_at}
use rn_praktikum.Table.Delete.{delete_from}

-- No place holds an entry.
unfoldable pub all_free : List Slot → Bool
all_free [] = true
all_free (s ∷ slots) = is_none s.entry && all_free slots

-- No place behind the first `n` holds an entry.
unfoldable pub front_only : ℕ → List Slot → Bool
unfolding all_free
front_only zero slots = all_free slots
front_only (suc n) [] = true
front_only (suc n) (s ∷ slots) = front_only n slots

pub front_only-insert :
    (n : ℕ) (e : Entry) (r : List ℕ) (slots slots' : List Slot)
    → insert_from n e r slots ≡ some slots'
    → front_only n slots' ≡ front_only n slots
unfolding insert_from front_only
front_only-insert zero e r slots slots' h = cc
front_only-insert (suc n) e r [] slots' h = cc
front_only-insert (suc n) e r (s ∷ slots) slots' h = elim (Option-cases s.entry) [
  | inl p ↦ ground arith
  | inr (x, p) ↦ elim (Option-cases (insert_from n e r slots)) [
    | inl z ↦ ground arith
    | inr (rest, z) ↦ ground (arith, front_only-insert n e r slots rest z)
  ]
]

pub front_only-adjust :
    (f : Slot → Slot) (name : List ℕ) (n : ℕ) (slots : List Slot)
    → front_only n (adjust_from f name n slots) ≡ front_only n slots
unfolding adjust_from front_only
front_only-adjust f name zero slots = refl
front_only-adjust f name (suc n) [] = refl
front_only-adjust f name (suc n) (s ∷ slots) = ground (arith, front_only-adjust f name n slots)

pub front_only-delete :
    (n : ℕ) (name : List ℕ) (slots : List Slot) (free : ℕ) (m : Mutex)
    → front_only n (delete_from n name slots free m).slots ≡ front_only n slots
unfolding delete_from front_only
front_only-delete zero name slots free m = refl
front_only-delete (suc n) name [] free m = refl
front_only-delete (suc n) name (s ∷ slots) free m = ground (
  arith,
  front_only-delete n name slots (suc free) (unlock m),
  front_only-delete n name slots free m,
)

module _ (f : Slot → Slot) (same : (s : Slot) → (f s).entry ≡ s.entry) where
  all_free-change_at : (i : ℕ) (slots : List Slot) → all_free (change_at i f slots) ≡ all_free slots
  unfolding all_free change_at
  all_free-change_at i [] = refl
  all_free-change_at zero (s ∷ slots) = rw (same s) refl
  all_free-change_at (suc i) (s ∷ slots) = rw (all_free-change_at i slots) refl

  pub front_only-change_at :
      (n i : ℕ) (slots : List Slot) → front_only n (change_at i f slots) ≡ front_only n slots
  unfolding front_only change_at
  front_only-change_at zero i slots = all_free-change_at i slots
  front_only-change_at (suc n) i [] = refl
  front_only-change_at (suc n) zero (s ∷ slots) = refl
  front_only-change_at (suc n) (suc i) (s ∷ slots) = front_only-change_at n i slots
