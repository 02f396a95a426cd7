-- ===== src/Table/Marks.antt =====
-- A change of a place of the arrays of src/routingTable.c that leaves routingTable[i] alone.
use rn_praktikum.Base.{
  ℕ, zero, suc, ◌≡◌, ◌≢◌, refl, ap, inl, inr, List, [], ◌∷◌, ◌∙◌, arith, length, get_elem?,
  Option-cases,
}
use rn_praktikum.Table.{Slot, Table, scanned}
use rn_praktikum.Table.Lookup.{lookup_from}
use rn_praktikum.Table.Count.{used_from}
use rn_praktikum.Table.Distinct.{distinct_from}
use rn_praktikum.Table.Front.{front_only-change_at}
use rn_praktikum.Table.Update.{change_at}
use rn_praktikum.Table.Invariant.{IsValid}

module _ (f : Slot → Slot) (same : (s : Slot) → (f s).entry ≡ s.entry) where
  pub lookup_from-change_at :
      (n i : ℕ) (slots : List Slot) (x : List ℕ)
      → lookup_from n (change_at i f slots) x ≡ lookup_from n slots x
  unfolding lookup_from change_at
  lookup_from-change_at zero i slots x = refl
  lookup_from-change_at (suc n) i [] x = refl
  lookup_from-change_at (suc n) zero (s ∷ slots) x = ground (arith, same s)
  lookup_from-change_at (suc n) (suc i) (s ∷ slots) x =
      ground (arith, lookup_from-change_at n i slots x)

  used_from-change_at :
      (n i : ℕ) (slots : List Slot) → used_from n (change_at i f slots) ≡ used_from n slots
  unfolding used_from change_at
  used_from-change_at zero i slots = refl
  used_from-change_at (suc n) i [] = refl
  used_from-change_at (suc n) zero (s ∷ slots) = ground (arith, same s)
  used_from-change_at (suc n) (suc i) (s ∷ slots) = ground (arith, used_from-change_at n i slots)

  distinct_from-change_at :
      (n i : ℕ) (slots : List Slot) → distinct_from n (change_at i f slots) ≡ distinct_from n slots
  unfolding distinct_from change_at
  distinct_from-change_at zero i slots = refl
  distinct_from-change_at (suc n) i [] = refl
  distinct_from-change_at (suc n) zero (s ∷ slots) = ground (arith, same s)
  distinct_from-change_at (suc n) (suc i) (s ∷ slots) = elim (Option-cases s.entry) [
    | inl p ↦ ground (arith, distinct_from-change_at n i slots)
    | inr (e, p) ↦
        ground
          (arith, distinct_from-change_at n i slots, lookup_from-change_at n i slots e.chat_name)
  ]

  length-change_at : (i : ℕ) (slots : List Slot) → length (change_at i f slots) ≡ length slots
  unfolding change_at
  length-change_at i [] = refl
  length-change_at zero (s ∷ slots) = refl
  length-change_at (suc i) (s ∷ slots) = ap suc (length-change_at i slots)

  pub change_at-IsValid :
      (i : ℕ) (t : Table) → IsValid t → IsValid (record t { slots = change_at i f t.slots })
  change_at-IsValid i t v = record {
    places = length-change_at i t.slots ∙ v.places;
    accounted = omega (arith, used_from-change_at scanned i t.slots, v.accounted);
    distinct = distinct_from-change_at scanned i t.slots ∙ v.distinct;
    front = front_only-change_at f same scanned i t.slots ∙ v.front;
  }

pub get_elem?-change_at :
    (f : Slot → Slot) (i j : ℕ) (slots : List Slot)
    → i ≢ j
    → get_elem? (change_at i f slots) j ≡ get_elem? slots j
unfolding change_at
get_elem?-change_at f i j [] h = refl
get_elem?-change_at f zero zero (s ∷ slots) h = absurd (h refl)
get_elem?-change_at f zero (suc j) (s ∷ slots) h = refl
get_elem?-change_at f (suc i) zero (s ∷ slots) h = refl
get_elem?-change_at f (suc i) (suc j) (s ∷ slots) h =
    get_elem?-change_at f i j slots (λ e. h (ap suc e))
