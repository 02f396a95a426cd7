-- ===== src/Node/Back.antt =====
-- What a place of the table held before a change of one place, or before the loop of
-- deleteFromTable (src/routingTable.c), and the place of an entry that the search finds.
use mathlib.Core.Option.{some-injective, none-ne-some}
use mathlib.Core.Path.{subst}
use rn_praktikum.Base.{
  ℕ, zero, suc, ◌≡◌, refl, ap, sym, ◌∙◌, ◌⊎◌, inl, inr, List, [], ◌∷◌, some, true, get_elem?,
  str_eq, Bool-cases,
}
use rn_praktikum.Table.{Entry, Slot, Mutex}
use rn_praktikum.Table.Lookup.{lookup_from, lookup_from-Hit, lookup_from-Miss, Slot-cases}
use rn_praktikum.Table.Update.{change_at}
use rn_praktikum.Table.Delete.{delete_from, leads_to, clear}

-- What a place held before a change of one place, and before a deletion.
pub change_at-back :
    (f : Slot → Slot) (i j : ℕ) (slots : List Slot) (s' : Slot)
    → get_elem? (change_at i f slots) j ≡ some s'
    → (get_elem? slots j ≡ some s')
      ⊎ ((s : Slot) × (i ≡ j) × (get_elem? slots j ≡ some s) × (f s ≡ s'))
unfolding change_at
change_at-back f i j [] s' h = absurd (none-ne-some s' h)
change_at-back f zero zero (s ∷ slots) s' h = inr (s, refl, refl, some-injective _ _ h)
change_at-back f zero (suc j) (s ∷ slots) s' h = inl h
change_at-back f (suc i) zero (s ∷ slots) s' h = inl h
change_at-back f (suc i) (suc j) (s ∷ slots) s' h = elim (change_at-back f i j slots s' h) [
  | inl g ↦ inl g
  | inr (x, e, g, k) ↦ inr (x, ap suc e, g, k)
]

pub delete_from-back :
    (n : ℕ) (name : List ℕ) (slots : List Slot) (free : ℕ) (m : Mutex) (j : ℕ) (s' : Slot)
    → get_elem? (delete_from n name slots free m).slots j ≡ some s'
    → (get_elem? slots j ≡ some s')
      ⊎ ((s : Slot) × (get_elem? slots j ≡ some s) × (leads_to name s ≡ true) × (clear s ≡ s'))
unfolding delete_from
delete_from-back zero name slots free m j s' h = inl h
delete_from-back (suc n) name [] free m j s' h = inl h
delete_from-back (suc n) name (s ∷ slots) free m zero s' h = elim (Bool-cases (leads_to name s)) [
  | inl g ↦ inr (s, refl, g, some-injective _ _ (rw g at h))
  | inr g ↦ inl (rw g at h)
]
delete_from-back (suc n) name (s ∷ slots) free m (suc j) s' h =
    delete_from-back n name slots _ _ j s' h

-- The place of an entry that the search finds.
pub lookup_from-place :
    (n : ℕ) (slots : List Slot) (x : List ℕ) (e : Entry)
    → lookup_from n slots x ≡ some e
    → (j : ℕ) × (s : Slot) × (get_elem? slots j ≡ some s)
      × (s.entry ≡ some e)
      × (str_eq e.chat_name x ≡ true)
unfolding lookup_from
lookup_from-place zero slots x e h = absurd (none-ne-some e h)
lookup_from-place (suc n) [] x e h = absurd (none-ne-some e h)
lookup_from-place (suc n) (s ∷ slots) x e h = elim (Slot-cases x s) [
  | inl (y, p, q) ↦
      let same : y ≡ e = some-injective _ _ (sym (lookup_from-Hit n s slots x (y, p, q)) ∙ h) in
      (0, s, refl, p ∙ ap some same, subst (λ (z : Entry). str_eq z.chat_name x ≡ true) same q)
  | inr m ↦
      let (j, t, p, q, r) =
        lookup_from-place n slots x e (sym (lookup_from-Miss n s slots x m) ∙ h) in
      (suc j, t, p, q, r)
]
