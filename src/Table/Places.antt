-- ===== src/Table/Places.antt =====
-- What the search for a name sees after an entry was changed or put in, place by place
-- (src/routingTable.c).
use rn_praktikum.Base.{
  ℕ, zero, suc, ◌≡◌, refl, ◌∙◌, inl, inr, List, [], ◌∷◌, none, some, true, false, arith, str_eq,
  str_eq_sym, str_eq_trans, bytes_eq_refl, c_str, Bool-cases, Option-cases,
}
use rn_praktikum.Table.{Entry, Slot}
use rn_praktikum.Table.Lookup.{Hit, Miss, Slot-cases, lookup_from, adjust_from}
use rn_praktikum.Table.Update.{insert_from}

-- A name that one of two different strings is equal to is not equal to the other.
pub str_eq-other :
    (a name other : List ℕ)
    → str_eq name other ≡ false
    → str_eq a name ≡ true
    → str_eq a other ≡ false
str_eq-other a name other d h = elim (Bool-cases (str_eq a other)) [
  | inl r ↦ cc (d, str_eq_trans name a other (str_eq_sym name a ∙ h) r)
  | inr r ↦ r
]

-- A place that holds an entry for `name` holds none for another name.
pub Hit-other :
    (name other : List ℕ) (s : Slot) → str_eq name other ≡ false → Hit name s → Miss other s
Hit-other name other s d (e, p, q) = inr (e, p, str_eq-other e.chat_name name other d q)

module _ (f : Slot → Slot) (g : Entry → Entry)
    (fg : (s : Slot) (e : Entry) → s.entry ≡ some e → (f s).entry ≡ some (g e))
    (keeps : (e : Entry) → (g e).chat_name ≡ e.chat_name) (name : List ℕ) where
  pub lookup_from-adjust_self :
      (n : ℕ) (slots : List Slot) (e : Entry)
      → lookup_from n slots name ≡ some e
      → lookup_from n (adjust_from f name n slots) name ≡ some (g e)
  unfolding adjust_from lookup_from
  lookup_from-adjust_self zero slots e h = cc
  lookup_from-adjust_self (suc n) [] e h = cc
  lookup_from-adjust_self (suc n) (s ∷ slots) e h = elim (Slot-cases name s) [
    | inl (x, p, q) ↦ ground (arith, fg s x p, keeps x)
    | inr m ↦ ground (arith, lookup_from-adjust_self n slots e)
  ]

  pub lookup_from-adjust_other :
      (other : List ℕ) (n : ℕ) (slots : List Slot)
      → str_eq name other ≡ false
      → lookup_from n (adjust_from f name n slots) other ≡ lookup_from n slots other
  unfolding adjust_from lookup_from
  lookup_from-adjust_other other zero slots d = refl
  lookup_from-adjust_other other (suc n) [] d = refl
  lookup_from-adjust_other other (suc n) (s ∷ slots) d = elim (Slot-cases name s) [
    | inl (x, p, q) ↦ ground (arith, fg s x p, keeps x, Hit-other name other s d (x, p, q))
    | inr m ↦ ground (arith, lookup_from-adjust_other other n slots d)
  ]

pub lookup_from-insert_self :
    (n : ℕ) (e : Entry) (r : List ℕ) (slots slots' : List Slot)
    → insert_from n e r slots ≡ some slots'
    → lookup_from n slots e.chat_name ≡ none
    → lookup_from n slots' e.chat_name ≡ some e
unfolding insert_from lookup_from
lookup_from-insert_self zero e r slots slots' h k = cc
lookup_from-insert_self (suc n) e r [] slots' h k = cc
lookup_from-insert_self (suc n) e r (s ∷ slots) slots' h k = elim (Option-cases s.entry) [
  | inl p ↦ ground (arith, bytes_eq_refl (c_str e.chat_name))
  | inr (x, p) ↦ elim (Option-cases (insert_from n e r slots)) [
    | inl z ↦ ground arith
    | inr (rest, z) ↦ ground (arith, lookup_from-insert_self n e r slots rest z)
  ]
]

pub lookup_from-insert_other :
    (n : ℕ) (e : Entry) (r : List ℕ) (other : List ℕ) (slots slots' : List Slot)
    → insert_from n e r slots ≡ some slots'
    → str_eq e.chat_name other ≡ false
    → lookup_from n slots' other ≡ lookup_from n slots other
unfolding insert_from lookup_from
lookup_from-insert_other zero e r other slots slots' h d = cc
lookup_from-insert_other (suc n) e r other [] slots' h d = cc
lookup_from-insert_other (suc n) e r other (s ∷ slots) slots' h d = elim (Option-cases s.entry) [
  | inl p ↦ ground arith
  | inr (x, p) ↦ elim (Option-cases (insert_from n e r slots)) [
    | inl z ↦ ground arith
    | inr (rest, z) ↦ ground (arith, lookup_from-insert_other n e r other slots rest z d)
  ]
]
