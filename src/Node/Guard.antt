-- ===== src/Node/Guard.antt =====
-- A set of names that a round of cleanUp (src/routingTable.c) leaves alone: none of them is stale,
-- and their ways do not lead out of the set.
use mathlib.Core.Option.{some-injective, none-ne-some}
use mathlib.Core.Path.{subst}
use rn_praktikum.Base.{
  ℕ, suc, ◌≤◌, ◌≡◌, refl, ap, sym, ◌∙◌, inl, inr, List, [], ◌∷◌, some, Bool, true, false, arith,
  get_elem?, get_or, set, str_eq, Bool-cases, Option-cases,
}
use rn_praktikum.Table.{Entry, Slot, Mutex, scanned}
use rn_praktikum.Table.Update.{change_at}
use rn_praktikum.Table.Delete.{delete_from, leads_to, clear}
use rn_praktikum.Node.Aging.{IsStale}
use rn_praktikum.Node.{drop_name, unmark}
use rn_praktikum.Node.Back.{change_at-back, delete_from-back}

-- A set of names, as strcmp compares them, without the empty one.
pub record IsNameSet (names : List ℕ → Bool) : Type 0 where
  pub congruent : (a b : List ℕ) → str_eq a b ≡ true → names a ≡ names b
  pub not_empty : (a : List ℕ) → get_or a 0 0 ≡ 0 → names a ≡ false

-- The entry of a place has the place's name, as far as the set is concerned, and if it is in the
-- set, so is its next hop.
abbrev pub Closed : (List ℕ → Bool) → Slot → Type 0
Closed names s =
    (e : Entry)
    → s.entry ≡ some e
    → (names s.name ≡ names e.chat_name)
      × (names e.chat_name ≡ true → names e.next_chat_name ≡ true)

-- All places are closed, and none from `i` on is stale under a name of the set.
pub record Guarded (names : List ℕ → Bool) (i : ℕ) (slots : List Slot) : Type 0 where
  pub closed : (j : ℕ) (s : Slot) → get_elem? slots j ≡ some s → Closed names s
  pub heard :
      (j : ℕ) (s : Slot) → i ≤ j → get_elem? slots j ≡ some s → IsStale s → names s.name ≡ false

get_or-set_first : (a : List ℕ) → get_or (set a 0 0) 0 0 ≡ 0
get_or-set_first [] = refl
get_or-set_first (b ∷ a) = refl

-- What a deletion of a name outside of the set clears is outside of it.
cleared_outside :
    (names : List ℕ → Bool) (name : List ℕ) (s : Slot)
    → IsNameSet names
    → names name ≡ false
    → Closed names s
    → leads_to name s ≡ true
    → names s.name ≡ false
unfolding leads_to
cleared_outside names name s v out c h = elim (Option-cases s.entry) [
  | inl p ↦ cc (rw p at h)
  | inr (e, p) ↦ elim (Bool-cases (str_eq e.chat_name name)) [
    | inl y ↦ (c e p).0 ∙ v.congruent e.chat_name name y ∙ out
    | inr y ↦
        let over : str_eq e.next_chat_name name ≡ true = rw y at (rw p at h) in
        elim (Bool-cases (names s.name)) [
          | inr z ↦ z
          | inl z ↦ cc ((c e p).1 (sym (c e p).0 ∙ z), v.congruent e.next_chat_name name over ∙ out)
        ]
  ]
]

Closed-clear : (names : List ℕ → Bool) (s : Slot) → Closed names (clear s)
unfolding clear
Closed-clear names s e p = absurd (none-ne-some e p)

Closed-drop_name :
    (names : List ℕ → Bool) (s : Slot)
    → IsNameSet names
    → Closed names s
    → names s.name ≡ false
    → Closed names (drop_name s)
unfolding drop_name
Closed-drop_name names s v c q e p =
    let out : names e.chat_name ≡ false = sym (c e p).0 ∙ q in
    (v.not_empty (set s.name 0 0) (get_or-set_first s.name) ∙ sym out, λ y. cc (out, y))

-- The deletion of a name outside of the set, for a stale place `i`.
module _ (names : List ℕ → Bool) (v : IsNameSet names) (i : ℕ) (name : List ℕ) (slots : List Slot)
    (free : ℕ) (m : Mutex) (out : names name ≡ false) (g : Guarded names i slots) (s : Slot)
    (p : get_elem? slots i ≡ some s) (q : names s.name ≡ false) where
  abbrev pub deleted : List Slot
  deleted = (delete_from scanned name slots free m).slots

  Closed-deleted : (j : ℕ) (t : Slot) → get_elem? deleted j ≡ some t → Closed names t
  Closed-deleted j t h = elim (delete_from-back scanned name slots free m j t h) [
    | inl k ↦ g.closed j t k
    | inr (x, k, ld, e) ↦ subst (Closed names) e (Closed-clear names x)
  ]

  -- The name of the place itself.
  outside : (t : Slot) → get_elem? deleted i ≡ some t → names t.name ≡ false
  unfolding clear
  outside t h = elim (delete_from-back scanned name slots free m i t h) [
    | inl k ↦ ap (λ (x : Slot). names x.name) (some-injective t s (sym k ∙ p)) ∙ q
    | inr (x, k, ld, e) ↦
        ap (λ (y : Slot). names y.name) (sym e)
        ∙ ap (λ (y : Slot). names y.name) (some-injective x s (sym k ∙ p))
        ∙ q
  ]

  closed_after :
      (j : ℕ) (t : Slot) → get_elem? (change_at i drop_name deleted) j ≡ some t → Closed names t
  closed_after j t h = elim (change_at-back drop_name i j deleted t h) [
    | inl k ↦ Closed-deleted j t k
    | inr (x, e, k, f) ↦ subst (Closed names) f (
        Closed-drop_name names x v (Closed-deleted j x k)
          (outside x (subst (λ l. get_elem? deleted l ≡ some x) (sym e) k)))
  ]

  heard_after :
      (j : ℕ) (t : Slot)
      → suc i ≤ j
      → get_elem? (change_at i drop_name deleted) j ≡ some t
      → IsStale t
      → names t.name ≡ false
  unfolding clear
  heard_after j t le h st = elim (change_at-back drop_name i j deleted t h) [
    | inr (x, e, k, f) ↦ absurd (omega arith)
    | inl k ↦ elim (delete_from-back scanned name slots free m j t k) [
      | inl o ↦ g.heard j t (omega arith) o st
      | inr (x, o, ld, e) ↦
          ap (λ (y : Slot). names y.name) (sym e)
          ∙ cleared_outside names name x v out (g.closed j x o) ld
    ]
  ]

  pub Guarded-delete : Guarded names (suc i) (change_at i drop_name deleted)
  Guarded-delete = record { closed = closed_after; heard = heard_after }

pub Guarded-unmark :
    (names : List ℕ → Bool) (i : ℕ) (slots : List Slot)
    → Guarded names i slots
    → Guarded names (suc i) (change_at i unmark slots)
unfolding unmark
Guarded-unmark names i slots g = record {
  closed = λ j s' h. elim (change_at-back unmark i j slots s' h) [
    | inl k ↦ g.closed j s' k
    | inr (s, e, k, f) ↦ subst (Closed names) f (g.closed j s k)
  ];
  heard = λ j s' le h st. elim (change_at-back unmark i j slots s' h) [
    | inl k ↦ g.heard j s' (omega arith) k st
    | inr (s, e, k, f) ↦ absurd (omega arith)
  ];
}

pub Guarded-later :
    (names : List ℕ → Bool) (i : ℕ) (slots : List Slot)
    → Guarded names i slots
    → Guarded names (suc i) slots
Guarded-later names i slots g = record {
  closed = g.closed;
  heard = λ j s le h st. g.heard j s (omega arith) h st;
}
