-- ===== src/Table/Lookup.antt =====
-- The searches of src/routingTable.c against one partial function from names to entries.
use rn_praktikum.Base.{
  ℕ, zero, suc, ◌+◌, ◌-◌, ◌≡◌, ◌≢◌, refl, ◌∙◌, ◌⊎◌, inl, inr, List, [], ◌∷◌, Option, none, some,
  true, false, if◌then◌else◌, arith, str_eq, Bool-cases, Option-cases,
}
use rn_praktikum.Table.{
  Entry, Slot, Table, scanned, find_from, routing_from, get_routing, adress_and_port, no_route,
}
use rn_praktikum.Table.Update.{change_at}

-- A place with an entry for `name`, or one without.
abbrev pub Hit : List ℕ → Slot → Type 0
Hit name s = (e : Entry) × (s.entry ≡ some e) × (str_eq e.chat_name name ≡ true)

abbrev pub Miss : List ℕ → Slot → Type 0
Miss name s =
    (s.entry ≡ none) ⊎ ((e : Entry) × (s.entry ≡ some e) × (str_eq e.chat_name name ≡ false))

pub Slot-cases : (name : List ℕ) (s : Slot) → Hit name s ⊎ Miss name s
Slot-cases name s = elim (Option-cases s.entry) [
  | inl p ↦ inr (inl p)
  | inr (e, p) ↦ elim (Bool-cases (str_eq e.chat_name name)) [
    | inl q ↦ inl (e, p, q)
    | inr q ↦ inr (inr (e, p, q))
  ]
]

-- The first entry for `name` in `n` places.
unfoldable pub lookup_from : ℕ → List Slot → List ℕ → Option Entry
lookup_from zero slots name = none
lookup_from (suc n) [] name = none
lookup_from (suc n) (s ∷ slots) name =
    let rest = lookup_from n slots name in
    elim s.entry [ none ↦ rest | some e ↦ if str_eq e.chat_name name then some e else rest ]

abbrev pub lookup : Table → List ℕ → Option Entry
lookup t name = lookup_from scanned t.slots name

abbrev pub route_of : Option Entry → ℕ
route_of none = no_route
route_of (some e) = adress_and_port e.next_adress e.next_port

routing_from-lookup :
    (n : ℕ) (slots : List Slot) (name : List ℕ)
    → routing_from n slots name ≡ route_of (lookup_from n slots name)
unfolding routing_from lookup_from
routing_from-lookup zero slots name = refl
routing_from-lookup (suc n) [] name = refl
routing_from-lookup (suc n) (s ∷ slots) name = ground (arith, routing_from-lookup n slots name)

pub find_from-lookup :
    (n : ℕ) (slots : List Slot) (i : ℕ) (name : List ℕ)
    → ((find_from n slots i name ≡ 0) × (lookup_from n slots name ≡ none))
      ⊎ ((k : ℕ) × (e : Entry) × (find_from n slots i name ≡ suc (i + k))
          × (lookup_from n slots name ≡ some e))
unfolding find_from lookup_from
find_from-lookup zero slots i name = inl (refl, refl)
find_from-lookup (suc n) [] i name = inl (refl, refl)
find_from-lookup (suc n) (s ∷ slots) i name = elim (Slot-cases name s) [
  | inl (e, p, q) ↦ inr (0, e, ground arith, ground arith)
  | inr m ↦ elim (find_from-lookup n slots (suc i) name) [
    | inl h ↦ inl (ground arith, ground arith)
    | inr (k, e, p, q) ↦ inr (suc k, e, ground arith, ground arith)
  ]
]

find_from-Hit :
    (n : ℕ) (s : Slot) (slots : List Slot) (i : ℕ) (name : List ℕ)
    → Hit name s
    → find_from (suc n) (s ∷ slots) i name ≡ suc i
unfolding find_from
find_from-Hit n s slots i name h = ground arith

find_from-Miss :
    (n : ℕ) (s : Slot) (slots : List Slot) (i : ℕ) (name : List ℕ)
    → Miss name s
    → find_from (suc n) (s ∷ slots) i name ≡ find_from n slots (suc i) name
unfolding find_from
find_from-Miss n s slots i name h = ground arith

pub lookup_from-Hit :
    (n : ℕ) (s : Slot) (slots : List Slot) (name : List ℕ)
    → (h : Hit name s) → lookup_from (suc n) (s ∷ slots) name ≡ some h.0
unfolding lookup_from
lookup_from-Hit n s slots name h = ground arith

pub lookup_from-Miss :
    (n : ℕ) (s : Slot) (slots : List Slot) (name : List ℕ)
    → Miss name s
    → lookup_from (suc n) (s ∷ slots) name ≡ lookup_from n slots name
unfolding lookup_from
lookup_from-Miss n s slots name h = ground arith

-- getRouting returns the next hop of the first entry with the name, its address in network order
-- above its port, and 2^64 - 1 for a name that no scanned place holds.
pub get_routing-lookup : (t : Table) (name : List ℕ) → get_routing t name ≡ route_of (lookup t name)
unfolding get_routing
get_routing-lookup t name = routing_from-lookup scanned t.slots name

-- A change of the entries with one name, which keeps that name, at the place that was found.
module _ (f : Slot → Slot) (name : List ℕ) where
  -- `f` applied to the first place with the name.
  unfoldable pub adjust_from : ℕ → List Slot → List Slot
  adjust_from zero slots = slots
  adjust_from (suc n) [] = []
  adjust_from (suc n) (s ∷ slots) =
      let rest = adjust_from n slots in
      elim s.entry [
        | none ↦ s ∷ rest
        | some e ↦ if str_eq e.chat_name name then f s ∷ slots else s ∷ rest
      ]

  -- The index that checkNameInTable returns leads to the first place with the name.
  pub change_at-find :
      (n : ℕ) (slots : List Slot) (i : ℕ)
      → find_from n slots i name ≢ 0
      → change_at (find_from n slots i name - suc i) f slots ≡ adjust_from n slots
  unfolding find_from change_at adjust_from
  change_at-find zero slots i h = absurd (h refl)
  change_at-find (suc n) [] i h = absurd (h refl)
  change_at-find (suc n) (s ∷ slots) i h = elim (Slot-cases name s) [
    | inl (e, p, q) ↦
        let z : find_from (suc n) (s ∷ slots) i name - suc i ≡ 0 =
          omega (arith, find_from-Hit n s slots i name (e, p, q)) in
        rw z (ground arith)
    | inr m ↦ elim (find_from-lookup n slots (suc i) name) [
      | inl g ↦ absurd (h (find_from-Miss n s slots i name m ∙ g.0))
      | inr (k, e, p, q) ↦
          let z : find_from (suc n) (s ∷ slots) i name - suc i
              ≡ suc (find_from n slots (suc i) name - suc (suc i)) =
            omega (arith, find_from-Miss n s slots i name m) in
          let ih : change_at (find_from n slots (suc i) name - suc (suc i)) f slots
              ≡ adjust_from n slots =
            change_at-find n slots (suc i) (omega arith) in
          rw z (ground arith)
    ]
  ]
