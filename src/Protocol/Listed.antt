-- ===== src/Protocol/Listed.antt =====
-- Who getHopsOneAway lists (src/routingTable.c), as far as send_to_all_neighboors of src/protocol.c
-- reads the list.
use mathlib.Core.Option.{some-injective, none-ne-some}
use rn_praktikum.Base.{
  ℕ, zero, suc, ◌≤◌, ◌≡◌, ◌≢◌, refl, ap, sym, ◌∙◌, inl, inr, List, [], ◌∷◌, ◌++◌, Option, none,
  some, true, false, ◌==◌, if◌then◌else◌, arith, length, get_or, str_eq, c_str, bytes_eq, All,
  Bool-cases, Option-cases, ==_ne, ==_iff,
}
use rn_praktikum.Table.{Entry, Slot, is_blank, count_from}
use rn_praktikum.Table.Lookup.{lookup_from, lookup_from-Miss, lookup_from-Hit, Slot-cases, Hit}
use rn_praktikum.Node.{User, hops_from}
use rn_praktikum.Heartbeat.{is_empty}
use rn_praktikum.Protocol.Neighbours.{addressed}

-- An entry whose name starts with its first byte, or none.
abbrev pub Named : Option Entry → Type 0
Named none = Unit
Named (some e) = get_or e.chat_name 0 0 ≢ 0

abbrev pub AllNamed : List Slot → Type 0
AllNamed slots = All (λ s. Named s.entry) slots

-- A list with a user of a name in it.
abbrev pub Lists : List User → List ℕ → Type 0
Lists us name =
    (pre : List User) × (u : User) × (post : List User) × (us ≡ pre ++ u ∷ post)
    × (u.chat_name ≡ name)

pub str_eq-empty : (x : List ℕ) → get_or x 0 0 ≢ 0 → str_eq x [] ≡ false
unfolding c_str bytes_eq
str_eq-empty [] h = absurd (h refl)
str_eq-empty (b ∷ x) h = rw (==_ne b 0 h) refl

addressed-named :
    (u : User) (us : List User)
    → get_or u.chat_name 0 0 ≢ 0
    → addressed [] (u ∷ us) ≡ u ∷ addressed [] us
unfolding addressed is_empty
addressed-named u us h = rw (==_ne (get_or u.chat_name 0 0) 0 h, str_eq-empty u.chat_name h) refl

-- A user with a name is addressed, if it is not to be skipped.
pub addressed-one :
    (skip : List ℕ) (u : User) (us : List User)
    → get_or u.chat_name 0 0 ≢ 0
    → addressed skip (u ∷ us)
      ≡ (if str_eq u.chat_name skip then addressed skip us else u ∷ addressed skip us)
unfolding addressed is_empty
addressed-one skip u us h = rw (==_ne (get_or u.chat_name 0 0) 0 h) refl

Lists-cons : (u : User) (us : List User) (name : List ℕ) → Lists us name → Lists (u ∷ us) name
Lists-cons u us name (pre, v, post, p, q) = (u ∷ pre, v, post, ap (λ l. u ∷ l) p, q)

pub Named-some :
    (s : Slot) (x : Entry) → s.entry ≡ some x → Named s.entry → get_or x.chat_name 0 0 ≢ 0
Named-some s x p h = rw p at h

pub count_from-tail :
    (k : ℕ) (s : Slot) (slots : List Slot) → count_from k slots ≤ count_from (suc k) (s ∷ slots)
unfolding count_from
count_from-tail k s slots = ground arith

-- A direct neighbour is counted.
pub count_from-neighbour :
    (k : ℕ) (s : Slot) (slots : List Slot) (x : Entry)
    → s.entry ≡ some x
    → x.hop_count ≡ 1
    → count_from (suc k) (s ∷ slots) ≡ suc (count_from k slots)
unfolding count_from is_blank
count_from-neighbour k s slots x p h = rw (p, count_from) (rw h refl)

pub hops_from-skip :
    (k : ℕ) (s : Slot) (slots : List Slot) (us : List User) (x : Entry)
    → s.entry ≡ some x
    → (x.hop_count == 1) ≡ false
    → hops_from (suc k) (s ∷ slots) us ≡ hops_from k slots us
unfolding hops_from
hops_from-skip k s slots us x p o = rw (p, hops_from) (rw (o, hops_from) refl)

-- The user for a direct neighbour, in the place of `u`.
abbrev pub user_of : Entry → User → User
user_of x u = record {
  chat_name = x.chat_name;
  adress = x.adress;
  port = x.port;
  not_responded = if u.not_responded == 1 then 1 else 0;
}

pub hops_from-take :
    (k : ℕ) (s : Slot) (slots : List Slot) (u : User) (us : List User) (x : Entry)
    → s.entry ≡ some x
    → (x.hop_count == 1) ≡ true
    → hops_from (suc k) (s ∷ slots) (u ∷ us) ≡ user_of x u ∷ hops_from k slots us
unfolding hops_from
hops_from-take k s slots u us x p o = rw (p, hops_from) (rw (o, hops_from) refl)

pub hops_from-none :
    (k : ℕ) (s : Slot) (slots : List Slot) (us : List User)
    → s.entry ≡ none
    → hops_from (suc k) (s ∷ slots) us ≡ hops_from k slots us
unfolding hops_from
hops_from-none k s slots us p = rw (p, hops_from) refl

pub differs : (x e : Entry) → x ≡ e → (x.hop_count == 1) ≡ false → e.hop_count ≡ 1 → ⊥
differs x e q o h = cc (o, (==_iff x.hop_count 1).1 (ap (λ (y : Entry). y.hop_count) q ∙ h))

-- The first place has the entry that the search finds.
pub found_first :
    (k : ℕ) (s : Slot) (slots : List Slot) (name : List ℕ) (x e : Entry)
    → s.entry ≡ some x
    → lookup_from (suc k) (s ∷ slots) name ≡ some e
    → Hit name s
    → x ≡ e
found_first k s slots name x e p l (y, q, r) =
    some-injective x y (sym p ∙ q)
    ∙ some-injective y e (sym (lookup_from-Hit k s slots name (y, q, r)) ∙ l)

-- The search finds another entry than the first, behind it.
pub found_later :
    (k : ℕ) (s : Slot) (slots : List Slot) (name : List ℕ) (x e : Entry)
    → s.entry ≡ some x
    → lookup_from (suc k) (s ∷ slots) name ≡ some e
    → x ≢ e
    → lookup_from k slots name ≡ some e
found_later k s slots name x e p l d = elim (Slot-cases name s) [
  | inl hit ↦ absurd (d (found_first k s slots name x e p l hit))
  | inr m ↦ sym (lookup_from-Miss k s slots name m) ∙ l
]

-- The step for a direct neighbour.
listed :
    (k : ℕ) (s : Slot) (slots : List Slot) (us : List User) (name : List ℕ) (x e : Entry)
    → Named s.entry
    → AllNamed slots
    → count_from (suc k) (s ∷ slots) ≤ length us
    → lookup_from (suc k) (s ∷ slots) name ≡ some e
    → e.hop_count ≡ 1
    → s.entry ≡ some x
    → (x.hop_count == 1) ≡ true
    → ((us' : List User)
        → count_from k slots ≤ length us'
        → lookup_from k slots name ≡ some e
        → Lists (addressed [] (hops_from k slots us')) e.chat_name)
    → Lists (addressed [] (hops_from (suc k) (s ∷ slots) us)) e.chat_name
listed k s slots [] name x e n a c l h p o next =
    absurd (omega (arith, count_from-neighbour k s slots x p ((==_iff x.hop_count 1).0 o), c))
listed k s slots (u ∷ us) name x e n a c l h p o next =
    rw
      (
        hops_from-take k s slots u us x p o,
        addressed-named (user_of x u) (hops_from k slots us) (Named-some s x p n),
      )
      (elim (Slot-cases name s) [
        | inl hit ↦ (
          [],
          user_of x u,
          addressed [] (hops_from k slots us),
          refl,
          ap (λ (y : Entry). y.chat_name) (found_first k s slots name x e p l hit),
        )
        | inr m ↦ Lists-cons (user_of x u) (addressed [] (hops_from k slots us)) e.chat_name (
            next us
              (omega (arith, count_from-neighbour k s slots x p ((==_iff x.hop_count 1).0 o), c))
              (sym (lookup_from-Miss k s slots name m) ∙ l))
      ])

-- A direct neighbour that the search finds is listed, if all names start with their first byte and
-- the array has room for all entries.
pub hops_from-Lists :
    (k : ℕ) (slots : List Slot) (us : List User) (name : List ℕ) (e : Entry)
    → AllNamed slots
    → count_from k slots ≤ length us
    → lookup_from k slots name ≡ some e
    → e.hop_count ≡ 1
    → Lists (addressed [] (hops_from k slots us)) e.chat_name
unfolding lookup_from
hops_from-Lists zero slots us name e a c l h = absurd (none-ne-some e l)
hops_from-Lists (suc k) [] us name e a c l h = absurd (none-ne-some e l)
hops_from-Lists (suc k) (s ∷ slots) us name e (n, a) c l h = elim (Option-cases s.entry) [
  | inl p ↦ rw (hops_from-none k s slots us p) (
      hops_from-Lists k slots us name e a (omega (arith, count_from-tail k s slots, c))
        (sym (lookup_from-Miss k s slots name (inl p)) ∙ l) h)
  | inr (x, p) ↦ elim (Bool-cases (x.hop_count == 1)) [
    | inr o ↦ rw (hops_from-skip k s slots us x p o) (
        hops_from-Lists k slots us name e a (omega (arith, count_from-tail k s slots, c))
          (found_later k s slots name x e p l (λ q. differs x e q o h)) h)
    | inl o ↦
        listed k s slots us name x e n a c l h p o
          (λ us' c' l'. hops_from-Lists k slots us' name e a c' l' h)
  ]
]

length-taken :
    (k : ℕ) (s : Slot) (slots : List Slot) (us : List User) (x : Entry)
    → s.entry ≡ some x
    → (x.hop_count == 1) ≡ true
    → ((us' : List User) → length (hops_from k slots us') ≡ length us')
    → length (hops_from (suc k) (s ∷ slots) us) ≡ length us
unfolding hops_from
length-taken k s slots [] x p o next = rw (p, hops_from) (rw (o, hops_from) refl)
length-taken k s slots (u ∷ us) x p o next =
    rw (hops_from-take k s slots u us x p o) (ap suc (next us))

length-hops_from :
    (k : ℕ) (slots : List Slot) (us : List User) → length (hops_from k slots us) ≡ length us
unfolding hops_from
length-hops_from zero slots us = refl
length-hops_from (suc k) [] us = refl
length-hops_from (suc k) (s ∷ slots) us = elim (Option-cases s.entry) [
  | inl p ↦ rw (p, hops_from) (length-hops_from k slots us)
  | inr (x, p) ↦ elim (Bool-cases (x.hop_count == 1)) [
    | inr o ↦ rw (hops_from-skip k s slots us x p o) (length-hops_from k slots us)
    | inl o ↦ length-taken k s slots us x p o (length-hops_from k slots)
  ]
]

length-addressed-le : (skip : List ℕ) (us : List User) → length (addressed skip us) ≤ length us
unfolding addressed
length-addressed-le skip [] = omega arith
length-addressed-le skip (u ∷ us) = ground (arith, length-addressed-le skip us)

-- No more are listed than the array has places.
pub length-listed-le :
    (skip : List ℕ) (k : ℕ) (slots : List Slot) (us : List User)
    → length (addressed skip (hops_from k slots us)) ≤ length us
length-listed-le skip k slots us =
    omega (arith, length-addressed-le skip (hops_from k slots us), length-hops_from k slots us)
