-- ===== src/TestTable/Search.antt =====
-- The searches of src/testTable.c against the partial function from names to entries in which the
-- first entry with a name counts.
use rn_praktikum.Base.{
  ℕ, suc, ◌+◌, ◌*◌, ◌^◌, ◌≡◌, ◌≢◌, refl, ap, sym, ◌∙◌, ◌⊎◌, inl, inr, List, [], ◌∷◌, Option, none,
  some, Bool, true, false, ◌==◌, ◌&&◌, if◌then◌else◌, arith, c_str, str_eq, bytes_eq, bytes_eq_refl,
  bytes_eq_sound, Bool-cases, Option-cases, ==_ne,
}
use mathlib.Core.Option.{some-injective, none-ne-some}
use rn_praktikum.Table.{Entry, is_blank, no_route}
use rn_praktikum.TestTable.{find_from, insert_from, improve, change_at, routing_from}

-- The first entry with a name.
unfoldable pub lookup : List Entry → List ℕ → Option Entry
lookup [] name = none
lookup (e ∷ es) name = let rest = lookup es name in if str_eq e.chat_name name then some e else rest

abbrev pub route_of : Option Entry → ℕ
route_of none = no_route
route_of (some e) = e.next_adress * 2 ^ 32 + e.next_port

pub routing_from-lookup :
    (es : List Entry) (name : List ℕ) → routing_from es name ≡ route_of (lookup es name)
unfolding routing_from lookup
routing_from-lookup [] name = refl
routing_from-lookup (e ∷ es) name = ground (arith, routing_from-lookup es name)

-- A name that is not the empty string.
abbrev pub IsNamed : List ℕ → Type 0
IsNamed x = c_str x ≢ []

and_right : (a b : Bool) → (a && b) ≡ true → b ≡ true
and_right true b h = h
and_right false b h = cc

pub blank-str_eq :
    (e : Entry) (x : List ℕ) → is_blank e ≡ true → IsNamed x → str_eq e.chat_name x ≡ false
unfolding is_blank c_str
blank-str_eq e x h n =
    let empty : c_str e.chat_name ≡ [] =
      bytes_eq_sound (c_str e.chat_name) [] (and_right (e.hop_count == 0) _ h) in
    elim (Bool-cases (str_eq e.chat_name x)) [
      | inl y ↦ absurd (n (sym (bytes_eq_sound _ _ y) ∙ empty))
      | inr y ↦ y
    ]

-- Is there an entry of zeros?
unfoldable pub has_blank : List Entry → Bool
has_blank [] = false
has_blank (e ∷ es) = let rest = has_blank es in if is_blank e then true else rest

-- What the search finds when the new entry was put in: it, under its name, if that was not there,
-- and the same as before under another.
abbrev pub Inserted : Entry → List Entry → List Entry → Type 0
Inserted new es es' =
    (lookup es new.chat_name ≡ none → lookup es' new.chat_name ≡ some new)
    × ((x : List ℕ) → IsNamed x → str_eq new.chat_name x ≡ false → lookup es' x ≡ lookup es x)

pub insert_from-cases :
    (new : Entry) (es : List Entry)
    → IsNamed new.chat_name
    → ((has_blank es ≡ false) × (insert_from new es ≡ none))
      ⊎ ((es' : List Entry) × (has_blank es ≡ true)
          × (insert_from new es ≡ some es')
          × Inserted new es es')
unfolding has_blank insert_from lookup
insert_from-cases new [] n = inl (refl, refl)
insert_from-cases new (e ∷ es) n = elim (Bool-cases (is_blank e)) [
  | inl b ↦ inr (
    new ∷ es,
    rw b refl,
    rw b refl,
    (
      λ h. rw (bytes_eq_refl (c_str new.chat_name)) refl,
      λ x m d. rw (d, blank-str_eq e x b m) refl,
    ),
  )
  | inr b ↦ elim (insert_from-cases new es n) [
    | inl (p, q) ↦ inl (rw b p, rw (b, q) refl)
    | inr (es', p, q, (self, others)) ↦ inr (
      e ∷ es',
      rw b p,
      rw (b, q) refl,
      (
        λ h. elim (Bool-cases (str_eq e.chat_name new.chat_name)) [
          | inl y ↦ absurd (none-ne-some e (sym (rw y at h)))
          | inr y ↦ rw y (self (rw y at h))
        ],
        λ x m d. ap (λ r. if str_eq e.chat_name x then some e else r) (others x m d),
      ),
    )
  ]
]

-- A change that keeps the name of an entry.
abbrev pub KeepsName : (Entry → Entry) → Type 0
KeepsName f = (e : Entry) → (f e).chat_name ≡ e.chat_name

-- What the search finds when the entry at an index was changed.
abbrev pub Changed : (Entry → Entry) → List Entry → List Entry → List ℕ → Entry → Type 0
Changed f es es' name e =
    (lookup es' name ≡ some (f e))
    × ((x : List ℕ) → str_eq name x ≡ false → lookup es' x ≡ lookup es x)

str_eq_other : (a b c : List ℕ) → str_eq a b ≡ true → str_eq b c ≡ false → str_eq a c ≡ false
str_eq_other a b c e d = ap (λ x. bytes_eq x (c_str c)) (bytes_eq_sound _ _ e) ∙ d

-- Does the first entry have the name?
unfoldable pub is_first : List Entry → List ℕ → Bool
is_first [] name = false
is_first (e ∷ es) name = str_eq e.chat_name name

pub find_from-cases :
    (es : List Entry) (i : ℕ) (name : List ℕ)
    → ((find_from es i name ≡ 0) × (lookup es name ≡ none))
      ⊎ ((k : ℕ) × (e : Entry) × (find_from es i name ≡ i + k)
          × (lookup es name ≡ some e)
          × (is_first es name ≡ (k == 0))
          × ((f : Entry → Entry) → KeepsName f → Changed f es (change_at k f es) name e))
unfolding find_from lookup change_at is_first
find_from-cases [] i name = inl (refl, refl)
find_from-cases (e ∷ es) i name = elim (Bool-cases (str_eq e.chat_name name)) [
  | inl y ↦ inr (
    0,
    e,
    rw y (omega arith),
    rw y refl,
    y,
    λ f keeps. (
      rw (ap (λ n. str_eq n name) (keeps e) ∙ y) refl,
      λ x d.
          let apart = str_eq_other e.chat_name name x y d in
          rw (ap (λ n. str_eq n x) (keeps e) ∙ apart, apart) refl,
    ),
  )
  | inr y ↦ elim (find_from-cases es (suc i) name) [
    | inl (p, q) ↦ inl (rw y p, rw y q)
    | inr (k, a, p, q, h, changed) ↦ inr (
      suc k,
      a,
      rw y (p ∙ omega arith),
      rw y q,
      y ∙ sym (==_ne (suc k) 0 (omega arith)),
      λ f keeps. (
        rw y (changed f keeps).0,
        λ x d. ap (λ r. if str_eq e.chat_name x then some e else r) ((changed f keeps).1 x d),
      ),
    )
  ]
]

pub chat_name-improve : (working : List ℕ) → KeepsName (improve working)
unfolding improve
chat_name-improve working e = ground arith

-- An entry that stands first stays there.
pub first_kept :
    (new : Entry) (es es' : List Entry) (name : List ℕ)
    → is_first es name ≡ true
    → IsNamed name
    → insert_from new es ≡ some es'
    → lookup es' name ≡ lookup es name
unfolding is_first insert_from lookup
first_kept new [] es' name h n e = cc
first_kept new (x ∷ es) es' name h n e = elim (Bool-cases (is_blank x)) [
  | inl b ↦ cc (blank-str_eq x name b n, h)
  | inr b ↦ elim (Option-cases (insert_from new es)) [
    | inl p ↦ absurd (none-ne-some es' (rw (b, p) at e))
    | inr (es1, p) ↦
        let same : x ∷ es1 ≡ es' = some-injective _ _ (rw (b, p) at e) in rw (← same) (rw h refl)
  ]
]
