-- ===== src/TestTable/Relax.antt =====
-- tableUpdate of src/testTable.c as a step of relaxation.
use Prim.Native.Nat.{min}
use mathlib.Core.Option.{some-injective}
use rn_praktikum.Base.{
  ℕ, zero, suc, ◌≡◌, refl, ap, sym, ◌∙◌, inl, inr, List, Option, none, some, Bool, true, false,
  ◌&&◌, ltb, if◌then◌else◌, arith, take, drop, str_eq, Bool-cases, ==_ne,
}
use rn_praktikum.Names.{name_len}
use mathlib.Core.Path.{subst}
use rn_praktikum.Table.{Entry}
use rn_praktikum.Table.Relax.{relax}
use rn_praktikum.Table.Wire.{
  offset_adress, offset_port, offset_next_chat_name, offset_next_adress, offset_next_port, read32,
  read16, next_hop_count, read_entry,
}
use rn_praktikum.TestTable.{
  RoutingTable, find_from, check_name_in_table, new_entry, insert_from, add_entry, improve,
  change_at, update_record,
}
use rn_praktikum.TestTable.Search.{
  lookup, IsNamed, has_blank, Inserted, insert_from-cases, is_first, first_kept, find_from-cases,
  chat_name-improve,
}

-- Can a new entry be put in?
abbrev pub has_room : RoutingTable → Bool
has_room t = ltb 0 t.free_entries && has_blank t.entries

-- The entry that a record describes.
abbrev pub described : List ℕ → Entry
described working = record {
  chat_name = take name_len working;
  adress = read32 working offset_adress;
  port = read16 working offset_port;
  next_chat_name = take name_len (drop offset_next_chat_name working);
  next_adress = read32 working offset_next_adress;
  next_port = read16 working offset_next_port;
  hop_count = next_hop_count working;
}

new_entry-described : (working : List ℕ) → new_entry working ≡ described working
unfolding new_entry read_entry
new_entry-described working = refl

improve-relax : (working : List ℕ) (e : Entry) → improve working e ≡ relax working e
unfolding improve
improve-relax working e = refl

-- The entry of the record's name afterwards, from the one before.
abbrev pub relaxed : List ℕ → RoutingTable → Option Entry → Option Entry
relaxed working t none = if has_room t then some (described working) else none
relaxed working t (some e) =
    some (if is_first t.entries (take name_len working) then e else relax working e)

add_entry_full :
    (new : Entry) (t : RoutingTable)
    → IsNamed new.chat_name
    → has_room t ≡ false
    → add_entry new t ≡ t
unfolding add_entry
add_entry_full new t n h = elim (Bool-cases (ltb 0 t.free_entries)) [
  | inr f ↦ rw f refl
  | inl f ↦ elim (insert_from-cases new t.entries n) [
    | inl (p, q) ↦ rw (f, q) refl
    | inr (es', p, q, r) ↦ cc (h, ap (λ b. b && has_blank t.entries) f, p)
  ]
]

add_entry_room :
    (new : Entry) (t : RoutingTable)
    → IsNamed new.chat_name
    → has_room t ≡ true
    → (es' : List Entry) × (insert_from new t.entries ≡ some es')
      × ((add_entry new t).entries ≡ es')
      × Inserted new t.entries es'
unfolding add_entry
add_entry_room new t n h = elim (Bool-cases (ltb 0 t.free_entries)) [
  | inr f ↦ cc (h, ap (λ b. b && has_blank t.entries) f)
  | inl f ↦ elim (insert_from-cases new t.entries n) [
    | inl (p, q) ↦ cc (h, ap (λ b. b && has_blank t.entries) f, p)
    | inr (es', p, q, r) ↦ (es', q, rw (f, q) refl, r)
  ]
]

chat_name-new_entry : (working : List ℕ) → (new_entry working).chat_name ≡ take name_len working
unfolding new_entry read_entry
chat_name-new_entry working = refl

named : (working : List ℕ) → IsNamed (take name_len working) → IsNamed (new_entry working).chat_name
unfolding new_entry read_entry
named working n = n

-- The search for the record's name and for the others.
abbrev pub Answers : List ℕ → RoutingTable → RoutingTable → Type 0
Answers working t t' =
    (lookup t'.entries (take name_len working)
      ≡ relaxed working t (lookup t.entries (take name_len working)))
    × ((x : List ℕ)
        → IsNamed x
        → str_eq (take name_len working) x ≡ false
        → lookup t'.entries x ≡ lookup t.entries x)

-- What `relaxed` is for a name that is not there, and for that of the first entry.
relaxed_unknown :
    (working : List ℕ) (t : RoutingTable) (b : Bool)
    → has_room t ≡ b
    → lookup t.entries (take name_len working) ≡ none
    → relaxed working t (lookup t.entries (take name_len working))
      ≡ (if b then some (described working) else none)
relaxed_unknown working t b h l =
    ap (relaxed working t) l ∙ ap (λ r. if r then some (described working) else none) h

Answers-unknown :
    (working : List ℕ) (t : RoutingTable)
    → IsNamed (take name_len working)
    → lookup t.entries (take name_len working) ≡ none
    → Answers working t (add_entry (new_entry working) t)
Answers-unknown working t n l = elim (Bool-cases (has_room t)) [
  | inl r ↦
      let (es', p, q, (self, others)) = add_entry_room (new_entry working) t (named working n) r in
      (
        ap (λ es. lookup es (take name_len working)) q
            ∙ ap (lookup es') (sym (chat_name-new_entry working))
            ∙ self (ap (lookup t.entries) (chat_name-new_entry working) ∙ l)
            ∙ ap some (new_entry-described working)
            ∙ sym (relaxed_unknown working t true r l),
        λ x m d.
            ap (λ es. lookup es x) q
            ∙ others x m (ap (λ c. str_eq c x) (chat_name-new_entry working) ∙ d),
      )
  | inr r ↦
      let same = add_entry_full (new_entry working) t (named working n) r in
      (
        ap (λ u. lookup u.entries (take name_len working)) same
            ∙ l
            ∙ sym (relaxed_unknown working t false r l),
        λ x m d. ap (λ u. lookup u.entries x) same,
      )
]

Answers-first :
    (working : List ℕ) (t : RoutingTable) (e : Entry)
    → IsNamed (take name_len working)
    → lookup t.entries (take name_len working) ≡ some e
    → is_first t.entries (take name_len working) ≡ true
    → Answers working t (add_entry (new_entry working) t)
Answers-first working t e n l h =
    let expected : relaxed working t (lookup t.entries (take name_len working)) ≡ some e =
      ap (relaxed working t) l ∙ ap (λ b. some (if b then e else relax working e)) h in
    elim (Bool-cases (has_room t)) [
      | inl r ↦
          let (es', p, q, (self, others)) =
            add_entry_room (new_entry working) t (named working n) r in
          (
            ap (λ es. lookup es (take name_len working)) q
                ∙ first_kept (new_entry working) t.entries es' (take name_len working) h n p
                ∙ l
                ∙ sym expected,
            λ x m d.
                ap (λ es. lookup es x) q
                ∙ others x m (ap (λ c. str_eq c x) (chat_name-new_entry working) ∙ d),
          )
      | inr r ↦
          let same = add_entry_full (new_entry working) t (named working n) r in
          (
            ap (λ u. lookup u.entries (take name_len working)) same ∙ l ∙ sym expected,
            λ x m d. ap (λ u. lookup u.entries x) same,
          )
    ]

update_record-Answers :
    (working : List ℕ) (t : RoutingTable)
    → IsNamed (take name_len working)
    → Answers working t (update_record working t)
unfolding update_record check_name_in_table
update_record-Answers working t n = elim (find_from-cases t.entries 0 (take name_len working)) [
  | inl (z, l) ↦ rw (z, update_record) (Answers-unknown working t n l)
  | inr (zero, e, z, l, h, changed) ↦ rw (z, update_record) (Answers-first working t e n l h)
  | inr (suc k, e, z, l, h, changed) ↦
      let (self, others) = changed (improve working) (chat_name-improve working) in
      let at : find_from t.entries 0 (take name_len working) ≡ suc k = z ∙ omega arith in
      let later : is_first t.entries (take name_len working) ≡ false =
        h ∙ ==_ne (suc k) 0 (omega arith) in
      let changed_at = λ (i : ℕ). record t { entries = change_at i (improve working) t.entries } in
      rw
        (==_ne (find_from t.entries 0 (take name_len working)) 0 (omega (arith, at)), update_record)
        (subst (λ i. Answers working t (changed_at i)) (sym at)
          (
            self
                ∙ ap some (improve-relax working e)
                ∙ sym (
                    ap (relaxed working t) l
                    ∙ ap (λ b. some (if b then e else relax working e)) later),
            λ x m d. others x d,
          ))
]

-- The hop count of the record's name, when that was known and is not the first entry's.
abbrev pub Shortens : List ℕ → RoutingTable → RoutingTable → Type 0
Shortens working t t' =
    (e e' : Entry)
    → lookup t.entries (take name_len working) ≡ some e
    → lookup t'.entries (take name_len working) ≡ some e'
    → is_first t.entries (take name_len working) ≡ false
    → e'.hop_count ≡ min (next_hop_count working) e.hop_count

hop_count-relax :
    (working : List ℕ) (e : Entry)
    → (relax working e).hop_count ≡ min (next_hop_count working) e.hop_count
hop_count-relax working e = ground arith

Answers-Shortens :
    (working : List ℕ) (t t' : RoutingTable) → Answers working t t' → Shortens working t t'
Answers-Shortens working t t' (self, others) e e' known after later =
    let found : some e' ≡ some (relax working e) =
      sym after
      ∙ self
      ∙ ap (relaxed working t) known
      ∙ ap (λ b. some (if b then e else relax working e)) later in
    ap (λ (x : Entry). x.hop_count) (some-injective _ _ found) ∙ hop_count-relax working e

-- A record of a message is a step of relaxation. Under the record's name, which is not empty, the
-- search finds afterwards: the entry that the record describes, if the name was unknown,
-- freeEntries is positive and there is an entry of zeros, and nothing, if one of these two does not
-- hold; for a known name, the announced way if it is strictly shorter than the old one and the old
-- one else, except for the first entry of the table, which stays as it was. So the hop count of a
-- known name that is not the first entry's is the smaller of the old one and the announced one plus
-- one. Under any other name that is not empty the search finds what it found before.
pub update_record-Relaxes :
    (working : List ℕ) (t : RoutingTable)
    → IsNamed (take name_len working)
    → Answers working t (update_record working t) × Shortens working t (update_record working t)
update_record-Relaxes working t n =
    let answers = update_record-Answers working t n in
    (answers, Answers-Shortens working t (update_record working t) answers)
