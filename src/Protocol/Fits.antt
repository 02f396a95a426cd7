-- ===== src/Protocol/Fits.antt =====
-- Tables whose entries fit the C types (src/routingTable.h), and what a LOGIN message makes of
-- them.
use mathlib.Core.Option.{some-injective, none-ne-some}
use mathlib.Core.Path.{subst}
use rn_praktikum.Base.{
  ℕ, zero, suc, ◌+◌, ◌^◌, ◌≤◌, ◌<◌, ◌≡◌, ◌≢◌, refl, ap, sym, ◌∙◌, inl, inr, List, [], ◌∷◌, none,
  some, false, arith, length, take, get_or, All, Bool-cases, Option-cases,
}
use rn_praktikum.Table.{Entry, Slot, record_size, is_blank}
use rn_praktikum.Table.Lookup.{lookup}
use rn_praktikum.Table.Count.{used_from}
use rn_praktikum.Table.Export.{first_entry}
use rn_praktikum.Table.Invariant.{IsValid, used}
use rn_praktikum.Table.Relax.{update_record_cases}
use rn_praktikum.Table.Slots.{add_entry-All}
use rn_praktikum.Table.Announce.{announced_from}
use rn_praktikum.Table.Growth.{update_record-Grows}
use rn_praktikum.Table.Exchange.{IsAnnounced}
use rn_praktikum.Table.Update.{State, update_from}
use rn_praktikum.Node.{Node, table_update, update_loop, lock_table, unlock_table}
use rn_praktikum.Protocol.Receive.{login_record}
use rn_praktikum.Protocol.Login.{
  login_content, neighbour, neighbour-IsEntry, get_name-login_record, read_entry-login_record,
}
use rn_praktikum.Protocol.Welcome.{updated_by}
use rn_praktikum.Protocol.Listed.{Named, AllNamed, str_eq-empty}

-- A place with an entry that can be announced, or with none.
abbrev pub Fits : Slot → Type 0
Fits s = (e : Entry) → s.entry ≡ some e → IsAnnounced e

pub announced_from-All :
    (k : ℕ) (slots : List Slot) → All Fits slots → All IsAnnounced (announced_from k slots)
unfolding announced_from
announced_from-All zero slots a = tt
announced_from-All (suc k) [] a = tt
announced_from-All (suc k) (s ∷ slots) (f, a) = elim (Option-cases s.entry) [
  | inl p ↦ rw (p, announced_from) (announced_from-All k slots a)
  | inr (e, p) ↦ elim (Bool-cases (is_blank e)) [
    | inl b ↦ rw (p, announced_from) (rw (b, announced_from) (announced_from-All k slots a))
    | inr b ↦ rw (p, announced_from) (rw (b, announced_from) (f e p, announced_from-All k slots a))
  ]
]

-- The entry of the first place can be announced, and is the first that is.
pub Fits-first :
    (slots : List Slot) (own : Entry)
    → first_entry slots ≡ some own
    → All Fits slots
    → IsAnnounced own
unfolding first_entry
Fits-first [] own h a = absurd (none-ne-some own h)
Fits-first (s ∷ slots) own h (f, a) = f own h

pub announced-first :
    (k : ℕ) (slots : List Slot) (own : Entry)
    → first_entry slots ≡ some own
    → IsAnnounced own
    → (es : List Entry) × (announced_from (suc k) slots ≡ own ∷ es)
unfolding first_entry announced_from is_blank
announced-first k [] own h fits = absurd (none-ne-some own h)
announced-first k (s ∷ slots) own h fits =
    let named : is_blank own ≡ false = ground (arith, str_eq-empty own.chat_name fits.1) in
    (announced_from k slots, rw (h, announced_from) (rw (named, announced_from) refl))

Named-of : (s : Slot) → Fits s → Named s.entry
Named-of s f = elim (Option-cases s.entry) [ inl p ↦ rw p tt | inr (e, p) ↦ rw p (f e p).1 ]

pub AllNamed-Fits : (slots : List Slot) → All Fits slots → AllNamed slots
AllNamed-Fits [] a = tt
AllNamed-Fits (s ∷ slots) (f, a) = (Named-of s f, AllNamed-Fits slots a)

neighbour-IsAnnounced :
    (name : List ℕ) (adress port : ℕ)
    → get_or name 0 0 ≢ 0
    → length name ≡ 32
    → adress < 2 ^ 32
    → port < 2 ^ 16
    → IsAnnounced (neighbour name adress port 1)
neighbour-IsAnnounced name adress port nz hn ha hp =
    (neighbour-IsEntry name adress port 1 hn ha hp (omega arith), nz, omega arith)

-- No more entries are announced than places are taken.
pub length-announced-le :
    (k : ℕ) (slots : List Slot) → length (announced_from k slots) ≤ used_from k slots
unfolding announced_from used_from
length-announced-le zero slots = omega arith
length-announced-le (suc k) [] = omega arith
length-announced-le (suc k) (s ∷ slots) = ground (arith, length-announced-le k slots)

-- The host when msg_login has put the new neighbour into the table.
module _ (junk junk' : ℕ → List ℕ) (name rest : List ℕ) (adress port : ℕ) (n : Node)
    (nz : get_or name 0 0 ≢ 0) (hn : length name ≡ 32) (ha : adress < 2 ^ 32) (hp : port < 2 ^ 16)
    (hj : length (junk 0) ≡ 32) (hj' : length (junk' 0) ≡ 32) where
  abbrev content : List ℕ
  content = login_content name adress port rest

  pub updated_by-Fits :
      lookup n.table name ≡ none
      → All Fits n.table.slots
      → All Fits (updated_by junk junk' content n).table.slots
  unfolding table_update update_loop update_from lock_table unlock_table
  updated_by-Fits unknown a =
      let working = take record_size (login_record content) in
      let st : State = record { table = (lock_table n).table; ui = n.ui } in
      let read =
        read_entry-login_record name rest (junk 0) (junk' 0) adress port nz hn ha hp hj hj' in
      let named = get_name-login_record name rest (junk 0) adress port nz hn ha hp hj in
      elim (update_record_cases (junk 0) (junk' 0) working st) [
        | inl (l, p) ↦ rw p (
            add_entry-All Fits _ st
              (λ e q.
                subst IsAnnounced (sym read ∙ some-injective _ _ q)
                  (neighbour-IsAnnounced name adress port nz hn ha hp))
              a)
        | inr (x, l, p) ↦ absurd (none-ne-some x (sym (ap (lookup n.table) named ∙ unknown) ∙ l))
      ]

  pub own_name-updated_by : (updated_by junk junk' content n).own_name ≡ n.own_name
  unfolding table_update update_loop lock_table unlock_table
  own_name-updated_by = refl

  pub used-updated_by :
      IsValid n.table → used (updated_by junk junk' content n).table ≤ used n.table + 1
  unfolding table_update update_loop update_from lock_table unlock_table
  used-updated_by v =
      let st : State = record { table = (lock_table n).table; ui = n.ui } in
      (update_record-Grows (junk 0) (junk' 0) (take record_size (login_record content)) st (record {
        places = v.places;
        accounted = v.accounted;
        distinct = v.distinct;
        front = v.front;
      })).1
