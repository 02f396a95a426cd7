-- ===== src/Protocol/Arrival.antt =====
-- A LOGIN message from do_login on one host to the table of another (src/protocol.c).
use mathlib.Core.Option.{none-ne-some}
use rn_praktikum.Base.{
  ℕ, zero, suc, ◌*◌, ◌^◌, ◌<◌, ◌≡◌, ◌≢◌, refl, ap, sym, ◌∙◌, inl, inr, List, [], ◌∷◌, ◌++◌, none,
  some, Bool, true, false, if◌then◌else◌, ◌>>=◌, arith, length, take, get_or, zeros, str_eq,
  write_at, Option-cases, Bool-cases, ◌/◌,
}
use rn_praktikum.Names.{
  Header, create_header, header_bytes, header_size, type_login, type_route, type_heart, get_name,
  set_name,
}
use rn_praktikum.Table.{Table, Entry, Slot, scanned, record_size, get_routing_table_size, is_blank}
use rn_praktikum.Table.Wire.{entry_bytes}
use rn_praktikum.Table.Export.{first_entry, export_from, table_to_char_array}
use rn_praktikum.Table.Lookup.{lookup}
use rn_praktikum.Table.Relax.{update_record_cases}
use rn_praktikum.Table.Update.{State, update_record, update_from}
use rn_praktikum.Node.{
  Node, User, get_hops_one_away, table_update, update_loop, lock_table, unlock_table,
}
use rn_praktikum.Node.Own.{first_entry-add_entry}
use rn_praktikum.Heartbeat.{is_empty, send_to}
use rn_praktikum.Protocol.{
  no_users, send_each, send_to_all_neighboors, send_with, send_routes, route_message,
}
use rn_praktikum.Protocol.Receive.{login_record, msg_login, dispatch, is_for_other}
use rn_praktikum.Protocol.Login.{login_content, get_name-login_record}

pub is_for_other-login :
    (h : Header) (target : List ℕ) (n : Node)
    → h.type ≡ type_login
    → is_for_other h target n ≡ false
unfolding is_for_other
is_for_other-login h target n e = ground (arith, e)

pub dispatch-login :
    (junk junk' : ℕ → List ℕ) (type : ℕ) (sender content : List ℕ) (count : ℕ) (n : Node)
    → type ≡ type_login
    → dispatch junk junk' type sender content count n ≡ msg_login junk junk' sender content n
unfolding dispatch
dispatch-login junk junk' type sender content count n e = rw e refl

table-if :
    (b : Bool) (n m : Node) (t : Table) → n.table ≡ t → m.table ≡ t → (if b then n else m).table ≡ t
table-if true n m t p q = p
table-if false n m t p q = q

-- Messages to the neighbours leave the table alone.
table-send_each :
    (us : List User) (msg skip : List ℕ) (size : ℕ) (n : Node)
    → (send_each us msg skip size n).table ≡ n.table
unfolding send_each send_with
table-send_each [] msg skip size n = refl
table-send_each (u ∷ us) msg skip size n =
    let msg' = write_at 34 (set_name u.chat_name) msg in
    table-if (is_empty u) n _ n.table refl (
      table-send_each us msg' skip size _
      ∙ table-if (str_eq u.chat_name skip) n _ n.table refl refl)

export_from-total :
    (k : ℕ) (slots : List Slot) (own : Entry) (count : ℕ) (buf : List ℕ)
    → (bytes : List ℕ) × (export_from k slots (some own) count buf ≡ some bytes)
unfolding export_from
export_from-total zero slots own count buf = (buf, refl)
export_from-total (suc k) [] own count buf = (buf, refl)
export_from-total (suc k) (s ∷ slots) own count buf = elim (Option-cases s.entry) [
  | inl p ↦
      let (bytes, e) = export_from-total k slots own count buf in (bytes, rw (p, export_from) e)
  | inr (x, p) ↦ elim (Bool-cases (is_blank x)) [
    | inl b ↦
        let (bytes, e) = export_from-total k slots own count buf in
        (bytes, rw (p, export_from) (rw (b, export_from) e))
    | inr b ↦
        let (bytes, e) =
          export_from-total k slots own (suc count)
            (write_at (count * record_size) (entry_bytes own x) buf) in
        (bytes, rw (p, export_from) (rw (b, export_from) e))
  ]
]

pub route_message_total :
    (n : Node) (own : Entry)
    → first_entry n.table.slots ≡ some own
    → (r : List ℕ) × (route_message n ≡ some r)
unfolding route_message table_to_char_array
route_message_total n own h =
    let buf = zeros (get_routing_table_size n.table) in
    let (bytes, e) = export_from-total scanned n.table.slots own 0 buf in
    let header = header_bytes (create_header n.own_name [] type_route) in
    (
      header ++ bytes,
      ap (λ o. o >>= λ (b : List ℕ). some (header ++ b))
          (ap (λ o. export_from scanned n.table.slots o 0 buf) h ∙ e),
    )

-- With an own entry, the table is sent.
pub send_routes_total :
    (skip : List ℕ) (n : Node) (own : Entry)
    → first_entry n.table.slots ≡ some own
    → (m : Node) × (send_routes skip n ≡ some m) × (m.table ≡ n.table)
unfolding send_routes send_to_all_neighboors
send_routes_total skip n own h =
    let (r, e) = route_message_total n own h in
    (
      send_to_all_neighboors r skip (length r) n,
      ap (λ o. o >>= λ (m : List ℕ). some (send_to_all_neighboors m skip (length m) n)) e,
      table-send_each
          (get_hops_one_away n.table (no_users (get_routing_table_size n.table / record_size))) r
          skip (length r) n,
    )

-- A record for a new name leaves the first entry where it is.
first_entry-update_record :
    (junk junk' working : List ℕ) (st : State) (own : Entry)
    → lookup st.table (get_name junk working) ≡ none
    → first_entry st.table.slots ≡ some own
    → first_entry (update_record junk junk' working st).table.slots ≡ some own
first_entry-update_record junk junk' working st own unknown h =
    elim (update_record_cases junk junk' working st) [
      | inl (l, e) ↦ rw e (first_entry-add_entry _ st own h)
      | inr (x, l, e) ↦ absurd (none-ne-some x (sym unknown ∙ l))
    ]

-- A LOGIN message for a new name leaves the first entry where it is.
pub first_entry-login :
    (junk junk' : ℕ → List ℕ) (name rest : List ℕ) (adress port : ℕ) (n : Node) (own : Entry)
    → get_or name 0 0 ≢ 0
    → length name ≡ 32
    → adress < 2 ^ 32
    → port < 2 ^ 16
    → length (junk 0) ≡ 32
    → lookup n.table name ≡ none
    → first_entry n.table.slots ≡ some own
    → first_entry
        (table_update junk junk'
          (login_record (login_content name adress port rest))
          record_size
          n).table.slots
      ≡ some own
unfolding table_update update_loop update_from lock_table unlock_table
first_entry-login junk junk' name rest adress port n own nz hn ha hp hj unknown h =
    let working = take record_size (login_record (login_content name adress port rest)) in
    first_entry-update_record (junk 0) (junk' 0) working
      (record { table = (lock_table n).table; ui = n.ui }) own
      (ap (lookup n.table) (get_name-login_record name rest (junk 0) adress port nz hn ha hp hj)
        ∙ unknown)
      h

-- msg_login on a host that has its own entry: it returns, with the table that tableUpdate leaves.
pub msg_login_total :
    (junk junk' : ℕ → List ℕ) (sender content : List ℕ) (n : Node) (own : Entry)
    → first_entry (table_update junk junk' (login_record content) record_size n).table.slots
      ≡ some own
    → (m : Node) × (msg_login junk junk' sender content n ≡ some m)
      × (m.table ≡ (table_update junk junk' (login_record content) record_size n).table)
unfolding msg_login send_to
msg_login_total junk junk' sender content n own h =
    let updated = table_update junk junk' (login_record content) record_size n in
    let reply = header_bytes (create_header n.own_name sender type_heart) in
    let (m, e, t) = send_routes_total [] updated own h in
    (
      send_to sender reply header_size m,
      ap (λ o. o >>= λ (a : Node). some (send_to sender reply header_size a)) e,
      t,
    )
