-- ===== src/Protocol/Welcome.antt =====
-- What a host answers to the LOGIN message of a new neighbour (src/protocol.c).
use mathlib.Core.Option.{none-ne-some}
use rn_praktikum.Base.{
  ℕ, ◌+◌, ◌^◌, ◌<◌, ◌≡◌, ◌≢◌, refl, ap, sym, ◌∙◌, inl, inr, List, [], ◌∷◌, ◌++◌, none, some, ◌>>=◌,
  arith, length, length-append, take, get_or, c_str,
}
use rn_praktikum.Names.{header_size, type_heart, get_name}
use rn_praktikum.Queue.{MessageSend, max_queue_size}
use rn_praktikum.Table.{Entry, scanned, record_size, get_routing, adress_and_port}
use rn_praktikum.Table.Wire.{read_entry}
use rn_praktikum.Table.Export.{first_entry}
use rn_praktikum.Table.Lookup.{lookup}
use rn_praktikum.Table.Invariant.{IsValid, used}
use rn_praktikum.Table.Slots.{add_entry-All}
use rn_praktikum.Table.Relax.{update_record_cases}
use rn_praktikum.Table.Update.{State, update_record, update_from}
use rn_praktikum.Node.{Node, table_update, update_loop, lock_table, unlock_table}
use rn_praktikum.Heartbeat.{send_to}
use rn_praktikum.Protocol.{route_message}
use rn_praktikum.Protocol.Receive.{login_record, msg_login}
use rn_praktikum.Protocol.Login.{
  login_content, neighbour, get_name-login_record, table_update_login,
}
use rn_praktikum.Protocol.Neighbours.{letters}
use rn_praktikum.Protocol.Arrival.{first_entry-login, route_message_total}
use rn_praktikum.Protocol.Beat.{signal, length-signal}
use rn_praktikum.Protocol.Listed.{Named, AllNamed}
use rn_praktikum.Protocol.Told.{
  length-letters, told_users, told_users-le, letters-Lists, send_routes-letters, send_to-room,
  get_routing-neighbour, table_letter, heart_letter,
}

-- The host when msg_login has put the new neighbour into the table.
abbrev pub updated_by : (junk junk' : ℕ → List ℕ) → List ℕ → Node → Node
updated_by junk junk' content n = table_update junk junk' (login_record content) record_size n

-- A record for a new name that starts with its first byte keeps all names so.
update_record-AllNamed :
    (junk junk' working : List ℕ) (st : State)
    → get_or (get_name junk working) 0 0 ≢ 0
    → lookup st.table (get_name junk working) ≡ none
    → AllNamed st.table.slots
    → AllNamed (update_record junk junk' working st).table.slots
unfolding read_entry
update_record-AllNamed junk junk' working st n unknown a =
    elim (update_record_cases junk junk' working st) [
      | inl (l, p) ↦ rw p (add_entry-All (λ s. Named s.entry) _ st n a)
      | inr (x, l, p) ↦ absurd (none-ne-some x (sym unknown ∙ l))
    ]

updated_by-AllNamed :
    (junk junk' : ℕ → List ℕ) (name rest : List ℕ) (adress port : ℕ) (n : Node)
    → get_or name 0 0 ≢ 0
    → length name ≡ 32
    → adress < 2 ^ 32
    → port < 2 ^ 16
    → length (junk 0) ≡ 32
    → lookup n.table name ≡ none
    → AllNamed n.table.slots
    → AllNamed (updated_by junk junk' (login_content name adress port rest) n).table.slots
unfolding table_update update_loop update_from lock_table unlock_table
updated_by-AllNamed junk junk' name rest adress port n nz hn ha hp hj unknown a =
    let working = take record_size (login_record (login_content name adress port rest)) in
    let named = get_name-login_record name rest (junk 0) adress port nz hn ha hp hj in
    update_record-AllNamed (junk 0) (junk' 0) working
      (record { table = (lock_table n).table; ui = n.ui })
      (λ z. nz (sym (ap (λ x. get_or x 0 0) named) ∙ z)) (ap (lookup n.table) named ∙ unknown) a

-- What a host answers when a new direct neighbour logs in, `content` being the rest of its message.
-- msg_login returns. Behind what waits in the queue it puts the ROUTE message with the updated
-- table for the direct neighbours, the new one among them, and then a heartbeat to the new one.
-- What goes to the new one is for the address and the port that it has announced, and the ROUTE
-- message has its name as the target; the table is the one that tableUpdate has left, with the new
-- neighbour in it. The name is left-aligned in its 32 bytes, and as a string the name of the
-- sender; address and port have 32 and 16 bits; the host has a valid table, in which all names
-- start with their first byte, its own entry and a free place, does not know the name, and its
-- queue has room for eleven messages.
pub login_answered :
    (junk junk' : ℕ → List ℕ) (sender name rest : List ℕ) (adress port : ℕ) (n : Node) (own : Entry)
    → get_or name 0 0 ≢ 0
    → length name ≡ 32
    → c_str sender ≡ c_str name
    → adress < 2 ^ 32
    → port < 2 ^ 16
    → length (junk 0) ≡ 32
    → length (junk' 0) ≡ 32
    → IsValid n.table
    → first_entry n.table.slots ≡ some own
    → lookup n.table name ≡ none
    → used n.table < scanned
    → AllNamed n.table.slots
    → length n.send + scanned < max_queue_size
    → let content = login_content name adress port rest in
      let dest = adress_and_port adress port in
      (m : Node) × (r : List ℕ) × (pre : List MessageSend) × (post : List MessageSend) × (msg_login
          junk junk' sender content n
        ≡ some m)
      × (route_message (updated_by junk junk' content n) ≡ some r)
      × (m.send
          ≡ (n.send ++ (pre ++ table_letter name r dest ∷ post))
            ++ heart_letter n.own_name sender dest ∷ [])
      × (lookup m.table name ≡ some (neighbour name adress port 1))
      × (m.table ≡ (updated_by junk junk' content n).table)
unfolding msg_login table_update update_loop update_from lock_table unlock_table
login_answered junk junk' sender name rest adress port n own nz hn es ha hp hj hj' v first unknown
      room a queue =
    let content = login_content name adress port rest in
    let t = updated_by junk junk' content n in
    let found =
      table_update_login junk junk' name rest adress port n nz hn ha hp hj hj' v unknown room in
    let (r, er) =
      route_message_total t own
        (first_entry-login junk junk' name rest adress port n own nz hn ha hp hj unknown first) in
    let named = updated_by-AllNamed junk junk' name rest adress port n nz hn ha hp hj unknown a in
    let (pre, post, el) = letters-Lists t.table name r adress port named found in
    let told : Node = record t {
      send = n.send ++ letters t.table r (length r) (told_users t.table);
    } in
    let reply = signal n.own_name sender type_heart in
    let last = heart_letter n.own_name sender (get_routing t.table sender) in
    (
      record told { send = told.send ++ last ∷ [] },
      r,
      pre,
      post,
      ap (λ o. o >>= λ (x : Node). some (send_to sender reply header_size x))
            (send_routes-letters t r er (omega arith))
          ∙ ap some (
              send_to-room sender reply header_size told
                (length-signal n.own_name sender type_heart)
                (omega (
                  arith,
                  length-append n.send (letters t.table r (length r) (told_users t.table)),
                  length-letters t.table r (length r) (told_users t.table),
                  told_users-le t.table,
                  queue,
                ))),
      er,
      ap (λ (l : List MessageSend). (n.send ++ l) ++ last ∷ []) el
          ∙ ap
              (λ d.
                (n.send ++ (pre ++ table_letter name r (adress_and_port adress port) ∷ post))
                ++ heart_letter n.own_name sender d ∷ [])
              (get_routing-neighbour t.table sender name adress port found es),
      found,
      refl,
    )
