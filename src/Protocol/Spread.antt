-- ===== src/Protocol/Spread.antt =====
-- The ROUTE message from one host to the table of another: send_routes and msg_route of
-- src/protocol.c, send_tcp and read_tcp of src/tcp_con.c.
use mathlib.Core.List.{append_assoc}
use rn_praktikum.Base.{
  ℕ, ◌+◌, ◌*◌, ◌-◌, ◌/◌, ◌≤◌, ◌≡◌, ◌≢◌, ap, ◌∙◌, List, [], ◌∷◌, ◌++◌, some, arith, length,
  length-append, take, take_all, get_or, c_str, All,
}
use rn_praktikum.Names.{header_bytes, create_header, header_size, name_len, eot, type_route}
use rn_praktikum.Table.{Entry, Table, scanned, record_size}
use rn_praktikum.Table.Export.{first_entry}
use rn_praktikum.Table.Lookup.{lookup}
use rn_praktikum.Table.Invariant.{IsValid, used}
use rn_praktikum.Table.Update.{State, update_from}
use rn_praktikum.Table.Codec.{IsEntry}
use rn_praktikum.Table.Announce.{announced, records}
use rn_praktikum.Table.Growth.{Reached}
use rn_praktikum.Table.Exchange.{
  IsAnnounced, Have32, HasName-announced, update_from-Reached, update_from-tail,
}
use rn_praktikum.Node.{Node, lock_table}
use rn_praktikum.Node.Heard.{Heard, HasFirst, before}
use rn_praktikum.Tcp.{send_tcp, read_tcp, max_read, buf_size}
use rn_praktikum.Tcp.Stream.{Accepts, send_tcp_lem, waiting, read_tcp_lem}
use rn_praktikum.Protocol.{route_message}
use rn_praktikum.Protocol.Receive.{handle_msg}
use rn_praktikum.Protocol.Chat.{length-header_bytes}
use rn_praktikum.Protocol.Told.{table_letter}
use rn_praktikum.Protocol.Route.{
  route_bytes, length-route_bytes, route_message_bytes, header-readdressed, handle_msg-route,
  msg_route-Heard,
}

Reached-alike :
    (t t' : Table) (es : List Entry)
    → ((x : List ℕ) → lookup t' x ≡ lookup t x)
    → All (λ e. Reached t e.chat_name (e.hop_count + 1)) es
    → All (λ e. Reached t' e.chat_name (e.hop_count + 1)) es
Reached-alike t t' [] same h = tt
Reached-alike t t' (e ∷ es) same ((x, p, q), h) =
    ((x, same e.chat_name ∙ p, q), Reached-alike t t' es same h)

-- The message as it is queued for a neighbour.
table_letter-route :
    (from name : List ℕ) (own : Entry) (es : List Entry) (dest : ℕ)
    → (table_letter name (route_bytes from [] own es) dest).msg ≡ route_bytes from name own es
table_letter-route from name own es dest =
    let size : length (route_bytes from name own es) ≡ length (route_bytes from [] own es) = omega (
      arith,
      length-append _ (records own es),
      length-header_bytes from name type_route,
      length-header_bytes from [] type_route,
    ) in
    ap (take (length (route_bytes from [] own es)))
      (header-readdressed from name type_route (records own es))
    ∙ take_all (route_bytes from name own es) (length (route_bytes from [] own es)) (omega arith)

-- What a host with a valid table knows when it has treated the message.
route_learned :
    (junk junk' : ℕ → List ℕ) (from name rest : List ℕ) (own : Entry) (es : List Entry) (n : Node)
    → length (c_str from) ≤ name_len
    → length (c_str name) ≤ name_len
    → IsEntry own
    → get_or own.next_chat_name 0 0 ≢ 0
    → All IsAnnounced es
    → Have32 junk
    → Have32 junk'
    → IsValid n.table
    → used n.table + length es ≤ scanned
    → All Heard n.table.slots
    → HasFirst n.table.slots
    → (m : Node) × (handle_msg junk junk'
          (header_size + length es * record_size + 1)
          (route_bytes from name own es ++ eot ∷ rest)
          n
        ≡ some m)
      × All (λ e. Reached m.table e.chat_name (e.hop_count + 1)) es
unfolding lock_table
route_learned junk junk' from name rest own es n hf hn vo nn ann hj hj' v room a first =
    let count = header_size + length es * record_size + 1 in
    let header = header_bytes (create_header from name type_route) in
    let content = records own es ++ eot ∷ rest in
    let names = HasName-announced es ann in
    let (sender, handled) =
      handle_msg-route junk junk' from name content count n hf hn (omega arith) in
    let (m, routed, same) =
      msg_route-Heard junk junk' sender content (count - header_size - 1) n a first in
    let rounds : (count - header_size - 1) / record_size ≡ length es = omega arith in
    let left : update_from junk junk' ((count - header_size - 1) / record_size) content (before n)
        ≡ update_from junk junk' (length es) (records own es) (before n) =
      ap (λ k. update_from junk junk' k content (before n)) rounds
      ∙ update_from-tail junk junk' own es (eot ∷ rest) (before n) vo.next_name_length names in
    let valid : IsValid (before n).table = record {
      places = v.places;
      accounted = v.accounted;
      distinct = v.distinct;
      front = v.front;
    } in
    (
      m,
      ap (λ b. handle_msg junk junk' count b n) (append_assoc header (records own es) (eot ∷ rest))
          ∙ handled
          ∙ routed,
      Reached-alike (update_from junk junk' (length es) (records own es) (before n)).table m.table
          es (λ x. same x ∙ ap (λ (s : State). lookup s.table x) left)
          (update_from-Reached junk junk' own es (before n) vo nn ann hj hj' valid room),
    )

-- How a host comes to know what another one knows. `n` sends its table to `name`: the ROUTE message
-- with the name as its target is sent whole by send_tcp, in whatever pieces the connection takes
-- it, and read_tcp of the receiver `n'` gets it whole when all of it waits there.
-- protocol_handle_msg of `n'` then returns, and behind it, cleanUp included, `n'` has a way to
-- every name that `n` has announced, with at most one hop more. `n` has its own entry, its entries
-- fit the C types, with left-aligned names and room for one hop more, and its name and the target
-- have at most 32 bytes; `n'` has a valid table with room for as many names, its first place is
-- taken, and none of its names has grown stale, as after initTable; `rest` is what its buffer holds
-- behind the message.
pub table_delivered :
    (junk junk' : ℕ → List ℕ) (write : ℕ → ℕ → ℕ) (last : ℕ) (name rest : List ℕ) (dest : ℕ)
    (n n' : Node) (own : Entry)
    → Accepts write
    → length (c_str n.own_name) ≤ name_len
    → length (c_str name) ≤ name_len
    → first_entry n.table.slots ≡ some own
    → IsEntry own
    → get_or own.next_chat_name 0 0 ≢ 0
    → All IsAnnounced (announced n.table)
    → Have32 junk
    → Have32 junk'
    → IsValid n'.table
    → used n'.table + length (announced n.table) ≤ scanned
    → All Heard n'.table.slots
    → HasFirst n'.table.slots
    → (r : List ℕ) × (bytes : List ℕ) × (m : Node) × (route_message n ≡ some r)
      × (send_tcp write
            (length (table_letter name r dest).msg + 1)
            last
            (table_letter name r dest).msg
          ≡ some bytes)
      × (read_tcp (waiting bytes) ≡ some bytes)
      × (handle_msg junk junk' (length bytes) (bytes ++ rest) n' ≡ some m)
      × All (λ e. Reached m.table e.chat_name (e.hop_count + 1)) (announced n.table)
table_delivered junk junk' write last name rest dest n n' own ok hn ht first vo nn ann hj hj' v room
      a first' =
    let es = announced n.table in
    let names = HasName-announced es ann in
    let msg = route_bytes n.own_name name own es in
    let bytes = msg ++ eot ∷ [] in
    let size : length msg ≡ header_size + length es * record_size =
      length-route_bytes n.own_name name own es vo.next_name_length names in
    let size' : length bytes ≡ header_size + length es * record_size + 1 =
      omega (arith, size, length-append msg (eot ∷ [])) in
    let (m, handled, learned) =
      route_learned junk junk' n.own_name name rest own es n' hn ht vo nn ann hj hj' v room a
        first' in
    (
      route_bytes n.own_name [] own es,
      bytes,
      m,
      route_message_bytes n own first vo.next_name_length names,
      ap (λ b. send_tcp write (length b + 1) last b)
            (table_letter-route n.own_name name own es dest)
          ∙ send_tcp_lem write last msg ok (omega (arith, size, room)),
      read_tcp_lem bytes
          ∙ ap some (take_all bytes (max_read * buf_size) (omega (arith, size', room))),
      ap (λ b. handle_msg junk junk' (length bytes) b n') (append_assoc msg (eot ∷ []) rest)
          ∙ ap (λ k. handle_msg junk junk' k (msg ++ eot ∷ rest) n') size'
          ∙ handled,
      learned,
    )
