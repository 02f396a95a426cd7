-- ===== src/Protocol/Route.antt =====
-- A ROUTE message of src/protocol.c: its bytes, and its treatment by a host none of whose names has
-- grown stale.
use mathlib.Core.List.{append_assoc}
use rn_praktikum.Base.{
  ℕ, ◌+◌, ◌*◌, ◌-◌, ◌/◌, ◌≤◌, ◌≡◌, refl, ap, sym, ◌∙◌, List, [], ◌∷◌, ◌++◌, some, false, ◌>>=◌,
  arith, length, length-append, length-replicate, drop-append, zeros, write_at, write_at-append,
  c_str, All,
}
use rn_praktikum.Names.{
  Header, create_header, header_bytes, header_of_bytes, header_size, name_len, type_route, get_name,
  set_name,
}
use rn_praktikum.Names.RoundTrip.{header_received, length-set_name}
use rn_praktikum.Table.{Entry, record_size, get_routing_table_size}
use rn_praktikum.Table.Export.{first_entry}
use rn_praktikum.Table.Lookup.{lookup}
use rn_praktikum.Table.Update.{update_from}
use rn_praktikum.Table.Announce.{
  announced, records, HasName, length-entry_bytes, table_to_char_array-records,
}
use rn_praktikum.Node.{Node, table_update}
use rn_praktikum.Node.Heard.{Heard, HasFirst, before, table_update-Heard}
use rn_praktikum.Protocol.{route_message}
use rn_praktikum.Protocol.Receive.{handle_msg, dispatch, msg_route, is_for_other}
use rn_praktikum.Protocol.Chat.{handle_msg-dispatch, length-header_bytes}
use rn_praktikum.Protocol.Arrival.{send_routes_total}

-- The message with the table of the own entry `own` and the entries `es`.
abbrev pub route_bytes : List ℕ → List ℕ → Entry → List Entry → List ℕ
route_bytes from to own es = header_bytes (create_header from to type_route) ++ records own es

pub length-records :
    (own : Entry) (es : List Entry)
    → length own.next_chat_name ≡ 32
    → All HasName es
    → length (records own es) ≡ length es * record_size
length-records own [] ho names = refl
length-records own (e ∷ es) ho (name, names) = omega (
  arith,
  length-append {0} {A = ℕ},
  length-entry_bytes own e ho name,
  length-records own es ho names,
)

pub length-route_bytes :
    (from to : List ℕ) (own : Entry) (es : List Entry)
    → length own.next_chat_name ≡ 32
    → All HasName es
    → length (route_bytes from to own es) ≡ header_size + length es * record_size
length-route_bytes from to own es ho names = omega (
  arith,
  length-append {0} {A = ℕ},
  length-header_bytes from to type_route,
  length-records own es ho names,
)

pub route_message_bytes :
    (n : Node) (own : Entry)
    → first_entry n.table.slots ≡ some own
    → length own.next_chat_name ≡ 32
    → All HasName (announced n.table)
    → route_message n ≡ some (route_bytes n.own_name [] own (announced n.table))
unfolding route_message
route_message_bytes n own first ho names =
    let header = header_bytes (create_header n.own_name [] type_route) in
    let size = get_routing_table_size n.table in
    ap (λ o. o >>= λ (b : List ℕ). some (header ++ b))
      (table_to_char_array-records n.table own (zeros size) first ho names
        (length-replicate {A = ℕ} size 0))

-- The target is written over the empty one.
pub header-readdressed :
    (from name : List ℕ) (type : ℕ) (content : List ℕ)
    → write_at 34 (set_name name) (header_bytes (create_header from [] type) ++ content)
      ≡ header_bytes (create_header from name type) ++ content
unfolding header_bytes create_header
header-readdressed from name type content =
    let front : List ℕ = type ∷ 1 ∷ set_name from in
    ap (λ m. write_at 34 (set_name name) m) (append_assoc front (set_name []) content)
    ∙ write_at-append front (set_name name) (set_name []) content 34
        (omega (arith, length-set_name from)) (omega (arith, length-set_name))
    ∙ sym (append_assoc front (set_name name) content)

is_for_other-route :
    (h : Header) (target : List ℕ) (n : Node)
    → h.type ≡ type_route
    → is_for_other h target n ≡ false
unfolding is_for_other
is_for_other-route h target n e = ground (arith, e)

dispatch-route :
    (junk junk' : ℕ → List ℕ) (type : ℕ) (sender content : List ℕ) (count : ℕ) (n : Node)
    → type ≡ type_route
    → dispatch junk junk' type sender content count n
      ≡ msg_route junk junk' sender content (count - header_size - 1) n
unfolding dispatch
dispatch-route junk junk' type sender content count n e = rw e refl

-- The treatment of a ROUTE message, as far as msg_route.
pub handle_msg-route :
    (junk junk' : ℕ → List ℕ) (from to content : List ℕ) (count : ℕ) (n : Node)
    → length (c_str from) ≤ name_len
    → length (c_str to) ≤ name_len
    → header_size ≤ count
    → (sender : List ℕ) × (handle_msg junk junk' count
          (header_bytes (create_header from to type_route) ++ content)
          n
        ≡ msg_route junk junk' sender content (count - header_size - 1) n)
handle_msg-route junk junk' from to content count n hf ht hc =
    let header = header_bytes (create_header from to type_route) in
    let (type, sender, target) = header_received from to type_route content hf ht in
    let h = header_of_bytes (header ++ content) in
    (
      get_name (zeros 33) h.sendername,
      handle_msg-dispatch junk junk' count (header ++ content) n hc (is_for_other-route h _ n type)
          ∙ dispatch-route junk junk' _ _ _ count n type
          ∙ ap
              (λ c.
                msg_route junk junk' (get_name (zeros 33) h.sendername) c (count - header_size - 1)
                  n)
              (drop-append header content header_size
                (sym (length-header_bytes from to type_route))),
    )

-- msg_route returns, and what is found afterwards is what the loop of tableUpdate has left.
pub msg_route-Heard :
    (junk junk' : ℕ → List ℕ) (sender content : List ℕ) (size : ℕ) (n : Node)
    → All Heard n.table.slots
    → HasFirst n.table.slots
    → (m : Node) × (msg_route junk junk' sender content size n ≡ some m)
      × ((x : List ℕ)
          → lookup m.table x
            ≡ lookup (update_from junk junk' (size / record_size) content (before n)).table x)
unfolding msg_route
msg_route-Heard junk junk' sender content size n a first =
    let (same, (e, p)) = table_update-Heard junk junk' content size n a first in
    let (m, sent, t) = send_routes_total sender (table_update junk junk' content size n) e p in
    (m, sent, λ x. ap (λ u. lookup u x) t ∙ same x)
