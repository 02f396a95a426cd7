-- ===== src/Protocol/Logout.antt =====
-- A LOGOUT message of src/protocol.c, from the host that leaves to the table of another.
use mathlib.Core.List.{append_assoc}
use rn_praktikum.Base.{
  ℕ, zero, suc, ◌+◌, ◌*◌, ◌≤◌, ◌≡◌, refl, ap, ◌∙◌, List, [], ◌∷◌, ◌++◌, Option, none, some, false,
  arith, length, length-append, take_all, zeros, c_str, str_eq, bytes_eq,
}
use rn_praktikum.Names.{Header, header_of_bytes, header_size, name_len, eot, type_logout, get_name}
use rn_praktikum.Names.RoundTrip.{header_received}
use rn_praktikum.Table.{get_routing, Entry, scanned, lock, Slot, Mutex}
use rn_praktikum.Table.Delete.{delete_from, delete_loop, leads_to}
use rn_praktikum.Table.Export.{first_entry}
use rn_praktikum.Table.Forget.{forget}
use rn_praktikum.Table.Lookup.{lookup}
use rn_praktikum.Table.Invariant.{IsValid}
use rn_praktikum.Node.{Node, delete_from_table}
use rn_praktikum.Node.Aging.{lookup-delete_from_table}
use rn_praktikum.Tcp.{send_tcp, read_tcp, max_read, buf_size}
use rn_praktikum.Tcp.Stream.{Accepts, send_tcp_lem, waiting, read_tcp_lem}
use rn_praktikum.Queue.{MessageSend, max_queue_size}
use rn_praktikum.Protocol.Listed.{AllNamed}
use rn_praktikum.Protocol.Leave.{logout_letter, do_logout_tells}
use rn_praktikum.Protocol.{tell, do_logout}
use rn_praktikum.Protocol.Receive.{handle_msg, dispatch, msg_logout, is_for_other, text_signed_off}
use rn_praktikum.Protocol.Chat.{handle_msg-dispatch, length-header_bytes}
use rn_praktikum.Protocol.Arrival.{send_routes_total}
use rn_praktikum.Protocol.Beat.{signal}

is_for_other-logout :
    (h : Header) (target : List ℕ) (n : Node)
    → h.type ≡ type_logout
    → is_for_other h target n ≡ false
unfolding is_for_other
is_for_other-logout h target n e = ground (arith, e)

dispatch-logout :
    (junk junk' : ℕ → List ℕ) (type : ℕ) (sender content : List ℕ) (count : ℕ) (n : Node)
    → type ≡ type_logout
    → dispatch junk junk' type sender content count n ≡ msg_logout sender n
unfolding dispatch
dispatch-logout junk junk' type sender content count n e = rw e refl

forget-congr : (a b : List ℕ) (o : Option Entry) → c_str a ≡ c_str b → forget a o ≡ forget b o
forget-congr a b none e = refl
forget-congr a b (some x) e = rw e refl

-- The deletion of another name leaves the first entry where it is.
first_entry-delete_other :
    (k : ℕ) (name : List ℕ) (slots : List Slot) (free : ℕ) (m : Mutex) (own : Entry)
    → first_entry slots ≡ some own
    → str_eq own.chat_name name ≡ false
    → str_eq own.next_chat_name name ≡ false
    → first_entry (delete_from k name slots free m).slots ≡ some own
unfolding delete_from first_entry leads_to
first_entry-delete_other zero name slots free m own h d e = h
first_entry-delete_other (suc k) name [] free m own h d e = h
first_entry-delete_other (suc k) name (s ∷ slots) free m own h d e = ground (arith, h, d, e)

-- msg_logout on a host that has its own entry.
msg_logout_lem :
    (sender : List ℕ) (n : Node) (own : Entry)
    → IsValid n.table
    → first_entry n.table.slots ≡ some own
    → str_eq own.chat_name sender ≡ false
    → str_eq own.next_chat_name sender ≡ false
    → (m : Node) × (msg_logout sender n ≡ some m)
      × ((x : List ℕ) → lookup m.table x ≡ forget sender (lookup n.table x))
unfolding msg_logout tell delete_from_table delete_loop
msg_logout_lem sender n own v first d e =
    let told = tell text_signed_off sender n in
    let (m, sent, t) = send_routes_total [] (delete_from_table sender told) own (
      first_entry-delete_other scanned sender n.table.slots n.table.free_entries
        (lock n.table.mutex) own first d e) in
    (m, sent, λ x. ap (λ u. lookup u x) t ∙ lookup-delete_from_table sender x told v)

-- How a host is forgotten that leaves. do_logout of `n` queues, among its messages behind those
-- that wait, one for each direct neighbour that the search finds, here the one of the entry `e`,
-- for the next hop to it. That message is sent whole by send_tcp, in whatever pieces the connection
-- takes it, and read_tcp of the receiver `n'` gets it whole when all of it waits there.
-- protocol_handle_msg of `n'` then returns, and the table of `n'` finds for every name what it
-- found before, but for the entry of `n` and those whose ways lead over `n`: these are gone. In the
-- table of `n` all names start with their first byte, its queue has room for ten messages, the
-- names of `n` and of the neighbour have at most 32 bytes, `n'` has a valid table with its own
-- entry, which neither is for `n` nor leads over it, and `rest` is what its buffer holds behind the
-- message.
pub logout_delivered :
    (junk junk' : ℕ → List ℕ) (write : ℕ → ℕ → ℕ) (last : ℕ) (rest name : List ℕ) (e : Entry)
    (n n' : Node) (own : Entry)
    → Accepts write
    → AllNamed n.table.slots
    → lookup n.table name ≡ some e
    → e.hop_count ≡ 1
    → length n.send + scanned ≤ max_queue_size
    → length (c_str n.own_name) ≤ name_len
    → length (c_str e.chat_name) ≤ name_len
    → IsValid n'.table
    → first_entry n'.table.slots ≡ some own
    → str_eq own.chat_name n.own_name ≡ false
    → str_eq own.next_chat_name n.own_name ≡ false
    → (q : MessageSend) × (pre : List MessageSend) × (post : List MessageSend) × (bytes : List ℕ)
      × (m : Node) × (do_logout n ≡ record n { send = n.send ++ (pre ++ q ∷ post) })
      × (q.dest_addr ≡ get_routing n.table e.chat_name)
      × (send_tcp write (length q.msg + 1) last q.msg ≡ some bytes)
      × (read_tcp (waiting bytes) ≡ some bytes)
      × (handle_msg junk junk' (length bytes) (bytes ++ rest) n' ≡ some m)
      × ((x : List ℕ) → lookup m.table x ≡ forget n.own_name (lookup n'.table x))
logout_delivered junk junk' write last rest name e n n' own ok named near one room hn hu v first d
      over =
    let msg = signal n.own_name e.chat_name type_logout in
    let bytes = msg ++ eot ∷ [] in
    let size : length msg ≡ header_size = length-header_bytes n.own_name e.chat_name type_logout in
    let size' : length bytes ≡ header_size + 1 =
      omega (arith, size, length-append msg (eot ∷ [])) in
    let (pre, post, told) = do_logout_tells n name e named near one room in
    let content = eot ∷ rest in
    let (type, from, target) = header_received n.own_name e.chat_name type_logout content hn hu in
    let h = header_of_bytes (msg ++ content) in
    let sender = get_name (zeros 33) h.sendername in
    let other = λ (a : List ℕ). ap (bytes_eq (c_str a)) from in
    let (m, handled, found) =
      msg_logout_lem sender n' own v first (other own.chat_name ∙ d)
        (other own.next_chat_name ∙ over) in
    (
      logout_letter n e,
      pre,
      post,
      bytes,
      m,
      told,
      refl,
      send_tcp_lem write last msg ok (omega arith),
      read_tcp_lem bytes ∙ ap some (take_all bytes (max_read * buf_size) (omega arith)),
      ap (λ b. handle_msg junk junk' (length bytes) b n') (append_assoc msg (eot ∷ []) rest)
          ∙ handle_msg-dispatch junk junk' (length bytes) (msg ++ content) n' (omega arith)
              (is_for_other-logout h _ n' type)
          ∙ dispatch-logout junk junk' _ _ _ (length bytes) n' type
          ∙ handled,
      λ x. found x ∙ forget-congr sender n.own_name (lookup n'.table x) from,
    )
