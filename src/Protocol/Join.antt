-- ===== src/Protocol/Join.antt =====
-- A LOGIN message from do_login on one host over send_tcp and read_tcp to the table of another.
use mathlib.Core.List.{append_assoc}
use rn_praktikum.Base.{
  ℕ, ◌+◌, ◌-◌, ◌*◌, ◌^◌, ◌≤◌, ◌<◌, ◌≡◌, ◌≢◌, refl, ap, sym, ◌∙◌, List, [], ◌∷◌, ◌++◌, none, some,
  arith, length, length-append, drop-append, take_all, get_or, zeros, length-replicate, c_str,
  length-c_str-le,
}
use rn_praktikum.Names.{
  create_header, header_bytes, header_of_bytes, header_size, name_len, eot, type_login, get_name,
}
use rn_praktikum.Names.Length.{NoEot}
use rn_praktikum.Names.RoundTrip.{header_received}
use rn_praktikum.Queue.{MessageSend, single, push}
use rn_praktikum.Table.{Entry, scanned}
use rn_praktikum.Table.Wire.{bytes32, bytes16}
use rn_praktikum.Table.Export.{first_entry}
use rn_praktikum.Table.Lookup.{lookup}
use rn_praktikum.Table.Invariant.{IsValid, used}
use rn_praktikum.Node.{Node}
use rn_praktikum.Tcp.{send_tcp, read_tcp, max_read, buf_size}
use rn_praktikum.Tcp.Stream.{Accepts, send_tcp_lem, waiting, read_tcp_lem}
use rn_praktikum.Protocol.{do_login}
use rn_praktikum.Protocol.Receive.{handle_msg, msg_login}
use rn_praktikum.Protocol.Chat.{length-header_bytes, handle_msg-dispatch}
use rn_praktikum.Protocol.Login.{neighbour, login_content, table_update_login}
use rn_praktikum.Protocol.Joining.{name_field, login_bytes, length-login_bytes, do_login_lem}
use rn_praktikum.Protocol.Arrival.{
  is_for_other-login, dispatch-login, first_entry-login, msg_login_total,
}

pub get_or-append : (xs ys : List ℕ) → get_or xs 0 0 ≢ 0 → get_or (xs ++ ys) 0 0 ≢ 0
get_or-append [] ys h = absurd (h refl)
get_or-append (x ∷ xs) ys h = h

pub length-name_field : (name : List ℕ) → length name ≤ 32 → length (name_field name) ≡ 32
length-name_field name h = omega (
  arith,
  length-append name (zeros (32 - length name)),
  length-replicate {A = ℕ} (32 - length name) 0,
)

-- The message as a header and its content.
login_bytes-content :
    (own name rest : List ℕ) (adress port : ℕ)
    → login_bytes own name (bytes32 adress) port ++ rest
      ≡ header_bytes (create_header own [] type_login)
        ++ login_content (name_field name) adress port rest
unfolding bytes16
login_bytes-content own name rest adress port = simp append_assoc

-- The treatment of the message, as far as msg_login.
pub handle_msg-login :
    (junk junk' : ℕ → List ℕ) (own name rest : List ℕ) (adress port count : ℕ) (n : Node)
    → length (c_str own) ≤ name_len
    → header_size ≤ count
    → (sender : List ℕ) × (c_str sender ≡ c_str own)
      × (handle_msg junk junk' count (login_bytes own name (bytes32 adress) port ++ rest) n
          ≡ msg_login junk junk' sender (login_content (name_field name) adress port rest) n)
handle_msg-login junk junk' own name rest adress port count n ho hc =
    let header = header_bytes (create_header own [] type_login) in
    let content = login_content (name_field name) adress port rest in
    let (type, sender, target) =
      header_received own [] type_login content ho (omega (arith, length-c_str-le [])) in
    let h = header_of_bytes (header ++ content) in
    (
      get_name (zeros 33) h.sendername,
      sender,
      ap (λ b. handle_msg junk junk' count b n) (login_bytes-content own name rest adress port)
          ∙ handle_msg-dispatch junk junk' count (header ++ content) n hc
              (is_for_other-login h _ n type)
          ∙ dispatch-login junk junk' _ _ _ count n type
          ∙ ap (λ c. msg_login junk junk' (get_name (zeros 33) h.sendername) c n)
              (drop-append header content header_size
                (sym (length-header_bytes own [] type_login))),
    )

-- How a host joins. `n` logs in at an address: one message is queued for it. send_tcp sends it
-- whole, in whatever pieces the connection takes it, and read_tcp of the receiver `n'` gets it
-- whole when all of it waits there; protocol_handle_msg of `n'` then returns, and the table of `n'`
-- has the name of the message, with the announced address and port, as a direct neighbour that is
-- reached over itself in one hop. The name has 1 to 32 bytes and the first is no 0, the own name in
-- the header has at most 32, no byte of the message is an EOT, the address has 32 bits and the port
-- 16; `n'` has a valid table, its own entry and a free place, and does not know the name; `rest` is
-- what its buffer holds behind the message.
login_delivered :
    (junk junk' : ℕ → List ℕ) (write : ℕ → ℕ → ℕ) (last : ℕ) (name rest : List ℕ)
    (adress port target_addr target_port : ℕ) (n n' : Node) (own : Entry)
    → Accepts write
    → get_or name 0 0 ≢ 0
    → length name ≤ 32
    → length (c_str n.own_name) ≤ name_len
    → NoEot (login_bytes n.own_name name (bytes32 adress) port)
    → adress < 2 ^ 32
    → port < 2 ^ 16
    → length (junk 0) ≡ 32
    → length (junk' 0) ≡ 32
    → IsValid n'.table
    → first_entry n'.table.slots ≡ some own
    → lookup n'.table (name_field name) ≡ none
    → used n'.table < scanned
    → (q : MessageSend) × (bytes : List ℕ) × (m : Node) × (do_login name
          (bytes32 adress)
          port
          target_addr
          target_port
          n
        ≡ some (record n { send = (push n.send q).0 }))
      × (q.dest_addr ≡ target_addr * 2 ^ 32 + target_port)
      × (send_tcp write (length q.msg + 1) last q.msg ≡ some bytes)
      × (read_tcp (waiting bytes) ≡ some bytes)
      × (handle_msg junk junk' (length bytes) (bytes ++ rest) n' ≡ some m)
      × (lookup m.table (name_field name) ≡ some (neighbour (name_field name) adress port 1))
unfolding bytes32
login_delivered junk junk' write last name rest adress port target_addr target_port n n' own ok nz
      hn ho ne ha hp hj hj' v hown unknown room =
    let msg = login_bytes n.own_name name (bytes32 adress) port in
    let field = name_field name in
    let nz' = get_or-append name (zeros (32 - length name)) nz in
    let hf = length-name_field name hn in
    let size : length msg ≡ 104 =
      length-login_bytes n.own_name name (bytes32 adress) port hn refl in
    let size' : length (msg ++ eot ∷ []) ≡ 105 = omega (arith, length-append msg (eot ∷ [])) in
    let (sender, named, handled) =
      handle_msg-login junk junk' n.own_name name (eot ∷ rest) adress port
        (length (msg ++ eot ∷ [])) n' ho (omega arith) in
    let first =
      first_entry-login junk junk' field (eot ∷ rest) adress port n' own nz' hf ha hp hj unknown
        hown in
    let (m, returned, table) =
      msg_login_total junk junk' sender (login_content field adress port (eot ∷ rest)) n' own
        first in
    (
      record {
        dest_addr = target_addr * 2 ^ 32 + target_port;
        msg = msg;
        msg_len = 104;
        msg_counter = single;
      },
      msg ++ eot ∷ [],
      m,
      do_login_lem name (bytes32 adress) port target_addr target_port n nz hn refl ne,
      refl,
      send_tcp_lem write last msg ok (omega (arith, size, size')),
      read_tcp_lem (msg ++ eot ∷ [])
          ∙ ap some (take_all (msg ++ eot ∷ []) (max_read * buf_size) (omega (arith, size'))),
      ap (λ b. handle_msg junk junk' (length (msg ++ eot ∷ [])) b n')
            (append_assoc msg (eot ∷ []) rest)
          ∙ handled
          ∙ returned,
      ap (λ t. lookup t field) table
          ∙ table_update_login junk junk' field (eot ∷ rest) adress port n' nz' hf ha hp hj hj' v
              unknown room,
    )
