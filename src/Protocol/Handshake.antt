-- ===== src/Protocol/Handshake.antt =====
-- How a host joins: the LOGIN message of do_login, the answer of msg_login, and what msg_route
-- makes of that answer (src/protocol.c).
use mathlib.Core.List.{append_assoc}
use mathlib.Core.Path.{subst}
use rn_praktikum.Base.{
  ℕ, ◌+◌, ◌*◌, ◌-◌, ◌^◌, ◌≤◌, ◌<◌, ◌≡◌, ◌≢◌, refl, ap, sym, ◌∙◌, List, [], ◌∷◌, ◌++◌, none, some,
  arith, length, length-append, take_all, get_or, zeros, c_str, All,
}
use rn_praktikum.Names.{name_len, eot}
use rn_praktikum.Names.Length.{NoEot}
use rn_praktikum.Queue.{MessageSend, single, push, max_queue_size}
use rn_praktikum.Table.{Entry, scanned, adress_and_port}
use rn_praktikum.Table.Wire.{bytes32}
use rn_praktikum.Table.Export.{first_entry}
use rn_praktikum.Table.Lookup.{lookup}
use rn_praktikum.Table.Invariant.{IsValid, used}
use rn_praktikum.Table.Announce.{announced}
use rn_praktikum.Table.Growth.{Reached}
use rn_praktikum.Table.Exchange.{Have32}
use rn_praktikum.Node.{Node}
use rn_praktikum.Node.Heard.{Heard, HasFirst}
use rn_praktikum.Tcp.{send_tcp, read_tcp, max_read, buf_size}
use rn_praktikum.Tcp.Stream.{Accepts, send_tcp_lem, waiting, read_tcp_lem}
use rn_praktikum.Protocol.{do_login}
use rn_praktikum.Protocol.Receive.{handle_msg}
use rn_praktikum.Protocol.Login.{neighbour}
use rn_praktikum.Protocol.Joining.{name_field, login_bytes, length-login_bytes, do_login_lem}
use rn_praktikum.Protocol.Join.{length-name_field, get_or-append}
use rn_praktikum.Protocol.Told.{table_letter, heart_letter}
use rn_praktikum.Protocol.Fits.{Fits}
use rn_praktikum.Protocol.Answer.{login_treated, answer_delivered}

-- How a host joins, both ways. `n` logs in under its own name: do_login queues one message, which
-- send_tcp sends whole and read_tcp of the host `n'` gets whole. protocol_handle_msg of `n'`
-- returns, with the name as a direct neighbour at the announced address and port, and queues
-- messages for its neighbours, among them one with its table for the new one, and a heartbeat to it
-- at the end. The message with the table is again sent and read whole; protocol_handle_msg of `n`
-- returns too, and then `n` has a way to every name that is announced of the table of `n'`, with at
-- most one hop more, and in particular to the own entry of `n'`. Both connections take at least one
-- byte of a write. The name has 1 to 32 bytes, the first is no 0, the name of `n'` has at most 32,
-- and no byte of the LOGIN message is an EOT; the address has 32 bits and the port 16. `n'` has a
-- valid table with its own entry, all entries fit the C types and the name is not among them, and
-- its queue has room for eleven messages. `n` has a valid table, whose first place is taken and in
-- which no name has grown stale. Both tables together have fewer than ten entries. `rest` and
-- `rest'` are what the buffers of `n'` and `n` hold behind the messages.
pub handshake :
    (junk junk' noise noise' : ℕ → List ℕ) (write write' : ℕ → ℕ → ℕ) (last last' : ℕ)
    (name rest rest' : List ℕ) (adress port target_addr target_port : ℕ) (n n' : Node) (own : Entry)
    → Accepts write
    → Accepts write'
    → get_or name 0 0 ≢ 0
    → length name ≤ 32
    → c_str n.own_name ≡ c_str name
    → length (c_str n'.own_name) ≤ name_len
    → NoEot (login_bytes n.own_name name (bytes32 adress) port)
    → adress < 2 ^ 32
    → port < 2 ^ 16
    → Have32 junk
    → Have32 junk'
    → Have32 noise
    → Have32 noise'
    → IsValid n'.table
    → first_entry n'.table.slots ≡ some own
    → get_or own.next_chat_name 0 0 ≢ 0
    → All Fits n'.table.slots
    → lookup n'.table (name_field name) ≡ none
    → length n'.send + scanned < max_queue_size
    → IsValid n.table
    → HasFirst n.table.slots
    → All Heard n.table.slots
    → used n.table + used n'.table < scanned
    → let field = name_field name in
      let dest = adress_and_port adress port in
      (q : MessageSend) × (bytes : List ℕ) × (m : Node) × (r : List ℕ) × (pre : List MessageSend)
      × (post : List MessageSend) × (answer : List ℕ) × (k : Node) × (do_login name
            (bytes32 adress)
            port
            target_addr
            target_port
            n
          ≡ some (record n { send = (push n.send q).0 }))
      × (send_tcp write (length q.msg + 1) last q.msg ≡ some bytes)
      × (read_tcp (waiting bytes) ≡ some bytes)
      × (handle_msg junk junk' (length bytes) (bytes ++ rest) n' ≡ some m)
      × (lookup m.table field ≡ some (neighbour field adress port 1))
      × (m.send
          ≡ (n'.send ++ (pre ++ table_letter field r dest ∷ post))
            ++ heart_letter n'.own_name name dest ∷ [])
      × (send_tcp write'
            (length (table_letter field r dest).msg + 1)
            last'
            (table_letter field r dest).msg
          ≡ some answer)
      × (read_tcp (waiting answer) ≡ some answer)
      × (handle_msg noise noise'
            (length answer)
            (answer ++ rest')
            (record n { send = (push n.send q).0 })
          ≡ some k)
      × All (λ e. Reached k.table e.chat_name (e.hop_count + 1)) (announced m.table)
      × Reached k.table own.chat_name (own.hop_count + 1)
unfolding bytes32
handshake junk junk' noise noise' write write' last last' name rest rest' adress port target_addr
      target_port n n' own ok ok' nz hn same short ne ha hp hj hj' hk hk' v first nn fits unknown
      queue vn first' heard room =
    let msg = login_bytes n.own_name name (bytes32 adress) port in
    let bytes = msg ++ eot ∷ [] in
    let field = name_field name in
    let nz' = get_or-append name (zeros (32 - length name)) nz in
    let q : MessageSend = record {
      dest_addr = target_addr * 2 ^ 32 + target_port;
      msg = msg;
      msg_len = 104;
      msg_counter = single;
    } in
    let n1 : Node = record n { send = (push n.send q).0 } in
    let size : length msg ≡ 104 =
      length-login_bytes n.own_name name (bytes32 adress) port hn refl in
    let size' : length bytes ≡ 105 = omega (arith, length-append msg (eot ∷ [])) in
    let (m, r, pre, post, handled, er, sent, found, table) =
      login_treated junk junk' n.own_name name (eot ∷ rest) adress port (length bytes) n' own nz hn
        same ha hp (hj 0) (hj' 0) v first fits unknown (omega arith) queue (omega arith) in
    let (answer, k, out, got, learned, all, mine) =
      answer_delivered junk junk' noise noise' write' last' field (eot ∷ rest) rest' r adress port
        n' n1 own ok' nz' (length-name_field name hn) short ha hp (hj 0) (hj' 0) hk hk' v first nn
        fits unknown vn heard first' room er in
    (
      q,
      bytes,
      m,
      r,
      pre,
      post,
      answer,
      k,
      do_login_lem name (bytes32 adress) port target_addr target_port n nz hn refl ne,
      send_tcp_lem write last msg ok (omega arith),
      read_tcp_lem bytes ∙ ap some (take_all bytes (max_read * buf_size) (omega arith)),
      ap (λ b. handle_msg junk junk' (length bytes) b n') (append_assoc msg (eot ∷ []) rest)
          ∙ handled,
      found,
      sent,
      out,
      got,
      learned,
      subst (λ t. All (λ e. Reached k.table e.chat_name (e.hop_count + 1)) (announced t))
          (sym table) all,
      mine,
    )
