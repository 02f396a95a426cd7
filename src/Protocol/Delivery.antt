-- ===== src/Protocol/Delivery.antt =====
-- A chat line from do_chat on one host over send_tcp and read_tcp to protocol_handle_msg on
-- another.
use mathlib.Core.List.{append_assoc}
use rn_praktikum.Base.{
  ℕ, ◌+◌, ◌*◌, ◌≤◌, ◌<◌, ◌≡◌, refl, ap, ◌∙◌, List, [], ◌∷◌, ◌++◌, some, true, false, arith, length,
  length-append, c_str, c_str-NoNul, str_eq, take_all,
}
use rn_praktikum.Names.{header_size, name_len, eot, msg_size}
use rn_praktikum.Names.Length.{NoEot}
use rn_praktikum.Queue.{MessageSend, single, push}
use rn_praktikum.Table.{get_routing}
use rn_praktikum.Table.Print.{system}
use rn_praktikum.Node.{Node}
use rn_praktikum.Tcp.{send_tcp, read_tcp, max_read, buf_size}
use rn_praktikum.Tcp.Stream.{Accepts, send_tcp_lem, waiting, read_tcp_lem}
use rn_praktikum.Protocol.{do_chat}
use rn_praktikum.Protocol.Receive.{handle_msg}
use rn_praktikum.Protocol.Chat.{chat_bytes, handle_msg_chat, length-header_bytes}
use rn_praktikum.Protocol.Typed.{do_chat_lem}

-- What a chat line becomes on its way to a direct neighbour. `n` types it for `target`, which is
-- not "System": one message is queued, for the next hop to `target`. send_tcp sends it whole, in
-- whatever pieces the connection takes it, and read_tcp of the receiver `n'` gets it whole when
-- all of it waits there; then `n'`, if `target` is its name, shows the text under the name of `n`.
-- The names have at most 32 bytes, neither they nor the text hold an EOT, and header, text and EOT
-- fit into 1500 bytes; `rest` is what the receiver's buffer holds behind the message.
chat_delivered :
    (junk junk' : ℕ → List ℕ) (write : ℕ → ℕ → ℕ) (last : ℕ) (target msg rest : List ℕ)
    (n n' : Node)
    → Accepts write
    → length (c_str n.own_name) ≤ name_len
    → length (c_str target) ≤ name_len
    → str_eq target system ≡ false
    → str_eq target n'.own_name ≡ true
    → NoEot (chat_bytes n.own_name target (c_str msg))
    → NoEot (c_str msg)
    → header_size + length (c_str msg) < msg_size
    → (q : MessageSend) × (bytes : List ℕ) × (do_chat target msg n
        ≡ some (record n { send = (push n.send q).0 }))
      × (q.dest_addr ≡ get_routing n.table target)
      × (q.msg_counter ≡ single)
      × (send_tcp write (length q.msg + 1) last q.msg ≡ some bytes)
      × (read_tcp (waiting bytes) ≡ some bytes)
      × (handle_msg junk junk' (length bytes) (bytes ++ rest) n'
          ≡ some (record n' {
            ui = (push n'.ui (record { text = c_str msg; name = c_str n.own_name })).0;
          }))
chat_delivered junk junk' write last target msg rest n n' ok hn ht other own ne ne' short =
    let m = chat_bytes n.own_name target (c_str msg) in
    let size : length (m ++ eot ∷ []) ≡ header_size + length (c_str msg) + 1 = omega (
      arith,
      length-append m (eot ∷ []),
      length-append _ (c_str msg),
      length-header_bytes n.own_name target 2,
    ) in
    (
      record {
        dest_addr = get_routing n.table target;
        msg = m;
        msg_len = header_size + length (c_str msg);
        msg_counter = single;
      },
      m ++ eot ∷ [],
      do_chat_lem target msg n other ne short,
      refl,
      refl,
      send_tcp_lem write last m ok (omega (arith, size, length-append m (eot ∷ []))),
      read_tcp_lem (m ++ eot ∷ [])
          ∙ ap some (take_all (m ++ eot ∷ []) (max_read * buf_size) (omega (arith, size))),
      ap (λ b. handle_msg junk junk' (length (m ++ eot ∷ [])) b n') (append_assoc m (eot ∷ []) rest)
          ∙ handle_msg_chat junk junk' n.own_name target (c_str msg) rest (length (m ++ eot ∷ []))
              n' hn ht own (c_str-NoNul msg) ne' (omega arith) (omega (arith, size)),
    )
