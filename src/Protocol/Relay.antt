-- ===== src/Protocol/Relay.antt =====
-- A chat line over hosts that forward it (src/protocol.c): do_chat, forward and msg_chat, with
-- send_tcp and read_tcp of src/tcp_con.c between them.
use mathlib.Core.List.{append_assoc}
use rn_praktikum.Base.{
  ℕ, ◌+◌, ◌*◌, ◌≤◌, ◌<◌, ◌≡◌, ◌≢◌, refl, ap, sym, ◌∙◌, List, [], ◌∷◌, ◌++◌, some, true, false,
  arith, length, length-append, take, take-append, take_all, zeros, c_str, c_str-NoNul, str_eq,
  bytes_eq, All, ==_ne, le→not-ltb,
}
use rn_praktikum.Names.{
  Header, create_header, header_bytes, header_of_bytes, header_size, name_len, eot, msg_size,
  type_chat, get_name,
}
use rn_praktikum.Names.Length.{NoEot, msglen-append}
use rn_praktikum.Names.RoundTrip.{header_received}
use rn_praktikum.Queue.{MessageSend, single, push, push_send}
use rn_praktikum.Series.{add_list}
use rn_praktikum.Table.{get_routing}
use rn_praktikum.Table.Print.{system}
use rn_praktikum.Node.{Node}
use rn_praktikum.Tcp.{send_tcp, read_tcp, max_read, buf_size}
use rn_praktikum.Tcp.Stream.{Accepts, send_tcp_lem, waiting, read_tcp_lem}
use rn_praktikum.Protocol.{do_chat, forward, send_with}
use rn_praktikum.Protocol.Receive.{handle_msg, is_for_other}
use rn_praktikum.Protocol.Beat.{get_routing-congr}
use rn_praktikum.Protocol.Chat.{chat_bytes, handle_msg_chat, length-header_bytes}
use rn_praktikum.Protocol.Forward.{series_mark, forward-eq}
use rn_praktikum.Protocol.Typed.{do_chat_lem}

-- A host on the way: it is not the target, and its way to it is not 0:0.
abbrev pub Forwards : List ℕ → Node → Type 0
Forwards target n = (str_eq target n.own_name ≡ false) × (get_routing n.table target ≢ 0)

is_for_other-chat :
    (h : Header) (target : List ℕ) (n : Node)
    → h.type ≡ type_chat
    → str_eq target n.own_name ≡ false
    → is_for_other h target n ≡ true
unfolding is_for_other
is_for_other-chat h target n e d = ground (arith, e, d)

handle_msg-forward :
    (junk junk' : ℕ → List ℕ) (count : ℕ) (buf : List ℕ) (n : Node)
    → header_size ≤ count
    → let h = header_of_bytes buf in
      is_for_other h (get_name (zeros 33) h.targetname) n ≡ true
      → handle_msg junk junk' count buf n
        ≡ forward (get_name (zeros 33) h.sendername) (get_name (zeros 33) h.targetname) buf n
unfolding handle_msg
handle_msg-forward junk junk' count buf n hc other =
    rw (==_ne count 0 (omega arith), le→not-ltb count header_size hc, other, handle_msg) refl

-- What a host on the way does with the bytes of a chat message: it queues one message for its next
-- hop to the target, from which send_tcp makes the same bytes again. Its table and the queue of its
-- user interface stay as they are.
abbrev pub Relays :
    (junk junk' : ℕ → List ℕ) (write : ℕ → ℕ → ℕ) (last : ℕ) (target bytes rest : List ℕ)
    → Node
    → Type 0
Relays junk junk' write last target bytes rest n =
    (q : MessageSend) × (m : Node) × (handle_msg junk junk' (length bytes) (bytes ++ rest) n
      ≡ some m)
    × (m.send ≡ (push n.send q).0)
    × (q.dest_addr ≡ get_routing n.table target)
    × (send_tcp write (length q.msg + 1) last q.msg ≡ some bytes)
    × (m.table ≡ n.table)
    × (m.ui ≡ n.ui)

chat_forwarded :
    (junk junk' : ℕ → List ℕ) (write : ℕ → ℕ → ℕ) (last : ℕ) (from target text rest : List ℕ)
    (n : Node)
    → Accepts write
    → length (c_str from) ≤ name_len
    → length (c_str target) ≤ name_len
    → NoEot (chat_bytes from target text)
    → header_size + length text < msg_size
    → Forwards target n
    → Relays junk junk' write last target (chat_bytes from target text ++ eot ∷ []) rest n
unfolding send_with push_send
chat_forwarded junk junk' write last from target text rest n ok hf ht ne short (d, way) =
    let header = header_bytes (create_header from target type_chat) in
    let msg = chat_bytes from target text in
    let bytes = msg ++ eot ∷ [] in
    let buf = msg ++ eot ∷ rest in
    let content = text ++ eot ∷ rest in
    let size : length msg ≡ header_size + length text =
      omega (arith, length-append header text, length-header_bytes from target type_chat) in
    let size' : length bytes ≡ length msg + 1 = length-append msg (eot ∷ []) in
    let (type, sender, to) = header_received from target type_chat content hf ht in
    let same : buf ≡ header ++ content = append_assoc header text (eot ∷ rest) in
    let h = header_of_bytes (header ++ content) in
    let name = get_name (zeros 33) h.targetname in
    let dest = get_routing-congr n.table name target to in
    let sent = take (length msg) buf in
    (
      record {
        dest_addr = get_routing n.table name;
        msg = take (length msg) buf;
        msg_len = length msg;
        msg_counter = series_mark (add_list name n.series).1;
      },
      _,
      ap (λ b. handle_msg junk junk' (length bytes) b n) (append_assoc msg (eot ∷ []) rest ∙ same)
          ∙ handle_msg-forward junk junk' (length bytes) (header ++ content) n (omega arith)
              (is_for_other-chat h name n type (ap (λ x. bytes_eq x (c_str n.own_name)) to ∙ d))
          ∙ ap (λ b. forward (get_name (zeros 33) h.sendername) name b n) (sym same)
          ∙ forward-eq (get_name (zeros 33) h.sendername) name buf n (length msg)
              (λ e. way (sym dest ∙ e)) (msglen-append msg rest ne (omega arith)),
      refl,
      dest,
      ap (λ b. send_tcp write (length b + 1) last b)
            (take-append msg (eot ∷ rest) (length msg) refl)
          ∙ send_tcp_lem write last msg ok (omega arith),
      refl,
      refl,
    )

chat_forwarded-All :
    (junk junk' : ℕ → List ℕ) (write : ℕ → ℕ → ℕ) (last : ℕ) (from target text rest : List ℕ)
    (path : List Node)
    → Accepts write
    → length (c_str from) ≤ name_len
    → length (c_str target) ≤ name_len
    → NoEot (chat_bytes from target text)
    → header_size + length text < msg_size
    → All (Forwards target) path
    → All (Relays junk junk' write last target (chat_bytes from target text ++ eot ∷ []) rest) path
chat_forwarded-All junk junk' write last from target text rest [] ok hf ht ne short ways = tt
chat_forwarded-All junk junk' write last from target text rest (n ∷ path) ok hf ht ne short
      (way, ways) =
    (
      chat_forwarded junk junk' write last from target text rest n ok hf ht ne short way,
      chat_forwarded-All junk junk' write last from target text rest path ok hf ht ne short ways,
    )

-- A chat line on its way over any number of hosts. `n` types it for `target`, which is not
-- "System": one message is queued, for the next hop to `target`. send_tcp sends it whole, in
-- whatever pieces the connections take it, and read_tcp gets it whole when all of it waits. Every
-- host of `path`, none of which is the target, queues for its own next hop to the target one
-- message, which send_tcp makes the same bytes again; its table and what its user sees stay as they
-- are. The host `n'`, whose name is the target, then shows the text under the name of `n`. The
-- names have at most 32 bytes, neither they nor the text hold an EOT, header, text and EOT fit into
-- 1500 bytes, and no host of the path has 0:0 as its way to the target; `rest` is what the
-- receivers' buffers hold behind the message.
pub chat_relayed :
    (junk junk' : ℕ → List ℕ) (write : ℕ → ℕ → ℕ) (last : ℕ) (target msg rest : List ℕ)
    (n n' : Node) (path : List Node)
    → Accepts write
    → length (c_str n.own_name) ≤ name_len
    → length (c_str target) ≤ name_len
    → str_eq target system ≡ false
    → str_eq target n'.own_name ≡ true
    → All (Forwards target) path
    → NoEot (chat_bytes n.own_name target (c_str msg))
    → NoEot (c_str msg)
    → header_size + length (c_str msg) < msg_size
    → (q : MessageSend) × (bytes : List ℕ) × (do_chat target msg n
        ≡ some (record n { send = (push n.send q).0 }))
      × (q.dest_addr ≡ get_routing n.table target)
      × (send_tcp write (length q.msg + 1) last q.msg ≡ some bytes)
      × (read_tcp (waiting bytes) ≡ some bytes)
      × All (Relays junk junk' write last target bytes rest) path
      × (handle_msg junk junk' (length bytes) (bytes ++ rest) n'
          ≡ some (record n' {
            ui = (push n'.ui (record { text = c_str msg; name = c_str n.own_name })).0;
          }))
chat_relayed junk junk' write last target msg rest n n' path ok hn ht other own ways ne ne' short =
    let m = chat_bytes n.own_name target (c_str msg) in
    let bytes = m ++ eot ∷ [] in
    let size : length bytes ≡ header_size + length (c_str msg) + 1 = omega (
      arith,
      length-append m (eot ∷ []),
      length-append _ (c_str msg),
      length-header_bytes n.own_name target 2,
    ) in
    (
      record {
        dest_addr = get_routing n.table target;
        msg = m;
        msg_len = header_size + length (c_str msg);
        msg_counter = single;
      },
      bytes,
      do_chat_lem target msg n other ne short,
      refl,
      send_tcp_lem write last m ok (omega (arith, size, length-append m (eot ∷ []))),
      read_tcp_lem bytes ∙ ap some (take_all bytes (max_read * buf_size) (omega (arith, size))),
      chat_forwarded-All junk junk' write last n.own_name target (c_str msg) rest path ok hn ht ne
          short ways,
      ap (λ b. handle_msg junk junk' (length bytes) b n') (append_assoc m (eot ∷ []) rest)
          ∙ handle_msg_chat junk junk' n.own_name target (c_str msg) rest (length bytes) n' hn ht
              own (c_str-NoNul msg) ne' (omega arith) (omega (arith, size)),
    )
