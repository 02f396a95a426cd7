-- ===== src/Protocol/Chat.antt =====
-- A chat message from do_chat of one host to the user of another (src/protocol.c).
use mathlib.Core.List.{append_assoc}
use rn_praktikum.Base.{
  ℕ, ◌≤◌, ◌<◌, ◌≡◌, ap, sym, ◌∙◌, List, ◌∷◌, ◌++◌, some, true, false, arith, drop, length,
  length-append, ==_ne, NoNul, c_str, c_str-append, str_eq, bytes_eq, zeros, set-append, le→not-ltb,
  drop-append,
}
use rn_praktikum.Names.{
  Header, create_header, header_bytes, header_of_bytes, header_size, name_len, eot, msg_size,
  type_chat, get_name, set_name,
}
use rn_praktikum.Names.Length.{NoEot, msglen-append}
use rn_praktikum.Names.RoundTrip.{header_received, length-set_name}
use rn_praktikum.Queue.{push, push_ui}
use rn_praktikum.Node.{Node}
use rn_praktikum.Protocol.{tell}
use rn_praktikum.Protocol.Receive.{handle_msg, dispatch, msg_chat, is_for_other}

-- The bytes of a chat message between two named hosts, without the EOT.
abbrev pub chat_bytes : List ℕ → List ℕ → List ℕ → List ℕ
chat_bytes from to text = header_bytes (create_header from to type_chat) ++ text

pub length-header_bytes :
    (from to : List ℕ) (type : ℕ) → length (header_bytes (create_header from to type)) ≡ header_size
unfolding header_bytes create_header
length-header_bytes from to type =
    omega
      (arith, length-append (set_name from) (set_name to), length-set_name from, length-set_name to)

msg_chat_shown :
    (sender text rest : List ℕ) (n : Node)
    → NoNul text
    → NoEot text
    → length text < msg_size
    → msg_chat sender (text ++ eot ∷ rest) n
      ≡ some (record n { ui = (push n.ui (record { text = text; name = c_str sender })).0 })
unfolding msg_chat tell push_ui
msg_chat_shown sender text rest n nn ne h =
    rw (msglen-append text rest ne h, set-append text rest eot 0, c_str-append text rest nn)

pub is_for_other-own :
    (h : Header) (target : List ℕ) (n : Node)
    → str_eq target n.own_name ≡ true
    → is_for_other h target n ≡ false
unfolding is_for_other
is_for_other-own h target n e = ground arith

-- A message that is not to be forwarded goes to the handler of its type.
pub handle_msg-dispatch :
    (junk junk' : ℕ → List ℕ) (count : ℕ) (buf : List ℕ) (n : Node)
    → header_size ≤ count
    → let h = header_of_bytes buf in
      is_for_other h (get_name (zeros 33) h.targetname) n ≡ false
      → handle_msg junk junk' count buf n
        ≡ dispatch junk junk' h.type
            (get_name (zeros 33) h.sendername)
            (drop header_size buf)
            count
            n
unfolding handle_msg
handle_msg-dispatch junk junk' count buf n hc other =
    rw (==_ne count 0 (omega arith), le→not-ltb count header_size hc, other, handle_msg)

dispatch-chat :
    (junk junk' : ℕ → List ℕ) (type : ℕ) (sender content : List ℕ) (count : ℕ) (n : Node)
    → type ≡ type_chat
    → dispatch junk junk' type sender content count n ≡ msg_chat sender content n
unfolding dispatch
dispatch-chat junk junk' type sender content count n e = rw e

-- A chat message that reaches its target, closed by an EOT, is shown there: its text under the
-- name of its sender. The names have at most 32 bytes, the text holds neither 0 nor EOT and is
-- shorter than 1500 bytes, and the read returned at least the header.
pub handle_msg_chat :
    (junk junk' : ℕ → List ℕ) (from to text rest : List ℕ) (count : ℕ) (n : Node)
    → length (c_str from) ≤ name_len
    → length (c_str to) ≤ name_len
    → str_eq to n.own_name ≡ true
    → NoNul text
    → NoEot text
    → length text < msg_size
    → header_size ≤ count
    → handle_msg junk junk' count (chat_bytes from to text ++ eot ∷ rest) n
      ≡ some (record n { ui = (push n.ui (record { text = text; name = c_str from })).0 })
handle_msg_chat junk junk' from to text rest count n hf ht own nn ne short hc =
    let header = header_bytes (create_header from to type_chat) in
    let buf = chat_bytes from to text ++ eot ∷ rest in
    let assoc : buf ≡ header ++ (text ++ eot ∷ rest) = append_assoc header text (eot ∷ rest) in
    let (type, sender, target) = header_received from to type_chat (text ++ eot ∷ rest) hf ht in
    let h = header_of_bytes (header ++ (text ++ eot ∷ rest)) in
    let name = get_name (zeros 33) h.sendername in
    let for_us : str_eq (get_name (zeros 33) h.targetname) n.own_name ≡ true =
      ap (λ s. bytes_eq s (c_str n.own_name)) target ∙ own in
    rw assoc (
      handle_msg-dispatch junk junk' count (header ++ (text ++ eot ∷ rest)) n hc
        (is_for_other-own h _ n for_us)
      ∙ dispatch-chat junk junk' _ _ _ count n type
      ∙ ap (λ c. msg_chat name c n)
          (drop-append header (text ++ eot ∷ rest) header_size
            (sym (length-header_bytes from to type_chat)))
      ∙ msg_chat_shown name text rest n nn ne short
      ∙ ap (λ s. some (record n { ui = (push n.ui (record { text = text; name = s })).0 })) sender)
