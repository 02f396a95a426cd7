-- ===== src/Protocol/Typed.antt =====
-- do_chat of src/protocol.c: what a line that the user typed becomes in the queue to the sender.
use mathlib.Core.List.{append_assoc}
use rn_praktikum.Base.{
  ℕ, suc, ◌+◌, ◌-◌, ◌<◌, ◌≡◌, refl, ap, sym, ◌∙◌, List, [], ◌∷◌, ◌++◌, Option, some, false, ◌>>=◌,
  arith, length, length-append, c_str, str_eq, zeros, write_at, write_at-append, write_at-zeros,
  zeros-split, take-append, length-replicate,
}
use rn_praktikum.Names.{create_header, header_bytes, header_size, eot, msg_size, msglen, type_chat}
use rn_praktikum.Names.Length.{NoEot, msglen-append}
use rn_praktikum.Queue.{single, push, push_send}
use rn_praktikum.Table.{get_routing}
use rn_praktikum.Table.Print.{system}
use rn_praktikum.Node.{Node}
use rn_praktikum.Protocol.{do_chat, send_with}
use rn_praktikum.Protocol.Chat.{chat_bytes, length-header_bytes}

-- A header, a text and an EOT written one after the other into an array of 1500 zeros.
write_message :
    (header text : List ℕ)
    → length header ≡ header_size
    → header_size + length text < msg_size
    → write_at
        (header_size + length text)
        (eot ∷ [])
        (write_at header_size text (write_at 0 header (zeros msg_size)))
      ≡ (header ++ text) ++ eot ∷ zeros (msg_size - header_size - length text - 1)
write_message header text hh ht =
    ap (λ m. write_at end (eot ∷ []) (write_at header_size text m)) first
    ∙ ap (write_at end (eot ∷ [])) second
    ∙ third
  where
    end : ℕ
    end = header_size + length text

    left : ℕ
    left = msg_size - header_size - length text - 1

    first : write_at 0 header (zeros msg_size) ≡ header ++ (zeros (length text) ++ zeros (suc left))
    first =
        write_at-zeros header msg_size (omega arith)
        ∙ ap (◌++◌ header)
            (zeros-split (length text) (suc left) (msg_size - length header) (omega arith))

    second :
        write_at header_size text (header ++ (zeros (length text) ++ zeros (suc left)))
        ≡ (header ++ text) ++ (0 ∷ [] ++ zeros left)
    second =
        write_at-append header text (zeros (length text)) (zeros (suc left)) header_size (sym hh)
          (sym (length-replicate {A = ℕ} (length text) 0))
        ∙ sym (append_assoc header text (zeros (suc left)))

    third :
        write_at end (eot ∷ []) ((header ++ text) ++ (0 ∷ [] ++ zeros left))
        ≡ (header ++ text) ++ eot ∷ zeros left
    third =
        write_at-append (header ++ text) (eot ∷ []) (0 ∷ []) (zeros left) end
          (omega (arith, length-append header text)) refl

-- A line for a user who is not "System" is queued for the next hop to that user, as one single
-- message: a header with the own name and the target, then the text, with their length. Neither
-- the names nor the text hold an EOT, and header, text and EOT fit into the 1500 bytes.
pub do_chat_lem :
    (target msg : List ℕ) (n : Node)
    → str_eq target system ≡ false
    → NoEot (chat_bytes n.own_name target (c_str msg))
    → header_size + length (c_str msg) < msg_size
    → do_chat target msg n
      ≡ some (record n {
        send =
            (push n.send (record {
              dest_addr = get_routing n.table target;
              msg = chat_bytes n.own_name target (c_str msg);
              msg_len = header_size + length (c_str msg);
              msg_counter = single;
            })).0;
      })
unfolding do_chat send_with push_send
do_chat_lem target msg n other ne short =
    let header = header_bytes (create_header n.own_name target type_chat) in
    let text = c_str msg in
    let dest = get_routing n.table target in
    let left = zeros (msg_size - header_size - length text - 1) in
    let hh : length header ≡ header_size = length-header_bytes n.own_name target type_chat in
    let size : length (header ++ text) ≡ header_size + length text =
      omega (arith, length-append header text, hh) in
    rw (other, do_chat)
      (ap (λ m. msglen m >>= λ len. some (send_with single dest m len n))
          (write_message header text hh short)
        ∙ ap (λ o. o >>= λ len. some (send_with single dest ((header ++ text) ++ eot ∷ left) len n))
            (msglen-append (header ++ text) left ne (omega arith))
        ∙ ap (λ len. some (send_with single dest ((header ++ text) ++ eot ∷ left) len n)) size
        ∙ ap (queued dest (header_size + length text))
            (take-append (header ++ text) (eot ∷ left) (header_size + length text) (sym size)))
  where
    queued : ℕ → ℕ → List ℕ → Option Node
    queued dest len m = some (record n {
      send =
          (push n.send
            (record { dest_addr = dest; msg = m; msg_len = len; msg_counter = single })).0;
    })
