-- ===== src/Protocol/Receive.antt =====
-- protocol_handle_msg of src/protocol.c and the handlers that it calls.
use rn_praktikum.Base.{
  ℕ, ◌+◌, ◌-◌, List, [], ◌∷◌, ◌++◌, Option, some, Bool, not, ◌==◌, ◌&&◌, ltb, if◌then◌else◌, ◌>>=◌,
  set, codes, take, drop, zeros, str_eq, write_at,
}
use rn_praktikum.Names.{
  Header, create_header, header_bytes, header_of_bytes, header_size, name_len, type_login,
  type_chat, type_logout, type_route, type_heart, type_heartresponse, type_error, msglen, get_name,
}
use rn_praktikum.Table.{record_size}
use rn_praktikum.Table.Wire.{offset_adress, offset_next_chat_name, offset_hop_count}
use rn_praktikum.Table.Print.{decimal, system}
use rn_praktikum.Node.{Node, delete_from_table, table_update}
use rn_praktikum.Heartbeat.{send_to, receive_heartbeat_response}
use rn_praktikum.Protocol.{forward, send_routes, tell}

-- "<Empfänger hat sich abgemeldet!>"
abbrev pub text_signed_off : List ℕ
text_signed_off = codes "<Empf" ++ (0xc3 ∷ 0xa4 ∷ codes "nger hat sich abgemeldet!>")

-- contentNew of msg_login: the record of a new direct neighbour, reached over itself.
unfoldable pub login_record : List ℕ → List ℕ
unfolding get_name
login_record content =
    let adress_and_port =
      take (offset_next_chat_name - offset_adress) (drop offset_adress content) in
    let c0 = get_name (zeros record_size) content in
    let c1 = write_at offset_adress adress_and_port c0 in
    let c2 = take offset_next_chat_name c1 ++ get_name (drop offset_next_chat_name c1) content in
    let c3 = write_at (offset_next_chat_name + offset_adress) adress_and_port c2 in
    write_at offset_hop_count (0 ∷ []) c3

-- The indeterminate bytes that tableUpdate finds in its two name arrays.
module _ (junk junk' : ℕ → List ℕ) where
  -- msg_login(sender, content)
  unfoldable pub msg_login : List ℕ → List ℕ → Node → Option Node
  unfolding login_record send_routes send_to
  msg_login sender content n = do
    announced ← send_routes [] (table_update junk junk' (login_record content) record_size n)
    some (
        send_to sender (header_bytes (create_header n.own_name sender type_heart)) header_size
          announced)

  -- msg_route(sender, content, size)
  unfoldable pub msg_route : List ℕ → List ℕ → ℕ → Node → Option Node
  unfolding send_routes
  msg_route sender content size n = send_routes sender (table_update junk junk' content size n)

-- msg_chat(sender, content)
unfoldable pub msg_chat : List ℕ → List ℕ → Node → Option Node
unfolding tell
msg_chat sender content n = do len ← msglen content; some (tell (set content len 0) sender n)

-- msg_logout(sender)
unfoldable pub msg_logout : List ℕ → Node → Option Node
unfolding tell send_routes
msg_logout sender n = send_routes [] (delete_from_table sender (tell text_signed_off sender n))

-- msg_heart(sender)
unfoldable pub msg_heart : List ℕ → Node → Node
unfolding send_to
msg_heart sender n =
    send_to sender (header_bytes (create_header n.own_name sender type_heartresponse)) header_size n

-- msg_error(sender)
unfoldable pub msg_error : List ℕ → Node → Node
unfolding tell
msg_error sender n = tell (codes "<Fehler beim Senden!>") sender n

-- The test for a message that is to be forwarded.
unfoldable pub is_for_other : Header → List ℕ → Node → Bool
is_for_other h target n =
    not (h.type == type_login)
    && (not (h.type == type_route)
        && (not (h.type == type_heartresponse)
            && (not (h.type == type_logout) && not (str_eq target n.own_name))))

module _ (junk junk' : ℕ → List ℕ) where
  -- The switch over the type, with the array behind the header and the number of bytes read.
  unfoldable pub dispatch : ℕ → List ℕ → List ℕ → ℕ → Node → Option Node
  dispatch type sender content count n =
      if type == type_login
      then msg_login junk junk' sender content n
      else if type == type_chat
      then msg_chat sender content n
      else if type == type_logout
      then msg_logout sender n
      else if type == type_route
      then msg_route junk junk' sender content (count - header_size - 1) n
      else if type == type_heart
      then some (msg_heart sender n)
      else if type == type_heartresponse
      then some (receive_heartbeat_response sender n)
      else if type == type_error
      then some (msg_error sender n)
      else some
          (tell (codes "[Server] Unknown message type: " ++ (decimal type ++ 10 ∷ [])) system n)

  -- protocol_handle_msg, when read_tcp has returned `count` bytes in the array `buf`. A read that
  -- fails is not here: read_tcp then frees a pointer that it did not allocate.
  unfoldable pub handle_msg : ℕ → List ℕ → Node → Option Node
  handle_msg count buf n =
      let h = header_of_bytes buf in
      let sender = get_name (zeros (name_len + 1)) h.sendername in
      let target = get_name (zeros (name_len + 1)) h.targetname in
      if count == 0
      then some n
      else if ltb count header_size
      then some (tell (codes "[Server] Message too short" ++ 10 ∷ []) system n)
      else if is_for_other h target n
      then forward sender target buf n
      else dispatch h.type sender (drop header_size buf) count n
