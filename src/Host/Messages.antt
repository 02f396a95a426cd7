-- ===== src/Host/Messages.antt =====
-- The functions of src/protocol.c on a whole host.
use rn_praktikum.Base.{
  refl, ℕ, ◌+◌, ◌-◌, ◌*◌, ◌/◌, ◌^◌, List, [], ◌∷◌, some, ◌==◌, ltb, codes, set, drop, zeros, length,
  str_eq, c_str, write_at,
}
use rn_praktikum.Names.{
  msg_size, set_name, eot, header_size, header_bytes, create_header, msglen, type_login, type_chat,
  type_logout, type_route, type_error, header_of_bytes, get_name, name_len, type_heart,
  type_heartresponse,
}
use rn_praktikum.Queue.{MsgCounter, single, up, keep, down}
use rn_praktikum.Series.{add_list, remove_list}
use rn_praktikum.Table.{get_routing, get_routing_table_size, record_size}
use rn_praktikum.Table.Print.{system}
use rn_praktikum.Node.{Node, User, table_update, get_hops_one_away}
use rn_praktikum.Heartbeat.{is_empty, send_to, receive_heartbeat_response}
use rn_praktikum.Protocol.{
  send_with, tell, send_each, send_to_all_neighboors, do_chat, do_login, login_message, do_logout,
  mem_chr, no_users, forward, route_message, send_routes,
}
use rn_praktikum.Protocol.Receive.{
  login_record, msg_login, msg_route, msg_chat, msg_logout, msg_heart, msg_error, text_signed_off,
  dispatch, handle_msg, is_for_other,
}
use rn_praktikum.Host.{
  Refines, Refines-refl, Refines-if, Refines-trans, Yields, Yields-bind, Yields-if, Yields-after,
  Yields-then, Yields-elim, push_ui-Refines, push_send-Refines, series-Refines, users-Refines,
}
use rn_praktikum.Routes.{Cause, arrival}
use rn_praktikum.Host.Tables.{delete_from_table-Refines, print-Refines}
use rn_praktikum.Host.Updates.{table_update-Refines}

tell-Refines : {k : Cause} (text name : List ℕ) (n : Node) → Refines k n (tell text name n)
unfolding tell
tell-Refines text name n = push_ui-Refines n text name

send_with-Refines :
    {k : Cause} (c : MsgCounter) (dest : ℕ) (msg : List ℕ) (len : ℕ) (n : Node)
    → Refines k n (send_with c dest msg len n)
unfolding send_with
send_with-Refines c dest msg len n = push_send-Refines n c dest msg len

pub send_to-Refines :
    {k : Cause} (name msg : List ℕ) (len : ℕ) (n : Node) → Refines k n (send_to name msg len n)
unfolding send_to
send_to-Refines name msg len n = push_send-Refines n single (get_routing n.table name) msg len

send_each-Refines :
    {k : Cause} (us : List User) (msg skip : List ℕ) (size : ℕ) (n : Node)
    → Refines k n (send_each us msg skip size n)
unfolding send_each
send_each-Refines [] msg skip size n = Refines-refl n
send_each-Refines (u ∷ us) msg skip size n =
    let msg' = write_at 34 (set_name u.chat_name) msg in
    Refines-if n (is_empty u) _ _ (Refines-refl n) (
      Refines-trans
        (Refines-if n (str_eq u.chat_name skip) _ _ (Refines-refl n)
          (send_with-Refines single _ msg' size n))
        (send_each-Refines us msg' skip size _))

send_to_all_neighboors-Refines :
    {k : Cause} (msg skip : List ℕ) (size : ℕ) (n : Node)
    → Refines k n (send_to_all_neighboors msg skip size n)
unfolding send_to_all_neighboors
send_to_all_neighboors-Refines msg skip size n =
    send_each-Refines
      (get_hops_one_away n.table (no_users (get_routing_table_size n.table / record_size))) msg skip
      size n

send_routes-Yields : (k : Cause) (skip : List ℕ) (n : Node) → Yields k n (send_routes skip n)
unfolding send_routes
send_routes-Yields k skip n =
    Yields-bind k n (route_message n) _ (λ m. send_to_all_neighboors-Refines m skip (length m) n)

pub do_chat-Yields :
    (k : Cause) (target msg : List ℕ) (n : Node) → Yields k n (do_chat target msg n)
unfolding do_chat
do_chat-Yields k target msg n =
    let header = header_bytes (create_header n.own_name target type_chat) in
    let m1 = write_at header_size (c_str msg) (write_at 0 header (zeros msg_size)) in
    let m2 = write_at (header_size + length (c_str msg)) (eot ∷ []) m1 in
    Yields-elim k n (str_eq target system) _ _
      (Refines-if n (str_eq msg (codes "routing")) _ _ (print-Refines n) (Refines-refl n))
      (Yields-bind k n (msglen m2)
        (λ len. some (send_with single (get_routing n.table target) m2 len n))
        (λ len. send_with-Refines single (get_routing n.table target) m2 len n))

pub do_login-Yields :
    (k : Cause) (name addr : List ℕ) (port target_addr target_port : ℕ) (n : Node)
    → Yields k n (do_login name addr port target_addr target_port n)
unfolding do_login
do_login-Yields k name addr port target_addr target_port n =
    Yields-bind k n (msglen (login_message n.own_name name addr port)) _ (λ len.
      send_with-Refines single (target_addr * 2 ^ 32 + target_port)
        (login_message n.own_name name addr port) len n)

pub do_logout-Refines : {k : Cause} (n : Node) → Refines k n (do_logout n)
unfolding do_logout
do_logout-Refines n = send_to_all_neighboors-Refines _ [] header_size n

forward-Yields :
    (k : Cause) (sender target msg : List ℕ) (n : Node) → Yields k n (forward sender target msg n)
unfolding forward
forward-Yields k sender target msg n =
    let dest = get_routing n.table target in
    let (series, found) = add_list target n.series in
    let added = record n { series = series } in
    Yields-elim k n (dest == 0) _ _ (Refines-refl n) (
      Yields-elim k n found _ _
        (Yields-bind k n (msglen msg) _ (λ len.
          Refines-if n (mem_chr eot len msg) _ _
            (Refines-trans (series-Refines n series) (
              Refines-trans (send_with-Refines down dest msg len added)
                (series-Refines _ (remove_list target series))))
            (Refines-trans (series-Refines n series) (send_with-Refines keep dest msg len added))))
        (Yields-bind k n (msglen msg) _ (λ len.
          Refines-trans (series-Refines n series) (send_with-Refines up dest msg len added))))

module _ (junk junk' : ℕ → List ℕ) where
  msg_login-Yields :
      (sender content : List ℕ) (n : Node)
      → Yields arrival n (msg_login junk junk' sender content n)
  unfolding msg_login
  msg_login-Yields sender content n =
      Yields-then arrival n
        (send_routes [] (table_update junk junk' (login_record content) record_size n)) _
        (Yields-after arrival n _ _
          (table_update-Refines junk junk' (login_record content) record_size n)
          (send_routes-Yields arrival [] _))
        (λ m. send_to-Refines sender _ header_size m)

  msg_route-Yields :
      (sender content : List ℕ) (size : ℕ) (n : Node)
      → Yields arrival n (msg_route junk junk' sender content size n)
  unfolding msg_route
  msg_route-Yields sender content size n =
      Yields-after arrival n _ _ (table_update-Refines junk junk' content size n)
        (send_routes-Yields arrival sender _)

msg_chat-Yields :
    (sender content : List ℕ) (n : Node) → Yields arrival n (msg_chat sender content n)
unfolding msg_chat
msg_chat-Yields sender content n =
    Yields-bind arrival n (msglen content) _ (λ len. tell-Refines (set content len 0) sender n)

msg_logout-Yields : (sender : List ℕ) (n : Node) → Yields arrival n (msg_logout sender n)
unfolding msg_logout
msg_logout-Yields sender n =
    Yields-after arrival n _ _
      (Refines-trans (tell-Refines text_signed_off sender n)
        (delete_from_table-Refines sender _ refl))
      (send_routes-Yields arrival [] _)

msg_heart-Refines : {k : Cause} (sender : List ℕ) (n : Node) → Refines k n (msg_heart sender n)
unfolding msg_heart
msg_heart-Refines sender n = send_to-Refines sender _ header_size n

receive_heartbeat_response-Refines :
    {k : Cause} (name : List ℕ) (n : Node) → Refines k n (receive_heartbeat_response name n)
unfolding receive_heartbeat_response
receive_heartbeat_response-Refines name n = users-Refines n _

msg_error-Refines : {k : Cause} (sender : List ℕ) (n : Node) → Refines k n (msg_error sender n)
unfolding msg_error
msg_error-Refines sender n = tell-Refines (codes "<Fehler beim Senden!>") sender n

module _ (junk junk' : ℕ → List ℕ) where
  dispatch-Yields :
      (type : ℕ) (sender content : List ℕ) (count : ℕ) (n : Node)
      → Yields arrival n (dispatch junk junk' type sender content count n)
  unfolding dispatch
  dispatch-Yields type sender content count n =
      Yields-if arrival n (type == type_login) _ _ (msg_login-Yields junk junk' sender content n) (
        Yields-if arrival n (type == type_chat) _ _ (msg_chat-Yields sender content n) (
          Yields-if arrival n (type == type_logout) _ _ (msg_logout-Yields sender n) (
            Yields-if arrival n (type == type_route) _ _
              (msg_route-Yields junk junk' sender content (count - header_size - 1) n)
              (Yields-if arrival n (type == type_heart) _ _ (msg_heart-Refines sender n) (
                Yields-if arrival n (type == type_heartresponse) _ _
                  (receive_heartbeat_response-Refines sender n)
                  (Yields-if arrival n (type == type_error) _ _ (msg_error-Refines sender n)
                    (tell-Refines _ system n)))))))

  pub handle_msg-Yields :
      (count : ℕ) (buf : List ℕ) (n : Node) → Yields arrival n (handle_msg junk junk' count buf n)
  unfolding handle_msg
  handle_msg-Yields count buf n =
      let h = header_of_bytes buf in
      let sender = get_name (zeros (name_len + 1)) h.sendername in
      let target = get_name (zeros (name_len + 1)) h.targetname in
      Yields-if arrival n (count == 0) _ _ (Refines-refl n) (
        Yields-if arrival n (ltb count header_size) _ _ (tell-Refines _ system n) (
          Yields-if arrival n (is_for_other h target n) _ _
            (forward-Yields arrival sender target buf n)
            (dispatch-Yields h.type sender (drop header_size buf) count n)))
