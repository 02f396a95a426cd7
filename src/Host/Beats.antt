-- ===== src/Host/Beats.antt =====
-- The heartbeats of src/heartBeat.c on a whole host.
use rn_praktikum.Base.{
  refl, ℕ, zero, suc, ◌/◌, List, [], ◌∷◌, ◌++◌, Option, none, some, true, false, ◌==◌, ◌>>=◌,
  get_elem?, set, length, zeros, replicate,
}
use rn_praktikum.Names.{create_header, header_bytes, header_size, type_heart, type_route}
use rn_praktikum.Queue.{push_ui}
use rn_praktikum.Table.{get_routing_table_size, get_sizeof_routing_table, record_size}
use rn_praktikum.Table.Export.{table_to_char_array}
use rn_praktikum.Node.{Node, User, delete_from_table, get_hops_one_away}
use rn_praktikum.Heartbeat.{
  no_user, max_users, is_empty, signal_each, send_heartbeat_signal, first_user_empty, start_round,
  route_each, text_not_responding, remove_user, check_from, end_round,
}
use rn_praktikum.Host.{
  Refines, Refines-refl, Refines-trans, Refines-if, Yields, Yields-bind, Yields-then, Yields-elim,
  Yields-after, users-Refines, push_ui-Refines,
}
use rn_praktikum.Routes.{Cause, no_answer}
use rn_praktikum.Host.Tables.{delete_from_table-Refines}
use rn_praktikum.Host.Messages.{send_to-Refines}

signal_each-Refines : {k : Cause} (us : List User) (n : Node) → Refines k n (signal_each us n)
unfolding signal_each
signal_each-Refines [] n = Refines-refl n
signal_each-Refines (u ∷ us) n = Refines-if n (is_empty u) _ _ (Refines-refl n) (
    Refines-trans
      (send_to-Refines u.chat_name (header_bytes (create_header n.own_name u.chat_name type_heart))
        header_size n)
      (signal_each-Refines us _))

pub start_round-Refines : {k : Cause} (n : Node) → Refines k n (start_round n)
unfolding start_round send_heartbeat_signal
start_round-Refines n =
    let seen = get_hops_one_away n.table n.users in
    let asked = get_hops_one_away n.table (replicate max_users no_user) in
    Refines-if n (first_user_empty seen) _ _ (users-Refines n seen) (
      Refines-trans (users-Refines n asked)
        (signal_each-Refines asked (record n { users = asked })))

route_each-Refines :
    {c : Cause} (k : ℕ) (us : List User) (bytes : List ℕ) (n : Node)
    → Refines c n (route_each k us bytes n)
unfolding route_each
route_each-Refines zero us bytes n = Refines-refl n
route_each-Refines (suc k) [] bytes n = Refines-refl n
route_each-Refines (suc k) (u ∷ us) bytes n =
    let msg = header_bytes (create_header n.own_name u.chat_name type_route) ++ bytes in
    Refines-if n (is_empty u) _ _ (Refines-refl n) (
      Refines-trans (send_to-Refines u.chat_name msg (length msg) n)
        (route_each-Refines k us bytes _))

remove_user-Yields : (i : ℕ) (u : User) (n : Node) → Yields no_answer n (remove_user i u n)
unfolding remove_user
remove_user-Yields i u n =
    let told = record n { ui = (push_ui (text_not_responding u.chat_name) u.chat_name n.ui).0 } in
    let gone = delete_from_table u.chat_name told in
    let seen = record gone { users = get_hops_one_away gone.table (set gone.users i no_user) } in
    let first : Refines no_answer n seen =
      Refines-trans (push_ui-Refines n (text_not_responding u.chat_name) u.chat_name)
        (Refines-trans (delete_from_table-Refines u.chat_name told refl) (users-Refines gone _)) in
    Yields-bind no_answer n
      (table_to_char_array seen.table (zeros (get_sizeof_routing_table seen.table))) _
      (λ bytes. Refines-trans first (
        route_each-Refines (get_routing_table_size seen.table / record_size) seen.users bytes seen))

-- The treatment of the user at `i`, with the rest of the loop as `rest`.
check_user-Yields :
    (rest : Node → Option Node) (i : ℕ) (o : Option User) (n : Node)
    → ((m : Node) → Yields no_answer m (rest m))
    → Yields no_answer n (elim o [
      | none ↦ some n
      | some u ↦ elim (is_empty u) [
        | true ↦ some n
        | false ↦ elim (u.not_responded == 0) [
          | true ↦ remove_user i u n >>= rest
          | false ↦ rest (record n { users = set n.users i (record u { not_responded = 0 }) })
        ]
      ]
    ])
check_user-Yields rest i none n h = Refines-refl n
check_user-Yields rest i (some u) n h = Yields-elim no_answer n (is_empty u) _ _ (Refines-refl n) (
    Yields-elim no_answer n (u.not_responded == 0) _ _
      (Yields-then no_answer n (remove_user i u n) rest (remove_user-Yields i u n) h)
      (Yields-after no_answer n _ _ (users-Refines n _) (h _)))

check_from-Yields : (k i : ℕ) (n : Node) → Yields no_answer n (check_from k i n)
unfolding check_from
check_from-Yields zero i n = Refines-refl n
check_from-Yields (suc k) i n =
    check_user-Yields (check_from k (suc i)) i (get_elem? n.users i) n (check_from-Yields k (suc i))

pub end_round-Yields : (n : Node) → Yields no_answer n (end_round n)
unfolding end_round
end_round-Yields = check_from-Yields max_users 0
