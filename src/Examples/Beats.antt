-- ===== src/Examples/Beats.antt =====
-- Examples for a round of the heartbeat.
use rn_praktikum.Base.{
  ℕ, ◌≡◌, refl, List, [], ◌∷◌, ◌++◌, Option, none, some, false, arith, bytes_eq, c_str,
}
use rn_praktikum.Table.{get_routing_table_size}
use rn_praktikum.Table.Lookup.{lookup, lookup_from}
use rn_praktikum.Table.Count.{used_from}
use rn_praktikum.Table.Distinct.{distinct_from}
use rn_praktikum.Table.Front.{front_only, all_free}
use rn_praktikum.Table.Invariant.{IsValid}
use rn_praktikum.Table.Delete.{delete_loop}
use rn_praktikum.Table.Export.{table_to_char_array, export_from, first_entry}
use rn_praktikum.Node.{Node, User, delete_from_table, get_hops_one_away, hops_from}
use rn_praktikum.Heartbeat.{no_user, is_empty, remove_user, check_from, end_round}
use rn_praktikum.Heartbeat.Removal.{end_round_forgets}
use rn_praktikum.Connections.Cache.{distinct}
use rn_praktikum.Table.Refine.{view}
use rn_praktikum.Routes.{Loses, no_answer}
use rn_praktikum.Host.{IsHost}
use rn_praktikum.Host.Steps.{check, Step-Loses}
use rn_praktikum.Names.{header_size, eot, type_heart}
use rn_praktikum.Queue.{MessageSend, push}
use rn_praktikum.Table.{get_routing}
use rn_praktikum.Protocol.Receive.{handle_msg}
use rn_praktikum.Protocol.Beat.{signal, user_of, heart_answered}
use rn_praktikum.Examples.{alice, bob, small_node, small_table, noise}

abbrev bob_user : ℕ → User
bob_user answered = record {
  chat_name = bob;
  adress = 0x0a00_0002;
  port = 5000;
  not_responded = answered;
}

-- alice's host in the heartbeat's wait, with an answer of bob or without one.
abbrev beating : ℕ → Node
beating answered = record (small_node 1) { users = bob_user answered ∷ no_user ∷ [] }

abbrev result : Option Node → Node
result none = small_node 1
result (some n) = n

beating-IsValid : IsValid (beating 0).table
unfolding used_from distinct_from front_only all_free lookup_from bytes_eq c_str
beating-IsValid = record { places = refl; accounted = refl; distinct = refl; front = refl }

bob_named : is_empty (bob_user 0) ≡ false
unfolding is_empty
bob_named = refl

beaten : end_round (beating 0) ≡ some (result (end_round (beating 0)))
unfolding end_round check_from is_empty remove_user table_to_char_array export_from
    delete_from_table delete_loop bytes_eq first_entry get_routing_table_size get_hops_one_away
    hops_from
beaten = refl

end_round_forgets_example :
    (lookup (result (end_round (beating 0))).table bob ≡ none)
    × ((x : List ℕ)
        → lookup (beating 0).table x ≡ none
        → lookup (result (end_round (beating 0))).table x ≡ none)
end_round_forgets_example =
    end_round_forgets (beating 0) (result (end_round (beating 0))) (bob_user 0) (no_user ∷ [])
      beating-IsValid refl bob_named refl beaten

beating-IsHost : IsHost (beating 0)
unfolding distinct
beating-IsHost = record {
  table_valid = beating-IsValid;
  ui_fits = omega arith;
  send_fits = omega arith;
  cache = refl;
}

Step-Loses_example :
    Loses no_answer (view (beating 0).table bob) (view (result (end_round (beating 0))).table bob)
Step-Loses_example =
    Step-Loses (beating 0) (result (end_round (beating 0))) (check beaten) beating-IsHost refl bob

-- bob's host, with the table of alice's.
abbrev bob_node : Node
bob_node = record (small_node 1) { own_name = bob }

heart_answered_example :
    (q : MessageSend) × (us : List User) × (handle_msg
        (λ i. noise)
        (λ i. noise)
        67
        (signal alice bob type_heart ++ eot ∷ noise)
        bob_node
      ≡ some (record bob_node { send = (push [] q).0 }))
    × (q.dest_addr ≡ get_routing (small_table 1) alice)
    × (q.msg_len ≡ header_size)
    × (handle_msg (λ i. noise) (λ i. noise) 67 (q.msg ++ eot ∷ noise) (beating 0)
        ≡ some (record (beating 0) { users = us }))
    × ((u : User)
        → user_of (get_hops_one_away (small_table 1) (beating 0).users) bob ≡ some u
        → user_of us bob ≡ some (record u { not_responded = 1 }))
unfolding c_str
heart_answered_example =
    heart_answered (λ i. noise) (λ i. noise) bob (eot ∷ noise) (eot ∷ noise) 67 67 (beating 0)
      bob_node (omega arith) (omega arith) refl (omega arith) (omega arith)
