-- ===== src/Examples/Welcome.antt =====
-- An example for the answer to a LOGIN message: dave logs in at alice's host.
use rn_praktikum.Base.{ℕ, zero, suc, ◌≡◌, refl, List, [], ◌∷◌, ◌++◌, some, arith, zeros, replicate}
use rn_praktikum.Queue.{MessageSend}
use rn_praktikum.Table.{adress_and_port}
use rn_praktikum.Table.Lookup.{lookup}
use rn_praktikum.Node.{Node}
use rn_praktikum.Protocol.{route_message}
use rn_praktikum.Protocol.Receive.{msg_login}
use rn_praktikum.Protocol.Login.{login_content, neighbour}
use rn_praktikum.Protocol.Listed.{AllNamed}
use rn_praktikum.Protocol.Told.{table_letter, heart_letter}
use rn_praktikum.Protocol.Welcome.{updated_by, login_answered}
use rn_praktikum.Examples.{alice, alice_entry, small_node, small_slots, no_slot, noise}
use rn_praktikum.Examples.Joining.{dave, dave_unknown, node-IsValid, node_room, alice_first}

pub no_slots-AllNamed : (n : ℕ) → AllNamed (replicate n no_slot)
no_slots-AllNamed zero = tt
no_slots-AllNamed (suc n) = (tt, no_slots-AllNamed n)

pub small_slots-AllNamed : AllNamed (small_slots 1)
small_slots-AllNamed =
    ((λ e. omega arith), ((λ e. omega arith), ((λ e. omega arith), no_slots-AllNamed 97)))

abbrev dave_content : List ℕ
dave_content = login_content dave 0x0a00_0009 5000 (zeros 9)

abbrev to_dave : ℕ
to_dave = adress_and_port 0x0a00_0009 5000

login_answered_example :
    (m : Node) × (r : List ℕ) × (pre : List MessageSend) × (post : List MessageSend) × (msg_login
        (λ n. noise)
        (λ n. noise)
        dave
        dave_content
        (small_node 1)
      ≡ some m)
    × (route_message (updated_by (λ n. noise) (λ n. noise) dave_content (small_node 1)) ≡ some r)
    × (m.send ≡ (pre ++ table_letter dave r to_dave ∷ post) ++ heart_letter alice dave to_dave ∷ [])
    × (lookup m.table dave ≡ some (neighbour dave 0x0a00_0009 5000 1))
    × (m.table ≡ (updated_by (λ n. noise) (λ n. noise) dave_content (small_node 1)).table)
login_answered_example =
    login_answered (λ n. noise) (λ n. noise) dave dave (zeros 9) 0x0a00_0009 5000 (small_node 1)
      alice_entry (λ e. omega arith) refl refl (omega arith) (omega arith) refl refl node-IsValid
      alice_first dave_unknown node_room small_slots-AllNamed (omega arith)
