-- ===== src/Examples/Messages.antt =====
-- Examples for the handlers of protocol.c.
use rn_praktikum.Base.{
  ℕ, zero, suc, map, replicate, ◌<◌, ◌≡◌, ◌≢◌, ◌+◌, ◌++◌, refl, List, [], ◌∷◌, none, some, Bool,
  true, false, arith, zeros, c_str, codes, str_eq, bytes_eq, length, All, NoNul, not, ◌&&◌, ◌==◌,
}
use rn_praktikum.Names.{header_size, eot, msglen}
use rn_praktikum.Queue.{up}
use rn_praktikum.Table.{get_routing, routing_from, adress_and_port}
use rn_praktikum.Table.Lookup.{lookup, lookup_from}
use rn_praktikum.Series.{add_list, contains}
use rn_praktikum.Node.{Node}
use rn_praktikum.Protocol.{forward, send_with, mem_chr}
use rn_praktikum.Names.Length.{NoEot}
use rn_praktikum.Names.{header_bytes, create_header, set_name, msg_size}
use rn_praktikum.Table.Print.{system}
use rn_praktikum.Protocol.{send_to_all_neighboors}
use rn_praktikum.Protocol.Listed.{AllNamed}
use rn_praktikum.Protocol.Each.{neighbours, letter_to, send_to_all_neighboors_tells}
use rn_praktikum.Table.{scanned}
use rn_praktikum.Protocol.Forward.{forward_never_down, series_mark}
use rn_praktikum.Protocol.Chat.{chat_bytes}
use rn_praktikum.Examples.{no_slot, alice, bob, carol, small_node}

-- No byte of an array is `b`, as a test.
abbrev all_but : ℕ → List ℕ → Bool
all_but b [] = true
all_but b (x ∷ xs) = not (x == b) && all_but b xs

pub all_but-All : (b : ℕ) (xs : List ℕ) → all_but b xs ≡ true → All (λ x. x ≢ b) xs
all_but-All b [] h = tt
all_but-All b (x ∷ xs) h = (ground arith, all_but-All b xs (ground arith))

-- A message with its EOT.
abbrev closed : List ℕ
closed = codes "hi" ++ eot ∷ zeros 20

-- The node after carol's first message was forwarded.
abbrev forwarded : Node
forwarded =
    send_with up (adress_and_port 0x0a00_0002 5000) closed 2
      (record (small_node 1) { series = codes "carol" ∷ [] })

carol_routed : get_routing (small_node 1).table carol ≢ 0
unfolding get_routing routing_from bytes_eq c_str
carol_routed = λ e. omega arith

carol-forwarded : forward alice carol closed (small_node 1) ≡ some forwarded
unfolding forward get_routing routing_from bytes_eq c_str add_list contains msglen mem_chr
carol-forwarded = refl

forward_never_down_example :
    (len : ℕ) × (msglen closed ≡ some len)
    × (forwarded
        ≡ send_with
            (series_mark (contains carol []))
            (get_routing (small_node 1).table carol)
            closed
            len
            (record (small_node 1) { series = forwarded.series }))
    × (contains carol forwarded.series ≡ true)
    × ((x : List ℕ) → contains x [] ≡ true → contains x forwarded.series ≡ true)
forward_never_down_example =
    forward_never_down alice carol closed (small_node 1) forwarded carol_routed carol-forwarded

dave_unknown : lookup (small_node 1).table (codes "dave") ≡ none
unfolding lookup_from bytes_eq c_str
dave_unknown = refl

closed_length : msglen closed ≡ some 2
unfolding msglen
closed_length = refl

own_alice : str_eq alice alice ≡ true
unfolding bytes_eq c_str
own_alice = refl

hi-NoNul : NoNul (codes "hi")
hi-NoNul = all_but-All 0 (codes "hi") refl

pub not_system : str_eq bob system ≡ false
unfolding bytes_eq c_str
not_system = refl

pub typed-NoEot : NoEot (chat_bytes alice bob (c_str (codes "hi")))
unfolding header_bytes set_name create_header c_str
typed-NoEot = all_but-All eot (chat_bytes alice bob (c_str (codes "hi"))) refl

pub hi-NoEot : NoEot (c_str (codes "hi"))
unfolding c_str
hi-NoEot = all_but-All eot (codes "hi") refl

pub typed_fits : header_size + length (c_str (codes "hi")) < msg_size
unfolding c_str
typed_fits = omega arith

no_slots-AllNamed : (n : ℕ) → AllNamed (replicate n no_slot)
no_slots-AllNamed zero = tt
no_slots-AllNamed (suc n) = (tt, no_slots-AllNamed n)

all_named : AllNamed (small_node 1).table.slots
all_named = ((λ e. omega arith), ((λ e. omega arith), ((λ e. omega arith), no_slots-AllNamed 97)))

send_to_all_neighboors_tells_example :
    send_to_all_neighboors closed [] 20 (small_node 1) ≡ record (small_node 1) {
      send =
          map
            (letter_to (small_node 1).table closed 20)
            (neighbours [] scanned (small_node 1).table.slots);
    }
send_to_all_neighboors_tells_example =
    send_to_all_neighboors_tells closed [] 20 (small_node 1) all_named (omega arith)
