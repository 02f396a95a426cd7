-- ===== src/Protocol/Leave.antt =====
-- do_logout of src/protocol.c: the LOGOUT message for each direct neighbour.
use mathlib.Core.Option.{none-ne-some}
use mathlib.Core.List.{append-nil}
use mathlib.Core.Path.{subst}
use rn_praktikum.Base.{
  ℕ, zero, suc, ◌+◌, ◌≤◌, ◌≡◌, ◌≢◌, refl, ap, sym, ◌∙◌, inl, inr, List, [], ◌∷◌, ◌++◌, some, arith,
  length, map, take, take_all, get_or, write_at,
}
use rn_praktikum.Names.{header_size, type_logout, set_name}
use rn_praktikum.Queue.{MessageSend, single, max_queue_size}
use rn_praktikum.Table.{Entry, Slot, scanned, get_routing}
use rn_praktikum.Table.Lookup.{lookup, lookup_from, lookup_from-Miss, Slot-cases}
use rn_praktikum.Node.{Node}
use rn_praktikum.Protocol.{do_logout}
use rn_praktikum.Protocol.Beat.{signal, length-signal}
use rn_praktikum.Protocol.Route.{header-readdressed}
use rn_praktikum.Protocol.Listed.{AllNamed, Named-some, str_eq-empty, found_first}
use rn_praktikum.Protocol.Each.{letter_to, send_to_all_neighboors_tells, neighbours-lookup}

-- The LOGOUT message to the host of an entry.
abbrev pub logout_letter : Node → Entry → MessageSend
logout_letter n e = record {
  dest_addr = get_routing n.table e.chat_name;
  msg = signal n.own_name e.chat_name type_logout;
  msg_len = header_size;
  msg_counter = single;
}

signal-readdressed :
    (from name : List ℕ) (type : ℕ)
    → take header_size (write_at 34 (set_name name) (signal from [] type)) ≡ signal from name type
signal-readdressed from name type =
    ap (λ b. take header_size (write_at 34 (set_name name) b))
      (sym (append-nil (signal from [] type)))
    ∙ ap (take header_size)
        (header-readdressed from name type [] ∙ append-nil (signal from name type))
    ∙ take_all (signal from name type) header_size (omega (arith, length-signal from name type))

Named-lookup :
    (k : ℕ) (slots : List Slot) (name : List ℕ) (e : Entry)
    → AllNamed slots
    → lookup_from k slots name ≡ some e
    → get_or e.chat_name 0 0 ≢ 0
unfolding lookup_from
Named-lookup zero slots name e a l = absurd (none-ne-some e l)
Named-lookup (suc k) [] name e a l = absurd (none-ne-some e l)
Named-lookup (suc k) (s ∷ slots) name e (n, a) l = elim (Slot-cases name s) [
  | inl (x, p, q) ↦
      subst (λ (y : Entry). get_or y.chat_name 0 0 ≢ 0)
        (found_first k s slots name x e p l (x, p, q)) (Named-some s x p n)
  | inr m ↦ Named-lookup k slots name e a (sym (lookup_from-Miss k s slots name m) ∙ l)
]

map-split :
    (f : Entry → MessageSend) (pre : List Entry) (e : Entry) (post : List Entry)
    → map f (pre ++ e ∷ post) ≡ map f pre ++ f e ∷ map f post
map-split f [] e post = refl
map-split f (x ∷ pre) e post = ap (λ l. f x ∷ l) (map-split f pre e post)

-- do_logout queues, among its messages behind those that wait, the LOGOUT message to a direct
-- neighbour that the search finds.
pub do_logout_tells :
    (n : Node) (name : List ℕ) (e : Entry)
    → AllNamed n.table.slots
    → lookup n.table name ≡ some e
    → e.hop_count ≡ 1
    → length n.send + scanned ≤ max_queue_size
    → (pre : List MessageSend) × (post : List MessageSend) × (do_logout n
        ≡ record n { send = n.send ++ (pre ++ logout_letter n e ∷ post) })
unfolding do_logout
do_logout_tells n name e a l h room =
    let m = signal n.own_name [] type_logout in
    let (pre, post, p) =
      neighbours-lookup [] scanned n.table.slots name e l h
        (str_eq-empty e.chat_name (Named-lookup scanned n.table.slots name e a l)) in
    let f = letter_to n.table m header_size in
    let own = logout_letter n e in
    (
      map f pre,
      map f post,
      send_to_all_neighboors_tells m [] header_size n a room
          ∙ ap (λ es. record n { send = n.send ++ map f es }) p
          ∙ ap (λ ms. record n { send = n.send ++ ms }) (map-split f pre e post)
          ∙ ap
              (λ b. record n {
                send = n.send ++ (map f pre ++ record own { msg = b } ∷ map f post);
              })
              (signal-readdressed n.own_name e.chat_name type_logout),
    )
