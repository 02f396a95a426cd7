-- ===== src/Protocol/Neighbours.antt =====
-- send_to_all_neighboors of src/protocol.c: who gets which message.
use mathlib.Core.List.{append_assoc, append-nil}
use rn_praktikum.Base.{
  ℕ, zero, suc, ◌+◌, ◌/◌, ◌≤◌, ◌<◌, ◌≡◌, refl, ap, sym, ◌∙◌, inl, inr, List, [], ◌∷◌, ◌++◌, Bool,
  true, false, if◌then◌else◌, arith, length, length-append, take, str_eq, write_at, Bool-cases,
  lt→ltb,
}
use rn_praktikum.Names.{set_name}
use rn_praktikum.Names.RoundTrip.{length-set_name}
use rn_praktikum.Queue.{MessageSend, single, push_send, max_queue_size}
use rn_praktikum.Queue.Fifo.{push-enqueue}
use rn_praktikum.Table.{Table, get_routing, get_routing_table_size, record_size}
use rn_praktikum.Node.{Node, User, get_hops_one_away}
use rn_praktikum.Heartbeat.{is_empty}
use rn_praktikum.Protocol.{send_with, send_each, no_users, send_to_all_neighboors}

-- The users up to the first without a name, but for `skip`.
unfoldable pub addressed : List ℕ → List User → List User
addressed skip [] = []
addressed skip (u ∷ us) =
    let rest = addressed skip us in
    if is_empty u then [] else if str_eq u.chat_name skip then rest else u ∷ rest

-- The message to a user: his name in the header, and the next hop to him as its destination.
abbrev pub letter : Table → List ℕ → ℕ → User → MessageSend
letter t msg size u = record {
  dest_addr = get_routing t u.chat_name;
  msg = take size (write_at 34 (set_name u.chat_name) msg);
  msg_len = size;
  msg_counter = single;
}

abbrev pub letters : Table → List ℕ → ℕ → List User → List MessageSend
letters t msg size [] = []
letters t msg size (u ∷ us) = letter t msg size u ∷ letters t msg size us

-- A name written over another leaves nothing of it.
write_at_twice :
    (k : ℕ) (bs cs d : List ℕ)
    → length bs ≡ length cs
    → write_at k bs (write_at k cs d) ≡ write_at k bs d
write_at_twice k [] [] d h = refl
write_at_twice k [] (c ∷ cs) d h = absurd (omega arith)
write_at_twice k (b ∷ bs) [] d h = absurd (omega arith)
write_at_twice k (b ∷ bs) (c ∷ cs) [] h = refl
write_at_twice zero (b ∷ bs) (c ∷ cs) (x ∷ d) h =
    ap (λ l. b ∷ l) (write_at_twice zero bs cs d (omega arith))
write_at_twice (suc k) (b ∷ bs) (c ∷ cs) (x ∷ d) h =
    ap (λ l. x ∷ l) (write_at_twice k (b ∷ bs) (c ∷ cs) d h)

readdressed :
    (t : Table) (msg : List ℕ) (size : ℕ) (name : List ℕ) (us : List User)
    → letters t (write_at 34 (set_name name) msg) size us ≡ letters t msg size us
readdressed t msg size name [] = refl
readdressed t msg size name (u ∷ us) =
    ap
      (λ m.
        record {
          dest_addr = get_routing t u.chat_name;
          msg = take size m;
          msg_len = size;
          msg_counter = single;
        }
        ∷ letters t (write_at 34 (set_name name) msg) size us)
      (write_at_twice 34 (set_name u.chat_name) (set_name name) msg
        (length-set_name u.chat_name ∙ sym (length-set_name name)))
    ∙ ap (λ l. letter t msg size u ∷ l) (readdressed t msg size name us)

send_with-room :
    (n : Node) (msg : List ℕ) (size : ℕ) (u : User)
    → length n.send < max_queue_size
    → send_with single
        (get_routing n.table u.chat_name)
        (write_at 34 (set_name u.chat_name) msg)
        size
        n
      ≡ record n { send = n.send ++ letter n.table msg size u ∷ [] }
unfolding send_with push_send
send_with-room n msg size u h =
    ap (λ (q : List MessageSend). record n { send = q })
      (ap (λ (r : List MessageSend × Bool). r.0) (push-enqueue n.send (letter n.table msg size u))
        ∙ ap
            (λ b.
              (if◌then◌else◌ {A = List MessageSend × Bool} b
                (n.send ++ letter n.table msg size u ∷ [], true) (n.send, false)).0)
            (lt→ltb (length n.send) max_queue_size h))

send_each-letters :
    (us : List User) (skip msg : List ℕ) (size : ℕ) (n : Node)
    → length n.send + length (addressed skip us) ≤ max_queue_size
    → send_each us msg skip size n
      ≡ record n { send = n.send ++ letters n.table msg size (addressed skip us) }
unfolding send_each addressed
send_each-letters [] skip msg size n h =
    ap (λ (q : List MessageSend). record n { send = q }) (sym (append-nil n.send))
send_each-letters (u ∷ us) skip msg size n h = elim (Bool-cases (is_empty u)) [
  | inl e ↦ rw e (ap (λ (q : List MessageSend). record n { send = q }) (sym (append-nil n.send)))
  | inr e ↦ elim (Bool-cases (str_eq u.chat_name skip)) [
    | inl s ↦
        let same : addressed skip (u ∷ us) ≡ addressed skip us = rw (e, s) refl in
        rw (e, s, send_each)
          (send_each-letters us skip (write_at 34 (set_name u.chat_name) msg) size n
              (omega (arith, ap (length {A = User}) same, h))
            ∙ ap (λ q. record n { send = n.send ++ q })
                (readdressed n.table msg size u.chat_name (addressed skip us)))
    | inr s ↦
        let same : addressed skip (u ∷ us) ≡ u ∷ addressed skip us = rw (e, s) refl in
        let m = write_at 34 (set_name u.chat_name) msg in
        let l = letter n.table msg size u in
        rw (e, s, send_each)
          (ap (send_each us m skip size)
              (send_with-room n msg size u (omega (arith, ap (length {A = User}) same, h)))
            ∙ send_each-letters us skip m size (record n { send = n.send ++ l ∷ [] })
                (omega (arith, ap (length {A = User}) same, h, length-append n.send (l ∷ [])))
            ∙ ap (λ q. record n { send = (n.send ++ l ∷ []) ++ q })
                (readdressed n.table msg size u.chat_name (addressed skip us))
            ∙ ap (λ q. record n { send = q })
                (append_assoc n.send (l ∷ []) (letters n.table msg size (addressed skip us))))
  ]
]

-- send_to_all_neighboors puts behind the messages that wait one message for every direct neighbour
-- but `skip`, in the order of the table: the given bytes with the neighbour's name as the target in
-- the header, for the next hop to the neighbour. Nothing else changes. The queue must have room.
pub send_to_all_neighboors_lem :
    (msg skip : List ℕ) (size : ℕ) (n : Node)
    → let us =
        addressed skip
          (get_hops_one_away n.table (no_users (get_routing_table_size n.table / record_size))) in
      length n.send + length us ≤ max_queue_size
      → send_to_all_neighboors msg skip size n
        ≡ record n { send = n.send ++ letters n.table msg size us }
unfolding send_to_all_neighboors
send_to_all_neighboors_lem msg skip size n h = send_each-letters _ skip msg size n h
