-- ===== src/Protocol/Told.antt =====
-- The ROUTE message that send_to_all_neighboors of src/protocol.c queues for the direct neighbours,
-- and the one of them for a neighbour that the search finds.
use rn_praktikum.Base.{
  ℕ, suc, ◌+◌, ◌/◌, ◌≤◌, ◌<◌, ◌≡◌, refl, ap, ◌∙◌, inl, inr, List, [], ◌∷◌, ◌++◌, some, Bool, true,
  false, ◌>>=◌, arith, length, take, take_all, c_str, write_at, ◌⊎◌,
}
use rn_praktikum.Names.{header_size, type_heart, set_name}
use rn_praktikum.Queue.{MessageSend, single, push, push_send, max_queue_size}
use rn_praktikum.Queue.Fifo.{push_cases}
use rn_praktikum.Table.{
  Entry, Table, scanned, record_size, get_routing, adress_and_port, get_routing_table_size,
}
use rn_praktikum.Table.Lookup.{lookup, route_of, get_routing-lookup}
use rn_praktikum.Node.{Node, User, get_hops_one_away}
use rn_praktikum.Heartbeat.{send_to}
use rn_praktikum.Protocol.{no_users, send_routes, route_message, send_to_all_neighboors}
use rn_praktikum.Protocol.Login.{neighbour}
use rn_praktikum.Protocol.Neighbours.{addressed, letter, letters, send_to_all_neighboors_lem}
use rn_praktikum.Protocol.Beat.{signal, get_routing-congr}
use rn_praktikum.Protocol.Each.{count_from-le, length-no_users}
use rn_praktikum.Protocol.Listed.{AllNamed, Lists, hops_from-Lists, length-listed-le}

letters-append :
    (t : Table) (msg : List ℕ) (size : ℕ) (us vs : List User)
    → letters t msg size (us ++ vs) ≡ letters t msg size us ++ letters t msg size vs
letters-append t msg size [] vs = refl
letters-append t msg size (u ∷ us) vs =
    ap (λ l. letter t msg size u ∷ l) (letters-append t msg size us vs)

pub length-letters :
    (t : Table) (msg : List ℕ) (size : ℕ) (us : List User)
    → length (letters t msg size us) ≡ length us
length-letters t msg size [] = refl
length-letters t msg size (u ∷ us) = ap suc (length-letters t msg size us)

-- A message that is put behind the others, while there is room.
pub send_to-room :
    (name msg : List ℕ) (len : ℕ) (n : Node)
    → length msg ≤ len
    → length n.send < max_queue_size
    → send_to name msg len n ≡ record n {
      send =
          n.send
          ++ record {
            dest_addr = get_routing n.table name;
            msg = msg;
            msg_len = len;
            msg_counter = single;
          }
            ∷ [];
    }
unfolding send_to push_send
send_to-room name msg len n k h =
    ap (λ m. record n { send = (push n.send (told m)).0 }) (take_all msg len k)
    ∙ ap (λ (q : List MessageSend). record n { send = q }) (pushed (push_cases n.send (told msg)))
  where
    told : List ℕ → MessageSend
    told m = record {
      dest_addr = get_routing n.table name;
      msg = m;
      msg_len = len;
      msg_counter = single;
    }

    pushed :
        ((length n.send < max_queue_size)
            × (push n.send (told msg) ≡ (n.send ++ told msg ∷ [], true)))
          ⊎ ((max_queue_size ≤ length n.send) × (push n.send (told msg) ≡ (n.send, false)))
        → (push n.send (told msg)).0 ≡ n.send ++ told msg ∷ []
    pushed (inl (h', e)) = ap (λ (r : List MessageSend × Bool). r.0) e
    pushed (inr (h', e)) = absurd (omega arith)

-- The message with a table `r` to the neighbour, and the heartbeat to it.
abbrev pub table_letter : List ℕ → List ℕ → ℕ → MessageSend
table_letter name r dest = record {
  dest_addr = dest;
  msg = take (length r) (write_at 34 (set_name name) r);
  msg_len = length r;
  msg_counter = single;
}

abbrev pub heart_letter : List ℕ → List ℕ → ℕ → MessageSend
heart_letter own_name sender dest = record {
  dest_addr = dest;
  msg = signal own_name sender type_heart;
  msg_len = header_size;
  msg_counter = single;
}

-- The route to a direct neighbour that the search finds.
pub get_routing-neighbour :
    (t : Table) (x name : List ℕ) (adress port : ℕ)
    → lookup t name ≡ some (neighbour name adress port 1)
    → c_str x ≡ c_str name
    → get_routing t x ≡ adress_and_port adress port
get_routing-neighbour t x name adress port l e =
    get_routing-congr t x name e ∙ get_routing-lookup t name ∙ ap route_of l

-- Who is told: no more than there are scanned places, and the neighbour among them.
module _ (t : Table) where
  abbrev pub told_users : List User
  told_users =
      addressed [] (get_hops_one_away t (no_users (get_routing_table_size t / record_size)))

  pub told_users-le : length told_users ≤ scanned
  unfolding get_hops_one_away get_routing_table_size
  told_users-le = omega (
    arith,
    length-listed-le [] scanned t.slots (no_users (get_routing_table_size t / record_size)),
    length-no_users (get_routing_table_size t / record_size),
    count_from-le scanned t.slots,
  )

  told_users-Lists :
      (name : List ℕ) (e : Entry)
      → AllNamed t.slots
      → lookup t name ≡ some e
      → e.hop_count ≡ 1
      → Lists told_users e.chat_name
  unfolding get_hops_one_away get_routing_table_size
  told_users-Lists name e a l h =
      hops_from-Lists scanned t.slots (no_users (get_routing_table_size t / record_size)) name e a
        (omega (arith, length-no_users (get_routing_table_size t / record_size))) l h

  -- The messages to them, with the one to the neighbour.
  pub letters-Lists :
      (name r : List ℕ) (adress port : ℕ)
      → AllNamed t.slots
      → lookup t name ≡ some (neighbour name adress port 1)
      → (pre : List MessageSend) × (post : List MessageSend) × (letters t r (length r) told_users
          ≡ pre ++ table_letter name r (adress_and_port adress port) ∷ post)
  letters-Lists name r adress port a l =
      let (pre, u, post, p, q) = told_users-Lists name (neighbour name adress port 1) a l refl in
      (
        letters t r (length r) pre,
        letters t r (length r) post,
        ap (letters t r (length r)) p
            ∙ letters-append t r (length r) pre (u ∷ post)
            ∙ ap
                (λ x.
                  letters t r (length r) pre
                  ++ table_letter x r (get_routing t x) ∷ letters t r (length r) post)
                q
            ∙ ap
                (λ d.
                  letters t r (length r) pre ++ table_letter name r d ∷ letters t r (length r) post)
                (get_routing-neighbour t name name adress port l refl),
      )

-- The announcement, when the table is sent to all.
pub send_routes-letters :
    (n : Node) (r : List ℕ)
    → route_message n ≡ some r
    → length n.send + scanned ≤ max_queue_size
    → send_routes [] n
      ≡ some (record n { send = n.send ++ letters n.table r (length r) (told_users n.table) })
unfolding send_routes
send_routes-letters n r e h =
    ap (λ o. o >>= λ (x : List ℕ). some (send_to_all_neighboors x [] (length x) n)) e
    ∙ ap some (send_to_all_neighboors_lem r [] (length r) n (omega (arith, told_users-le n.table)))
