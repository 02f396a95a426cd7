-- ===== src/Protocol/Each.antt =====
-- Who gets a message for all direct neighbours: getHopsOneAway of src/routingTable.c and
-- send_to_all_neighboors of src/protocol.c against the entries of the table.
use mathlib.Core.Option.{none-ne-some}
use rn_praktikum.Base.{
  ℕ, zero, suc, ◌+◌, ◌/◌, ◌≤◌, ◌≡◌, refl, ap, sym, ◌∙◌, inl, inr, List, [], ◌∷◌, ◌++◌, some, none,
  true, false, not, ◌==◌, ◌&&◌, if◌then◌else◌, arith, length, map, take, str_eq, write_at,
  Bool-cases, Option-cases, ==_iff,
}
use rn_praktikum.Names.{set_name}
use rn_praktikum.Queue.{MessageSend, single, max_queue_size}
use rn_praktikum.Table.{
  Entry, Slot, Table, scanned, count_from, record_size, get_routing, get_routing_table_size,
}
use rn_praktikum.Table.Lookup.{lookup_from, lookup_from-Miss, Slot-cases}
use rn_praktikum.Node.{Node, User, hops_from, get_hops_one_away}
use rn_praktikum.Heartbeat.{is_empty, no_user}
use rn_praktikum.Protocol.{no_users, send_to_all_neighboors}
use rn_praktikum.Protocol.Neighbours.{addressed, letters, send_to_all_neighboors_lem}
use rn_praktikum.Protocol.Listed.{
  Named, AllNamed, Named-some, hops_from-take, count_from-tail, count_from-neighbour, found_first,
  found_later, user_of, addressed-one, length-listed-le,
}

-- The entries at `n` places that are one hop away, but for those of the name `skip`.
unfoldable pub neighbours : List ℕ → ℕ → List Slot → List Entry
neighbours skip zero slots = []
neighbours skip (suc n) [] = []
neighbours skip (suc n) (s ∷ slots) =
    let rest = neighbours skip n slots in
    elim s.entry [
      | none ↦ rest
      | some e ↦ if (e.hop_count == 1) && not (str_eq e.chat_name skip) then e ∷ rest else rest
    ]

-- The message to the host of an entry: its name as the target, and the next hop to it.
abbrev pub letter_to : Table → List ℕ → ℕ → Entry → MessageSend
letter_to t msg size e = record {
  dest_addr = get_routing t e.chat_name;
  msg = take size (write_at 34 (set_name e.chat_name) msg);
  msg_len = size;
  msg_counter = single;
}

addressed-no_users : (skip : List ℕ) (m : ℕ) → addressed skip (no_users m) ≡ []
unfolding addressed no_users is_empty
addressed-no_users skip zero = refl
addressed-no_users skip (suc m) = refl

module _ (t : Table) (msg skip : List ℕ) (size : ℕ) where
  abbrev told : List User → List MessageSend
  told us = letters t msg size (addressed skip us)

  -- The step for a direct neighbour.
  told-take :
      (k : ℕ) (s : Slot) (slots : List Slot) (m : ℕ) (x : Entry)
      → Named s.entry
      → s.entry ≡ some x
      → (x.hop_count == 1) ≡ true
      → count_from (suc k) (s ∷ slots) ≤ m
      → ((m' : ℕ)
          → count_from k slots ≤ m'
          → told (hops_from k slots (no_users m'))
            ≡ map (letter_to t msg size) (neighbours skip k slots))
      → told (hops_from (suc k) (s ∷ slots) (no_users m))
        ≡ map (letter_to t msg size) (neighbours skip (suc k) (s ∷ slots))
  unfolding neighbours no_users
  told-take k s slots zero x n p o c next =
      absurd (omega (arith, count_from-neighbour k s slots x p ((==_iff x.hop_count 1).0 o), c))
  told-take k s slots (suc m) x n p o c next =
      let u = user_of x no_user in
      let rest = hops_from k slots (no_users m) in
      let later =
        next m
          (omega (arith, count_from-neighbour k s slots x p ((==_iff x.hop_count 1).0 o), c)) in
      ap told (hops_from-take k s slots no_user (no_users m) x p o)
      ∙ ap (letters t msg size) (addressed-one skip u rest (Named-some s x p n))
      ∙ elim (Bool-cases (str_eq x.chat_name skip)) [
        | inl e ↦ rw (e, p, neighbours) (rw (o, e, neighbours) later)
        | inr e ↦
            rw (e, p, neighbours)
              (rw (o, e, neighbours) (ap (λ l. letter_to t msg size x ∷ l) later))
      ]

  letters-neighbours :
      (k : ℕ) (slots : List Slot) (m : ℕ)
      → AllNamed slots
      → count_from k slots ≤ m
      → told (hops_from k slots (no_users m)) ≡ map (letter_to t msg size) (neighbours skip k slots)
  unfolding neighbours hops_from
  letters-neighbours zero slots m a c = ap (letters t msg size) (addressed-no_users skip m)
  letters-neighbours (suc k) [] m a c = ap (letters t msg size) (addressed-no_users skip m)
  letters-neighbours (suc k) (s ∷ slots) m (n, a) c =
      let tail : count_from k slots ≤ m = omega (arith, count_from-tail k s slots, c) in
      elim (Option-cases s.entry) [
        | inl p ↦ rw (p, neighbours) (letters-neighbours k slots m a tail)
        | inr (x, p) ↦ elim (Bool-cases (x.hop_count == 1)) [
          | inr o ↦ rw (p, neighbours) (rw (o, neighbours) (letters-neighbours k slots m a tail))
          | inl o ↦ told-take k s slots m x n p o c (λ m' c'. letters-neighbours k slots m' a c')
        ]
      ]

pub count_from-le : (k : ℕ) (slots : List Slot) → count_from k slots ≤ k
unfolding count_from
count_from-le zero slots = omega arith
count_from-le (suc k) [] = omega arith
count_from-le (suc k) (s ∷ slots) = ground (arith, count_from-le k slots)

pub length-no_users : (m : ℕ) → length (no_users m) ≡ m
unfolding no_users
length-no_users zero = refl
length-no_users (suc m) = ap suc (length-no_users m)

-- send_to_all_neighboors puts behind the messages that wait one message for every entry of the
-- table that is one hop away and does not have the name `skip`, in the order of the table, and none
-- for another: the given bytes with the name of the entry as the target in the header, for the next
-- hop to it. Nothing else changes. All names start with their first byte, and the queue has room
-- for ten messages.
pub send_to_all_neighboors_tells :
    (msg skip : List ℕ) (size : ℕ) (n : Node)
    → AllNamed n.table.slots
    → length n.send + scanned ≤ max_queue_size
    → send_to_all_neighboors msg skip size n ≡ record n {
      send = n.send ++ map (letter_to n.table msg size) (neighbours skip scanned n.table.slots);
    }
unfolding get_hops_one_away get_routing_table_size
send_to_all_neighboors_tells msg skip size n a room =
    let m = get_routing_table_size n.table / record_size in
    let few : count_from scanned n.table.slots ≤ m = omega arith in
    send_to_all_neighboors_lem msg skip size n (
      omega (
        arith,
        length-listed-le skip scanned n.table.slots (no_users m),
        length-no_users m,
        count_from-le scanned n.table.slots,
      ))
    ∙ ap (λ l. record n { send = n.send ++ l })
        (letters-neighbours n.table msg skip size scanned n.table.slots m a few)

-- A direct neighbour that the search finds is among these entries.
pub neighbours-lookup :
    (skip : List ℕ) (k : ℕ) (slots : List Slot) (name : List ℕ) (e : Entry)
    → lookup_from k slots name ≡ some e
    → e.hop_count ≡ 1
    → str_eq e.chat_name skip ≡ false
    → (pre : List Entry) × (post : List Entry) × (neighbours skip k slots ≡ pre ++ e ∷ post)
unfolding neighbours lookup_from
neighbours-lookup skip zero slots name e l h d = absurd (none-ne-some e l)
neighbours-lookup skip (suc k) [] name e l h d = absurd (none-ne-some e l)
neighbours-lookup skip (suc k) (s ∷ slots) name e l h d = elim (Option-cases s.entry) [
  | inl p ↦
      rw (p, neighbours)
        (neighbours-lookup skip k slots name e (sym (lookup_from-Miss k s slots name (inl p)) ∙ l) h
          d)
  | inr (x, p) ↦ elim (Bool-cases ((x.hop_count == 1) && not (str_eq x.chat_name skip))) [
    | inr o ↦
        rw (p, neighbours)
          (rw (o, neighbours)
            (neighbours-lookup skip k slots name e
              (found_later k s slots name x e p l (λ q. kept x q o)) h d))
    | inl o ↦ elim (Slot-cases name s) [
      | inl hit ↦
          rw (p, neighbours)
            (rw (o, neighbours)
              (
                [],
                neighbours skip k slots,
                ap (λ y. y ∷ neighbours skip k slots) (found_first k s slots name x e p l hit),
              ))
      | inr m ↦
          let (pre, post, q) =
            neighbours-lookup skip k slots name e (sym (lookup_from-Miss k s slots name m) ∙ l) h
              d in
          rw (p, neighbours) (rw (o, neighbours) (x ∷ pre, post, ap (λ r. x ∷ r) q))
    ]
  ]
]
  where
    kept : (x : Entry) → x ≡ e → ((x.hop_count == 1) && not (str_eq x.chat_name skip)) ≡ false → ⊥
    kept x q o =
        let one : (x.hop_count == 1) ≡ true =
          (==_iff x.hop_count 1).1 (ap (λ (y : Entry). y.hop_count) q ∙ h) in
        let other : str_eq x.chat_name skip ≡ false =
          ap (λ (y : Entry). str_eq y.chat_name skip) q ∙ d in
        ground (arith, o, one, other)
