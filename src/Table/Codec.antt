-- ===== src/Table/Codec.antt =====
-- The 80 bytes of an entry, written by tableToCharArray and read by tableUpdate
-- (src/routingTable.c).
use mathlib.Core.List.{append_assoc}
use rn_praktikum.Base.{
  ℕ, zero, suc, ◌+◌, ◌%◌, ◌^◌, ◌≤◌, ◌<◌, ◌≡◌, ◌≢◌, refl, ap, sym, ◌∙◌, List, [], ◌∷◌, ◌++◌, arith,
  length, length-append, take, drop, get_or, take-append, drop-append, take_all, write_at, ==_ne,
  write_at-whole, write_at-past, length-take,
}
use rn_praktikum.Names.{get_name, name_len}
use rn_praktikum.Table.{Entry}
use rn_praktikum.Table.Wire.{
  offset_next_chat_name, offset_adress, offset_port, offset_next_adress, offset_next_port,
  offset_hop_count, read32, read16, bytes32, bytes16, next_hop_count, read_entry, entry_bytes,
}

-- The fields of an entry fit the C types.
pub record IsEntry (e : Entry) : Type 0 where
  pub name_length : length e.chat_name ≡ 32
  pub next_name_length : length e.next_chat_name ≡ 32
  pub adress_lt : e.adress < 2 ^ 32
  pub port_lt : e.port < 2 ^ 16
  pub next_adress_lt : e.next_adress < 2 ^ 32
  pub next_port_lt : e.next_port < 2 ^ 16
  pub hop_count_lt : e.hop_count < 2 ^ 32

get_or-append :
    (xs ys : List ℕ) (i k : ℕ) → i ≡ length xs + k → get_or (xs ++ ys) i 0 ≡ get_or ys k 0
get_or-append [] ys i k e = ap (λ j. get_or ys j 0) (omega arith)
get_or-append (x ∷ xs) ys zero k e = absurd (omega arith)
get_or-append (x ∷ xs) ys (suc i) k e = get_or-append xs ys i k (omega arith)

read32-append : (xs ys : List ℕ) (i k : ℕ) → i ≡ length xs + k → read32 (xs ++ ys) i ≡ read32 ys k
unfolding read32
read32-append xs ys i k e = omega (
  arith,
  get_or-append xs ys i k e,
  get_or-append xs ys (i + 1) (k + 1) (omega arith),
  get_or-append xs ys (i + 2) (k + 2) (omega arith),
  get_or-append xs ys (i + 3) (k + 3) (omega arith),
)

read16-append : (xs ys : List ℕ) (i k : ℕ) → i ≡ length xs + k → read16 (xs ++ ys) i ≡ read16 ys k
unfolding read16
read16-append xs ys i k e =
    omega (arith, get_or-append xs ys i k e, get_or-append xs ys (i + 1) (k + 1) (omega arith))

pub read32-bytes32 : (x : ℕ) (rest : List ℕ) → x < 2 ^ 32 → read32 (bytes32 x ++ rest) 0 ≡ x
unfolding read32 bytes32
read32-bytes32 x rest h = omega arith

read16-bytes16 : (x : ℕ) (rest : List ℕ) → x < 2 ^ 16 → read16 (bytes16 x ++ rest) 0 ≡ x
unfolding read16 bytes16
read16-bytes16 x rest h = omega arith

-- getName of a field whose name starts with its first byte, into an array of 32 bytes: the field,
-- whatever the array held.
pub get_name-left :
    (junk src : List ℕ) (b : ℕ)
    → b ≢ 0
    → length junk ≡ name_len
    → name_len ≤ suc (length src)
    → get_name junk (b ∷ src) ≡ take name_len (b ∷ src)
unfolding get_name
get_name-left junk src b nz hj hs =
    let field = take name_len (b ∷ src) in
    rw (==_ne b 0 nz) (
      ap (write_at name_len (0 ∷ []))
        (write_at-whole field junk (omega (arith, length-take {0} name_len (b ∷ src))))
      ∙ write_at-past name_len 0 field (omega (arith, length-take {0} name_len (b ∷ src))))

get_name-field :
    (junk xs ys : List ℕ)
    → get_or xs 0 0 ≢ 0
    → length junk ≡ name_len
    → length xs ≡ name_len
    → get_name junk (xs ++ ys) ≡ xs
get_name-field junk [] ys nz hj h = absurd (nz refl)
get_name-field junk (b ∷ xs) ys nz hj h =
    get_name-left junk (xs ++ ys) b nz hj (omega (arith, length-append xs ys))
    ∙ take-append (b ∷ xs) ys name_len (sym h)

-- The fields before the next hop's name, and those from there on.
abbrev front : Entry → List ℕ
front e = e.chat_name ++ (bytes32 e.adress ++ bytes16 e.port)

abbrev back : Entry → Entry → List ℕ → List ℕ
back own e rest =
    own.next_chat_name
    ++ (bytes32 own.next_adress ++ (bytes16 own.next_port ++ (bytes32 e.hop_count ++ rest)))

module _ (own e : Entry) (rest : List ℕ) (vo : IsEntry own) (ve : IsEntry e) where
  entry_bytes-layout : entry_bytes own e ++ rest ≡ front e ++ back own e rest
  unfolding entry_bytes
  entry_bytes-layout =
      rw
        (
          take_all e.chat_name 32 (omega (arith, ve.name_length)),
          take_all own.next_chat_name 32 (omega (arith, vo.next_name_length)),
        )
        (simp append_assoc)

  length-front : length (front e) ≡ 38
  unfolding bytes32 bytes16
  length-front =
      omega (arith, length-append e.chat_name (bytes32 e.adress ++ bytes16 e.port), ve.name_length)

  front_assoc :
      front e ++ back own e rest
      ≡ e.chat_name ++ (bytes32 e.adress ++ (bytes16 e.port ++ back own e rest))
  front_assoc = simp append_assoc

  read-adress : read32 (front e ++ back own e rest) offset_adress ≡ e.adress
  read-adress = rw front_assoc (
      read32-append e.chat_name _ offset_adress 0 (omega (arith, ve.name_length))
      ∙ read32-bytes32 e.adress _ ve.adress_lt)

  read-port : read16 (front e ++ back own e rest) offset_port ≡ e.port
  unfolding bytes32
  read-port = rw front_assoc (
      read16-append e.chat_name _ offset_port 4 (omega (arith, ve.name_length))
      ∙ read16-append (bytes32 e.adress) _ 4 0 (omega arith)
      ∙ read16-bytes16 e.port _ ve.port_lt)

  read-next_adress : read32 (front e ++ back own e rest) offset_next_adress ≡ own.next_adress
  read-next_adress =
      read32-append (front e) (back own e rest) offset_next_adress 32 (omega (arith, length-front))
      ∙ read32-append own.next_chat_name _ 32 0 (omega (arith, vo.next_name_length))
      ∙ read32-bytes32 own.next_adress _ vo.next_adress_lt

  read-next_port : read16 (front e ++ back own e rest) offset_next_port ≡ own.next_port
  unfolding bytes32
  read-next_port =
      read16-append (front e) (back own e rest) offset_next_port 36 (omega (arith, length-front))
      ∙ read16-append own.next_chat_name _ 36 4 (omega (arith, vo.next_name_length))
      ∙ read16-append (bytes32 own.next_adress) _ 4 0 (omega arith)
      ∙ read16-bytes16 own.next_port _ vo.next_port_lt

  read-hop_count : read32 (front e ++ back own e rest) offset_hop_count ≡ e.hop_count
  unfolding bytes32 bytes16
  read-hop_count =
      read32-append (front e) (back own e rest) offset_hop_count 38 (omega (arith, length-front))
      ∙ read32-append own.next_chat_name _ 38 6 (omega (arith, vo.next_name_length))
      ∙ read32-append (bytes32 own.next_adress) _ 6 2 (omega arith)
      ∙ read32-append (bytes16 own.next_port) _ 2 0 (omega arith)
      ∙ read32-bytes32 e.hop_count _ ve.hop_count_lt

  read-name :
      (junk : List ℕ)
      → get_or e.chat_name 0 0 ≢ 0
      → length junk ≡ name_len
      → get_name junk (front e ++ back own e rest) ≡ e.chat_name
  read-name junk nz hj = rw front_assoc (get_name-field junk e.chat_name _ nz hj ve.name_length)

  read-next_name :
      (junk : List ℕ)
      → get_or own.next_chat_name 0 0 ≢ 0
      → length junk ≡ name_len
      → get_name junk (drop offset_next_chat_name (front e ++ back own e rest)) ≡ own.next_chat_name
  read-next_name junk nz hj =
      rw (drop-append (front e) (back own e rest) offset_next_chat_name (sym length-front))
        (get_name-field junk own.next_chat_name _ nz hj vo.next_name_length)

-- What tableUpdate reads from the bytes that another host's tableToCharArray wrote for entry `e`,
-- its own first entry being `own`: the name, address and port of `e` with the writer's own name,
-- address and port as the next hop, and one hop more. The indeterminate bytes of the two arrays
-- have no part in it. Both names must be left-aligned, and the entries fit the C types.
pub read_entry-entry_bytes :
    (own e : Entry) (junk junk' rest : List ℕ)
    → IsEntry own
    → IsEntry e
    → get_or e.chat_name 0 0 ≢ 0
    → get_or own.next_chat_name 0 0 ≢ 0
    → length junk ≡ name_len
    → length junk' ≡ name_len
    → let b = entry_bytes own e ++ rest in
      read_entry b (get_name junk b) (get_name junk' (drop offset_next_chat_name b)) ≡ record {
        chat_name = e.chat_name;
        adress = e.adress;
        port = e.port;
        next_chat_name = own.next_chat_name;
        next_adress = own.next_adress;
        next_port = own.next_port;
        hop_count = (e.hop_count + 1) % 2 ^ 32;
      }
unfolding read_entry next_hop_count
read_entry-entry_bytes own e junk junk' rest vo ve he ho hj hj' =
    rw (entry_bytes-layout own e rest vo ve) (λ i. record {
      chat_name = read-name own e rest vo ve junk he hj i;
      adress = read-adress own e rest vo ve i;
      port = read-port own e rest vo ve i;
      next_chat_name = read-next_name own e rest vo ve junk' ho hj' i;
      next_adress = read-next_adress own e rest vo ve i;
      next_port = read-next_port own e rest vo ve i;
      hop_count = (read-hop_count own e rest vo ve i + 1) % 2 ^ 32;
    })

-- The same, when the two names are copied as they stand in the record.
pub read_entry-entry_bytes_copied :
    (own e : Entry) (rest : List ℕ)
    → IsEntry own
    → IsEntry e
    → let b = entry_bytes own e ++ rest in
      read_entry b (take name_len b) (take name_len (drop offset_next_chat_name b)) ≡ record {
        chat_name = e.chat_name;
        adress = e.adress;
        port = e.port;
        next_chat_name = own.next_chat_name;
        next_adress = own.next_adress;
        next_port = own.next_port;
        hop_count = (e.hop_count + 1) % 2 ^ 32;
      }
unfolding read_entry next_hop_count
read_entry-entry_bytes_copied own e rest vo ve =
    let name : take name_len (front e ++ back own e rest) ≡ e.chat_name =
      ap (take name_len) (front_assoc own e rest vo ve)
      ∙ take-append e.chat_name _ name_len (sym ve.name_length) in
    let next_name : take name_len (drop offset_next_chat_name (front e ++ back own e rest))
        ≡ own.next_chat_name =
      ap (take name_len) (
        drop-append (front e) (back own e rest) offset_next_chat_name
          (sym (length-front own e rest vo ve)))
      ∙ take-append own.next_chat_name _ name_len (sym vo.next_name_length) in
    rw (entry_bytes-layout own e rest vo ve) (λ i. record {
      chat_name = name i;
      adress = read-adress own e rest vo ve i;
      port = read-port own e rest vo ve i;
      next_chat_name = next_name i;
      next_adress = read-next_adress own e rest vo ve i;
      next_port = read-next_port own e rest vo ve i;
      hop_count = (read-hop_count own e rest vo ve i + 1) % 2 ^ 32;
    })
