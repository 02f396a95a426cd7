-- ===== src/Protocol/Login.antt =====
-- A LOGIN message (src/protocol.c): the record that msg_login makes of it, and the neighbour that
-- it brings into the table.
use mathlib.Core.List.{append_assoc, append-nil}
use rn_praktikum.Base.{
  ℕ, ◌+◌, ◌^◌, ◌<◌, ◌≡◌, ◌≢◌, refl, ap, sym, ◌∙◌, List, [], ◌∷◌, ◌++◌, none, some, arith, length,
  length-append, ==_ne, take, drop, take_all, take-append, drop-append, zeros, zeros-split, get_or,
  write_at, write_at-append, write_at-zeros, write_zero,
}
use rn_praktikum.Names.{get_name, name_len, skip_zeros}
use rn_praktikum.Table.{Entry, record_size, scanned}
use rn_praktikum.Table.Wire.{offset_next_chat_name, bytes32, bytes16, entry_bytes, read_entry}
use rn_praktikum.Table.Codec.{IsEntry, read_entry-entry_bytes}
use rn_praktikum.Table.Update.{State, update_record}
use rn_praktikum.Table.Lookup.{lookup}
use rn_praktikum.Table.Invariant.{IsValid, used}
use rn_praktikum.Table.Capacity.{update_record_new}
use rn_praktikum.Table.Update.{update_from}
use rn_praktikum.Table.Announce.{length-entry_bytes}
use rn_praktikum.Node.{Node, table_update, update_loop, lock_table, unlock_table}
use rn_praktikum.Protocol.Receive.{login_record}

get_name-zeros :
    (xs ys : List ℕ) (m : ℕ)
    → get_or xs 0 0 ≢ 0
    → length xs ≡ 32
    → get_name (zeros (32 + m)) (xs ++ ys) ≡ xs ++ zeros m
unfolding get_name skip_zeros
get_name-zeros [] ys m nz h = absurd (nz refl)
get_name-zeros (b ∷ xs) ys m nz h = rw (==_ne b 0 nz) (
    ap (λ t. write_at name_len (0 ∷ []) (write_at 0 t (zeros (32 + m))))
      (take-append (b ∷ xs) ys 32 (sym h))
    ∙ ap (write_at name_len (0 ∷ [])) (write_at-zeros (b ∷ xs) (32 + m) (omega arith))
    ∙ ap (λ k. write_at name_len (0 ∷ []) ((b ∷ xs) ++ zeros k)) (omega arith)
    ∙ write_zero (b ∷ xs) name_len m (omega arith))

-- The record, for a name field and the six bytes of an address and a port.
login_record-layout :
    (name six rest : List ℕ)
    → get_or name 0 0 ≢ 0
    → length name ≡ 32
    → length six ≡ 6
    → login_record (name ++ (six ++ rest)) ≡ ((name ++ six) ++ name) ++ (six ++ zeros 4)
unfolding login_record
login_record-layout name six rest nz hn hs =
    let content = name ++ (six ++ rest) in
    let taken : take 6 (drop 32 content) ≡ six =
      ap (take 6) (drop-append name (six ++ rest) 32 (sym hn)) ∙ take-append six rest 6 (sym hs) in
    let c1 : write_at 32 six (name ++ zeros 48) ≡ (name ++ six) ++ zeros 42 =
      ap (λ z. write_at 32 six (name ++ z)) (zeros-split 6 42 48 refl)
      ∙ write_at-append name six (zeros 6) (zeros 42) 32 (sym hn) hs
      ∙ sym (append_assoc name six (zeros 42)) in
    let size : length (name ++ six) ≡ 38 = omega (arith, length-append name six) in
    let size' : length ((name ++ six) ++ name) ≡ 70 =
      omega (arith, length-append (name ++ six) name) in
    let all : length (((name ++ six) ++ name) ++ six) ≡ 76 =
      omega (arith, length-append ((name ++ six) ++ name) six) in
    let c2 : take 38 ((name ++ six) ++ zeros 42)
          ++ get_name (drop 38 ((name ++ six) ++ zeros 42)) content
        ≡ ((name ++ six) ++ name) ++ (zeros 6 ++ zeros 4) =
      rw
        (
          take-append (name ++ six) (zeros 42) 38 (sym size),
          drop-append (name ++ six) (zeros 42) 38 (sym size),
        )
        (ap (λ x. (name ++ six) ++ x) (get_name-zeros name (six ++ rest) 10 nz hn)
          ∙ sym (append_assoc (name ++ six) name (zeros 10))) in
    let c3 : write_at 70 six (((name ++ six) ++ name) ++ (zeros 6 ++ zeros 4))
        ≡ ((name ++ six) ++ name) ++ (six ++ zeros 4) =
      write_at-append ((name ++ six) ++ name) six (zeros 6) (zeros 4) 70 (sym size') hs in
    let c4 : write_at 76 (0 ∷ []) (((name ++ six) ++ name) ++ (six ++ zeros 4))
        ≡ ((name ++ six) ++ name) ++ (six ++ zeros 4) =
      ap (write_at 76 (0 ∷ [])) (sym (append_assoc ((name ++ six) ++ name) six (zeros 4)))
      ∙ write_zero (((name ++ six) ++ name) ++ six) 76 4 (omega arith)
      ∙ append_assoc ((name ++ six) ++ name) six (zeros 4) in
    ap (λ s. finish s (get_name (zeros 80) content)) taken
    ∙ ap (finish six) (get_name-zeros name (six ++ rest) 48 nz hn)
    ∙ ap (λ c. close six (take 38 c ++ get_name (drop 38 c) content)) c1
    ∙ ap (close six) c2
    ∙ ap (write_at 76 (0 ∷ [])) c3
    ∙ c4
  where
    close : List ℕ → List ℕ → List ℕ
    close s c = write_at 76 (0 ∷ []) (write_at 70 s c)

    finish : List ℕ → List ℕ → List ℕ
    finish s c0 =
        let c = write_at 32 s c0 in
        close s (take 38 c ++ get_name (drop 38 c) (name ++ (six ++ rest)))

-- A direct neighbour, reached over itself.
abbrev pub neighbour : List ℕ → ℕ → ℕ → ℕ → Entry
neighbour name adress port hops = record {
  chat_name = name;
  adress = adress;
  port = port;
  next_chat_name = name;
  next_adress = adress;
  next_port = port;
  hop_count = hops;
}

-- The content of a LOGIN message: the name field, the address and the port, in network order.
abbrev pub login_content : List ℕ → ℕ → ℕ → List ℕ → List ℕ
login_content name adress port rest = name ++ ((bytes32 adress ++ bytes16 port) ++ rest)

-- The record is the one that the neighbour itself would announce for itself.
pub login_record-entry_bytes :
    (name rest : List ℕ) (adress port : ℕ)
    → get_or name 0 0 ≢ 0
    → length name ≡ 32
    → let e = neighbour name adress port 0 in
      login_record (login_content name adress port rest) ≡ entry_bytes e e
unfolding entry_bytes bytes32 bytes16
login_record-entry_bytes name rest adress port nz hn =
    login_record-layout name (bytes32 adress ++ bytes16 port) rest nz hn refl
    ∙ rw (take_all name 32 (omega arith)) (simp append_assoc)

pub neighbour-IsEntry :
    (name : List ℕ) (adress port hops : ℕ)
    → length name ≡ 32
    → adress < 2 ^ 32
    → port < 2 ^ 16
    → hops < 2 ^ 32
    → IsEntry (neighbour name adress port hops)
neighbour-IsEntry name adress port hops hn ha hp hh = record {
  name_length = hn;
  next_name_length = hn;
  adress_lt = ha;
  port_lt = hp;
  next_adress_lt = ha;
  next_port_lt = hp;
  hop_count_lt = hh;
}

-- The bytes that the one round of tableUpdate works on, and what it reads from them.
abbrev announcement : List ℕ → ℕ → ℕ → List ℕ
announcement name adress port = let e = neighbour name adress port 0 in entry_bytes e e ++ []

take-login_record :
    (name rest : List ℕ) (adress port : ℕ)
    → get_or name 0 0 ≢ 0
    → length name ≡ 32
    → take record_size (login_record (login_content name adress port rest))
      ≡ announcement name adress port
take-login_record name rest adress port nz hn =
    let e = neighbour name adress port 0 in
    ap (take record_size) (login_record-entry_bytes name rest adress port nz hn)
    ∙ take_all (entry_bytes e e) record_size (omega (arith, length-entry_bytes e e hn hn))
    ∙ sym (append-nil (entry_bytes e e))

read_entry-announcement :
    (name junk junk' : List ℕ) (adress port : ℕ)
    → get_or name 0 0 ≢ 0
    → IsEntry (neighbour name adress port 0)
    → length junk ≡ 32
    → length junk' ≡ 32
    → let b = announcement name adress port in
      read_entry b (get_name junk b) (get_name junk' (drop offset_next_chat_name b))
      ≡ neighbour name adress port 1
read_entry-announcement name junk junk' adress port nz fits hj hj' =
    let e = neighbour name adress port 0 in
    read_entry-entry_bytes e e junk junk' [] fits fits nz nz hj hj'

-- tableUpdate reads the neighbour from the record, and finds its name in it.
module _ (name rest junk : List ℕ) where
  pub read_entry-login_record :
      (junk' : List ℕ) (adress port : ℕ)
      → get_or name 0 0 ≢ 0
      → length name ≡ 32
      → adress < 2 ^ 32
      → port < 2 ^ 16
      → length junk ≡ 32
      → length junk' ≡ 32
      → let w = take record_size (login_record (login_content name adress port rest)) in
        read_entry w (get_name junk w) (get_name junk' (drop offset_next_chat_name w))
        ≡ neighbour name adress port 1
  read_entry-login_record junk' adress port nz hn ha hp hj hj' =
      ap (λ w. read_entry w (get_name junk w) (get_name junk' (drop offset_next_chat_name w)))
        (take-login_record name rest adress port nz hn)
      ∙ read_entry-announcement name junk junk' adress port nz
          (neighbour-IsEntry name adress port 0 hn ha hp (omega arith)) hj hj'

  pub get_name-login_record :
      (adress port : ℕ)
      → get_or name 0 0 ≢ 0
      → length name ≡ 32
      → adress < 2 ^ 32
      → port < 2 ^ 16
      → length junk ≡ 32
      → get_name junk (take record_size (login_record (login_content name adress port rest))) ≡ name
  unfolding read_entry
  get_name-login_record adress port nz hn ha hp hj =
      ap (λ (x : Entry). x.chat_name) (read_entry-login_record junk adress port nz hn ha hp hj hj)

-- A LOGIN message of a host that a valid table does not know, while one of the ten scanned places
-- is free: tableUpdate of the record that msg_login makes of it then finds its name, with the
-- announced address and port, as a direct neighbour that is reached over itself in one hop. The
-- name is left-aligned in its 32 bytes, address and port have 32 and 16 bits, and the two name
-- arrays of tableUpdate 32 bytes.
pub table_update_login :
    (junk junk' : ℕ → List ℕ) (name rest : List ℕ) (adress port : ℕ) (n : Node)
    → get_or name 0 0 ≢ 0
    → length name ≡ 32
    → adress < 2 ^ 32
    → port < 2 ^ 16
    → length (junk 0) ≡ 32
    → length (junk' 0) ≡ 32
    → IsValid n.table
    → lookup n.table name ≡ none
    → used n.table < scanned
    → lookup
        (table_update junk junk'
          (login_record (login_content name adress port rest))
          record_size
          n).table
        name
      ≡ some (neighbour name adress port 1)
unfolding table_update update_loop update_from lock_table unlock_table read_entry
table_update_login junk junk' name rest adress port n nz hn ha hp hj hj' v unknown room =
    let b = announcement name adress port in
    let start : State = record { table = (lock_table n).table; ui = n.ui } in
    let read =
      read_entry-announcement name (junk 0) (junk' 0) adress port nz
        (neighbour-IsEntry name adress port 0 hn ha hp (omega arith)) hj hj' in
    let named : get_name (junk 0) b ≡ name = ap (λ (x : Entry). x.chat_name) read in
    let valid : IsValid start.table = record {
      places = v.places;
      accounted = v.accounted;
      distinct = v.distinct;
      front = v.front;
    } in
    let new =
      update_record_new (junk 0) (junk' 0) b start valid (ap (lookup n.table) named ∙ unknown)
        room in
    ap (λ w. lookup (update_record (junk 0) (junk' 0) w start).table name)
      (take-login_record name rest adress port nz hn)
    ∙ ap (lookup (update_record (junk 0) (junk' 0) b start).table) (sym named)
    ∙ new.0
    ∙ ap some read
