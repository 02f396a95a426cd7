-- ===== src/Table/Start.antt =====
-- initTable of src/routingTable.c: the table at the start of the program.
use rn_praktikum.Base.{
  ℕ, ◌+◌, ◌*◌, ◌%◌, ◌^◌, ◌<◌, ◌≡◌, refl, ap, sym, ◌∙◌, List, [], ◌∷◌, ◌++◌, none, some, true, false,
  arith, length, length-append, length-take, take, drop, drop-take_same, replicate, zeros, c_str,
  c_str-append, c_str-NoNul, bytes_eq, bytes_eq_refl, str_eq, write_at, write_at-append,
}
use mathlib.Core.List.{append_assoc}
use rn_praktikum.Table.{Entry, Table, init_table, get_routing, adress_and_port, swap32}
use rn_praktikum.Table.Lookup.{lookup, lookup_from, route_of, get_routing-lookup}
use rn_praktikum.Table.Count.{used_from}
use rn_praktikum.Table.Distinct.{distinct_from}
use rn_praktikum.Table.Front.{front_only, all_free}
use rn_praktikum.Table.Invariant.{IsValid}

-- routingTable, reachbleTable, freeEntries and tableLock before main.
abbrev pub start_table : Table
start_table = record {
  slots = replicate 100 (record { entry = none; name = zeros 32; reachable = 0 });
  free_entries = 99;
  mutex = record { held = false; faults = 0 };
}

swap32-adress_and_port :
    (a port : ℕ) → a < 2 ^ 32 → adress_and_port (swap32 a) port ≡ a * 2 ^ 32 + port
unfolding swap32 adress_and_port
swap32-adress_and_port a port h = omega arith

copied_name :
    (name junk : List ℕ)
    → length (c_str name) < length junk
    → c_str (write_at 0 (c_str name ++ 0 ∷ []) junk) ≡ c_str name
copied_name name junk h =
    let bytes = c_str name ++ 0 ∷ [] in
    let size : length bytes ≡ length (c_str name) + 1 = length-append (c_str name) (0 ∷ []) in
    ap (λ d. c_str (write_at 0 bytes d)) (sym (drop-take_same (length bytes) junk))
    ∙ ap c_str (
        write_at-append [] bytes (take (length bytes) junk) (drop (length bytes) junk) 0 refl
          (omega (arith, size, length-take (length bytes) junk)))
    ∙ ap c_str (append_assoc (c_str name) (0 ∷ []) (drop (length bytes) junk))
    ∙ c_str-append (c_str name) (drop (length bytes) junk) (c_str-NoNul name)

-- The own entry.
abbrev own_entry : List ℕ → ℕ → ℕ → List ℕ → List ℕ → Entry
own_entry name adress port junk junk' = record {
  chat_name = write_at 0 (c_str name ++ 0 ∷ []) junk;
  adress = swap32 adress;
  port = port % 2 ^ 16;
  next_chat_name = write_at 0 (c_str name ++ 0 ∷ []) junk';
  next_adress = swap32 adress;
  next_port = port % 2 ^ 16;
  hop_count = 0;
}

pub init_table-IsValid :
    (name : List ℕ) (adress port : ℕ) (junk junk' : List ℕ)
    → IsValid (init_table name adress port junk junk' start_table)
unfolding init_table used_from distinct_from front_only all_free lookup_from
init_table-IsValid name adress port junk junk' = record {
  places = refl;
  accounted = refl;
  distinct = refl;
  front = refl;
}

-- The table after initTable, with a name that fits into 32 bytes with its 0, an address of 32 bits
-- and a port of 16, is valid, and has one entry, the own one: getRouting of the own name returns
-- the own address, as inet_addr gave it, above the own port, and the search finds no other name.
pub init_table_lem :
    (name : List ℕ) (adress port : ℕ) (junk junk' : List ℕ)
    → length (c_str name) < 32
    → adress < 2 ^ 32
    → port < 2 ^ 16
    → length junk ≡ 32
    → let t = init_table name adress port junk junk' start_table in
      IsValid t
      × (get_routing t name ≡ adress * 2 ^ 32 + port)
      × ((other : List ℕ) → str_eq name other ≡ false → lookup t other ≡ none)
unfolding init_table lookup_from
init_table_lem name adress port junk junk' short ha hp hj =
    let own : c_str (write_at 0 (c_str name ++ 0 ∷ []) junk) ≡ c_str name =
      copied_name name junk (omega arith) in
    let same : str_eq (write_at 0 (c_str name ++ 0 ∷ []) junk) name ≡ true =
      ap (λ x. bytes_eq x (c_str name)) own ∙ bytes_eq_refl (c_str name) in
    let wrapped : port % 2 ^ 16 ≡ port = omega arith in
    let found : lookup (init_table name adress port junk junk' start_table) name
        ≡ some (own_entry name adress port junk junk') =
      rw same refl in
    (
      init_table-IsValid name adress port junk junk',
      get_routing-lookup (init_table name adress port junk junk' start_table) name
          ∙ ap route_of found
          ∙ swap32-adress_and_port adress (port % 2 ^ 16) ha
          ∙ ap (λ p. adress * 2 ^ 32 + p) wrapped,
      λ other d. rw (ap (λ x. bytes_eq x (c_str other)) own ∙ d) refl,
    )
