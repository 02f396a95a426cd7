-- ===== src/Examples/Tables.antt =====
-- Examples for the routing table.
use Prim.Native.Nat.{min}
use rn_praktikum.Base.{
  ℕ, ◌+◌, ◌<◌, ◌≡◌, ◌≢◌, refl, ap, List, [], ◌∷◌, ◌++◌, none, some, false, arith, length, drop,
  codes, zeros, replicate, c_str, str_eq, bytes_eq, All,
}
use rn_praktikum.Names.{get_name, skip_zeros}
use rn_praktikum.Queue.{push_ui}
use rn_praktikum.Table.{
  Entry, Table, lock, unlock, get_routing, routing_from, adress_and_port, is_blank, count_from,
  get_routing_table_size, scanned,
}
use rn_praktikum.Table.Wire.{
  entry_bytes, bytes32, bytes16, read_entry, offset_next_chat_name, next_hop_count,
}
use rn_praktikum.Table.Update.{State, update_record, update_from, text_signed_on}
use rn_praktikum.Table.Delete.{delete_loop}
use rn_praktikum.Table.Export.{first_entry, table_to_char_array}
use rn_praktikum.Table.Lookup.{lookup, lookup_from}
use rn_praktikum.Table.Relax.{relax, update_record_known}
use rn_praktikum.Table.Count.{used_from}
use rn_praktikum.Table.Distinct.{distinct_from}
use rn_praktikum.Table.Front.{front_only, all_free}
use rn_praktikum.Table.Invariant.{IsValid, used, update_from-IsValid}
use rn_praktikum.Table.Capacity.{update_record_new, update_record_full}
use rn_praktikum.Table.Forget.{leading, mutex-delete_loop}
use rn_praktikum.Table.Announce.{announced, announced_from, HasName, table_to_char_array-null}
use rn_praktikum.Examples.{
  bob, carol, alice_entry, bob_entry, carol_entry, small_table, small_state, no_slot, taken, noise,
}

-- The way to carol leads over bob.
get_routing_runs : get_routing (small_table 1) carol ≡ adress_and_port 0x0a00_0002 5000
unfolding get_routing routing_from bytes_eq c_str
get_routing_runs = refl

-- carol announced by herself as a direct neighbour.
abbrev shorter : List ℕ
shorter = entry_bytes carol_entry (record carol_entry { hop_count = 0 })

carol_found : lookup small_state.table (get_name noise shorter) ≡ some carol_entry
unfolding lookup_from get_name skip_zeros entry_bytes bytes32 bytes16 bytes_eq c_str
carol_found = refl

update_record_known_example :
    let t = update_record noise noise shorter small_state in
    (lookup t.table (get_name noise shorter) ≡ some (relax shorter carol_entry))
    × ((relax shorter carol_entry).hop_count ≡ min (next_hop_count shorter) 3)
    × ((other : List ℕ)
        → str_eq (get_name noise shorter) other ≡ false
        → lookup t.table other ≡ lookup small_state.table other)
    × (t.table.free_entries ≡ 97)
    × (t.ui ≡ [])
update_record_known_example =
    update_record_known noise noise shorter small_state carol_entry carol_found

-- dave, announced by bob.
abbrev dave_bytes : List ℕ
dave_bytes = entry_bytes bob_entry (record carol_entry { chat_name = codes "dave" ++ zeros 28 })

small_state-IsValid : IsValid small_state.table
unfolding used_from distinct_from front_only all_free lookup_from bytes_eq c_str
small_state-IsValid = record { places = refl; accounted = refl; distinct = refl; front = refl }

dave_missing : lookup small_state.table (get_name noise dave_bytes) ≡ none
unfolding lookup_from get_name skip_zeros entry_bytes bytes32 bytes16 bytes_eq c_str
dave_missing = refl

small_used : used small_state.table < scanned
unfolding used_from
small_used = omega arith

update_record_new_example :
    let t = update_record noise noise dave_bytes small_state in
    let name = get_name noise dave_bytes in
    let next_name = get_name noise (drop offset_next_chat_name dave_bytes) in
    (lookup t.table name ≡ some (read_entry dave_bytes name next_name))
    × ((other : List ℕ)
        → str_eq name other ≡ false
        → lookup t.table other ≡ lookup small_state.table other)
    × (t.table.free_entries + 1 ≡ 97)
    × (t.ui ≡ (push_ui text_signed_on name []).0)
update_record_new_example =
    update_record_new noise noise dave_bytes small_state small_state-IsValid dave_missing small_used

-- Ten hosts, all with the name of bob but for the first.
abbrev full_state : State
full_state = record {
  table = record {
    slots = taken alice_entry 1 ∷ replicate 9 (taken bob_entry 1) ++ replicate 90 no_slot;
    free_entries = 90;
    mutex = record { held = false; faults = 0 };
  };
  ui = [];
}

dave_missing_full : lookup full_state.table (get_name noise dave_bytes) ≡ none
unfolding lookup_from get_name skip_zeros entry_bytes bytes32 bytes16 bytes_eq c_str
dave_missing_full = refl

full_used : used full_state.table ≡ scanned
unfolding used_from
full_used = refl

update_record_full_example : update_record noise noise dave_bytes full_state ≡ full_state
update_record_full_example =
    update_record_full noise noise dave_bytes full_state dave_missing_full full_used

update_from-IsValid_example :
    IsValid (update_from (λ n. noise) (λ n. noise) 2 (shorter ++ dave_bytes) small_state).table
update_from-IsValid_example =
    update_from-IsValid (λ n. noise) (λ n. noise) 2 (shorter ++ dave_bytes) small_state
      small_state-IsValid

-- The deletion of bob takes carol with him.
delete_loop_runs : lookup (delete_loop bob (small_table 1)) carol ≡ none
unfolding lookup_from delete_loop bytes_eq c_str
delete_loop_runs = refl

mutex-delete_loop_example :
    unlock (delete_loop bob (record (small_table 1) { mutex = lock (small_table 1).mutex })).mutex
    ≡ record { held = false; faults = (small_table 1).mutex.faults + leading bob (small_table 1) }
mutex-delete_loop_example = mutex-delete_loop bob (small_table 1)

pub small_size : length (zeros 240) ≡ get_routing_table_size (small_table 1)
unfolding get_routing_table_size count_from is_blank bytes_eq c_str
small_size = refl

small_names : All HasName (announced (small_table 1))
unfolding announced_from is_blank bytes_eq c_str
small_names = (refl, (refl, (refl, tt)))

-- The table after the own entry was lost.
abbrev headless : Table
headless = record {
  slots = no_slot ∷ taken bob_entry 1 ∷ replicate 98 no_slot;
  free_entries = 99;
  mutex = record { held = false; faults = 0 };
}

headless-announced : announced headless ≢ []
unfolding announced_from is_blank bytes_eq c_str
headless-announced = λ e. omega (arith, ap (length {A = Entry}) e)

table_to_char_array-null_example : table_to_char_array headless (zeros 80) ≡ none
unfolding first_entry
table_to_char_array-null_example =
    table_to_char_array-null headless (zeros 80) refl headless-announced
