-- ===== src/Examples/Aging.antt =====
-- Examples for cleanUp and the loss of the own entry.
use rn_praktikum.Base.{ℕ, ◌≡◌, ◌++◌, refl, List, none, true, arith, c_str, str_eq, bytes_eq}
use rn_praktikum.Names.{get_name, skip_zeros}
use rn_praktikum.Table.Wire.{entry_bytes, bytes32, bytes16}
use rn_praktikum.Table.Export.{first_entry}
use rn_praktikum.Table.Lookup.{lookup, lookup_from}
use rn_praktikum.Table.Invariant.{IsValid}
use rn_praktikum.Table.Count.{used_from}
use rn_praktikum.Table.Distinct.{distinct_from}
use rn_praktikum.Table.Front.{front_only, all_free}
use rn_praktikum.Table.Forget.{forget}
use rn_praktikum.Node.{clean_up, table_update}
use rn_praktikum.Node.Aging.{IsStale}
use rn_praktikum.Node.Stale.{clean_up-stale, StaleAt}
use rn_praktikum.Node.Own.{table_update_loses_own, Others}
use rn_praktikum.Examples.{
  alice, bob, carol, alice_entry, bob_entry, carol_entry, small_node, taken, noise,
}

pub small_node-IsValid : (seen : ℕ) → IsValid (small_node seen).table
unfolding used_from distinct_from front_only all_free lookup_from bytes_eq c_str
small_node-IsValid seen = record { places = refl; accounted = refl; distinct = refl; front = refl }

bob_stale : StaleAt 1 bob (small_node 1).table
bob_stale = (taken bob_entry 0, refl, refl, ((λ e. omega arith), refl))

carol_forgotten : forget bob (lookup (small_node 1).table carol) ≡ none
unfolding lookup_from bytes_eq c_str
carol_forgotten = refl

clean_up-stale_example : lookup (clean_up (small_node 1)).table carol ≡ none
clean_up-stale_example =
    clean_up-stale (small_node 1) 1 bob carol (small_node-IsValid 1) (omega arith) bob_stale
      carol_forgotten

-- A ROUTE message of two records, bob's and carol's, as bob sends it.
abbrev two_routes : List ℕ
two_routes = entry_bytes bob_entry bob_entry ++ entry_bytes bob_entry carol_entry

alice-IsStale : IsStale (taken alice_entry 0)
alice-IsStale = ((λ e. omega arith), refl)

no_alice : Others (λ n. noise) alice 2 two_routes
unfolding get_name skip_zeros entry_bytes bytes32 bytes16 bytes_eq c_str
no_alice = (refl, (refl, tt))

same_alice : str_eq alice alice ≡ true
unfolding bytes_eq c_str
same_alice = refl

table_update_loses_own_example :
    first_entry (table_update (λ n. noise) (λ n. noise) two_routes 160 (small_node 0)).table.slots
    ≡ none
table_update_loses_own_example =
    table_update_loses_own (λ n. noise) (λ n. noise) two_routes 160 (small_node 0)
      (taken alice_entry 0) alice_entry (omega arith) (refl, refl, same_alice) alice-IsStale
      no_alice
