-- ===== src/Host/Tables.antt =====
-- printRoutingTable, deleteFromTable and the removal of connections on a whole host.
use rn_praktikum.Base.{
  ℕ, zero, suc, ◌≤◌, ◌≡◌, refl, ap, ◌∙◌, inl, inr, List, [], ◌∷◌, Option, none, some, Bool, true,
  false, ◌==◌, if◌then◌else◌, arith, codes, length, Bool-cases,
}
use rn_praktikum.Queue.{MessageUi, max_queue_size, push_ui}
use rn_praktikum.Connections.{Connection, Net, remove_from, remove_by, remove_con, remove_con_fd}
use rn_praktikum.Connections.Cache.{has, distinct, IsCache, cons-remove_by}
use rn_praktikum.Table.{Entry, Slot, Table, is_blank, scanned, get_routing}
use rn_praktikum.Table.Print.{print_from, print_routing_table, print_entry, system}
use rn_praktikum.Routes.{Cause, loses, Evolves-one, lose}
use rn_praktikum.Node.{Node, lock_table, unlock_table, delete_from_table}
use rn_praktikum.Node.Aging.{delete_from_table-IsValid, lookup-delete_from_table}
use rn_praktikum.Host.{Refines, length-push, ui-Refines}

pub length-push_ui :
    (text name : List ℕ) (q : List MessageUi)
    → length q ≤ max_queue_size
    → length (push_ui text name q).0 ≤ max_queue_size
unfolding push_ui
length-push_ui text name q h = length-push q _ h

-- A round of the loop of printRoutingTable pushes a line, or nothing.
printed_fits :
    (q : List MessageUi) (o : Option Entry)
    → length q ≤ max_queue_size
    → length (elim o [
      | none ↦ q
      | some e ↦ if is_blank e then q else (push_ui (print_entry e) system q).0
    ])
      ≤ max_queue_size
printed_fits q none h = h
printed_fits q (some e) h = elim (Bool-cases (is_blank e)) [
  | inl b ↦ rw b h
  | inr b ↦ rw b (length-push_ui (print_entry e) system q h)
]

length-print_from :
    (n : ℕ) (slots : List Slot) (q : List MessageUi)
    → length q ≤ max_queue_size
    → length (print_from n slots q) ≤ max_queue_size
unfolding print_from
length-print_from zero slots q h = h
length-print_from (suc n) [] q h = h
length-print_from (suc n) (s ∷ slots) q h = length-print_from n slots _ (printed_fits q s.entry h)

length-print_routing_table :
    (t : Table) (q : List MessageUi)
    → length q ≤ max_queue_size
    → length (print_routing_table t q) ≤ max_queue_size
unfolding print_routing_table
length-print_routing_table t q h =
    length-print_from scanned t.slots _
      (length-push_ui (codes "----------------- Routing -----------------") system q h)

has-remove_from :
    (test : Connection → Bool) (addr : ℕ) (cs : List Connection)
    → has addr cs ≡ false
    → has addr (remove_from test cs).0 ≡ false
unfolding has remove_from
has-remove_from test addr [] h = refl
has-remove_from test addr (c ∷ cs) h = ground (arith, has-remove_from test addr cs)

distinct-remove_from :
    (test : Connection → Bool) (cs : List Connection)
    → distinct cs ≡ true
    → distinct (remove_from test cs).0 ≡ true
unfolding distinct remove_from
distinct-remove_from test [] h = refl
distinct-remove_from test (c ∷ cs) h =
    ground (arith, distinct-remove_from test cs, has-remove_from test c.addr_port cs)

remove_by-IsCache :
    (test : Connection → Bool) (net : Net) → IsCache net → IsCache (remove_by test net)
remove_by-IsCache test net h =
    ap distinct (cons-remove_by test net) ∙ distinct-remove_from test net.cons h

pub remove_con-IsCache : (addr : ℕ) (net : Net) → IsCache net → IsCache (remove_con addr net)
unfolding remove_con
remove_con-IsCache addr net = remove_by-IsCache (λ c. c.addr_port == addr) net

pub print-Refines :
    {k : Cause} (n : Node) → Refines k n (record n { ui = print_routing_table n.table n.ui })
print-Refines n = ui-Refines n _ (length-print_routing_table n.table n.ui)

-- deleteFromTable loses the name, and all ways over it.
pub delete_from_table-Refines :
    {k : Cause} (name : List ℕ) (n : Node) → loses k ≡ true → Refines k n (delete_from_table name n)
unfolding delete_from_table lock_table unlock_table
delete_from_table-Refines name n may = record {
  host = λ h. record {
    table_valid = delete_from_table-IsValid name n h.table_valid;
    ui_fits = length-print_routing_table _ n.ui h.ui_fits;
    send_fits = h.send_fits;
    cache = remove_con-IsCache (get_routing n.table name) n.net h.cache;
  };
  evolves = λ h. Evolves-one (lose name may (λ x. lookup-delete_from_table name x n h.table_valid));
}

pub remove_con_fd-IsCache : (fd : ℕ) (net : Net) → IsCache net → IsCache (remove_con_fd fd net)
unfolding remove_con_fd
remove_con_fd-IsCache fd net = remove_by-IsCache _ net
