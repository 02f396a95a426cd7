-- ===== src/Node/Aging.antt =====
-- cleanUp and tableUpdate of src/routingTable.c: which entries grow stale and are removed.
use rn_praktikum.Base.{
  ℕ, zero, suc, ◌≡◌, ◌≢◌, refl, ap, ◌∙◌, ◌⊎◌, inl, inr, List, none, some, ◌==◌, arith, get_elem?,
  get_or, Option-cases, Bool-cases,
}
use rn_praktikum.Table.{Slot, Table, Mutex, scanned, lock, unlock}
use rn_praktikum.Table.Lookup.{lookup}
use rn_praktikum.Table.Marks.{lookup_from-change_at, change_at-IsValid}
use rn_praktikum.Table.Forget.{forget, lookup-delete_loop}
use rn_praktikum.Table.Invariant.{IsValid, delete_loop-IsValid}
use rn_praktikum.Table.Update.{change_at}
use rn_praktikum.Table.Delete.{delete_loop}
use rn_praktikum.Node.{
  Node, lock_table, unlock_table, delete_from_table, change_slot, drop_name, unmark, clean_at,
  clean_from,
}

-- A place whose name is set, but was not seen since the last cleanUp.
abbrev pub IsStale : Slot → Type 0
IsStale s = (get_or s.name 0 0 ≢ 0) × (s.reachable ≡ 0)

set_mutex-IsValid : (m : Mutex) (t : Table) → IsValid t → IsValid (record t { mutex = m })
set_mutex-IsValid m t v = record {
  places = v.places;
  accounted = v.accounted;
  distinct = v.distinct;
  front = v.front;
}

pub delete_from_table-IsValid :
    (name : List ℕ) (n : Node) → IsValid n.table → IsValid (delete_from_table name n).table
unfolding delete_from_table
delete_from_table-IsValid name n v =
    let t = record (n.table) { mutex = lock n.table.mutex } in
    set_mutex-IsValid (unlock (delete_loop name t).mutex) (delete_loop name t)
      (delete_loop-IsValid name t (set_mutex-IsValid _ n.table v))

-- deleteFromTable removes from a valid table exactly the entries for the name and those whose next
-- hop it is.
pub lookup-delete_from_table :
    (name x : List ℕ) (n : Node)
    → IsValid n.table
    → lookup (delete_from_table name n).table x ≡ forget name (lookup n.table x)
unfolding delete_from_table
lookup-delete_from_table name x n v =
    lookup-delete_loop name x (record (n.table) { mutex = lock n.table.mutex })
      (set_mutex-IsValid _ n.table v)

-- The rounds of cleanUp, by what the place holds.
pub clean_at-stale :
    (i : ℕ) (n : Node) (s : Slot)
    → get_elem? n.table.slots i ≡ some s
    → IsStale s
    → let t = (delete_from_table s.name (unlock_table n)).table in
      (clean_at i n).table
      ≡ record t { slots = change_at i drop_name t.slots; mutex = lock t.mutex }
unfolding clean_at lock_table
clean_at-stale i n s h st = ground arith

pub clean_at_cases :
    (i : ℕ) (n : Node)
    → ((s : Slot) × (get_elem? n.table.slots i ≡ some s) × IsStale s)
      ⊎ ((clean_at i n ≡ n) ⊎ (clean_at i n ≡ change_slot i unmark n))
unfolding clean_at
clean_at_cases i n = elim (Option-cases (get_elem? n.table.slots i)) [
  | inl p ↦ inr (inl (ground arith))
  | inr (s, p) ↦ elim (Bool-cases (get_or s.name 0 0 == 0)) [
    | inl q ↦ inr (inl (ground arith))
    | inr q ↦ elim (Bool-cases (s.reachable == 0)) [
      | inl r ↦ inl (s, p, (ground arith, ground arith))
      | inr r ↦ inr (inr (ground arith))
    ]
  ]
]

unlock_table-IsValid : (n : Node) → IsValid n.table → IsValid (unlock_table n).table
unfolding unlock_table
unlock_table-IsValid n v = set_mutex-IsValid (unlock n.table.mutex) n.table v

pub entry-drop_name : (s : Slot) → (drop_name s).entry ≡ s.entry
unfolding drop_name
entry-drop_name s = refl

pub entry-unmark : (s : Slot) → (unmark s).entry ≡ s.entry
unfolding unmark
entry-unmark s = refl

-- A round of cleanUp at a stale place forgets its name.
pub lookup-clean_at_stale :
    (i : ℕ) (n : Node) (s : Slot) (x : List ℕ)
    → IsValid n.table
    → get_elem? n.table.slots i ≡ some s
    → IsStale s
    → lookup (clean_at i n).table x ≡ forget s.name (lookup n.table x)
unfolding unlock_table
lookup-clean_at_stale i n s x v h st =
    ap (λ (t : Table). lookup t x) (clean_at-stale i n s h st)
    ∙ lookup_from-change_at drop_name entry-drop_name scanned i _ x
    ∙ lookup-delete_from_table s.name x (unlock_table n) (unlock_table-IsValid n v)

pub lookup-change_slot-unmark :
    (i : ℕ) (n : Node) (x : List ℕ) → lookup (change_slot i unmark n).table x ≡ lookup n.table x
unfolding change_slot
lookup-change_slot-unmark i n x =
    lookup_from-change_at unmark entry-unmark scanned i n.table.slots x

-- No round finds a name that was not there.
pub lookup-clean_at-none :
    (i : ℕ) (n : Node) (x : List ℕ)
    → IsValid n.table
    → lookup n.table x ≡ none
    → lookup (clean_at i n).table x ≡ none
lookup-clean_at-none i n x v h = elim (clean_at_cases i n) [
  | inl (s, p, st) ↦ lookup-clean_at_stale i n s x v p st ∙ ap (forget s.name) h
  | inr (inl p) ↦ rw p h
  | inr (inr p) ↦ rw p (lookup-change_slot-unmark i n x ∙ h)
]

pub clean_at-IsValid : (i : ℕ) (n : Node) → IsValid n.table → IsValid (clean_at i n).table
unfolding change_slot
clean_at-IsValid i n v = elim (clean_at_cases i n) [
  | inl (s, p, st) ↦
      let gone = delete_from_table s.name (unlock_table n) in
      rw (clean_at-stale i n s p st) (
        set_mutex-IsValid (lock gone.table.mutex)
          (record (gone.table) { slots = change_at i drop_name gone.table.slots })
          (change_at-IsValid drop_name entry-drop_name i gone.table
            (delete_from_table-IsValid s.name (unlock_table n) (unlock_table-IsValid n v))))
  | inr (inl p) ↦ rw p v
  | inr (inr p) ↦ rw p (change_at-IsValid unmark entry-unmark i n.table v)
]

-- cleanUp keeps the table valid.
pub clean_from-IsValid : (k i : ℕ) (n : Node) → IsValid n.table → IsValid (clean_from k i n).table
unfolding clean_from
clean_from-IsValid zero i n v = v
clean_from-IsValid (suc k) i n v =
    clean_from-IsValid k (suc i) (clean_at i n) (clean_at-IsValid i n v)

pub lookup-clean_from-none :
    (k i : ℕ) (n : Node) (x : List ℕ)
    → IsValid n.table
    → lookup n.table x ≡ none
    → lookup (clean_from k i n).table x ≡ none
unfolding clean_from
lookup-clean_from-none zero i n x v h = h
lookup-clean_from-none (suc k) i n x v h =
    lookup-clean_from-none k (suc i) (clean_at i n) x (clean_at-IsValid i n v)
      (lookup-clean_at-none i n x v h)
