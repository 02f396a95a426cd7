-- ===== src/Node/Stale.antt =====
-- cleanUp of src/routingTable.c removes what was not heard of: a place that is stale when it
-- starts loses its entries, wherever the loop stands.
use rn_praktikum.Base.{
  ℕ, zero, suc, ◌+◌, ◌≤◌, ◌<◌, ◌≡◌, ◌≢◌, refl, ap, ◌∙◌, ◌⊎◌, inl, inr, List, [], ◌∷◌, none, some,
  arith, get_elem?,
}
use native.Mathlib.Decide.{ℕ_discrete}
use rn_praktikum.Table.{Slot, Table, Mutex, scanned, table_size, lock, unlock}
use rn_praktikum.Table.Lookup.{lookup}
use rn_praktikum.Table.Marks.{get_elem?-change_at}
use rn_praktikum.Table.Forget.{forget}
use rn_praktikum.Table.Invariant.{IsValid}
use rn_praktikum.Table.Delete.{delete_from, delete_loop, clear}
use rn_praktikum.Node.Aging.{
  IsStale, clean_at-stale, clean_at_cases, clean_at-IsValid, lookup-clean_at_stale,
  lookup-change_slot-unmark, lookup-clean_from-none,
}
use rn_praktikum.Node.{
  Node, lock_table, unlock_table, delete_from_table, change_slot, drop_name, unmark, clean_at,
  clean_from, clean_up,
}

-- The deletion clears a place or leaves it.
get_elem?-delete_from :
    (n : ℕ) (name : List ℕ) (slots : List Slot) (free : ℕ) (m : Mutex) (j : ℕ) (s : Slot)
    → get_elem? slots j ≡ some s
    → let slots' = (delete_from n name slots free m).slots in
      (get_elem? slots' j ≡ some s) ⊎ (get_elem? slots' j ≡ some (clear s))
unfolding delete_from
get_elem?-delete_from zero name slots free m j s h = inl h
get_elem?-delete_from (suc n) name [] free m j s h = inl h
get_elem?-delete_from (suc n) name (x ∷ slots) free m zero s h = ground arith
get_elem?-delete_from (suc n) name (x ∷ slots) free m (suc j) s h = ground (
  arith,
  get_elem?-delete_from n name slots (suc free) (unlock m) j s h,
  get_elem?-delete_from n name slots free m j s h,
)

-- A stale place with a given name.
abbrev pub StaleAt : ℕ → List ℕ → Table → Type 0
StaleAt j name t = (s : Slot) × (get_elem? t.slots j ≡ some s) × (s.name ≡ name) × IsStale s

StaleAt-delete :
    (j : ℕ) (name x : List ℕ) (n : Node)
    → StaleAt j name n.table
    → StaleAt j name (delete_from_table x (unlock_table n)).table
unfolding delete_from_table unlock_table lock_table delete_loop clear
StaleAt-delete j name x n (s, p, q, st) =
    elim (get_elem?-delete_from scanned x n.table.slots n.table.free_entries
      (lock (unlock n.table.mutex)) j s p) [
        | inl e ↦ (s, e, q, st)
        | inr e ↦ (clear s, e, q, (st.0, refl))
      ]

StaleAt-clean_at :
    (i j : ℕ) (name : List ℕ) (n : Node)
    → i ≢ j
    → StaleAt j name n.table
    → StaleAt j name (clean_at i n).table
unfolding change_slot
StaleAt-clean_at i j name n ne (s, p, q, st) = elim (clean_at_cases i n) [
  | inl (s', p', st') ↦
      let (x, h, k, y) = StaleAt-delete j name s'.name n (s, p, q, st) in
      rw (clean_at-stale i n s' p' st') (x, get_elem?-change_at drop_name i j _ ne ∙ h, k, y)
  | inr (inl e) ↦ rw e (s, p, q, st)
  | inr (inr e) ↦ rw e (s, get_elem?-change_at unmark i j n.table.slots ne ∙ p, q, st)
]

-- The names that a round leaves are names that were there, with the same entries.
lookup-clean_at :
    (i : ℕ) (n : Node) (x : List ℕ)
    → IsValid n.table
    → (lookup (clean_at i n).table x ≡ lookup n.table x) ⊎ (lookup (clean_at i n).table x ≡ none)
lookup-clean_at i n x v = elim (clean_at_cases i n) [
  | inl (s, p, st) ↦ forget_cases s.name (lookup-clean_at_stale i n s x v p st)
  | inr (inl e) ↦ inl (rw e)
  | inr (inr e) ↦ inl (rw e (lookup-change_slot-unmark i n x))
]
  where
    forget_cases :
        (name : List ℕ)
        → lookup (clean_at i n).table x ≡ forget name (lookup n.table x)
        → (lookup (clean_at i n).table x ≡ lookup n.table x)
          ⊎ (lookup (clean_at i n).table x ≡ none)
    forget_cases name e = ground (arith, e)

forget-clean_at :
    (i : ℕ) (n : Node) (name x : List ℕ)
    → IsValid n.table
    → forget name (lookup n.table x) ≡ none
    → forget name (lookup (clean_at i n).table x) ≡ none
forget-clean_at i n name x v h = elim (lookup-clean_at i n x v) [
  | inl e ↦ ap (forget name) e ∙ h
  | inr e ↦ ap (forget name) e
]

stale_forgotten :
    (k i j : ℕ) (n : Node) (name x : List ℕ)
    → IsValid n.table
    → i ≤ j
    → j < i + k
    → StaleAt j name n.table
    → forget name (lookup n.table x) ≡ none
    → lookup (clean_from k i n).table x ≡ none
unfolding clean_from
stale_forgotten zero i j n name x v lo hi st h = absurd (omega arith)
stale_forgotten (suc k) i j n name x v lo hi st h = elim (ℕ_discrete i j) [
  | yes e ↦
      let (s, p, q, stale) = st in
      lookup-clean_from-none k (suc i) (clean_at i n) x (clean_at-IsValid i n v)
        (lookup-clean_at_stale i n s x v (rw e p) stale ∙ rw q h)
  | no ne ↦
      stale_forgotten k (suc i) j (clean_at i n) name x (clean_at-IsValid i n v) (omega arith)
        (omega arith) (StaleAt-clean_at i j name n ne st) (forget-clean_at i n name x v h)
]

-- After cleanUp of a valid table, a name is not found if its entry was for a name that was stale
-- at one of the 100 places when cleanUp started, or had such a name as its next hop.
pub clean_up-stale :
    (n : Node) (j : ℕ) (name x : List ℕ)
    → IsValid n.table
    → j < table_size
    → StaleAt j name n.table
    → forget name (lookup n.table x) ≡ none
    → lookup (clean_up n).table x ≡ none
unfolding clean_up
clean_up-stale n j name x v h st f =
    stale_forgotten table_size 0 j n name x v (omega arith) (omega arith) st f
