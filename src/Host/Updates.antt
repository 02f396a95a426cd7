-- ===== src/Host/Updates.antt =====
-- cleanUp and tableUpdate of src/routingTable.c on a whole host.
use mathlib.Core.Path.{subst}
use rn_praktikum.Base.{
  ℕ, zero, suc, ◌/◌, ◌≤◌, ◌≡◌, refl, sym, take, drop, inl, inr, List, some, ◌==◌, arith, length,
  get_elem?, Bool-cases,
}
use rn_praktikum.Queue.{max_queue_size, push_ui}
use rn_praktikum.Table.{Entry, Slot, Mutex, scanned, lock, unlock, table_size, record_size}
use rn_praktikum.Table.Marks.{lookup_from-change_at, change_at-IsValid}
use rn_praktikum.Table.Refine.{update_from-Evolves}
use rn_praktikum.Table.Invariant.{update_from-IsValid}
use rn_praktikum.Table.Update.{
  State, update_from, update_record, add_entry, set_slots, change_at, text_signed_on,
}
use rn_praktikum.Table.Relax.{update_record_cases}
use rn_praktikum.Routes.{arrival, Evolves-one, stay}
use rn_praktikum.Node.{
  Node, lock_table, unlock_table, delete_from_table, text_unreachable, change_slot, drop_name,
  unmark, clean_at, clean_from, clean_up, update_loop, table_update,
}
use rn_praktikum.Node.Aging.{IsStale, clean_at_cases, entry-drop_name, entry-unmark}
use rn_praktikum.Host.{Refines, Refines-refl, Refines-trans, table-Refines, push_ui-Refines}
use rn_praktikum.Host.Tables.{length-push_ui, print-Refines, delete_from_table-Refines}

set_mutex-Refines :
    (n : Node) (m : Mutex) → Refines arrival n (record n { table = record (n.table) { mutex = m } })
set_mutex-Refines n m =
    table-Refines n (record (n.table) { mutex = m })
      (λ v. record {
        places = v.places;
        accounted = v.accounted;
        distinct = v.distinct;
        front = v.front;
      })
      (λ v. Evolves-one (stay (λ x. refl)))

lock_table-Refines : (n : Node) → Refines arrival n (lock_table n)
unfolding lock_table
lock_table-Refines n = set_mutex-Refines n (lock n.table.mutex)

unlock_table-Refines : (n : Node) → Refines arrival n (unlock_table n)
unfolding unlock_table
unlock_table-Refines n = set_mutex-Refines n (unlock n.table.mutex)

-- A change of a mark leaves the entries alone.
change_slot-Refines :
    (i : ℕ) (f : Slot → Slot)
    → ((s : Slot) → (f s).entry ≡ s.entry)
    → (n : Node) → Refines arrival n (change_slot i f n)
unfolding change_slot
change_slot-Refines i f keeps n =
    table-Refines n (record (n.table) { slots = change_at i f n.table.slots })
      (change_at-IsValid f keeps i n.table)
      (λ v. Evolves-one (stay (λ x. lookup_from-change_at f keeps scanned i n.table.slots x)))

-- A round of cleanUp at a stale place.
expire : ℕ → List ℕ → Node → Node
unfolding lock_table
expire i name n =
    let gone = delete_from_table name (unlock_table n) in
    lock_table
      (change_slot i drop_name (record gone { ui = (push_ui text_unreachable name gone.ui).0 }))

clean_at-expire :
    (i : ℕ) (n : Node) (s : Slot)
    → get_elem? n.table.slots i ≡ some s
    → IsStale s
    → clean_at i n ≡ expire i s.name n
unfolding clean_at expire
clean_at-expire i n s h st = ground arith

expire-Refines : (i : ℕ) (name : List ℕ) (n : Node) → Refines arrival n (expire i name n)
unfolding expire
expire-Refines i name n =
    let gone = delete_from_table name (unlock_table n) in
    let told = record gone { ui = (push_ui text_unreachable name gone.ui).0 } in
    Refines-trans (unlock_table-Refines n) (
      Refines-trans (delete_from_table-Refines name (unlock_table n) refl) (
        Refines-trans (push_ui-Refines gone text_unreachable name) (
          Refines-trans (change_slot-Refines i drop_name entry-drop_name told)
            (lock_table-Refines (change_slot i drop_name told)))))

clean_at-Refines : (i : ℕ) (n : Node) → Refines arrival n (clean_at i n)
clean_at-Refines i n = elim (clean_at_cases i n) [
  | inl (s, p, st) ↦
      subst (Refines arrival n) (sym (clean_at-expire i n s p st)) (expire-Refines i s.name n)
  | inr (inl p) ↦ subst (Refines arrival n) (sym p) (Refines-refl n)
  | inr (inr p) ↦ subst (Refines arrival n) (sym p) (change_slot-Refines i unmark entry-unmark n)
]

clean_from-Refines : (k i : ℕ) (n : Node) → Refines arrival n (clean_from k i n)
unfolding clean_from
clean_from-Refines zero i n = Refines-refl n
clean_from-Refines (suc k) i n =
    Refines-trans (clean_at-Refines i n) (clean_from-Refines k (suc i) (clean_at i n))

pub clean_up-Refines : (n : Node) → Refines arrival n (clean_up n)
unfolding clean_up
clean_up-Refines = clean_from-Refines table_size 0

length-add_entry :
    (e : Entry) (s : State)
    → length s.ui ≤ max_queue_size
    → length (add_entry e s).ui ≤ max_queue_size
unfolding add_entry
length-add_entry e s h = ground (arith, length-push_ui text_signed_on e.chat_name s.ui)

length-update_record :
    (junk junk' working : List ℕ) (s : State)
    → length s.ui ≤ max_queue_size
    → length (update_record junk junk' working s).ui ≤ max_queue_size
unfolding set_slots
length-update_record junk junk' working s h = elim (update_record_cases junk junk' working s) [
  | inl (p, q) ↦ rw q (length-add_entry _ s h)
  | inr (e, p, q) ↦ rw q h
]

length-update_from :
    (junk junk' : ℕ → List ℕ) (n : ℕ) (message : List ℕ) (s : State)
    → length s.ui ≤ max_queue_size
    → length (update_from junk junk' n message s).ui ≤ max_queue_size
unfolding update_from
length-update_from junk junk' zero message s h = h
length-update_from junk junk' (suc n) message s h =
    length-update_from junk junk' n (drop record_size message) _
      (length-update_record (junk n) (junk' n) (take record_size message) s h)

update_loop-Refines :
    (junk junk' : ℕ → List ℕ) (rounds : ℕ) (message : List ℕ) (n : Node)
    → Refines arrival n (update_loop junk junk' rounds message n)
unfolding update_loop
update_loop-Refines junk junk' rounds message n =
    let s : State = record { table = n.table; ui = n.ui } in
    record {
      host = λ h. record {
        table_valid = update_from-IsValid junk junk' rounds message s h.table_valid;
        ui_fits = length-update_from junk junk' rounds message s h.ui_fits;
        send_fits = h.send_fits;
        cache = h.cache;
      };
      evolves = λ h. update_from-Evolves junk junk' rounds message s h.table_valid;
    }

pub table_update-Refines :
    (junk junk' : ℕ → List ℕ) (message : List ℕ) (len : ℕ) (n : Node)
    → Refines arrival n (table_update junk junk' message len n)
unfolding table_update
table_update-Refines junk junk' message len n =
    let updated = update_loop junk junk' (len / record_size) message (lock_table n) in
    let first : Refines arrival n updated =
      Refines-trans (lock_table-Refines n)
        (update_loop-Refines junk junk' (len / record_size) message (lock_table n)) in
    elim (Bool-cases (len == 80)) [
      | inl e ↦
          subst (Refines arrival n) (sym (rw e refl))
            (Refines-trans first (Refines-trans (print-Refines updated) (unlock_table-Refines _)))
      | inr e ↦
          subst (Refines arrival n) (sym (rw e refl)) (
            Refines-trans first (Refines-trans (clean_up-Refines updated) (unlock_table-Refines _)))
    ]
