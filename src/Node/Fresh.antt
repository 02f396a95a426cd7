-- ===== src/Node/Fresh.antt =====
-- cleanUp of src/routingTable.c keeps what was heard of: a set of names none of which is stale, and
-- whose ways do not lead out of it, stays as it is.
use rn_praktikum.Base.{
  ℕ, zero, suc, ◌≡◌, refl, ◌∙◌, inl, inr, List, Bool, true, false, arith, str_eq, Bool-cases,
  Option-cases,
}
use rn_praktikum.Table.{scanned, table_size}
use rn_praktikum.Table.Lookup.{lookup}
use rn_praktikum.Table.Forget.{forget}
use rn_praktikum.Table.Invariant.{IsValid}
use rn_praktikum.Table.Delete.{delete_loop}
use rn_praktikum.Node.Aging.{
  clean_at-stale, clean_at_cases, clean_at-IsValid, lookup-clean_at_stale,
  lookup-change_slot-unmark,
}
use rn_praktikum.Node.{
  Node, lock_table, unlock_table, delete_from_table, change_slot, clean_at, clean_from, clean_up,
}
use rn_praktikum.Node.Back.{lookup_from-place}
use rn_praktikum.Node.Guard.{IsNameSet, Guarded, Guarded-delete, Guarded-unmark, Guarded-later}

apart_from :
    (names : List ℕ → Bool) (name y : List ℕ)
    → IsNameSet names
    → names name ≡ false
    → names y ≡ true
    → str_eq y name ≡ false
apart_from names name y v out k = elim (Bool-cases (str_eq y name)) [
  | inl e ↦ cc (v.congruent y name e, k, out)
  | inr e ↦ e
]

-- A name of the set survives the deletion of one outside of it.
forget_outside :
    (names : List ℕ → Bool) (i : ℕ) (n : Node) (name x : List ℕ)
    → IsNameSet names
    → Guarded names i n.table.slots
    → names name ≡ false
    → names x ≡ true
    → forget name (lookup n.table x) ≡ lookup n.table x
forget_outside names i n name x v g out h = elim (Option-cases (lookup n.table x)) [
  | inl p ↦ rw p refl
  | inr (e, p) ↦
      let (j, s, at, has, same) = lookup_from-place scanned n.table.slots x e p in
      let inside : names e.chat_name ≡ true = v.congruent e.chat_name x same ∙ h in
      let over : names e.next_chat_name ≡ true = (g.closed j s at e has).1 inside in
      let apart = λ (y : List ℕ) (k : names y ≡ true). apart_from names name y v out k in
      rw p (rw (apart e.chat_name inside, apart e.next_chat_name over) refl)
]

-- A round of cleanUp.
clean_at-keeps :
    (names : List ℕ → Bool) (i : ℕ) (n : Node) (x : List ℕ)
    → IsNameSet names
    → IsValid n.table
    → Guarded names i n.table.slots
    → names x ≡ true
    → Guarded names (suc i) (clean_at i n).table.slots
      × (lookup (clean_at i n).table x ≡ lookup n.table x)
unfolding change_slot delete_from_table unlock_table lock_table delete_loop
clean_at-keeps names i n x v w g h = elim (clean_at_cases i n) [
  | inl (s, p, st) ↦
      let out = g.heard i s (omega arith) p st in
      (
        rw (clean_at-stale i n s p st)
            (Guarded-delete names v i s.name n.table.slots _ _ out g s p out),
        lookup-clean_at_stale i n s x w p st ∙ forget_outside names i n s.name x v g out h,
      )
  | inr (inl e) ↦ rw e (Guarded-later names i n.table.slots g, refl)
  | inr (inr e) ↦ rw e (Guarded-unmark names i n.table.slots g, lookup-change_slot-unmark i n x)
]

clean_from-keeps :
    (names : List ℕ → Bool) (k i : ℕ) (n : Node) (x : List ℕ)
    → IsNameSet names
    → IsValid n.table
    → Guarded names i n.table.slots
    → names x ≡ true
    → lookup (clean_from k i n).table x ≡ lookup n.table x
unfolding clean_from
clean_from-keeps names zero i n x v w g h = refl
clean_from-keeps names (suc k) i n x v w g h =
    let (g', e) = clean_at-keeps names i n x v w g h in
    clean_from-keeps names k (suc i) (clean_at i n) x v (clean_at-IsValid i n w) g' h ∙ e

-- cleanUp of a valid table keeps what was heard of. For a set of names, as strcmp compares them and
-- without the empty one: when no place is stale under a name of the set, every entry is for the
-- name of its place as far as the set is concerned, and entries for names of the set have their
-- next hops in the set, the search finds for each name of the set what it found before.
pub clean_up-keeps :
    (names : List ℕ → Bool) (n : Node) (x : List ℕ)
    → IsNameSet names
    → IsValid n.table
    → Guarded names 0 n.table.slots
    → names x ≡ true
    → lookup (clean_up n).table x ≡ lookup n.table x
unfolding clean_up
clean_up-keeps names n x v w g h = clean_from-keeps names table_size 0 n x v w g h
