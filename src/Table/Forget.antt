-- ===== src/Table/Forget.antt =====
-- What the loop of deleteFromTable in src/routingTable.c leaves of the table, and of its mutex.
use rn_praktikum.Base.{
  ℕ, zero, suc, ◌+◌, ◌≡◌, refl, ap, ◌∙◌, inl, inr, List, [], ◌∷◌, Option, none, some, true, false,
  if◌then◌else◌, ◌||◌, arith, Option-cases, str_eq, bytes_eq, c_str, bytes_eq_sound,
}
use rn_praktikum.Table.{Entry, Slot, Table, Mutex, lock, unlock, scanned}
use rn_praktikum.Table.Lookup.{lookup, lookup_from}
use rn_praktikum.Table.Distinct.{Distinct, distinct_from, lookup_from-delete_none}
use rn_praktikum.Table.Invariant.{IsValid}
use rn_praktikum.Table.Delete.{delete_from, delete_loop, leads_to}

-- The entries that survive a deletion of `name`: neither for it nor over it.
abbrev pub forget : List ℕ → Option Entry → Option Entry
forget name none = none
forget name (some e) =
    if str_eq e.chat_name name || str_eq e.next_chat_name name then none else some e

lookup_from-congr :
    (n : ℕ) (slots : List Slot) (a b : List ℕ)
    → str_eq a b ≡ true
    → lookup_from n slots a ≡ lookup_from n slots b
unfolding lookup_from
lookup_from-congr zero slots a b h = refl
lookup_from-congr (suc n) [] a b h = refl
lookup_from-congr (suc n) (s ∷ slots) a b h = elim (Option-cases s.entry) [
  | inl p ↦ ground (arith, lookup_from-congr n slots a b h)
  | inr (e, p) ↦
      let same : str_eq e.chat_name a ≡ str_eq e.chat_name b =
        ap (bytes_eq (c_str e.chat_name)) (bytes_eq_sound _ _ h) in
      ground (arith, same, lookup_from-congr n slots a b h)
]

-- The search takes names as strcmp does.
pub lookup-congr : (t : Table) (a b : List ℕ) → str_eq a b ≡ true → lookup t a ≡ lookup t b
lookup-congr t = lookup_from-congr scanned t.slots

lookup_from-delete :
    (n : ℕ) (name x : List ℕ) (slots : List Slot) (free : ℕ) (m : Mutex)
    → Distinct n slots
    → lookup_from n (delete_from n name slots free m).slots x ≡ forget name (lookup_from n slots x)
unfolding lookup_from delete_from distinct_from
lookup_from-delete zero name x slots free m d = refl
lookup_from-delete (suc n) name x [] free m d = refl
lookup_from-delete (suc n) name x (s ∷ slots) free m d = elim (Option-cases s.entry) [
  | inl p ↦ ground (arith, lookup_from-delete n name x slots free m)
  | inr (e, p) ↦ ground (
    arith,
    lookup_from-delete n name x slots free m,
    lookup_from-delete n name x slots (suc free) (unlock m),
    lookup_from-congr n slots e.chat_name x,
    lookup_from-delete_none x n name slots (suc free) (unlock m),
  )
]

-- After the loop of deleteFromTable, in a table whose names are distinct, the search finds for
-- every name what it found before, unless that entry was for the deleted name or had it as its
-- next hop: then it finds nothing.
pub lookup-delete_loop :
    (name x : List ℕ) (t : Table)
    → IsValid t
    → lookup (delete_loop name t) x ≡ forget name (lookup t x)
unfolding delete_loop
lookup-delete_loop name x t v =
    lookup_from-delete scanned name x t.slots t.free_entries t.mutex v.distinct

-- The entries that the loop removes.
unfoldable pub leading_from : ℕ → List ℕ → List Slot → ℕ
unfolding leads_to
leading_from zero name slots = 0
leading_from (suc n) name [] = 0
leading_from (suc n) name (s ∷ slots) =
    let rest = leading_from n name slots in if leads_to name s then suc rest else rest

abbrev pub leading : List ℕ → Table → ℕ
leading name t = leading_from scanned name t.slots

-- `k` unlocks in a row.
unfoldable pub unlocks : ℕ → Mutex → Mutex
unlocks zero m = m
unlocks (suc k) m = unlocks k (unlock m)

mutex-delete_from :
    (n : ℕ) (name : List ℕ) (slots : List Slot) (free : ℕ) (m : Mutex)
    → (delete_from n name slots free m).mutex ≡ unlocks (leading_from n name slots) m
unfolding delete_from leading_from unlocks
mutex-delete_from zero name slots free m = refl
mutex-delete_from (suc n) name [] free m = refl
mutex-delete_from (suc n) name (s ∷ slots) free m = ground (
  arith,
  mutex-delete_from n name slots (suc free) (unlock m),
  mutex-delete_from n name slots free m,
)

unlocks_free :
    (k : ℕ) (m : Mutex)
    → m.held ≡ false
    → unlocks k m ≡ record { held = false; faults = m.faults + k }
unfolding unlocks unlock
unlocks_free zero m h = ground arith
unlocks_free (suc k) m h = unlocks_free k (unlock m) (ground arith) ∙ ground arith

unlock-unlocks :
    (k : ℕ) (m : Mutex)
    → unlock (unlocks k (lock m)) ≡ record { held = false; faults = m.faults + k }
unfolding unlocks unlock lock
unlock-unlocks zero m = ground arith
unlock-unlocks (suc k) m = ground (arith, unlocks_free k (unlock (lock m)) refl)

-- The mutex through deleteFromTable, which locks it, unlocks it in the loop for every entry that
-- it removes, and unlocks it at the end: it ends free, and was unlocked while it was not locked as
-- many times as entries were removed.
pub mutex-delete_loop :
    (name : List ℕ) (t : Table)
    → unlock (delete_loop name (record t { mutex = lock t.mutex })).mutex
      ≡ record { held = false; faults = t.mutex.faults + leading name t }
unfolding delete_loop
mutex-delete_loop name t =
    ap unlock (mutex-delete_from scanned name t.slots t.free_entries (lock t.mutex))
    ∙ unlock-unlocks (leading name t) t.mutex
