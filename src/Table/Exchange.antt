-- ===== src/Table/Exchange.antt =====
-- What a host learns from another's table: tableToCharArray on the one, the loop of tableUpdate on
-- the other (src/routingTable.c).
use mathlib.Core.List.{append-nil, append_assoc}
use mathlib.Core.Path.{subst}
use rn_praktikum.Base.{
  ℕ, suc, ◌+◌, ◌%◌, ◌^◌, ◌≤◌, ◌<◌, ◌≡◌, ◌≢◌, refl, ap, sym, ◌∙◌, List, [], ◌∷◌, ◌++◌, some, arith,
  length, take, drop, take-append, drop-append, get_or, All,
}
use rn_praktikum.Names.{get_name}
use rn_praktikum.Table.{Entry, Table, scanned, record_size, get_routing_table_size}
use rn_praktikum.Table.Wire.{entry_bytes, read_entry, next_hop_count}
use rn_praktikum.Table.Export.{first_entry, table_to_char_array}
use rn_praktikum.Table.Lookup.{lookup}
use rn_praktikum.Table.Invariant.{IsValid, used, update_record-IsValid}
use rn_praktikum.Table.Update.{State, update_record, update_from}
use rn_praktikum.Table.Codec.{IsEntry, read_entry-entry_bytes}
use rn_praktikum.Table.Announce.{
  announced, records, HasName, length-entry_bytes, table_to_char_array-records,
}
use rn_praktikum.Table.Growth.{
  Reached, update_record-Grows, update_from-Grows, update_record-Reached,
}

-- An entry as the C types hold it, with a left-aligned name, and room for a hop more.
abbrev pub IsAnnounced : Entry → Type 0
IsAnnounced e = IsEntry e × (get_or e.chat_name 0 0 ≢ 0) × (e.hop_count + 1 < 2 ^ 32)

-- The indeterminate arrays have 32 bytes.
abbrev pub Have32 : (junk : ℕ → List ℕ) → Type 0
Have32 junk = (i : ℕ) → length (junk i) ≡ 32

-- The round for an announced entry.
update_record-announced :
    (junk junk' : List ℕ) (own e : Entry) (s : State)
    → IsEntry own
    → get_or own.next_chat_name 0 0 ≢ 0
    → IsAnnounced e
    → length junk ≡ 32
    → length junk' ≡ 32
    → IsValid s.table
    → used s.table < scanned
    → Reached
        (update_record junk junk' (entry_bytes own e ++ []) s).table
        e.chat_name
        (e.hop_count + 1)
unfolding read_entry
update_record-announced junk junk' own e s vo nn (ve, ne, small) hj hj' v room =
    let b = entry_bytes own e ++ [] in
    let read = read_entry-entry_bytes own e junk junk' [] vo ve ne nn hj hj' in
    let named : get_name junk b ≡ e.chat_name = ap (λ (x : Entry). x.chat_name) read in
    let hops : next_hop_count b ≡ (e.hop_count + 1) % 2 ^ 32 =
      ap (λ (x : Entry). x.hop_count) read in
    let (r, p, h) = update_record-Reached junk junk' b s v room in
    (
      r,
      ap (lookup (update_record junk junk' b s).table) (sym named) ∙ p,
      omega (arith, h, hops, small),
    )

pub update_from-Reached :
    (junk junk' : ℕ → List ℕ) (own : Entry) (es : List Entry) (s : State)
    → IsEntry own
    → get_or own.next_chat_name 0 0 ≢ 0
    → All IsAnnounced es
    → Have32 junk
    → Have32 junk'
    → IsValid s.table
    → used s.table + length es ≤ scanned
    → All
        (λ e.
          Reached
            (update_from junk junk' (length es) (records own es) s).table
            e.chat_name
            (e.hop_count + 1))
        es
unfolding update_from
update_from-Reached junk junk' own [] s vo nn ann hj hj' v room = tt
update_from-Reached junk junk' own (e ∷ es) s vo nn ann hj hj' v room =
    let n = length es in
    let size = length-entry_bytes own e vo.next_name_length ann.0.0.name_length in
    let first : take record_size (records own (e ∷ es)) ≡ entry_bytes own e ++ [] =
      take-append (entry_bytes own e) (records own es) record_size (sym size)
      ∙ sym (append-nil (entry_bytes own e)) in
    let rest : drop record_size (records own (e ∷ es)) ≡ records own es =
      drop-append (entry_bytes own e) (records own es) record_size (sym size) in
    let s1 = update_record (junk n) (junk' n) (entry_bytes own e ++ []) s in
    let v1 = update_record-IsValid (junk n) (junk' n) (entry_bytes own e ++ []) s v in
    let grown = update_record-Grows (junk n) (junk' n) (entry_bytes own e ++ []) s v in
    let goal : List ℕ → List ℕ → Type 0 = λ w m.
      All
        (λ x.
          Reached (update_from junk junk' n m (update_record (junk n) (junk' n) w s)).table
            x.chat_name (x.hop_count + 1))
        (e ∷ es) in
    let reached : goal (entry_bytes own e ++ []) (records own es) = (
      update_from-Grows junk junk' n (records own es) s1 v1 e.chat_name (e.hop_count + 1) (
          update_record-announced (junk n) (junk' n) own e s vo nn ann.0 (hj n) (hj' n) v
            (omega arith)),
      update_from-Reached junk junk' own es s1 vo nn ann.1 hj hj' v1 (omega (arith, grown.1)),
    ) in
    subst (λ w. goal w (drop record_size (records own (e ∷ es)))) (sym first)
      (subst (goal (entry_bytes own e ++ [])) (sym rest) reached)

-- A round takes its record off the front.
update_from-record :
    (junk junk' : ℕ → List ℕ) (n : ℕ) (b x : List ℕ) (s : State)
    → record_size ≡ length b
    → update_from junk junk' (suc n) (b ++ x) s
      ≡ update_from junk junk' n x (update_record (junk n) (junk' n) b s)
unfolding update_from
update_from-record junk junk' n b x s h =
    ap
      (λ m.
        update_from junk junk' n (drop record_size (b ++ x)) (update_record (junk n) (junk' n) m s))
      (take-append b x record_size h)
    ∙ ap (λ m. update_from junk junk' n m (update_record (junk n) (junk' n) b s))
        (drop-append b x record_size h)

-- What comes behind the records of a message is not read.
pub update_from-tail :
    (junk junk' : ℕ → List ℕ) (own : Entry) (es : List Entry) (tail : List ℕ) (s : State)
    → length own.next_chat_name ≡ 32
    → All HasName es
    → update_from junk junk' (length es) (records own es ++ tail) s
      ≡ update_from junk junk' (length es) (records own es) s
unfolding update_from
update_from-tail junk junk' own [] tail s ho names = refl
update_from-tail junk junk' own (e ∷ es) tail s ho (name, names) =
    let b = entry_bytes own e in
    let r = records own es in
    let n = length es in
    let size = sym (length-entry_bytes own e ho name) in
    ap (λ m. update_from junk junk' (suc n) m s) (append_assoc b r tail)
    ∙ update_from-record junk junk' n b (r ++ tail) s size
    ∙ update_from-tail junk junk' own es tail (update_record (junk n) (junk' n) b s) ho names
    ∙ sym (update_from-record junk junk' n b r s size)

pub HasName-announced : (es : List Entry) → All IsAnnounced es → All HasName es
HasName-announced [] h = tt
HasName-announced (e ∷ es) h = (h.0.0.name_length, HasName-announced es h.1)

-- What a host learns from another's table. tableToCharArray of the sender, with its first entry
-- `own`, writes the records of its entries into an array of the size of its table; the loop of
-- tableUpdate over them on the receiver then leads to a way to every name that the sender has, with
-- at most one hop more than the sender's. The entries fit the C types, with left-aligned names and
-- room for one hop more, the receiver's table is valid, and the scanned places have room for as
-- many names as the sender has.
table_learned :
    (junk junk' : ℕ → List ℕ) (t : Table) (own : Entry) (buf : List ℕ) (s : State)
    → first_entry t.slots ≡ some own
    → IsEntry own
    → get_or own.next_chat_name 0 0 ≢ 0
    → All IsAnnounced (announced t)
    → length buf ≡ get_routing_table_size t
    → Have32 junk
    → Have32 junk'
    → IsValid s.table
    → used s.table + length (announced t) ≤ scanned
    → (message : List ℕ) × (table_to_char_array t buf ≡ some message)
      × All
          (λ e.
            Reached
              (update_from junk junk' (length (announced t)) message s).table
              e.chat_name
              (e.hop_count + 1))
          (announced t)
table_learned junk junk' t own buf s first vo nn ann size hj hj' v room = (
  records own (announced t),
  table_to_char_array-records t own buf first vo.next_name_length
      (HasName-announced (announced t) ann) size,
  update_from-Reached junk junk' own (announced t) s vo nn ann hj hj' v room,
)
