-- ===== src/TestTable/ReadBack.antt =====
-- The bytes that tableToCharArray of src/testTable.c writes, as its tableUpdate reads them.
use mathlib.Core.List.{append_assoc, append-nil}
use mathlib.Core.Option.{some-injective, none-ne-some}
use mathlib.Core.Path.{subst}
use rn_praktikum.Base.{
  ℕ, zero, suc, ◌+◌, ◌*◌, ◌%◌, ◌^◌, ◌≡◌, refl, ap, sym, ◌∙◌, List, [], ◌∷◌, ◌++◌, some, arith,
  length, length-append, length-drop, take, drop, take-append, get_elem?, All,
}
use rn_praktikum.Table.{Entry, record_size}
use rn_praktikum.Table.Wire.{entry_bytes}
use rn_praktikum.Table.Codec.{IsEntry, read_entry-entry_bytes_copied}
use rn_praktikum.Table.Announce.{length-entry_bytes, write_record}
use rn_praktikum.TestTable.{RoutingTable, new_entry, export_from, table_to_char_array}

-- The records of all entries, one after the other.
abbrev pub images : List Entry → List ℕ
images [] = []
images (e ∷ es) = entry_bytes e e ++ images es

size_of : (e : Entry) → IsEntry e → length (entry_bytes e e) ≡ record_size
size_of e v = length-entry_bytes e e v.next_name_length v.name_length

export_from-images :
    (es : List Entry) (i : ℕ) (done buf : List ℕ)
    → All IsEntry es
    → length done ≡ i * record_size
    → length buf ≡ length es * record_size
    → export_from es i (done ++ buf) ≡ done ++ images es
unfolding export_from
export_from-images [] i done [] v hd hb = refl
export_from-images [] i done (b ∷ buf) v hd hb = absurd (omega arith)
export_from-images (e ∷ es) i done buf (ve, v) hd hb =
    ap (export_from es (suc i))
      (write_record e ve.next_name_length e i done buf ve.name_length hd (omega arith))
    ∙ export_from-images es (suc i) (done ++ entry_bytes e e) (drop record_size buf) v
        (omega (arith, length-append done (entry_bytes e e), size_of e ve))
        (omega (arith, length-drop record_size buf))
    ∙ append_assoc done (entry_bytes e e) (images es)

drop-append_add : (xs ys : List ℕ) (n k : ℕ) → n ≡ length xs + k → drop n (xs ++ ys) ≡ drop k ys
drop-append_add [] ys n k e = ap (λ j. drop j ys) (omega arith)
drop-append_add (x ∷ xs) ys zero k e = absurd (omega arith)
drop-append_add (x ∷ xs) ys (suc n) k e = drop-append_add xs ys n k (omega arith)

drop-images :
    (es : List Entry) (i : ℕ) (e : Entry)
    → All IsEntry es
    → get_elem? es i ≡ some e
    → IsEntry e × (rest : List ℕ) × (drop (i * record_size) (images es) ≡ entry_bytes e e ++ rest)
drop-images [] i e v h = absurd (none-ne-some e h)
drop-images (x ∷ es) zero e (vx, v) h =
    let same : x ≡ e = some-injective x e h in
    (subst IsEntry same vx, images es, ap (λ y. entry_bytes y y ++ images es) same)
drop-images (x ∷ es) (suc i) e (vx, v) h =
    let (ve, rest, p) = drop-images es i e v h in
    (
      ve,
      rest,
      drop-append_add (entry_bytes x x) (images es) (suc i * record_size) (i * record_size)
            (omega (arith, size_of x vx))
          ∙ p,
    )

-- The bytes at place `i` of what tableToCharArray writes, read as a record, are entry `i` with one
-- hop more. The array has the size of the table, and the entries fit the C types.
pub new_entry-table_to_char_array :
    (t : RoutingTable) (ergebnis : List ℕ) (i : ℕ) (e : Entry)
    → All IsEntry t.entries
    → length ergebnis ≡ length t.entries * record_size
    → get_elem? t.entries i ≡ some e
    → new_entry (take record_size (drop (i * record_size) (table_to_char_array t ergebnis)))
      ≡ record e { hop_count = (e.hop_count + 1) % 2 ^ 32 }
unfolding table_to_char_array new_entry
new_entry-table_to_char_array t ergebnis i e v size h =
    let (ve, rest, p) = drop-images t.entries i e v h in
    ap (λ b. new_entry (take record_size (drop (i * record_size) b)))
      (export_from-images t.entries 0 [] ergebnis v refl size)
    ∙ ap (λ b. new_entry (take record_size b)) p
    ∙ ap new_entry (
        take-append (entry_bytes e e) rest record_size (sym (size_of e ve))
        ∙ sym (append-nil (entry_bytes e e)))
    ∙ read_entry-entry_bytes_copied e e [] ve ve
