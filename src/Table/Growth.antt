-- ===== src/Table/Growth.antt =====
-- The ways that a table has, through the loop of tableUpdate (src/routingTable.c).
use mathlib.Core.Option.{some-injective, none-ne-some}
use rn_praktikum.Base.{
  ℕ, zero, suc, ◌+◌, ◌≤◌, ◌<◌, ◌≡◌, ap, sym, ◌∙◌, inl, inr, List, some, false, ltb, arith, take,
  drop, str_eq, ltb→lt, not-ltb→le, Bool-cases, Option-cases,
}
use rn_praktikum.Names.{get_name}
use rn_praktikum.Table.{Entry, Table, scanned, record_size}
use rn_praktikum.Table.Wire.{offset_next_chat_name, read_entry, next_hop_count}
use rn_praktikum.Table.Lookup.{lookup}
use rn_praktikum.Table.Forget.{lookup-congr}
use rn_praktikum.Table.Count.{used_from-le}
use rn_praktikum.Table.Invariant.{IsValid, used, update_record-IsValid}
use rn_praktikum.Table.Relax.{relax, update_record_known}
use rn_praktikum.Table.Capacity.{update_record_new, update_record_full}
use rn_praktikum.Table.Update.{State, update_record, update_from}

-- The table has a way to `name` of at most `hops` hops.
abbrev pub Reached : Table → List ℕ → ℕ → Type 0
Reached t name hops = (e : Entry) × (lookup t name ≡ some e) × (e.hop_count ≤ hops)

-- No way is lost, and none gets longer.
abbrev pub Grows : Table → Table → Type 0
Grows t t' = (name : List ℕ) (hops : ℕ) → Reached t name hops → Reached t' name hops

-- An entry for one name, where there was none or one of no fewer hops.
Grows-one :
    (t t' : Table) (name : List ℕ) (e : Entry)
    → lookup t' name ≡ some e
    → ((old : Entry) → lookup t name ≡ some old → e.hop_count ≤ old.hop_count)
    → ((x : List ℕ) → str_eq name x ≡ false → lookup t' x ≡ lookup t x)
    → Grows t t'
Grows-one t t' name e self better others x hops (old, p, h) = elim (Bool-cases (str_eq name x)) [
  | inl y ↦
      let le = better old (lookup-congr t name x y ∙ p) in
      (e, sym (lookup-congr t' name x y) ∙ self, omega arith)
  | inr y ↦ (old, others x y ∙ p, h)
]

-- One round of the loop: nothing is lost, and a place at most is taken.
pub update_record-Grows :
    (junk junk' working : List ℕ) (s : State)
    → IsValid s.table
    → let t = (update_record junk junk' working s).table in
      Grows s.table t × (used t ≤ used s.table + 1)
update_record-Grows junk junk' working s v =
    let name = get_name junk working in
    let v' = update_record-IsValid junk junk' working s v in
    elim (Option-cases (lookup s.table name)) [
      | inl p ↦ elim (Bool-cases (ltb (used s.table) scanned)) [
        | inl e ↦
            let (self, others, free, told) =
              update_record_new junk junk' working s v p (ltb→lt _ _ e) in
            (
              Grows-one s.table (update_record junk junk' working s).table name _ self
                  (λ old q. absurd (none-ne-some old (sym p ∙ q))) others,
              omega (arith, v.accounted, v'.accounted, free),
            )
        | inr e ↦
            let full : used s.table ≡ scanned =
              omega (arith, not-ltb→le _ _ e, used_from-le scanned s.table.slots) in
            rw (update_record_full junk junk' working s p full) (λ x hops r. r, omega arith)
      ]
      | inr (e, p) ↦
          let (self, least, others, free, told) = update_record_known junk junk' working s e p in
          (
            Grows-one s.table (update_record junk junk' working s).table name (relax working e) self
                (λ old q.
                  let same : e.hop_count ≡ old.hop_count =
                    ap (λ (x : Entry). x.hop_count) (some-injective _ _ (sym p ∙ q)) in
                  omega (arith, least, same))
                others,
            omega (arith, v.accounted, v'.accounted, free),
          )
    ]

pub update_from-Grows :
    (junk junk' : ℕ → List ℕ) (n : ℕ) (message : List ℕ) (s : State)
    → IsValid s.table
    → Grows s.table (update_from junk junk' n message s).table
unfolding update_from
update_from-Grows junk junk' zero message s v x hops r = r
update_from-Grows junk junk' (suc n) message s v x hops r =
    let working = take record_size message in
    update_from-Grows junk junk' n (drop record_size message)
      (update_record (junk n) (junk' n) working s)
      (update_record-IsValid (junk n) (junk' n) working s v) x hops
      ((update_record-Grows (junk n) (junk' n) working s v).0 x hops r)

-- A round with a free place leads to a way to the name of its record.
pub update_record-Reached :
    (junk junk' working : List ℕ) (s : State)
    → IsValid s.table
    → used s.table < scanned
    → Reached
        (update_record junk junk' working s).table
        (get_name junk working)
        (next_hop_count working)
unfolding read_entry
update_record-Reached junk junk' working s v room =
    elim (Option-cases (lookup s.table (get_name junk working))) [
      | inl p ↦
          let new = update_record_new junk junk' working s v p room in
          (
            read_entry working (get_name junk working)
                (get_name junk' (drop offset_next_chat_name working)),
            new.0,
            omega arith,
          )
      | inr (e, p) ↦
          let (self, least, others, free, told) = update_record_known junk junk' working s e p in
          (relax working e, self, omega (arith, least))
    ]
