-- ===== src/Table/Refine.antt =====
-- The loop of tableUpdate in src/routingTable.c as changes of the partial function that the table
-- stands for.
use rn_praktikum.Base.{
  ℕ, zero, suc, ◌≡◌, refl, ap, sym, ◌∙◌, inl, inr, List, some, false, ltb, arith, take, drop,
  ltb→lt, not-ltb→le, str_eq, Bool-cases, Option-cases,
}
use rn_praktikum.Names.{get_name}
use rn_praktikum.Table.{Entry, Table, scanned, record_size}
use rn_praktikum.Table.Lookup.{lookup}
use rn_praktikum.Table.Forget.{lookup-congr}
use rn_praktikum.Table.Count.{used_from-le}
use rn_praktikum.Table.Invariant.{IsValid, used, update_record-IsValid}
use rn_praktikum.Table.Relax.{relax, update_record_known}
use rn_praktikum.Table.Capacity.{update_record_new, update_record_full}
use rn_praktikum.Table.Update.{State, update_record, update_from}
use rn_praktikum.Routes.{
  Routes, arrival, Change, stay, learn, shorten, put, IsSameHost, Evolves, start, Evolves-trans,
  Evolves-one,
}

-- The table as a partial function.
abbrev pub view : Table → Routes
view t x = lookup t x

-- A function that differs from another at one name at most is that other with the name put into it.
differs-put :
    (t t' : Table) (name : List ℕ) (e : Entry)
    → lookup t' name ≡ some e
    → ((x : List ℕ) → str_eq name x ≡ false → lookup t' x ≡ lookup t x)
    → (x : List ℕ) → lookup t' x ≡ put name e (view t) x
differs-put t t' name e self others x = elim (Bool-cases (str_eq name x)) [
  | inl y ↦ rw y (sym (lookup-congr t' name x y) ∙ self)
  | inr y ↦ rw y (others x y)
]

relax-IsSameHost : (working : List ℕ) (e : Entry) → IsSameHost e (relax working e)
relax-IsSameHost working e = record {
  same_name = ground arith;
  same_adress = ground arith;
  same_port = ground arith;
}

-- A round of the loop is one change: a new name is learned, unless there is no place for it, and
-- the way to a known one gets no longer.
pub update_record-Change :
    (junk junk' working : List ℕ) (s : State)
    → IsValid s.table
    → Change arrival (view s.table) (view (update_record junk junk' working s).table)
update_record-Change junk junk' working s v =
    let name = get_name junk working in
    let t' = (update_record junk junk' working s).table in
    elim (Option-cases (lookup s.table name)) [
      | inl p ↦ elim (Bool-cases (ltb (used s.table) scanned)) [
        | inl e ↦
            let new = update_record_new junk junk' working s v p (ltb→lt _ _ e) in
            learn name _ refl p (differs-put s.table t' name _ new.0 new.1)
        | inr e ↦
            let full : used s.table ≡ scanned =
              omega (arith, not-ltb→le _ _ e, used_from-le scanned s.table.slots) in
            stay (λ x.
              ap (λ (st : State). lookup st.table x)
                (update_record_full junk junk' working s p full))
      ]
      | inr (e, p) ↦
          let (self, least, others, free, told) = update_record_known junk junk' working s e p in
          shorten name e (relax working e) refl p (relax-IsSameHost working e)
            (omega (arith, least)) (differs-put s.table t' name (relax working e) self others)
    ]

-- The loop of tableUpdate on a valid table is a sequence of such changes.
pub update_from-Evolves :
    (junk junk' : ℕ → List ℕ) (n : ℕ) (message : List ℕ) (s : State)
    → IsValid s.table
    → Evolves arrival (view s.table) (view (update_from junk junk' n message s).table)
unfolding update_from
update_from-Evolves junk junk' zero message s v = start
update_from-Evolves junk junk' (suc n) message s v =
    let working = take record_size message in
    Evolves-trans (Evolves-one (update_record-Change (junk n) (junk' n) working s v)) (
      update_from-Evolves junk junk' n (drop record_size message)
        (update_record (junk n) (junk' n) working s)
        (update_record-IsValid (junk n) (junk' n) working s v))
