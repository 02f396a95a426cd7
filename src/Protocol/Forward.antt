-- ===== src/Protocol/Forward.antt =====
-- forward of src/protocol.c: what becomes of a message for another host.
use mathlib.Core.Option.{some-injective}
use rn_praktikum.Base.{
  ℕ, zero, suc, ◌-◌, ◌^◌, ◌≡◌, ◌≢◌, refl, ap, sym, ◌∙◌, List, [], ◌∷◌, ◌++◌, if◌then◌else◌, c_str,
  none, some, Bool, true, false, arith, take, Bool-cases, ==_ne, inl, inr, Option-cases,
}
use rn_praktikum.Names.{eot, msglen}
use rn_praktikum.Names.Length.{msglen_first, NoEot}
use rn_praktikum.Queue.{MsgCounter, keep, up}
use rn_praktikum.Series.{add_list, contains, add_list-contains, contains-append, contains-longer}
use rn_praktikum.Table.{get_routing}
use rn_praktikum.Table.Lookup.{lookup, get_routing-lookup, route_of}
use rn_praktikum.Node.{Node}
use rn_praktikum.Protocol.{forward, send_with, mem_chr}

mem_chr-NoEot : (n : ℕ) (msg : List ℕ) → NoEot (take n msg) → mem_chr eot n msg ≡ false
unfolding mem_chr
mem_chr-NoEot zero msg h = refl
mem_chr-NoEot (suc n) [] h = refl
mem_chr-NoEot (suc n) (x ∷ msg) h = ground (arith, h.0, mem_chr-NoEot n msg h.1)

-- The mark of a forwarded message: the first to its target, or a later one.
abbrev pub series_mark : Bool → MsgCounter
series_mark false = up
series_mark true = keep

pub forward-eq :
    (sender target msg : List ℕ) (n : Node) (len : ℕ)
    → get_routing n.table target ≢ 0
    → msglen msg ≡ some len
    → let (series, found) = add_list target n.series in
      forward sender target msg n
      ≡ some (
          send_with
            (series_mark found)
            (get_routing n.table target)
            msg
            len
            (record n { series = series }))
unfolding forward
forward-eq sender target msg n len ne h =
    let closed : mem_chr eot len msg ≡ false = mem_chr-NoEot len msg (msglen_first msg h).2 in
    elim (Bool-cases (add_list target n.series).1) [
      | inl found ↦ rw (==_ne (get_routing n.table target) 0 ne, found, h, closed, forward)
      | inr new ↦ rw (==_ne (get_routing n.table target) 0 ne, new, h, forward)
    ]

forward-overrun :
    (sender target msg : List ℕ) (n : Node)
    → get_routing n.table target ≢ 0
    → msglen msg ≡ none
    → forward sender target msg n ≡ none
unfolding forward
forward-overrun sender target msg n ne h = elim (Bool-cases (add_list target n.series).1) [
  | inl found ↦ rw (==_ne (get_routing n.table target) 0 ne, found, h, forward)
  | inr new ↦ rw (==_ne (get_routing n.table target) 0 ne, new, h, forward)
]

-- The list of series with a target in it.
abbrev pub with_target : List ℕ → List (List ℕ) → List (List ℕ)
with_target target l = if contains target l then l else l ++ c_str target ∷ []

contains-with_target :
    (target : List ℕ) (l : List (List ℕ)) → contains target (with_target target l) ≡ true
contains-with_target target l = elim (Bool-cases (contains target l)) [
  | inl e ↦ rw e e
  | inr e ↦ rw e (contains-append target l)
]

contains-with_target_other :
    (x target : List ℕ) (l : List (List ℕ))
    → contains x l ≡ true
    → contains x (with_target target l) ≡ true
contains-with_target_other x target l h = elim (Bool-cases (contains target l)) [
  | inl e ↦ rw e h
  | inr e ↦ rw e (contains-longer x l (c_str target ∷ []) h)
]

-- forward-eq, without add_list.
forward-with_target :
    (sender target msg : List ℕ) (n : Node) (len : ℕ)
    → get_routing n.table target ≢ 0
    → msglen msg ≡ some len
    → forward sender target msg n
      ≡ some (
          send_with
            (series_mark (contains target n.series))
            (get_routing n.table target)
            msg
            len
            (record n { series = with_target target n.series }))
forward-with_target sender target msg n len ne h =
    let queued = λ (l : List (List ℕ) × Bool). some (
      send_with (series_mark l.1) (get_routing n.table target) msg len
        (record n { series = l.0 })) in
    forward-eq sender target msg n len ne h
    ∙ ap queued (add_list-contains target n.series)
    ∙ elim (Bool-cases (contains target n.series)) [ inl e ↦ rw e refl | inr e ↦ rw e refl ]

-- A message that forward has handled, when getRouting did not return 0 for its target, is queued
-- for the address and port that getRouting returned (also for the -1 of an unknown target), with
-- its length up to the EOT, marked UP if its target was not in the list of series and KEEP if it
-- was. Its target is in the list afterwards, and every name that was in the list still is. So no
-- message is marked DOWN, and no name leaves the list, although the code means the message with the
-- EOT to end the series.
pub forward_never_down :
    (sender target msg : List ℕ) (n n' : Node)
    → get_routing n.table target ≢ 0
    → forward sender target msg n ≡ some n'
    → (len : ℕ) × (msglen msg ≡ some len)
      × (n'
          ≡ send_with
              (series_mark (contains target n.series))
              (get_routing n.table target)
              msg
              len
              (record n { series = n'.series }))
      × (contains target n'.series ≡ true)
      × ((x : List ℕ) → contains x n.series ≡ true → contains x n'.series ≡ true)
unfolding send_with
forward_never_down sender target msg n n' ne h = elim (Option-cases (msglen msg)) [
  | inl p ↦ cc (h, forward-overrun sender target msg n ne p)
  | inr (len, p) ↦
      let e = some-injective _ _ (sym h ∙ forward-with_target sender target msg n len ne p) in
      let series : n'.series ≡ with_target target n.series = ap (λ (m : Node). m.series) e in
      (
        len,
        p,
        e
            ∙ ap
                (λ l.
                  send_with (series_mark (contains target n.series)) (get_routing n.table target)
                    msg len (record n { series = l }))
                (sym series),
        ap (contains target) series ∙ contains-with_target target n.series,
        λ x k. ap (contains x) series ∙ contains-with_target_other x target n.series k,
      )
]

-- A message for a target that is not in the table is queued all the same, for the address
-- 255.255.255.255 and the port 65535 that getRouting's -1 stands for: the test for a missing
-- route does not notice it.
pub forward_no_route :
    (sender target msg : List ℕ) (n : Node) (len : ℕ)
    → lookup n.table target ≡ none
    → msglen msg ≡ some len
    → let (series, found) = add_list target n.series in
      forward sender target msg n
      ≡ some (send_with (series_mark found) (2 ^ 64 - 1) msg len (record n { series = series }))
forward_no_route sender target msg n len l h =
    let dest : get_routing n.table target ≡ 2 ^ 64 - 1 =
      get_routing-lookup n.table target ∙ ap route_of l in
    rw dest at (forward-eq sender target msg n len (omega arith) h)
