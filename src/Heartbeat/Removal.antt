-- ===== src/Heartbeat/Removal.antt =====
-- What becomes of a direct neighbour who does not answer (src/heartBeat.c).
use mathlib.Core.Option.{some-injective}
use mathlib.Core.Path.{subst}
use rn_praktikum.Base.{
  ℕ, zero, suc, ◌≡◌, refl, ap, sym, ◌∙◌, inl, inr, List, [], ◌∷◌, none, some, true, false, ◌==◌,
  arith, get_elem?, set, zeros, ◌>>=◌, >>=-eq-some, Bool-cases, Option-cases,
}
use rn_praktikum.Queue.{push_ui}
use rn_praktikum.Table.{Slot, Table, scanned, get_sizeof_routing_table}
use rn_praktikum.Table.Lookup.{lookup, lookup_from}
use rn_praktikum.Table.Export.{table_to_char_array}
use rn_praktikum.Table.Forget.{forget}
use rn_praktikum.Table.Invariant.{IsValid}
use rn_praktikum.Node.{Node, User, delete_from_table, get_hops_one_away}
use rn_praktikum.Node.Aging.{lookup-delete_from_table, delete_from_table-IsValid}
use rn_praktikum.Heartbeat.{
  max_users, no_user, is_empty, send_to, route_each, remove_user, text_not_responding, check_from,
  end_round,
}

-- An entry is found under its own name.
lookup_from-named :
    (n : ℕ) (slots : List Slot) (name : List ℕ) → forget name (lookup_from n slots name) ≡ none
unfolding lookup_from
lookup_from-named zero slots name = refl
lookup_from-named (suc n) [] name = refl
lookup_from-named (suc n) (s ∷ slots) name = ground (arith, lookup_from-named n slots name)

table-route_each :
    (k : ℕ) (us : List User) (bytes : List ℕ) (n : Node) → (route_each k us bytes n).table ≡ n.table
unfolding route_each send_to
table-route_each zero us bytes n = refl
table-route_each (suc k) [] bytes n = refl
table-route_each (suc k) (u ∷ us) bytes n = elim (Bool-cases (is_empty u)) [
  | inl e ↦ rw e refl
  | inr e ↦ rw e (table-route_each k us bytes _)
]

-- The table after the removal of a user.
abbrev Removes : List ℕ → Table → Table → Type 0
Removes name t t' = IsValid t' × ((x : List ℕ) → lookup t' x ≡ forget name (lookup t x))

remove_user-Removes :
    (i : ℕ) (u : User) (n m : Node)
    → IsValid n.table
    → remove_user i u n ≡ some m
    → Removes u.chat_name n.table m.table
unfolding remove_user
remove_user-Removes i u n m v h =
    let told = record n { ui = (push_ui (text_not_responding u.chat_name) u.chat_name n.ui).0 } in
    let gone = delete_from_table u.chat_name told in
    let seen = record gone { users = get_hops_one_away gone.table (set gone.users i no_user) } in
    let (bytes, e, g) =
      >>=-eq-some (table_to_char_array seen.table (zeros (get_sizeof_routing_table seen.table))) _
        h in
    let same : m.table ≡ gone.table =
      sym (ap (λ (x : Node). x.table) (some-injective _ _ g))
      ∙ table-route_each _ seen.users bytes seen in
    (
      subst IsValid (sym same) (delete_from_table-IsValid u.chat_name told v),
      λ x. ap (λ t. lookup t x) same ∙ lookup-delete_from_table u.chat_name x told v,
    )

check_from-none :
    (k i : ℕ) (n n' : Node) (x : List ℕ)
    → IsValid n.table
    → lookup n.table x ≡ none
    → check_from k i n ≡ some n'
    → lookup n'.table x ≡ none
unfolding check_from
check_from-none zero i n n' x v l h =
    ap (λ (m : Node). lookup m.table x) (sym (some-injective _ _ h)) ∙ l
check_from-none (suc k) i n n' x v l h = elim (Option-cases (get_elem? n.users i)) [
  | inl p ↦
      ap (λ (m : Node). lookup m.table x) (sym (some-injective _ _ (rw (p, check_from) at h))) ∙ l
  | inr (u, p) ↦ elim (Bool-cases (is_empty u)) [
    | inl e ↦
        ap (λ (m : Node). lookup m.table x) (sym (some-injective _ _ (rw (p, e, check_from) at h)))
        ∙ l
    | inr e ↦ elim (Bool-cases (u.not_responded == 0)) [
      | inl z ↦
          let (m, r, g) =
            >>=-eq-some (remove_user i u n) (check_from k (suc i))
              (rw (p, e, z, check_from) at h) in
          let (v', removed) = remove_user-Removes i u n m v r in
          check_from-none k (suc i) m n' x v' (removed x ∙ ap (forget u.chat_name) l) g
      | inr z ↦ check_from-none k (suc i) _ n' x v l (rw (p, e, z, check_from) at h)
    ]
  ]
]

check_from-silent :
    (k i : ℕ) (n : Node) (u : User)
    → get_elem? n.users i ≡ some u
    → is_empty u ≡ false
    → (u.not_responded == 0) ≡ true
    → check_from (suc k) i n ≡ (remove_user i u n >>= check_from k (suc i))
unfolding check_from
check_from-silent k i n u p e z = rw (p, e, z, check_from) refl

-- When the first direct neighbour has not answered, the round, if it comes to its end, leaves a
-- valid table without that name; and every other name that the table did not have is not in it
-- either.
pub end_round_forgets :
    (n n' : Node) (u : User) (us : List User)
    → IsValid n.table
    → n.users ≡ u ∷ us
    → is_empty u ≡ false
    → u.not_responded ≡ 0
    → end_round n ≡ some n'
    → (lookup n'.table u.chat_name ≡ none)
      × ((x : List ℕ) → lookup n.table x ≡ none → lookup n'.table x ≡ none)
unfolding end_round
end_round_forgets n n' u us v p e z h =
    let first : get_elem? n.users 0 ≡ some u = ap (λ l. get_elem? l 0) p in
    let silent : (u.not_responded == 0) ≡ true = ap (λ k. k == 0) z in
    let (m, r, g) =
      >>=-eq-some (remove_user 0 u n) (check_from 49 1)
        (sym (check_from-silent 49 0 n u first e silent) ∙ h) in
    let (v', removed) = remove_user-Removes 0 u n m v r in
    (
      check_from-none 49 1 m n' u.chat_name v'
          (removed u.chat_name ∙ lookup_from-named scanned n.table.slots u.chat_name) g,
      λ x l. check_from-none max_users 0 n n' x v l h,
    )
