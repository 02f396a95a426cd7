-- ===== src/Heartbeat/Rounds.antt =====
-- What a round of heartBeatFunction (src/heartBeat.c) does behind its sleep.
use mathlib.Core.List.{append_assoc, append-nil}
use rn_praktikum.Base.{
  ℕ, zero, suc, ◌≤◌, ◌≡◌, ◌≢◌, refl, ap, sym, ◌∙◌, ◌⊎◌, inl, inr, List, [], ◌∷◌, ◌++◌, none, some,
  true, ==_ne, if◌then◌else◌, arith, length, length-append, get_elem?, set, All, Bool-cases,
}
use rn_praktikum.Node.{Node, User}
use rn_praktikum.Heartbeat.{max_users, is_empty, check_from, end_round}

-- A user who answered, or the end of the list.
abbrev pub HasAnswered : User → Type 0
HasAnswered u = (is_empty u ≡ true) ⊎ (u.not_responded ≢ 0)

-- The marks of the users up to the end of the list taken back.
unfoldable pub unmarked : List User → List User
unmarked [] = []
unmarked (u ∷ us) =
    let rest = unmarked us in if is_empty u then u ∷ us else record u { not_responded = 0 } ∷ rest

get_elem?-append {ℓ} :
    {A : Type ℓ} (xs ys : List A) (y : A) → get_elem? (xs ++ y ∷ ys) (length xs) ≡ some y
get_elem?-append [] ys y = refl
get_elem?-append (x ∷ xs) ys y = get_elem?-append xs ys y

get_elem?-end {ℓ} : {A : Type ℓ} (xs : List A) → get_elem? xs (length xs) ≡ none
get_elem?-end [] = refl
get_elem?-end (x ∷ xs) = get_elem?-end xs

set-user : (xs ys : List User) (y z : User) → set (xs ++ y ∷ ys) (length xs) z ≡ xs ++ z ∷ ys
set-user [] ys y z = refl
set-user (x ∷ xs) ys y z = ap (λ us. x ∷ us) (set-user xs ys y z)

check_from-answered :
    (k : ℕ) (done us : List User) (n : Node)
    → length us ≤ k
    → All HasAnswered us
    → check_from k (length done) (record n { users = done ++ us })
      ≡ some (record n { users = done ++ unmarked us })
unfolding check_from unmarked
check_from-answered zero done [] n h a = refl
check_from-answered zero done (u ∷ us) n h a = absurd (omega arith)
check_from-answered (suc k) done [] n h a =
    rw (append-nil done, get_elem?-end done, check_from)
      (ap (λ l. some (record n { users = l })) (append-nil done))
check_from-answered (suc k) done (u ∷ us) n h (inl e, a) =
    rw (get_elem?-append done us u, e, check_from) refl
check_from-answered (suc k) done (u ∷ us) n h (inr m, a) = elim (Bool-cases (is_empty u)) [
  | inl e ↦ rw (get_elem?-append done us u, e, check_from) refl
  | inr e ↦
      let u' = record u { not_responded = 0 } in
      let size : suc (length done) ≡ length (done ++ u' ∷ []) =
        omega (arith, length-append done (u' ∷ [])) in
      rw
        (
          get_elem?-append done us u,
          e,
          ==_ne u.not_responded 0 m,
          set-user done us u u',
          check_from,
        )
        (ap (λ i. check_from k i (record n { users = done ++ u' ∷ us })) size
          ∙ ap (λ l. check_from k (length (done ++ u' ∷ [])) (record n { users = l }))
              (sym (append_assoc done (u' ∷ []) us))
          ∙ check_from-answered k (done ++ u' ∷ []) us n (omega arith) a
          ∙ ap (λ l. some (record n { users = l })) (append_assoc done (u' ∷ []) (unmarked us)))
]

-- When every direct neighbour, of at most 50, has answered, the round takes back their marks and
-- changes nothing else.
end_round-answered :
    (n : Node)
    → length n.users ≤ max_users
    → All HasAnswered n.users
    → end_round n ≡ some (record n { users = unmarked n.users })
unfolding end_round
end_round-answered n h a = check_from-answered max_users [] n.users n h a
