-- ===== src/Examples/Fresh.antt =====
-- Examples for what cleanUp keeps.
use mathlib.Core.Option.{some-injective, none-ne-some}
use mathlib.Core.Path.{subst}
use rn_praktikum.Base.{
  ℕ, zero, suc, ◌≤◌, ◌≡◌, refl, ap, List, [], ◌∷◌, some, Bool, true, false, arith, replicate,
  get_elem?, get_or, c_str, str_eq, bytes_eq, bytes_eq_sound,
}
use rn_praktikum.Table.{Slot, Entry}
use rn_praktikum.Table.Lookup.{lookup}
use rn_praktikum.Node.{clean_up}
use rn_praktikum.Node.Aging.{IsStale}
use rn_praktikum.Node.Guard.{IsNameSet, Closed}
use rn_praktikum.Node.Fresh.{clean_up-keeps}
use rn_praktikum.Examples.{
  alice, alice_entry, bob_entry, carol_entry, small_node, small_slots, taken, no_slot,
}
use rn_praktikum.Examples.Aging.{small_node-IsValid}

abbrev only_alice : List ℕ → Bool
only_alice x = str_eq alice x

not_alice : (a : List ℕ) → get_or a 0 0 ≡ 0 → only_alice a ≡ false
unfolding c_str bytes_eq
not_alice [] h = refl
not_alice (b ∷ a) h = rw h refl

only_alice-IsNameSet : IsNameSet only_alice
only_alice-IsNameSet = record {
  congruent = λ a b h. ap (bytes_eq (c_str alice)) (bytes_eq_sound _ _ h);
  not_empty = not_alice;
}

get_elem?-replicate : (n j : ℕ) (x s : Slot) → get_elem? (replicate n x) j ≡ some s → x ≡ s
get_elem?-replicate zero j x s h = absurd (none-ne-some s h)
get_elem?-replicate (suc n) zero x s h = some-injective _ _ h
get_elem?-replicate (suc n) (suc j) x s h = get_elem?-replicate n j x s h

-- A place whose entry, if its next hop's name is the own one, is alice's.
closed_taken :
    (e : Entry) (seen : ℕ)
    → (only_alice e.chat_name ≡ true → only_alice e.next_chat_name ≡ true)
    → Closed only_alice (taken e seen)
closed_taken e seen h x p =
    subst
      (λ (y : Entry).
        (only_alice e.chat_name ≡ only_alice y.chat_name)
        × (only_alice y.chat_name ≡ true → only_alice y.next_chat_name ≡ true))
      (some-injective e x p) (refl, h)

closed_places : (j : ℕ) (s : Slot) → get_elem? (small_slots 1) j ≡ some s → Closed only_alice s
unfolding c_str bytes_eq
closed_places zero s h =
    subst (Closed only_alice) (some-injective _ _ h) (closed_taken alice_entry 1 (λ y. y))
closed_places (suc zero) s h =
    subst (Closed only_alice) (some-injective _ _ h) (closed_taken bob_entry 0 (λ y. y))
closed_places (suc (suc zero)) s h =
    subst (Closed only_alice) (some-injective _ _ h) (closed_taken carol_entry 1 (λ y. cc y))
closed_places (suc (suc (suc j))) s h =
    subst (Closed only_alice) (get_elem?-replicate 97 j no_slot s h)
      (λ e p. absurd (none-ne-some e p))

heard_places :
    (j : ℕ) (s : Slot)
    → 0 ≤ j
    → get_elem? (small_slots 1) j ≡ some s
    → IsStale s
    → only_alice s.name ≡ false
unfolding c_str bytes_eq
heard_places zero s le h st =
    absurd (omega (arith, ap (λ (x : Slot). x.reachable) (some-injective _ _ h), st.1))
heard_places (suc zero) s le h st =
    subst (λ (x : Slot). only_alice x.name ≡ false) (some-injective _ _ h) refl
heard_places (suc (suc zero)) s le h st =
    subst (λ (x : Slot). only_alice x.name ≡ false) (some-injective _ _ h) refl
heard_places (suc (suc (suc j))) s le h st =
    subst (λ (x : Slot). only_alice x.name ≡ false) (get_elem?-replicate 97 j no_slot s h) refl

clean_up-keeps_example :
    lookup (clean_up (small_node 1)).table alice ≡ lookup (small_node 1).table alice
unfolding c_str bytes_eq
clean_up-keeps_example =
    clean_up-keeps only_alice (small_node 1) alice only_alice-IsNameSet (small_node-IsValid 1)
      (record { closed = closed_places; heard = heard_places }) refl
