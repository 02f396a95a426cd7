-- ===== src/Series.antt =====
-- The list of the targets with a series of messages under way: add_list and remove_list of
-- src/protocol.c. The linked list is the list of the strings in its cells, from list_head on.
use rn_praktikum.Base.{
  ℕ, ◌≡◌, refl, ap, ◌∙◌, List, [], ◌∷◌, ◌++◌, Bool, true, false, if◌then◌else◌, ◌||◌, arith, c_str,
  str_eq, bytes_eq, bytes_eq_refl, c_str-NoNul, c_str-NoNul_self,
}

-- add_list(chatName): the list, and 1 (true) if the name was there.
unfoldable pub add_list : List ℕ → List (List ℕ) → List (List ℕ) × Bool
add_list name [] = (c_str name ∷ [], false)
add_list name (x ∷ xs) =
    let (rest, found) = add_list name xs in
    if str_eq x name then (x ∷ xs, true) else (x ∷ rest, found)

-- remove_list(chatName): the first cell with the name is taken out.
unfoldable pub remove_list : List ℕ → List (List ℕ) → List (List ℕ)
remove_list name [] = []
remove_list name (x ∷ xs) = let rest = remove_list name xs in if str_eq x name then xs else x ∷ rest

unfoldable pub contains : List ℕ → List (List ℕ) → Bool
contains name [] = false
contains name (x ∷ xs) = str_eq x name || contains name xs

str_eq-c_str : (name : List ℕ) → str_eq (c_str name) name ≡ true
str_eq-c_str name =
    ap (λ s. bytes_eq s (c_str name)) (c_str-NoNul_self (c_str name) (c_str-NoNul name))
    ∙ bytes_eq_refl (c_str name)

-- add_list reports whether the name was in the list; a new name is put at the end, and a name that
-- is there changes nothing.
pub add_list-contains :
    (name : List ℕ) (l : List (List ℕ))
    → add_list name l ≡ (if contains name l then (l, true) else (l ++ c_str name ∷ [], false))
unfolding add_list contains
add_list-contains name [] = refl
add_list-contains name (x ∷ xs) = ground (arith, add_list-contains name xs)

pub contains-append :
    (name : List ℕ) (l : List (List ℕ)) → contains name (l ++ c_str name ∷ []) ≡ true
unfolding contains
contains-append name [] = ground (arith, str_eq-c_str name)
contains-append name (x ∷ xs) = ground (arith, contains-append name xs)

-- A name in a list is in every longer one.
pub contains-longer :
    (name : List ℕ) (l l' : List (List ℕ)) → contains name l ≡ true → contains name (l ++ l') ≡ true
unfolding contains
contains-longer name [] l' h = cc
contains-longer name (x ∷ xs) l' h = ground (arith, contains-longer name xs l')

-- Once a name was added, adding it again finds it and changes nothing.
pub add_list-twice :
    (name : List ℕ) (l : List (List ℕ))
    → add_list name (add_list name l).0 ≡ ((add_list name l).0, true)
unfolding add_list
add_list-twice name [] = ground (arith, str_eq-c_str name)
add_list-twice name (x ∷ xs) = ground (arith, add_list-twice name xs)

remove_list-append :
    (name : List ℕ) (l : List (List ℕ))
    → contains name l ≡ false
    → remove_list name (l ++ c_str name ∷ []) ≡ l
unfolding remove_list contains
remove_list-append name [] h = ground (arith, str_eq-c_str name)
remove_list-append name (x ∷ xs) h = ground (arith, remove_list-append name xs)

-- Removing a name that was new when it was added gives the list back.
pub remove_list-add_list :
    (name : List ℕ) (l : List (List ℕ))
    → contains name l ≡ false
    → remove_list name (add_list name l).0 ≡ l
remove_list-add_list name l h = rw (add_list-contains name l, h) (remove_list-append name l h)
