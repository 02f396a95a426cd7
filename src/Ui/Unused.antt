-- ===== src/Ui/Unused.antt =====
-- add_message of src/ui.c, which nothing calls, beside add_foreign_message, which took its place.
use rn_praktikum.Base.{
  ℕ, zero, suc, ◌+◌, ◌<◌, ◌≡◌, refl, ap, inl, inr, List, [], ◌∷◌, ◌++◌, Option, none, some, ◌==◌,
  ◌&&◌, false, not, leb, ltb, if◌then◌else◌, str_eq, arith, length, length-append, get_elem?, All,
  Bool-cases, Option-cases,
}
use rn_praktikum.Ui.{
  Tab, Ui, max_tabs, max_msgs, find_tab_from, find_tab, change_tab, stored, add_to_tab,
  add_message_internal, set_unread, is_active, open_tab, post, add_foreign_message,
}
use rn_praktikum.Ui.Bounds.{All-append}
use mathlib.Core.Option.{some-injective, none-ne-some}

-- A message behind the others of a tab.
abbrev pub pushed : List ℕ → ℕ → Tab → Tab
pushed text self t = record t { msgs = t.msgs ++ stored text self ∷ [] }

-- The end of add_message, for the tab `i`. `none` is a write behind the last of its msgs.
unfoldable pub put_message : ℕ → List ℕ → ℕ → Ui → Option Ui
unfolding change_tab set_unread is_active
put_message i text self ui =
    let added = record ui { tabs = change_tab i (pushed text self) ui.tabs } in
    elim (get_elem? ui.tabs i) [
      | none ↦ none
      | some t ↦
          if leb max_msgs (length t.msgs)
          then none
          else if (self == 0) && not (is_active i added)
          then some (set_unread i 1 added)
          else some added
    ]

-- add_message(user, text, self)
unfoldable pub add_message : List ℕ → List ℕ → ℕ → Ui → Option Ui
unfolding find_tab open_tab put_message
add_message user text self ui = elim (find_tab user ui) [
  | some i ↦ put_message i text self ui
  | none ↦
      if ltb (length ui.tabs) max_tabs
      then put_message (length ui.tabs) text self (open_tab user ui)
      else none
]

-- A tab that is not full.
abbrev pub HasRoom : Tab → Type 0
HasRoom t = length t.msgs < max_msgs

not_full : (t : Tab) → HasRoom t → leb max_msgs (length t.msgs) ≡ false
not_full t room = ground arith

add_to_tab-pushed :
    (text : List ℕ) (self : ℕ) (t : Tab) → HasRoom t → add_to_tab text self t ≡ pushed text self t
unfolding add_to_tab
add_to_tab-pushed text self t room = rw (not_full t room) refl

change_tab-pushed :
    (i : ℕ) (text : List ℕ) (self : ℕ) (tabs : List Tab)
    → All HasRoom tabs
    → change_tab i (add_to_tab text self) tabs ≡ change_tab i (pushed text self) tabs
unfolding change_tab
change_tab-pushed i text self [] a = refl
change_tab-pushed zero text self (t ∷ tabs) (p, a) =
    ap (λ u. u ∷ tabs) (add_to_tab-pushed text self t p)
change_tab-pushed (suc i) text self (t ∷ tabs) (p, a) =
    ap (λ ts. t ∷ ts) (change_tab-pushed i text self tabs a)

-- The tab at an index, which has room.
abbrev Found : List Tab → ℕ → Type 0
Found tabs i = (t : Tab) × (get_elem? tabs i ≡ some t) × HasRoom t

Found-at : (tabs : List Tab) (i : ℕ) → i < length tabs → All HasRoom tabs → Found tabs i
Found-at [] i h a = absurd (omega arith)
Found-at (t ∷ tabs) zero h (p, a) = (t, refl, p)
Found-at (t ∷ tabs) (suc i) h (p, a) = Found-at tabs i (omega arith) a

put_message-post :
    (i : ℕ) (text : List ℕ) (ui : Ui)
    → i < length ui.tabs
    → All HasRoom ui.tabs
    → put_message i text 0 ui ≡ some (post i text ui)
unfolding put_message post add_message_internal is_active
put_message-post i text ui h a =
    let (t, found, room) = Found-at ui.tabs i h a in
    elim (Bool-cases (is_active i ui)) [
      | inl e ↦
          rw (put_message, found, not_full t room, change_tab-pushed i text 0 ui.tabs a, e) refl
      | inr e ↦
          rw (put_message, found, not_full t room, change_tab-pushed i text 0 ui.tabs a, e) refl
    ]

find_tab_from-below :
    (tabs : List Tab) (i : ℕ) (user : List ℕ) (k : ℕ)
    → find_tab_from tabs i user ≡ some k
    → k < i + length tabs
unfolding find_tab_from
find_tab_from-below [] i user k h = absurd (none-ne-some k h)
find_tab_from-below (t ∷ tabs) i user k h = elim (Bool-cases (str_eq t.user user)) [
  | inl e ↦ omega (arith, some-injective _ _ (rw e at h))
  | inr e ↦ omega (arith, find_tab_from-below tabs (suc i) user k (rw e at h))
]

find_tab-below : (user : List ℕ) (ui : Ui) (k : ℕ) → find_tab user ui ≡ some k → k < length ui.tabs
unfolding find_tab
find_tab-below user ui k h = omega (arith, find_tab_from-below ui.tabs 0 user k h)

put_message-opened :
    (user text : List ℕ) (ui : Ui)
    → All HasRoom ui.tabs
    → put_message (length ui.tabs) text 0 (open_tab user ui)
      ≡ some (post (length ui.tabs) text (open_tab user ui))
unfolding open_tab
put_message-opened user text ui a =
    put_message-post (length ui.tabs) text (open_tab user ui)
      (omega (arith, length-append ui.tabs _)) (All-append HasRoom ui.tabs _ a (omega arith, tt))

-- While no tab is full, add_message does for a message of another user what add_foreign_message
-- does.
pub add_message-foreign :
    (user text : List ℕ) (ui : Ui)
    → All HasRoom ui.tabs
    → add_message user text 0 ui ≡ add_foreign_message user text ui
unfolding add_message add_foreign_message
add_message-foreign user text ui a = elim (Option-cases (find_tab user ui)) [
  | inr (k, e) ↦
      rw (add_message, add_foreign_message, e)
        (put_message-post k text ui (find_tab-below user ui k e) a)
  | inl e ↦ elim (Bool-cases (ltb (length ui.tabs) max_tabs)) [
    | inr full ↦ rw (add_message, add_foreign_message, e, full) refl
    | inl room ↦ rw (add_message, add_foreign_message, e, room) (put_message-opened user text ui a)
  ]
]
