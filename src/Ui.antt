-- ===== src/Ui.antt =====
-- src/ui.c: the tabs of the user interface, its input line, and the answer to a key. `none` is an
-- access outside of tabs.
pub mod Lines
pub mod Rows
pub mod Draw
pub mod Screen
pub mod Loop
pub mod Tabs
pub mod Bounds
pub mod Turn
pub mod Unused
pub mod Terminal
use rn_praktikum.Base.{
  ℕ, zero, suc, ◌+◌, ◌-◌, List, [], ◌∷◌, ◌++◌, Option, none, some, Bool, true, false, ◌==◌, ◌&&◌,
  leb, ltb, if◌then◌else◌, ◌>>=◌, take, length, get_elem?, get_or, c_str, str_eq,
}
use rn_praktikum.Queue.{MessageUi, pop_ui}
use rn_praktikum.Node.{Node}
use rn_praktikum.Protocol.{do_chat}

abbrev pub max_tabs : ℕ
max_tabs = 10

abbrev pub max_msgs : ℕ
max_msgs = 200

abbrev pub max_text : ℕ
max_text = 1500 - 66

pub record Message : Type 0 where
  pub text : List ℕ
  pub self : ℕ

-- `msgs` has the first msg_count messages.
pub record Tab : Type 0 where
  pub user : List ℕ
  pub msgs : List Message
  pub unread : ℕ

-- The first tab_count tabs, and active_tab, which is `none` for -1.
pub record Ui : Type 0 where
  pub tabs : List Tab
  pub active : Option ℕ

-- The loop of find_tab, from index `i` on; `none` is -1.
unfoldable pub find_tab_from : List Tab → ℕ → List ℕ → Option ℕ
find_tab_from [] i user = none
find_tab_from (t ∷ tabs) i user =
    let rest = find_tab_from tabs (suc i) user in if str_eq t.user user then some i else rest

-- find_tab(user)
unfoldable pub find_tab : List ℕ → Ui → Option ℕ
unfolding find_tab_from
find_tab user ui = find_tab_from ui.tabs 0 user

-- A change of tabs[i].
unfoldable pub change_tab : ℕ → (Tab → Tab) → List Tab → List Tab
change_tab i f [] = []
change_tab zero f (t ∷ tabs) = f t ∷ tabs
change_tab (suc i) f (t ∷ tabs) = t ∷ change_tab i f tabs

-- The message as it is stored: strncpy takes MAX_TEXT - 1 bytes of the string at most.
unfoldable pub stored : List ℕ → ℕ → Message
stored text self = record { text = take (max_text - 1) (c_str text); self = self }

-- add_message_internal(tab, text, self) on the tab itself.
unfoldable pub add_to_tab : List ℕ → ℕ → Tab → Tab
unfolding stored
add_to_tab text self t =
    if leb max_msgs (length t.msgs) then t else record t { msgs = t.msgs ++ stored text self ∷ [] }

unfoldable pub add_message_internal : ℕ → List ℕ → ℕ → Ui → Ui
unfolding change_tab add_to_tab
add_message_internal i text self ui = record ui {
  tabs = change_tab i (add_to_tab text self) ui.tabs;
}

-- add_own_message(text)
unfoldable pub add_own_message : List ℕ → Ui → Ui
unfolding add_message_internal
add_own_message text ui = elim ui.active [ none ↦ ui | some i ↦ add_message_internal i text 1 ui ]

-- tabs[i].unread = v
unfoldable pub set_unread : ℕ → ℕ → Ui → Ui
unfolding change_tab
set_unread i v ui = record ui { tabs = change_tab i (λ t. record t { unread = v }) ui.tabs }

unfoldable pub is_active : ℕ → Ui → Bool
is_active i ui = elim ui.active [ none ↦ false | some a ↦ i == a ]

-- A new tab behind the others; strncpy takes 31 bytes of the name at most.
unfoldable pub open_tab : List ℕ → Ui → Ui
open_tab user ui = record {
  tabs = ui.tabs ++ record { user = take 31 (c_str user); msgs = []; unread = 0 } ∷ [];
  active = elim ui.active [ none ↦ some (length ui.tabs) | some a ↦ some a ];
}

-- The end of add_foreign_message, for the tab `i`.
unfoldable pub post : ℕ → List ℕ → Ui → Ui
unfolding add_message_internal set_unread is_active
post i text ui =
    let added = add_message_internal i text 0 ui in
    if is_active i added then added else set_unread i 1 added

-- add_foreign_message(user, text)
unfoldable pub add_foreign_message : List ℕ → List ℕ → Ui → Option Ui
unfolding find_tab open_tab post
add_foreign_message user text ui = elim (find_tab user ui) [
  | some i ↦ some (post i text ui)
  | none ↦
      if ltb (length ui.tabs) max_tabs
      then some (post (length ui.tabs) text (open_tab user ui))
      else none
]

-- The variables of start_ui, with those of the host. `input` has the ipos bytes of the line.
pub record Session : Type 0 where
  pub ui : Ui
  pub input : List ℕ
  pub node : Node
  pub running : Bool

-- The loop over pop_ui with the rounds left.
unfoldable pub drain_from : ℕ → Session → Option Session
unfolding pop_ui add_foreign_message
drain_from zero s = some s
drain_from (suc k) s = elim (pop_ui s.node.ui) [
  | none ↦ some s
  | some m ↦ add_foreign_message m.0.name m.0.text s.ui >>= λ ui.
      drain_from k (record s { ui = ui; node = record (s.node) { ui = m.1 } })
]

-- As many rounds as there are messages, and one that finds none.
unfoldable pub drain : Session → Option Session
unfolding drain_from
drain s = drain_from (suc (length s.node.ui)) s

-- The arrow keys, behind an ESC: `seq` has the bytes that read returned.
unfoldable pub switch_tab : List ℕ → Ui → Option Ui
unfolding set_unread
switch_tab seq ui =
    if (length seq == 2) && (get_or seq 0 0 == 91)
    then (elim ui.active [
      | none ↦ none
      | some a ↦
          let right = if (get_or seq 1 0 == 67) && ltb (a + 1) (length ui.tabs) then a + 1 else a in
          let i = if (get_or seq 1 0 == 68) && ltb 0 right then right - 1 else right in
          some (set_unread i 0 (record ui { active = some i }))
    ])
    else some ui

-- ENTER on a line for the tab `a`.
unfoldable pub submit : ℕ → Session → Option Session
unfolding add_own_message
submit a s = elim (get_elem? s.ui.tabs a) [
  | none ↦ none
  | some t ↦ do_chat t.user s.input s.node >>= λ node.
      some (record s { ui = add_own_message s.input s.ui; input = []; node = node })
]

-- The branches for a key; a negative key is no byte at all.
unfoldable pub on_key : ℕ → List ℕ → Session → Option Session
unfolding switch_tab submit
on_key k seq s =
    if k == 27
    then (switch_tab seq s.ui >>= λ ui. some (record s { ui = ui }))
    else if (k == 10) && ltb 0 (length s.input)
    then (elim s.ui.active [ none ↦ some s | some a ↦ submit a s ])
    else if (k == 127) && ltb 0 (length s.input)
    then some (record s { input = take (length s.input - 1) s.input })
    else if ltb 31 k && (ltb k 127 && ltb (length s.input) (max_text - 1))
    then some (record s { input = s.input ++ k ∷ [] })
    else some s

-- A round of the loop of start_ui, in which read_key returned `k`.
unfoldable pub turn : ℕ → List ℕ → Session → Option Session
unfolding drain on_key
turn k seq s = if k == 3 then some (record s { running = false }) else drain s >>= on_key k seq
