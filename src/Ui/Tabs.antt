-- ===== src/Ui/Tabs.antt =====
-- The tabs of src/ui.c as a partial function from users to tabs, and add_foreign_message on it.
use rn_praktikum.Base.{
  ℕ, zero, suc, ◌+◌, ◌≤◌, ◌<◌, ◌≡◌, refl, ap, sym, ◌∙◌, ◌⊎◌, inl, inr, List, [], ◌∷◌, ◌++◌, Option,
  none, some, Bool, true, false, leb, lt→ltb, le→not-ltb, if◌then◌else◌, arith, length, take,
  take_all, c_str, c_str-NoNul, c_str-NoNul_self, bytes_eq, bytes_eq_refl, bytes_eq_sound, str_eq,
  Bool-cases,
}
use rn_praktikum.Ui.{
  Message, Tab, Ui, max_tabs, max_msgs, find_tab_from, find_tab, change_tab, stored, add_to_tab,
  add_message_internal, set_unread, is_active, open_tab, post, add_foreign_message,
}

-- The first tab of a user.
unfoldable pub tab_of : List Tab → List ℕ → Option Tab
tab_of [] user = none
tab_of (t ∷ tabs) user = let rest = tab_of tabs user in if str_eq t.user user then some t else rest

-- A change that keeps the user of a tab.
abbrev KeepsUser : (Tab → Tab) → Type 0
KeepsUser f = (t : Tab) → (f t).user ≡ t.user

-- A change of the tab at an index that find_tab returned, or of one behind all others.
abbrev Changed : (Tab → Tab) → List Tab → List Tab → List ℕ → Tab → Type 0
Changed f tabs tabs' user t =
    (tab_of tabs' user ≡ some (f t))
    × ((other : List ℕ) → str_eq user other ≡ false → tab_of tabs' other ≡ tab_of tabs other)

str_eq_other : (a b c : List ℕ) → str_eq a b ≡ true → str_eq b c ≡ false → str_eq a c ≡ false
str_eq_other a b c e d = ap (λ x. bytes_eq x (c_str c)) (bytes_eq_sound _ _ e) ∙ d

find_tab_from-tab_of :
    (tabs : List Tab) (i : ℕ) (user : List ℕ)
    → ((find_tab_from tabs i user ≡ none) × (tab_of tabs user ≡ none))
      ⊎ ((k : ℕ) × (t : Tab) × (find_tab_from tabs i user ≡ some (i + k))
          × (tab_of tabs user ≡ some t)
          × ((f : Tab → Tab) → KeepsUser f → Changed f tabs (change_tab k f tabs) user t))
unfolding find_tab_from tab_of change_tab
find_tab_from-tab_of [] i user = inl (refl, refl)
find_tab_from-tab_of (x ∷ tabs) i user = elim (Bool-cases (str_eq x.user user)) [
  | inl e ↦ inr (
    0,
    x,
    rw e (ap some (omega arith)),
    rw e refl,
    λ f keeps. (
      rw (ap (λ u. str_eq u user) (keeps x) ∙ e) refl,
      λ other d.
          let apart = str_eq_other x.user user other e d in
          rw (ap (λ u. str_eq u other) (keeps x) ∙ apart, apart) refl,
    ),
  )
  | inr e ↦ elim (find_tab_from-tab_of tabs (suc i) user) [
    | inl h ↦ inl (rw e h)
    | inr (k, t, p, q, changed) ↦ inr (
      suc k,
      t,
      rw e (p ∙ ap some (omega arith)),
      rw e q,
      λ f keeps. (
        rw e (changed f keeps).0,
        λ other d.
            ap (λ r. if str_eq x.user other then some x else r) ((changed f keeps).1 other d),
      ),
    )
  ]
]

tab_of-last :
    (f : Tab → Tab) (tabs : List Tab) (user : List ℕ) (new : Tab)
    → KeepsUser f
    → tab_of tabs user ≡ none
    → str_eq new.user user ≡ true
    → Changed f tabs (change_tab (length tabs) f (tabs ++ new ∷ [])) user new
unfolding tab_of change_tab
tab_of-last f [] user new keeps h e = (
  rw (ap (λ u. str_eq u user) (keeps new) ∙ e) refl,
  λ other d. rw (ap (λ u. str_eq u other) (keeps new) ∙ str_eq_other new.user user other e d) refl,
)
tab_of-last f (x ∷ tabs) user new keeps h e = elim (Bool-cases (str_eq x.user user)) [
  | inl y ↦ absurd (ground (arith, y, h))
  | inr y ↦
      let (self, others) = tab_of-last f tabs user new keeps (sym (rw y refl) ∙ h) e in
      (rw y self, λ other d. ap (λ r. if str_eq x.user other then some x else r) (others other d))
]

change_tab_twice :
    (i : ℕ) (f g : Tab → Tab) (tabs : List Tab)
    → change_tab i g (change_tab i f tabs) ≡ change_tab i (λ t. g (f t)) tabs
unfolding change_tab
change_tab_twice i f g [] = refl
change_tab_twice zero f g (t ∷ tabs) = refl
change_tab_twice (suc i) f g (t ∷ tabs) = ap (λ ts. t ∷ ts) (change_tab_twice i f g tabs)

-- The tab with a received message; it is marked as unread unless it is the active one.
abbrev pub posted : Bool → List ℕ → Tab → Tab
posted true text t = add_to_tab text 0 t
posted false text t = record (add_to_tab text 0 t) { unread = 1 }

post-change_tab :
    (i : ℕ) (text : List ℕ) (ui : Ui)
    → (post i text ui).tabs ≡ change_tab i (posted (is_active i ui) text) ui.tabs
unfolding post add_message_internal set_unread is_active
post-change_tab i text ui = elim (Bool-cases (is_active i ui)) [
  | inl e ↦ rw e refl
  | inr e ↦ rw e (change_tab_twice i (add_to_tab text 0) (λ t. record t { unread = 1 }) ui.tabs)
]

posted-KeepsUser : (active : Bool) (text : List ℕ) → KeepsUser (posted active text)
unfolding add_to_tab
posted-KeepsUser true text t = ground arith
posted-KeepsUser false text t = ground arith

-- The messages of a tab after one was received: behind the others while there are less than 200.
abbrev pub received : List ℕ → List Message → List Message
received text msgs = if leb max_msgs (length msgs) then msgs else msgs ++ stored text 0 ∷ []

msgs-posted :
    (active : Bool) (text : List ℕ) (t : Tab) → (posted active text t).msgs ≡ received text t.msgs
unfolding add_to_tab
msgs-posted true text t = ground arith
msgs-posted false text t = ground arith

-- The messages of a user, none while the user has no tab.
abbrev pub msgs_of : Option Tab → List Message
msgs_of none = []
msgs_of (some t) = t.msgs

-- What add_foreign_message does to the tabs.
abbrev pub Receives : List ℕ → List ℕ → List Tab → List Tab → Type 0
Receives user text tabs tabs' =
    (t : Tab) × (tab_of tabs' user ≡ some t)
    × (t.msgs ≡ received text (msgs_of (tab_of tabs user)))
    × ((other : List ℕ) → str_eq user other ≡ false → tab_of tabs' other ≡ tab_of tabs other)

Receives-known :
    (user text : List ℕ) (ui : Ui) (k : ℕ) (t : Tab)
    → tab_of ui.tabs user ≡ some t
    → Changed
        (posted (is_active k ui) text)
        ui.tabs
        (change_tab k (posted (is_active k ui) text) ui.tabs)
        user
        t
    → Receives user text ui.tabs (post k text ui).tabs
Receives-known user text ui k t h (self, others) =
    rw (post-change_tab k text ui, h)
      (posted (is_active k ui) text t, self, msgs-posted (is_active k ui) text t, others)

-- The tab that open_tab puts behind the others.
abbrev new_tab : List ℕ → Tab
new_tab user = record { user = take 31 (c_str user); msgs = []; unread = 0 }

Receives-new :
    (user text : List ℕ) (ui : Ui)
    → tab_of ui.tabs user ≡ none
    → (let f = posted (is_active (length ui.tabs) (open_tab user ui)) text in
        Changed f ui.tabs
          (change_tab (length ui.tabs) f (ui.tabs ++ new_tab user ∷ []))
          user
          (new_tab user))
    → Receives user text ui.tabs (post (length ui.tabs) text (open_tab user ui)).tabs
unfolding open_tab
Receives-new user text ui h (self, others) =
    let active = is_active (length ui.tabs) (open_tab user ui) in
    rw (post-change_tab (length ui.tabs) text (open_tab user ui), h)
      (posted active text (new_tab user), self, msgs-posted active text (new_tab user), others)

opened_name : (user : List ℕ) → length (c_str user) ≤ 31 → str_eq (take 31 (c_str user)) user ≡ true
opened_name user h =
    rw (take_all (c_str user) 31 h, c_str-NoNul_self (c_str user) (c_str-NoNul user))
      (bytes_eq_refl (c_str user))

-- A message for a user whose name has at most 31 bytes is shown in the user's tab, behind the
-- messages that are there, if these are less than 200; a tab is opened for a user who has none,
-- while there are less than ten. No other user's tab changes.
pub add_foreign_message_lem :
    (user text : List ℕ) (ui : Ui)
    → length (c_str user) ≤ 31
    → (tab_of ui.tabs user ≡ none → length ui.tabs < max_tabs)
    → (ui' : Ui) × (add_foreign_message user text ui ≡ some ui')
      × Receives user text ui.tabs ui'.tabs
unfolding add_foreign_message find_tab
add_foreign_message_lem user text ui short room = elim (find_tab_from-tab_of ui.tabs 0 user) [
  | inl (p, q) ↦
      let n = length ui.tabs in
      let f = posted (is_active n (open_tab user ui)) text in
      (
        post n text (open_tab user ui),
        rw (p, lt→ltb n max_tabs (room q), add_foreign_message) refl,
        Receives-new user text ui q (
            tab_of-last f ui.tabs user (new_tab user)
              (posted-KeepsUser (is_active n (open_tab user ui)) text) q (opened_name user short)),
      )
  | inr (k, t, p, q, changed) ↦
      let at : find_tab_from ui.tabs 0 user ≡ some k = p ∙ ap some (omega arith) in
      (
        post k text ui,
        rw (at, add_foreign_message) refl,
        Receives-known user text ui k t q
            (changed (posted (is_active k ui) text) (posted-KeepsUser (is_active k ui) text)),
      )
]

-- Without a tab for the user, and with ten of others, the message is written to tabs[-1].
pub add_foreign_message_full :
    (user text : List ℕ) (ui : Ui)
    → tab_of ui.tabs user ≡ none
    → max_tabs ≤ length ui.tabs
    → add_foreign_message user text ui ≡ none
unfolding add_foreign_message find_tab
add_foreign_message_full user text ui h full = elim (find_tab_from-tab_of ui.tabs 0 user) [
  | inl (p, q) ↦ rw (p, le→not-ltb (length ui.tabs) max_tabs full, add_foreign_message) refl
  | inr (k, t, p, q, changed) ↦ cc (h, q)
]
