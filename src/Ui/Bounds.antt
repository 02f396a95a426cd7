-- ===== src/Ui/Bounds.antt =====
-- The bounds of the arrays of src/ui.c: the tabs, their names, messages and texts.
use rn_praktikum.Base.{
  ℕ, zero, suc, ◌+◌, ◌-◌, ◌≤◌, ◌<◌, ◌≡◌, refl, ap, inl, inr, List, [], ◌∷◌, ◌++◌, Option, none,
  some, leb, ltb, arith, length, length-append, length-take, take, c_str, All, Bool-cases,
  Option-cases, ltb→lt, not-leb→lt,
}
use mathlib.Core.Path.{subst}
use mathlib.Core.Option.{some-injective, none-ne-some}
use rn_praktikum.Ui.{
  Message, Tab, Ui, max_tabs, max_msgs, max_text, find_tab, change_tab, stored, add_to_tab,
  add_message_internal, add_own_message, set_unread, is_active, open_tab, post, add_foreign_message,
}

-- A tab within the bounds of its arrays, with a byte left for the 0 of a string.
abbrev pub IsTab : Tab → Type 0
IsTab t =
    (length t.user < 32)
    × (length t.msgs ≤ max_msgs)
    × All (λ (m : Message). length m.text < max_text) t.msgs

-- An index of one of `n` tabs, or -1.
abbrev pub IsIndex : Option ℕ → ℕ → Type 0
IsIndex none n = Unit
IsIndex (some a) n = a < n

pub record IsUi (ui : Ui) : Type 0 where
  pub few : length ui.tabs ≤ max_tabs
  pub tabs_within : All IsTab ui.tabs
  pub active_within : IsIndex ui.active (length ui.tabs)

pub All-append {ℓ κ} :
    {A : Type ℓ} (P : A → Type κ) (xs ys : List A) → All P xs → All P ys → All P (xs ++ ys)
All-append P [] ys a b = b
All-append P (x ∷ xs) ys (p, a) b = (p, All-append P xs ys a b)

pub All-take {ℓ κ} :
    {A : Type ℓ} (P : A → Type κ) (n : ℕ) (xs : List A) → All P xs → All P (take n xs)
All-take P zero xs a = tt
All-take P (suc n) [] a = tt
All-take P (suc n) (x ∷ xs) (p, a) = (p, All-take P n xs a)

All-change_tab :
    (f : Tab → Tab)
    → ((t : Tab) → IsTab t → IsTab (f t))
    → (i : ℕ) (tabs : List Tab) → All IsTab tabs
    → All IsTab (change_tab i f tabs)
unfolding change_tab
All-change_tab f keeps i [] a = a
All-change_tab f keeps zero (t ∷ tabs) (p, a) = (keeps t p, a)
All-change_tab f keeps (suc i) (t ∷ tabs) (p, a) = (p, All-change_tab f keeps i tabs a)

length-change_tab :
    (f : Tab → Tab) (i : ℕ) (tabs : List Tab) → length (change_tab i f tabs) ≡ length tabs
unfolding change_tab
length-change_tab f i [] = refl
length-change_tab f zero (t ∷ tabs) = refl
length-change_tab f (suc i) (t ∷ tabs) = ap suc (length-change_tab f i tabs)

add_to_tab-IsTab : (text : List ℕ) (self : ℕ) (t : Tab) → IsTab t → IsTab (add_to_tab text self t)
unfolding add_to_tab stored
add_to_tab-IsTab text self t (u, m, a) = elim (Bool-cases (leb max_msgs (length t.msgs))) [
  | inl e ↦ rw e (u, m, a)
  | inr e ↦
      let new = stored text self in
      rw e (
        u,
        omega (arith, length-append t.msgs (new ∷ []), not-leb→lt _ _ e),
        All-append _ t.msgs (new ∷ []) a
            (omega (arith, length-take (max_text - 1) (c_str text)), tt),
      )
]

pub change-IsUi :
    (f : Tab → Tab)
    → ((t : Tab) → IsTab t → IsTab (f t))
    → (i : ℕ) (ui : Ui) → IsUi ui
    → IsUi (record ui { tabs = change_tab i f ui.tabs })
change-IsUi f keeps i ui v = record {
  few = omega (arith, length-change_tab f i ui.tabs, v.few);
  tabs_within = All-change_tab f keeps i ui.tabs v.tabs_within;
  active_within = rw (length-change_tab f i ui.tabs) v.active_within;
}

pub set_unread-IsUi : (i u : ℕ) (ui : Ui) → IsUi ui → IsUi (set_unread i u ui)
unfolding set_unread
set_unread-IsUi i u ui v = change-IsUi (λ t. record t { unread = u }) (λ t p. p) i ui v

add_message_internal-IsUi :
    (i : ℕ) (text : List ℕ) (self : ℕ) (ui : Ui)
    → IsUi ui
    → IsUi (add_message_internal i text self ui)
unfolding add_message_internal
add_message_internal-IsUi i text self ui v =
    change-IsUi (add_to_tab text self) (add_to_tab-IsTab text self) i ui v

own_within :
    (text : List ℕ) (ui : Ui) (o : Option ℕ)
    → IsUi ui
    → IsUi (elim o [ none ↦ ui | some i ↦ add_message_internal i text 1 ui ])
own_within text ui none v = v
own_within text ui (some i) v = add_message_internal-IsUi i text 1 ui v

pub add_own_message-IsUi : (text : List ℕ) (ui : Ui) → IsUi ui → IsUi (add_own_message text ui)
unfolding add_own_message
add_own_message-IsUi text ui v = own_within text ui ui.active v

post-IsUi : (i : ℕ) (text : List ℕ) (ui : Ui) → IsUi ui → IsUi (post i text ui)
unfolding post
post-IsUi i text ui v =
    let added = add_message_internal-IsUi i text 0 ui v in
    elim (Bool-cases (is_active i (add_message_internal i text 0 ui))) [
      | inl e ↦ rw e added
      | inr e ↦ rw e (set_unread-IsUi i 1 (add_message_internal i text 0 ui) added)
    ]

opened_within :
    (o : Option ℕ) (n m : ℕ)
    → n < m
    → IsIndex o n
    → IsIndex (elim o [ none ↦ some n | some a ↦ some a ]) m
opened_within none n m h v = h
opened_within (some a) n m h v = omega arith

open_tab-IsUi :
    (user : List ℕ) (ui : Ui) → length ui.tabs < max_tabs → IsUi ui → IsUi (open_tab user ui)
unfolding open_tab
open_tab-IsUi user ui room v =
    let size : length (open_tab user ui).tabs ≡ length ui.tabs + 1 = length-append ui.tabs _ in
    record {
      few = omega (arith, size);
      tabs_within =
          All-append IsTab ui.tabs _ v.tabs_within
            ((omega (arith, length-take 31 (c_str user)), omega arith, tt), tt);
      active_within =
          opened_within ui.active (length ui.tabs) _ (omega (arith, size)) v.active_within;
    }

-- A received message keeps the tabs within the arrays of the user interface.
pub add_foreign_message-IsUi :
    (user text : List ℕ) (ui ui' : Ui)
    → IsUi ui
    → add_foreign_message user text ui ≡ some ui'
    → IsUi ui'
unfolding add_foreign_message
add_foreign_message-IsUi user text ui ui' v h = elim (Option-cases (find_tab user ui)) [
  | inl p ↦ elim (Bool-cases (ltb (length ui.tabs) max_tabs)) [
    | inl e ↦
        let room = ltb→lt (length ui.tabs) max_tabs e in
        subst IsUi (some-injective _ _ (rw (p, e, add_foreign_message) at h))
          (post-IsUi (length ui.tabs) text (open_tab user ui) (open_tab-IsUi user ui room v))
    | inr e ↦ absurd (none-ne-some ui' (rw (p, e, add_foreign_message) at h))
  ]
  | inr (i, p) ↦
      subst IsUi (some-injective _ _ (rw (p, add_foreign_message) at h)) (post-IsUi i text ui v)
]
