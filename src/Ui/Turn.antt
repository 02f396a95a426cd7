-- ===== src/Ui/Turn.antt =====
-- The rounds of the loop of start_ui in src/ui.c.
use rn_praktikum.Base.{
  ℕ, zero, suc, ◌+◌, ◌-◌, ◌<◌, ◌≡◌, refl, ap, sym, ◌∙◌, ◌⊎◌, inl, inr, List, [], ◌∷◌, ◌++◌, Option,
  none, some, true, ltb, ◌==◌, ◌&&◌, if◌then◌else◌, >>=-eq-some, arith, length, length-append,
  length-take, take, get_elem?, get_or, All, Bool-cases, Option-cases, ltb→lt,
}
use mathlib.Core.Path.{subst}
use mathlib.Core.Option.{some-injective, none-ne-some}
use rn_praktikum.Queue.{MessageUi, pop_ui}
use rn_praktikum.Protocol.{do_chat}
use rn_praktikum.Ui.{
  Ui, Session, max_text, set_unread, add_foreign_message, drain_from, drain, switch_tab, submit,
  on_key, turn,
}
use rn_praktikum.Ui.Bounds.{
  IsUi, All-append, All-take, set_unread-IsUi, add_own_message-IsUi, add_foreign_message-IsUi,
}

-- A byte that the line takes.
abbrev pub IsPrintable : ℕ → Type 0
IsPrintable b = (31 < b) × (b < 127)

pub record IsSession (s : Session) : Type 0 where
  pub ui_within : IsUi s.ui
  pub input_within : length s.input < max_text
  pub printable : All IsPrintable s.input

drain_from-IsSession :
    (k : ℕ) (s s' : Session) → IsSession s → drain_from k s ≡ some s' → IsSession s'
unfolding drain_from
drain_from-IsSession zero s s' v h = subst IsSession (some-injective _ _ h) v
drain_from-IsSession (suc k) s s' v h = elim (Option-cases (pop_ui s.node.ui)) [
  | inl p ↦ subst IsSession (some-injective _ _ (rw (p, drain_from) at h)) v
  | inr (m, p) ↦
      let (ui, e, g) =
        >>=-eq-some (add_foreign_message m.0.name m.0.text s.ui) _ (rw (p, drain_from) at h) in
      drain_from-IsSession k (record s { ui = ui; node = record (s.node) { ui = m.1 } }) s'
        (record {
          ui_within = add_foreign_message-IsUi m.0.name m.0.text s.ui ui v.ui_within e;
          input_within = v.input_within;
          printable = v.printable;
        })
        g
]

-- The tab after an arrow key.
abbrev arrow : ℕ → ℕ → ℕ → ℕ
arrow key a n =
    let right = if (key == 67) && ltb (a + 1) n then a + 1 else a in
    if (key == 68) && ltb 0 right then right - 1 else right

arrow-lt : (key a n : ℕ) → a < n → arrow key a n < n
arrow-lt key a n h = ground arith

switched_within :
    (seq : List ℕ) (ui ui' : Ui) (o : Option ℕ)
    → IsUi (record ui { active = o })
    → (elim o [
      | none ↦ none
      | some a ↦
          let i = arrow (get_or seq 1 0) a (length ui.tabs) in
          some (set_unread i 0 (record ui { active = some i }))
    ])
      ≡ some ui'
    → IsUi ui'
switched_within seq ui ui' none v h = absurd (none-ne-some ui' h)
switched_within seq ui ui' (some a) v h =
    let i = arrow (get_or seq 1 0) a (length ui.tabs) in
    subst IsUi (some-injective _ _ h) (
      set_unread-IsUi i 0 (record ui { active = some i })
        (record {
          few = v.few;
          tabs_within = v.tabs_within;
          active_within = arrow-lt (get_or seq 1 0) a (length ui.tabs) v.active_within;
        }))

switch_tab-IsUi : (seq : List ℕ) (ui ui' : Ui) → IsUi ui → switch_tab seq ui ≡ some ui' → IsUi ui'
unfolding switch_tab
switch_tab-IsUi seq ui ui' v h = elim (Bool-cases ((length seq == 2) && (get_or seq 0 0 == 91))) [
  | inl e ↦ switched_within seq ui ui' ui.active v (rw (e, switch_tab) at h)
  | inr e ↦ subst IsUi (some-injective _ _ (rw (e, switch_tab) at h)) v
]

submit-IsSession : (a : ℕ) (s s' : Session) → IsSession s → submit a s ≡ some s' → IsSession s'
unfolding submit
submit-IsSession a s s' v h = elim (Option-cases (get_elem? s.ui.tabs a)) [
  | inl p ↦ absurd (none-ne-some s' (rw (p, submit) at h))
  | inr (t, p) ↦
      let (node, e, g) = >>=-eq-some (do_chat t.user s.input s.node) _ (rw (p, submit) at h) in
      subst IsSession (some-injective _ _ g) (record {
        ui_within = add_own_message-IsUi s.input s.ui v.ui_within;
        input_within = omega arith;
        printable = tt;
      })
]

enter_within :
    (s s' : Session) (o : Option ℕ)
    → IsSession s
    → (elim o [ none ↦ some s | some a ↦ submit a s ]) ≡ some s'
    → IsSession s'
enter_within s s' none v h = subst IsSession (some-injective _ _ h) v
enter_within s s' (some a) v h = submit-IsSession a s s' v h

typed_within :
    (k : ℕ) (s : Session)
    → IsSession s
    → (ltb 31 k && (ltb k 127 && ltb (length s.input) (max_text - 1))) ≡ true
    → IsSession (record s { input = s.input ++ k ∷ [] })
typed_within k s v e =
    let low = ltb→lt 31 k (ground (arith, e)) in
    let high = ltb→lt k 127 (ground (arith, e)) in
    let room = ltb→lt (length s.input) (max_text - 1) (ground (arith, e)) in
    record {
      ui_within = v.ui_within;
      input_within = omega (arith, length-append s.input (k ∷ []));
      printable = All-append IsPrintable s.input (k ∷ []) v.printable ((low, high), tt);
    }

-- The keys that change the line alone.
line_within :
    (k : ℕ) (s s' : Session)
    → IsSession s
    → (if (k == 127) && ltb 0 (length s.input)
        then some (record s { input = take (length s.input - 1) s.input })
        else if ltb 31 k && (ltb k 127 && ltb (length s.input) (max_text - 1))
        then some (record s { input = s.input ++ k ∷ [] })
        else some s)
      ≡ some s'
    → IsSession s'
line_within k s s' v h = elim (Bool-cases ((k == 127) && ltb 0 (length s.input))) [
  | inl e ↦ subst IsSession (some-injective _ _ (rw e at h)) (record {
    ui_within = v.ui_within;
    input_within = omega (arith, length-take (length s.input - 1) s.input, v.input_within);
    printable = All-take IsPrintable (length s.input - 1) s.input v.printable;
  })
  | inr e ↦ elim (Bool-cases (ltb 31 k && (ltb k 127 && ltb (length s.input) (max_text - 1)))) [
    | inl f ↦ subst IsSession (some-injective _ _ (rw (e, f) at h)) (typed_within k s v f)
    | inr f ↦ subst IsSession (some-injective _ _ (rw (e, f) at h)) v
  ]
]

on_key-IsSession :
    (k : ℕ) (seq : List ℕ) (s s' : Session) → IsSession s → on_key k seq s ≡ some s' → IsSession s'
unfolding on_key
on_key-IsSession k seq s s' v h = elim (Bool-cases (k == 27)) [
  | inl e ↦
      let (ui, d, g) = >>=-eq-some (switch_tab seq s.ui) _ (rw (e, on_key) at h) in
      subst IsSession (some-injective _ _ g) (record {
        ui_within = switch_tab-IsUi seq s.ui ui v.ui_within d;
        input_within = v.input_within;
        printable = v.printable;
      })
  | inr e ↦ elim (Bool-cases ((k == 10) && ltb 0 (length s.input))) [
    | inl f ↦ enter_within s s' s.ui.active v (rw (e, f, on_key) at h)
    | inr f ↦ line_within k s s' v (rw (e, f, on_key) at h)
  ]
]

-- Through a round of the loop of start_ui, whatever key is read and whatever messages have come:
-- there are at most ten tabs of at most 200 messages, their names have less than 32 bytes and their
-- texts less than 1434, active_tab is -1 or the index of a tab, and the line that is typed has less
-- than 1434 bytes, all of them printable.
pub turn-IsSession :
    (k : ℕ) (seq : List ℕ) (s s' : Session) → IsSession s → turn k seq s ≡ some s' → IsSession s'
unfolding turn drain
turn-IsSession k seq s s' v h = elim (Bool-cases (k == 3)) [
  | inl e ↦
      subst IsSession (some-injective _ _ (rw (e, turn) at h))
        (record { ui_within = v.ui_within; input_within = v.input_within; printable = v.printable })
  | inr e ↦
      let (t, d, g) = >>=-eq-some (drain s) (on_key k seq) (rw (e, turn) at h) in
      on_key-IsSession k seq t s' (drain_from-IsSession (suc (length s.node.ui)) s t v d) g
]

List-cases :
    (q : List MessageUi) → (q ≡ []) ⊎ ((m : MessageUi) × (ms : List MessageUi) × (q ≡ m ∷ ms))
List-cases [] = inl refl
List-cases (m ∷ ms) = inr (m, ms, refl)

drain_from_empty :
    (k : ℕ) (s s' : Session) → length s.node.ui < k → drain_from k s ≡ some s' → s'.node.ui ≡ []
unfolding drain_from pop_ui
drain_from_empty zero s s' h e = absurd (omega arith)
drain_from_empty (suc k) s s' h e = elim (List-cases s.node.ui) [
  | inl p ↦
      sym (ap (λ (t : Session). t.node.ui) (some-injective _ _ (rw (ap pop_ui p, drain_from) at e)))
      ∙ p
  | inr (m, ms, p) ↦
      let (ui, d, g) =
        >>=-eq-some (add_foreign_message m.name m.text s.ui) _
          (rw (ap pop_ui p, drain_from) at e) in
      drain_from_empty k (record s { ui = ui; node = record (s.node) { ui = ms } }) s'
        (omega (arith, ap length p, h)) g
]

-- The loop over pop_ui leaves no message behind.
pub drain_empty : (s s' : Session) → drain s ≡ some s' → s'.node.ui ≡ []
unfolding drain
drain_empty s s' e = drain_from_empty (suc (length s.node.ui)) s s' (omega arith) e
