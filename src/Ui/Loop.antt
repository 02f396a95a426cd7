-- ===== src/Ui/Loop.antt =====
-- start_ui of src/ui.c: the first tab, and the loop that draws and answers to keys.
use mathlib.Core.Path.{subst}
use mathlib.Core.Option.{some-injective}
use rn_praktikum.Base.{
  ℕ, ◌≤◌, zero, suc, ◌<◌, ◌≡◌, refl, sym, ◌∙◌, inl, inr, List, [], ◌∷◌, ◌++◌, Option, none, some,
  true, false, if◌then◌else◌, ◌>>=◌, >>=-eq-some, codes, length, get_elem?, arith, Bool-cases,
  Option-cases,
}
use rn_praktikum.Node.{Node}
use rn_praktikum.Ui.{Ui, Session, add_foreign_message, turn}
use rn_praktikum.Ui.Screen.{draw_messages_inside}
use rn_praktikum.Ui.Draw.{Output, cls, redraw, draw_tabs, draw_input}
use rn_praktikum.Ui.Bounds.{IsUi, IsIndex, add_foreign_message-IsUi}

-- What a round gets from outside: the size of the screen, read_key's key with the two bytes that
-- may follow an ESC, and what the other threads have done to the host since the last round.
pub record Round : Type 0 where
  pub rows : ℕ
  pub cols : ℕ
  pub key : ℕ
  pub seq : List ℕ
  pub others : Node → Node

unfoldable pub round : Round → Session → Option Session
unfolding redraw turn
round r s = redraw r.rows r.cols s.ui s.input >>= λ out.
    turn r.key r.seq (record s { node = r.others s.node })

-- The loop of start_ui, round by round, while `running` is set.
unfoldable pub loop : List Round → Session → Option Session
unfolding round
loop [] s = some s
loop (r ∷ rounds) s = let go = round r s >>= loop rounds in if s.running then go else some s

-- tabs, tab_count and active_tab before start_ui; its variables before the loop.
abbrev pub empty_ui : Ui
empty_ui = record { tabs = []; active = none }

abbrev pub first_session : Ui → Node → Session
first_session ui n = record { ui = ui; input = []; node = n; running = true }

-- start_ui() behind the set-up of the terminal.
unfoldable pub start_ui : List Round → Node → Option Session
unfolding add_foreign_message loop
start_ui rounds n = add_foreign_message (codes "System") (codes "Debug-Chat:") empty_ui >>= λ ui.
    loop rounds (first_session ui n)

get_elem?-total {ℓ} :
    {A : Type ℓ} (xs : List A) (i : ℕ) → i < length xs → (a : A) × (get_elem? xs i ≡ some a)
get_elem?-total [] i h = absurd (omega arith)
get_elem?-total (x ∷ xs) zero h = (x, refl)
get_elem?-total (x ∷ xs) (suc i) h = get_elem?-total xs i (omega arith)

redraw-active :
    (rows cols a : ℕ) (ui : Ui) (input : List ℕ)
    → 3 ≤ cols
    → cols ≤ 1025
    → a < length ui.tabs
    → ui.active ≡ some a
    → (out : List Output) × (redraw rows cols ui input ≡ some out)
unfolding redraw
redraw-active rows cols a ui input low high h e =
    let (t, p) = get_elem?-total ui.tabs a h in
    let (out, q, inside) = draw_messages_inside rows cols t 1 1 low high in
    (
      cls ∷ (draw_tabs ui ++ (out ++ draw_input rows input)),
      rw (e, redraw) (rw (p, redraw) (rw (q, redraw) refl)),
    )

-- A screen of 3 to 1025 columns can be drawn in every state that the loop gets into.
pub redraw_total :
    (rows cols : ℕ) (ui : Ui) (input : List ℕ)
    → 3 ≤ cols
    → cols ≤ 1025
    → IsUi ui
    → (out : List Output) × (redraw rows cols ui input ≡ some out)
unfolding redraw
redraw_total rows cols ui input low high v = elim (Option-cases ui.active) [
  | inl e ↦ (cls ∷ (draw_tabs ui ++ draw_input rows input), rw (e, redraw) refl)
  | inr (a, e) ↦
      redraw-active rows cols a ui input low high
        (subst (λ o. IsIndex o (length ui.tabs)) e v.active_within) e
]

loop-running :
    (r : Round) (rounds : List Round) (s : Session)
    → s.running ≡ true
    → loop (r ∷ rounds) s ≡ (round r s >>= loop rounds)
unfolding loop
loop-running r rounds s e = rw e refl

loop-stopped :
    (r : Round) (rounds : List Round) (s : Session)
    → s.running ≡ false
    → loop (r ∷ rounds) s ≡ some s
unfolding loop
loop-stopped r rounds s e = rw e refl

-- A property of the session that every round keeps is kept by the loop.
pub loop-keeps :
    (P : Session → Type 0)
    → ((r : Round) (s s' : Session) → P s → round r s ≡ some s' → P s')
    → (rounds : List Round) (s s' : Session) → P s
    → loop rounds s ≡ some s'
    → P s'
unfolding loop
loop-keeps P keeps [] s s' v h = subst P (some-injective _ _ h) v
loop-keeps P keeps (r ∷ rounds) s s' v h = elim (Bool-cases s.running) [
  | inl e ↦
      let (t, q, k) = >>=-eq-some (round r s) (loop rounds) (sym (loop-running r rounds s e) ∙ h) in
      loop-keeps P keeps rounds t s' (keeps r s t v q) k
  | inr e ↦ subst P (some-injective _ _ (sym (loop-stopped r rounds s e) ∙ h)) v
]

pub round-turn :
    (r : Round) (s s' : Session)
    → round r s ≡ some s'
    → turn r.key r.seq (record s { node = r.others s.node }) ≡ some s'
unfolding round
round-turn r s s' h =
    let (out, d, g) =
      >>=-eq-some (redraw r.rows r.cols s.ui s.input)
        (λ out. turn r.key r.seq (record s { node = r.others s.node })) h in
    g

empty-IsUi : IsUi empty_ui
empty-IsUi = record { few = omega arith; tabs_within = tt; active_within = tt }

-- What the first tab and the rounds of the loop keep, start_ui has at its end.
pub start_ui-keeps :
    (P : Session → Type 0)
    → ((r : Round) (s s' : Session) → P s → round r s ≡ some s' → P s')
    → (rounds : List Round) (n : Node) (s : Session)
    → ((ui : Ui) → IsUi ui → P (first_session ui n))
    → start_ui rounds n ≡ some s
    → P s
unfolding start_ui
start_ui-keeps P keeps rounds n s first h =
    let (ui, d, g) =
      >>=-eq-some (add_foreign_message (codes "System") (codes "Debug-Chat:") empty_ui)
        (λ ui. loop rounds (first_session ui n)) h in
    loop-keeps P keeps rounds (first_session ui n) s
      (first ui
        (add_foreign_message-IsUi (codes "System") (codes "Debug-Chat:") empty_ui ui empty-IsUi d))
      g
