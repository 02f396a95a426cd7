-- ===== src/Ui/Screen.antt =====
-- Where the lines of the messages stand on the screen (draw_messages of src/ui.c).
use rn_praktikum.Base.{
  ℕ, suc, ◌+◌, ◌-◌, ◌≤◌, ◌≡◌, refl, ap, sym, ◌∙◌, some, ◌==◌, if◌then◌else◌, inl, inr, List, [],
  ◌∷◌, ◌++◌, ltb, codes, length, drop, arith, All, Bool-cases,
}
use mathlib.Core.List.{append_assoc}
use mathlib.Core.Path.{subst}
use rn_praktikum.Ui.{Message, Tab}
use rn_praktikum.Ui.Lines.{message_rows, first_visible_message}
use rn_praktikum.Ui.Rows.{Fits, message_rows-printed}
use rn_praktikum.Ui.Draw.{
  Output, cls, move, color, print, escape, column, draw_rows, draw_message, draw_from,
  draw_messages,
}

-- A text on the screen, with the line and the column of its first byte.
pub record Placed : Type 0 where
  pub line : ℕ
  pub col : ℕ
  pub text : List ℕ

-- What a terminal shows of an output, from a place of its cursor on.
abbrev pub placed : ℕ → ℕ → List Output → List Placed
placed line col [] = []
placed line col (cls ∷ out) = placed 1 1 out
placed line col (move r c ∷ out) = placed r c out
placed line col (color code ∷ out) = placed line col out
placed line col (print text ∷ out) =
    record { line = line; col = col; text = text } ∷ placed line (col + length text) out

-- Texts on one line after another, from `line` on, within the columns 1 to `cols`.
abbrev pub Stacked : ℕ → ℕ → List Placed → Type 0
Stacked cols line [] = Unit
Stacked cols line (p ∷ ps) =
    (p.line ≡ line) × (1 ≤ p.col) × (p.col + length p.text ≤ cols) × Stacked cols (suc line) ps

column_inside :
    (cols self len : ℕ)
    → 3 ≤ cols
    → len ≤ cols - 2
    → (1 ≤ column cols self len) × (column cols self len + len ≤ cols)
unfolding column
column_inside cols self len h k = ground arith

-- An output that is stacked from `line` on, wherever the cursor was.
abbrev Draws : ℕ → ℕ → List Output → Type 0
Draws cols line out = (r c : ℕ) → Stacked cols line (placed r c out)

draw_rows-Draws :
    (line cols self : ℕ) (rows : List (List ℕ)) (rest : List Output)
    → 3 ≤ cols
    → All (Fits (cols - 2)) rows
    → Draws cols (draw_rows line cols self rows).1 rest
    → Draws cols line ((draw_rows line cols self rows).0 ++ rest)
unfolding draw_rows
draw_rows-Draws line cols self [] rest h f k r c = k r c
draw_rows-Draws line cols self (row ∷ rows) rest h f k r c =
    let (left, right) = column_inside cols self (length row) h f.0.1 in
    (refl, left, right, draw_rows-Draws (suc line) cols self rows rest h f.1 k _ _)

draw_message-Draws :
    (line cols : ℕ) (m : Message)
    → 3 ≤ cols
    → cols ≤ 1025
    → (out : List Output) × (end : ℕ) × (draw_message line cols m ≡ some (out, end))
      × ((rest : List Output) → Draws cols end rest → Draws cols line (out ++ rest))
unfolding draw_message
draw_message-Draws line cols m h k =
    let width : suc (cols - 3) ≡ cols - 2 = omega arith in
    let (rows, e, same, fits) = message_rows-printed m.text (cols - 3) (omega arith) in
    let e' : message_rows m.text (cols - 2) ≡ some rows =
      ap (message_rows m.text) (sym width) ∙ e in
    let (out, end) = draw_rows line cols m.self rows in
    let shade = color (if m.self == 0 then escape (codes "34m") else escape (codes "32m")) in
    let off = color (escape (codes "0m")) in
    (
      shade ∷ (out ++ off ∷ []),
      end,
      rw (e', draw_message) refl,
      λ rest d r c. rw (append_assoc out (off ∷ []) rest) (
          draw_rows-Draws line cols m.self rows (off ∷ rest) h
            (subst (λ w. All (Fits w) rows) width fits) d r c),
    )

draw_from-Draws :
    (rows cols line : ℕ) (msgs : List Message)
    → 3 ≤ cols
    → cols ≤ 1025
    → (out : List Output) × (draw_from rows cols line msgs ≡ some out) × Draws cols line out
unfolding draw_from
draw_from-Draws rows cols line [] h k = ([], refl, λ r c. tt)
draw_from-Draws rows cols line (m ∷ msgs) h k = elim (Bool-cases (ltb (line + 1) rows)) [
  | inl e ↦
      let (out, end, p, d) = draw_message-Draws line cols m h k in
      let (rest, q, d') = draw_from-Draws rows cols end msgs h k in
      (out ++ rest, rw (e, p, draw_from) (rw q refl), d rest d')
  | inr e ↦ ([], rw e refl, λ r c. tt)
]

-- On a screen of 3 to 1025 columns, draw_messages comes back, and writes line after line from the
-- third on, none over another, and each from its first byte to its last within the columns of the
-- screen, wherever the cursor was.
pub draw_messages_inside :
    (rows cols : ℕ) (t : Tab) (r c : ℕ)
    → 3 ≤ cols
    → cols ≤ 1025
    → (out : List Output) × (draw_messages rows cols t ≡ some out) × Stacked cols 3 (placed r c out)
unfolding draw_messages
draw_messages_inside rows cols t r c h k =
    let (out, e, d) =
      draw_from-Draws rows cols 3 (drop (first_visible_message t (cols - 2) (rows - 3)) t.msgs) h
        k in
    (out, e, d r c)
