-- ===== src/Ui/Draw.antt =====
-- The drawing of src/ui.c, as the list of what it writes to the terminal.
use rn_praktikum.Base.{
  ℕ, suc, ◌+◌, ◌-◌, List, [], ◌∷◌, ◌++◌, Option, none, some, ◌>>=◌, ltb, ◌==◌, if◌then◌else◌, codes,
  length, drop, get_elem?,
}
use rn_praktikum.Ui.{Message, Tab, Ui, is_active}
use rn_praktikum.Ui.Lines.{message_rows, first_visible_message}

-- What is printed: cls(), move(r, c), color(c), and other text.
pub data Output : Type 0 where
  cls : Output
  move : ℕ → ℕ → Output
  color : List ℕ → Output
  print : List ℕ → Output

-- The colours: "\033[" and what follows.
abbrev pub escape : List ℕ → List ℕ
escape code = 27 ∷ 91 ∷ code

-- The loop of draw_tabs, from index `i` on.
unfoldable pub tabs_from : Ui → ℕ → List Tab → List Output
unfolding is_active
tabs_from ui i [] = []
tabs_from ui i (t ∷ tabs) =
    let chosen =
      if is_active i ui
      then escape (codes "7m")
      else if t.unread == 0
      then escape (codes "0m")
      else escape (codes "33m") in
    color chosen
    ∷ print (codes " " ++ (t.user ++ codes " "))
    ∷ color (escape (codes "0m"))
    ∷ print (codes " ")
    ∷ tabs_from ui (suc i) tabs

-- draw_tabs()
unfoldable pub draw_tabs : Ui → List Output
unfolding tabs_from
draw_tabs ui = move 1 1 ∷ tabs_from ui 0 ui.tabs

-- The column of a line of `len` bytes.
unfoldable pub column : ℕ → ℕ → ℕ → ℕ
column cols self len =
    let col = if self == 0 then 1 else cols - len - 1 in if ltb col 1 then 1 else col

-- The lines of a message from `line` on, and the line behind them.
unfoldable pub draw_rows : ℕ → ℕ → ℕ → List (List ℕ) → List Output × ℕ
unfolding column
draw_rows line cols self [] = ([], line)
draw_rows line cols self (row ∷ rows) =
    let (out, end) = draw_rows (suc line) cols self rows in
    (move line (column cols self (length row)) ∷ print row ∷ out, end)

-- draw_message(line, cols, m); `none` as in message_rows.
unfoldable pub draw_message : ℕ → ℕ → Message → Option (List Output × ℕ)
unfolding draw_rows message_rows
draw_message line cols m = message_rows m.text (cols - 2) >>= λ rows.
    let (out, end) = draw_rows line cols m.self rows in
    some (
      color (if m.self == 0 then escape (codes "34m") else escape (codes "32m"))
          ∷ (out ++ color (escape (codes "0m")) ∷ []),
      end,
    )

-- The loop of draw_messages from the message `start` on; the int rows - 1 is negative for no rows.
unfoldable pub draw_from : ℕ → ℕ → ℕ → List Message → Option (List Output)
unfolding draw_message
draw_from rows cols line [] = some []
draw_from rows cols line (m ∷ msgs) =
    let drawn = draw_message line cols m >>= λ r.
    draw_from rows cols r.1 msgs >>= λ rest. some (r.0 ++ rest) in
    if ltb (line + 1) rows then drawn else some []

-- draw_messages() for the tab `t`
unfoldable pub draw_messages : ℕ → ℕ → Tab → Option (List Output)
unfolding draw_from first_visible_message
draw_messages rows cols t =
    draw_from rows cols 3 (drop (first_visible_message t (cols - 2) (rows - 3)) t.msgs)

-- draw_input(buf)
unfoldable pub draw_input : ℕ → List ℕ → List Output
draw_input rows buf = move rows 1 ∷ print (escape (codes "0K> ") ++ buf) ∷ []

-- redraw(input); `none` is an active_tab outside of tabs, or a message that cannot be drawn.
unfoldable pub redraw : ℕ → ℕ → Ui → List ℕ → Option (List Output)
unfolding draw_tabs draw_messages draw_input
redraw rows cols ui input = elim ui.active [
  | none ↦ some (cls ∷ (draw_tabs ui ++ draw_input rows input))
  | some a ↦ elim (get_elem? ui.tabs a) [
    | none ↦ none
    | some t ↦ draw_messages rows cols t >>= λ out.
        some (cls ∷ (draw_tabs ui ++ (out ++ draw_input rows input)))
  ]
]
