-- ===== src/Ui/Lines.antt =====
-- The lines of a message on the screen (src/ui.c): draw_message, message_lines and
-- first_visible_message.
use rn_praktikum.Base.{
  ℕ, zero, suc, ◌+◌, ◌-◌, List, [], ◌∷◌, Option, none, some, ◌>>=◌, ◌==◌, ◌&&◌, leb, ltb,
  if◌then◌else◌, length,
}
use rn_praktikum.Ui.{Message, Tab}

-- '\n'
abbrev pub newline : ℕ
newline = 10

-- The loop of message_lines: the rest of the text, `lines` and `col`.
unfoldable pub lines_from : ℕ → List ℕ → ℕ → ℕ → ℕ
lines_from max_width [] lines col = lines
lines_from max_width (c ∷ p) lines col =
    let broken = lines_from max_width p (suc lines) 0 in
    let same = lines_from max_width p lines (suc col) in
    if c == newline then broken else if leb max_width (suc col) then broken else same

-- message_lines(text, max_width)
unfoldable pub message_lines : List ℕ → ℕ → ℕ
unfolding lines_from
message_lines text max_width = lines_from max_width text 1 0

-- The inner loop of draw_message: at most `k` bytes up to a newline, and what is left.
unfoldable pub take_line : ℕ → List ℕ → List ℕ × List ℕ
take_line zero p = ([], p)
take_line (suc k) [] = ([], [])
take_line (suc k) (c ∷ p) =
    let (buf, rest) = take_line k p in if c == newline then ([], c ∷ p) else (c ∷ buf, rest)

unfoldable pub skip_newline : List ℕ → List ℕ
skip_newline [] = []
skip_newline (c ∷ p) = if c == newline then p else c ∷ p

-- A line, if it is not empty, before others.
unfoldable pub prepend : List ℕ → List (List ℕ) → List (List ℕ)
prepend [] rows = rows
prepend (c ∷ buf) rows = (c ∷ buf) ∷ rows

-- sizeof(buf)
abbrev pub row_size : ℕ
row_size = 1024

-- The outer loop of draw_message with the rounds left: the lines that are printed. `none`: a line
-- and its 0 do not fit into buf, or there are more rounds than bytes, because a round takes no
-- byte.
unfoldable pub rows_from : ℕ → ℕ → List ℕ → Option (List (List ℕ))
unfolding take_line skip_newline prepend
rows_from k max_width [] = some []
rows_from zero max_width (c ∷ p) = none
rows_from (suc k) max_width (c ∷ p) =
    let (buf, rest) = take_line max_width (c ∷ p) in
    let later = rows_from k max_width (skip_newline rest) in
    if leb row_size (length buf) then none else later >>= λ rows. some (prepend buf rows)

-- draw_message, for a text with no 0. While each round takes a byte, there are no more rounds than
-- bytes; a round that takes none is repeated without end.
unfoldable pub message_rows : List ℕ → ℕ → Option (List (List ℕ))
unfolding rows_from
message_rows text max_width = rows_from (length text) max_width text

-- The loop of first_visible_message over the messages from the last one on. The `if` in it reads
-- `visible > 1`, and its body is the test for the height.
unfoldable pub visible_from : List Message → ℕ → ℕ → ℕ → ℕ → ℕ
unfolding message_lines
visible_from [] max_width chat_height used visible = visible
visible_from (m ∷ msgs) max_width chat_height used visible =
    let need = message_lines m.text max_width in
    let rest = visible_from msgs max_width chat_height (used + need) (suc visible) in
    if ltb 1 visible && leb chat_height (used + need) then visible else rest

abbrev pub reverse_onto : List Message → List Message → List Message
reverse_onto [] done = done
reverse_onto (m ∷ msgs) done = reverse_onto msgs (m ∷ done)

-- first_visible_message(t, max_width, chat_height)
unfoldable pub first_visible_message : Tab → ℕ → ℕ → ℕ
unfolding visible_from
first_visible_message t max_width chat_height =
    length t.msgs - visible_from (reverse_onto t.msgs []) max_width chat_height 0 0
