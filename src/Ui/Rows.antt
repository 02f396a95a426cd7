-- ===== src/Ui/Rows.antt =====
-- What draw_message prints of a text, and the lines that message_lines counts for it (src/ui.c).
use rn_praktikum.Base.{
  ℕ, zero, suc, ◌+◌, ◌≤◌, ◌<◌, ◌≡◌, refl, ap, sym, ◌∙◌, inl, inr, List, [], ◌∷◌, ◌++◌, true, false,
  ◌==◌, leb, some, ◌>>=◌, if◌then◌else◌, arith, length, All, Bool-cases,
}
use rn_praktikum.Ui.Lines.{
  newline, lines_from, message_lines, take_line, skip_newline, prepend, row_size, rows_from,
  message_rows,
}

-- A text without its newlines.
unfoldable pub visible_bytes : List ℕ → List ℕ
visible_bytes [] = []
visible_bytes (c ∷ p) = if c == newline then visible_bytes p else c ∷ visible_bytes p

abbrev pub concat : List (List ℕ) → List ℕ
concat [] = []
concat (row ∷ rows) = row ++ concat rows

-- A printed line: not empty, and no longer than the screen.
abbrev pub Fits : ℕ → List ℕ → Type 0
Fits max_width row = (0 < length row) × (length row ≤ max_width)

take_line-visible :
    (k : ℕ) (p : List ℕ)
    → visible_bytes p ≡ (take_line k p).0 ++ visible_bytes (skip_newline (take_line k p).1)
unfolding take_line visible_bytes skip_newline
take_line-visible zero [] = refl
take_line-visible zero (c ∷ p) = ground arith
take_line-visible (suc k) [] = refl
take_line-visible (suc k) (c ∷ p) = ground (arith, take_line-visible k p)

length-take_line : (k : ℕ) (p : List ℕ) → length (take_line k p).0 ≤ k
unfolding take_line
length-take_line zero p = omega arith
length-take_line (suc k) [] = omega arith
length-take_line (suc k) (c ∷ p) = ground (arith, length-take_line k p)

length-rest : (k : ℕ) (p : List ℕ) → length (take_line k p).1 ≤ length p
unfolding take_line
length-rest zero p = omega arith
length-rest (suc k) [] = omega arith
length-rest (suc k) (c ∷ p) = ground (arith, length-rest k p)

length-skip_newline : (p : List ℕ) → length (skip_newline p) ≤ length p
unfolding skip_newline
length-skip_newline [] = omega arith
length-skip_newline (c ∷ p) = ground arith

-- A round takes a byte or more.
take_line-shorter :
    (k : ℕ) (c : ℕ) (p : List ℕ) → length (skip_newline (take_line (suc k) (c ∷ p)).1) ≤ length p
unfolding take_line skip_newline
take_line-shorter k c p = elim (Bool-cases (c == newline)) [
  | inl e ↦ rw (e, e) (omega arith)
  | inr e ↦ rw e (omega (arith, length-skip_newline (take_line k p).1, length-rest k p))
]

concat-prepend :
    (buf : List ℕ) (rows : List (List ℕ)) → concat (prepend buf rows) ≡ buf ++ concat rows
unfolding prepend
concat-prepend [] rows = refl
concat-prepend (c ∷ buf) rows = refl

prepend-Fits :
    (w : ℕ) (buf : List ℕ) (rows : List (List ℕ))
    → length buf ≤ w
    → All (Fits w) rows
    → All (Fits w) (prepend buf rows)
unfolding prepend
prepend-Fits w [] rows h a = a
prepend-Fits w (c ∷ buf) rows h a = ((omega arith, h), a)

gt→not-leb :
    (buf : List ℕ) (w : ℕ)
    → length buf ≤ suc w
    → suc w < row_size
    → leb row_size (length buf) ≡ false
gt→not-leb buf w h r = ground arith

-- The lines of a text for a screen with room for them.
unfoldable cut_from : ℕ → ℕ → List ℕ → List (List ℕ)
unfolding take_line skip_newline prepend
cut_from zero max_width p = []
cut_from (suc k) max_width [] = []
cut_from (suc k) max_width (c ∷ p) =
    let (buf, rest) = take_line max_width (c ∷ p) in
    prepend buf (cut_from k max_width (skip_newline rest))

rows_from-cut_from :
    (k w : ℕ) (p : List ℕ)
    → length p ≤ k
    → suc w < row_size
    → rows_from k (suc w) p ≡ some (cut_from k (suc w) p)
unfolding rows_from cut_from
rows_from-cut_from zero w [] h r = refl
rows_from-cut_from zero w (c ∷ p) h r = absurd (omega arith)
rows_from-cut_from (suc k) w [] h r = refl
rows_from-cut_from (suc k) w (c ∷ p) h r =
    let (buf, rest) = take_line (suc w) (c ∷ p) in
    rw (gt→not-leb buf w (length-take_line (suc w) (c ∷ p)) r) (
      ap (λ o. o >>= λ rows. some (prepend buf rows))
        (rows_from-cut_from k w (skip_newline rest) (omega (arith, take_line-shorter w c p)) r))

cut_from-printed :
    (k w : ℕ) (p : List ℕ)
    → length p ≤ k
    → (concat (cut_from k (suc w) p) ≡ visible_bytes p) × All (Fits (suc w)) (cut_from k (suc w) p)
unfolding cut_from visible_bytes
cut_from-printed zero w [] h = (refl, tt)
cut_from-printed zero w (c ∷ p) h = absurd (omega arith)
cut_from-printed (suc k) w [] h = (refl, tt)
cut_from-printed (suc k) w (c ∷ p) h =
    let (buf, rest) = take_line (suc w) (c ∷ p) in
    let (same, fits) =
      cut_from-printed k w (skip_newline rest) (omega (arith, take_line-shorter w c p)) in
    (
      concat-prepend buf (cut_from k (suc w) (skip_newline rest))
          ∙ ap (λ xs. buf ++ xs) same
          ∙ sym (take_line-visible (suc w) (c ∷ p)),
      prepend-Fits (suc w) buf _ (length-take_line (suc w) (c ∷ p)) fits,
    )

-- On a screen with room for at least one byte in a line, and less than the 1024 of the array,
-- draw_message prints every byte of the text but its newlines, in order, in lines that are not
-- empty and not longer than the room.
pub message_rows-printed :
    (text : List ℕ) (w : ℕ)
    → suc w < row_size
    → (rows : List (List ℕ)) × (message_rows text (suc w) ≡ some rows)
      × (concat rows ≡ visible_bytes text)
      × All (Fits (suc w)) rows
unfolding message_rows
message_rows-printed text w r = (
  cut_from (length text) (suc w) text,
  rows_from-cut_from (length text) w text (omega arith) r,
  (cut_from-printed (length text) w text (omega arith)).0,
  (cut_from-printed (length text) w text (omega arith)).1,
)

lines_from-add :
    (w : ℕ) (p : List ℕ) (lines col : ℕ) → lines_from w p lines col ≡ lines + lines_from w p 0 col
unfolding lines_from
lines_from-add w [] lines col = omega arith
lines_from-add w (c ∷ p) lines col = ground (
  arith,
  lines_from-add w p (suc lines) 0,
  lines_from-add w p 1 0,
  lines_from-add w p lines (suc col),
)

-- The lines that a text takes at most: none, or one more than it has breaks.
abbrev needed : ℕ → List ℕ → ℕ
needed w [] = 0
needed w (c ∷ p) = suc (lines_from w (c ∷ p) 0 0)

needed-le : (w : ℕ) (p : List ℕ) → needed w p ≤ lines_from w p 1 0
needed-le w [] = omega arith
needed-le w (c ∷ p) = omega (arith, lines_from-add w (c ∷ p) 1 0)

lines_from-newline :
    (w c : ℕ) (p : List ℕ) (lines col : ℕ)
    → (c == newline) ≡ true
    → lines_from w (c ∷ p) lines col ≡ lines_from w p (suc lines) 0
unfolding lines_from
lines_from-newline w c p lines col e = rw e refl

needed-skip_newline : (w : ℕ) (p : List ℕ) → needed w (skip_newline p) ≤ lines_from w p 1 0
unfolding skip_newline
needed-skip_newline w [] = omega arith
needed-skip_newline w (c ∷ p) = elim (Bool-cases (c == newline)) [
  | inl e ↦
      rw (e, lines_from-newline w c p 1 0 e)
        (omega (arith, needed-le w p, lines_from-add w p 1 0, lines_from-add w p 2 0))
  | inr e ↦ rw e (needed-le w (c ∷ p))
]

-- A line that is cut off leaves a text that needs no more lines than there are breaks.
needed-take_line :
    (w k col : ℕ) (p : List ℕ)
    → col + suc k ≡ w
    → needed w (skip_newline (take_line (suc k) p).1) ≤ lines_from w p 0 col
unfolding take_line lines_from skip_newline
needed-take_line w k col [] h = omega arith
needed-take_line w zero col (c ∷ p) h = elim (Bool-cases (c == newline)) [
  | inl e ↦ rw (e, e) (needed-le w p)
  | inr e ↦
      let full : leb w (suc col) ≡ true = ground arith in rw (e, full) (needed-skip_newline w p)
]
needed-take_line w (suc k) col (c ∷ p) h = elim (Bool-cases (c == newline)) [
  | inl e ↦ rw (e, e) (needed-le w p)
  | inr e ↦
      let room : leb w (suc col) ≡ false = ground arith in
      rw (e, room) (needed-take_line w k (suc col) p (omega arith))
]

length-prepend : (buf : List ℕ) (rows : List (List ℕ)) → length (prepend buf rows) ≤ 1 + length rows
unfolding prepend
length-prepend [] rows = omega arith
length-prepend (c ∷ buf) rows = omega arith

length-cut_from : (k w : ℕ) (p : List ℕ) → length (cut_from k (suc w) p) ≤ needed (suc w) p
unfolding cut_from
length-cut_from zero w p = omega arith
length-cut_from (suc k) w [] = omega arith
length-cut_from (suc k) w (c ∷ p) =
    let (buf, rest) = take_line (suc w) (c ∷ p) in
    omega (
      arith,
      length-prepend buf (cut_from k (suc w) (skip_newline rest)),
      length-cut_from k w (skip_newline rest),
      needed-take_line (suc w) w 0 (c ∷ p) (omega arith),
    )

-- message_lines, by which first_visible_message reserves the room, is no less than the number of
-- lines that draw_message prints.
pub message_rows-le :
    (text : List ℕ) (w : ℕ)
    → suc w < row_size
    → (rows : List (List ℕ)) × (message_rows text (suc w) ≡ some rows)
      × (length rows ≤ message_lines text (suc w))
unfolding message_rows message_lines
message_rows-le text w r = (
  cut_from (length text) (suc w) text,
  rows_from-cut_from (length text) w text (omega arith) r,
  omega (arith, length-cut_from (length text) w text, needed-le (suc w) text),
)
