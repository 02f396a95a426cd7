-- ===== src/Examples/Screen.antt =====
-- Examples for the user interface.
use Prim.Native.String.{String}
use rn_praktikum.Base.{
  ℕ, ◌≤◌, ◌≡◌, refl, List, [], ◌∷◌, ◌++◌, Option, none, some, true, arith, length, codes, c_str,
  bytes_eq,
}
use rn_praktikum.Queue.{pop, pop_ui}
use rn_praktikum.Ui.{
  Tab, Ui, Session, add_foreign_message, turn, drain, find_tab_from, change_tab, add_to_tab,
  drain_from, on_key,
}
use rn_praktikum.Ui.Lines.{
  message_rows, message_lines, lines_from, visible_from, first_visible_message, rows_from,
  take_line, skip_newline, prepend,
}
use rn_praktikum.Ui.Tabs.{tab_of, Receives, add_foreign_message_lem}
use rn_praktikum.Ui.Bounds.{IsUi}
use rn_praktikum.Ui.Turn.{IsSession}
use rn_praktikum.Ui.Loop.{Round, start_ui}
use rn_praktikum.Ui.Draw.{
  Output, move, color, print, escape, column, draw_rows, draw_message, draw_from, draw_messages,
}
use rn_praktikum.Ui.Screen.{placed, Stacked, draw_messages_inside}
use rn_praktikum.Examples.{bob, small_node}

abbrev two_lines : List ℕ
two_lines = codes "hello" ++ 10 ∷ codes "you"

-- On four columns the text takes three lines.
message_rows_runs : message_rows two_lines 4 ≡ some (codes "hell" ∷ codes "o" ∷ codes "you" ∷ [])
unfolding message_rows rows_from take_line skip_newline prepend
message_rows_runs = refl

abbrev tab : String → Tab
tab user = record { user = codes user; msgs = []; unread = 0 }

abbrev debug_ui : Ui
debug_ui = record { tabs = tab "System" ∷ []; active = some 0 }

bob_new : tab_of debug_ui.tabs bob ≡ none
unfolding tab_of bytes_eq c_str
bob_new = refl

bob_short : length (c_str bob) ≤ 31
unfolding c_str
bob_short = omega arith

add_foreign_message_lem_example :
    (ui' : Ui) × (add_foreign_message bob two_lines debug_ui ≡ some ui')
    × Receives bob two_lines debug_ui.tabs ui'.tabs
add_foreign_message_lem_example =
    add_foreign_message_lem bob two_lines debug_ui bob_short (λ e. omega arith)

debug_ui-IsUi : IsUi debug_ui
debug_ui-IsUi = record {
  few = omega arith;
  tabs_within = ((omega arith, omega arith, tt), tt);
  active_within = omega arith;
}

abbrev after_bob : Ui
after_bob = record {
  tabs =
      tab "System"
      ∷ record {
        user = codes "bob";
        msgs = record { text = codes "hi"; self = 0 } ∷ [];
        unread = 1;
      }
      ∷ [];
  active = some 0;
}

bob_posted : add_foreign_message bob (codes "hi") debug_ui ≡ some after_bob
unfolding add_foreign_message find_tab_from bytes_eq c_str change_tab add_to_tab
bob_posted = refl

-- A line with one byte, while a message from bob waits.
abbrev pub session : Session
session = record {
  ui = debug_ui;
  input = 104 ∷ [];
  node = record (small_node 1) { ui = record { text = codes "hi"; name = codes "bob" } ∷ [] };
  running = true;
}

session-IsSession : IsSession session
session-IsSession = record {
  ui_within = debug_ui-IsUi;
  input_within = omega arith;
  printable = ((omega arith, omega arith), tt);
}

abbrev pub after_turn : Session
after_turn = record { ui = after_bob; input = 104 ∷ 105 ∷ []; node = small_node 1; running = true }

pub session_turned : turn 105 [] session ≡ some after_turn
unfolding turn drain_from on_key pop_ui pop add_foreign_message find_tab_from bytes_eq c_str
    change_tab add_to_tab
session_turned = refl

-- A key on a screen of 24 lines, while bob's message comes in.
abbrev key_round : Round
key_round = record { rows = 24; cols = 80; key = 105; seq = []; others = λ n. session.node }

abbrev opened : Option Session
opened = start_ui (key_round ∷ []) (small_node 1)

abbrev session_of : Option Session → Session
session_of none = session
session_of (some s) = s

-- A tab with a message of the user and one of another.
abbrev talk : Tab
talk = record {
  user = codes "bob";
  msgs = record { text = two_lines; self = 0 } ∷ record { text = codes "hi"; self = 1 } ∷ [];
  unread = 0;
}

draw_messages_inside_example :
    (out : List Output) × (draw_messages 24 20 talk ≡ some out) × Stacked 20 3 (placed 1 1 out)
draw_messages_inside_example = draw_messages_inside 24 20 talk 1 1 (omega arith) (omega arith)

draw_messages_runs :
    draw_messages 24 20 talk
    ≡ some (
        color (escape (codes "34m"))
        ∷ move 3 1
        ∷ print (codes "hello")
        ∷ move 4 1
        ∷ print (codes "you")
        ∷ color (escape (codes "0m"))
        ∷ color (escape (codes "32m"))
        ∷ move 5 17
        ∷ print (codes "hi")
        ∷ color (escape (codes "0m"))
        ∷ [])
unfolding draw_messages draw_from draw_message draw_rows column message_rows rows_from take_line
    skip_newline prepend first_visible_message visible_from message_lines lines_from
draw_messages_runs = refl

session_drained : drain session ≡ some (record after_turn { input = 104 ∷ [] })
unfolding drain drain_from pop_ui pop add_foreign_message find_tab_from bytes_eq c_str change_tab
    add_to_tab
session_drained = refl
