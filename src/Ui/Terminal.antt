-- ===== src/Ui/Terminal.antt =====
-- The terminal of src/ui.c: its mode, its size, its keys, the signals, and what is done at the
-- exit.
use rn_praktikum.Base.{
  ℕ, ◌+◌, ◌≤◌, ◌≡◌, ap, inl, inr, List, [], ◌∷◌, ◌++◌, Option, none, some, Bool, false,
  if◌then◌else◌, ◌>>=◌, arith, length, map, codes, Option-cases,
}
use rn_praktikum.Queue.{MessageSend, max_queue_size}
use rn_praktikum.Node.{Node}
use rn_praktikum.Table.{Entry, scanned}
use rn_praktikum.Table.Lookup.{lookup}
use rn_praktikum.Protocol.Listed.{AllNamed}
use rn_praktikum.Protocol.Leave.{logout_letter, do_logout_tells}
use rn_praktikum.Protocol.{do_logout}
use rn_praktikum.Ui.{Session}
use rn_praktikum.Ui.Draw.{Output, print, escape}
use rn_praktikum.Ui.Loop.{Round, start_ui}

-- struct termios: ICANON, ECHO and ISIG of c_lflag, VMIN and VTIME of c_cc, and all the rest.
pub record Termios : Type 0 where
  pub icanon : Bool
  pub echo : Bool
  pub isig : Bool
  pub vmin : ℕ
  pub vtime : ℕ
  pub rest : ℕ

-- What STDIN_FILENO is, `none` if it is no terminal, and orig_term. Without a terminal, tcgetattr
-- and tcsetattr fail and change nothing.
pub record Terminal : Type 0 where
  pub mode : Option Termios
  pub orig_term : Termios

-- t of enable_raw.
unfoldable pub raw : Termios → Termios
raw t = record t { icanon = false; echo = false; isig = false; vmin = 0; vtime = 0 }

-- enable_raw()
unfoldable pub enable_raw : Terminal → Terminal
unfolding raw
enable_raw term = elim term.mode [
  | none ↦ term
  | some t ↦ record { mode = some (raw t); orig_term = t }
]

-- disable_raw()
unfoldable pub disable_raw : Terminal → Terminal
disable_raw term = elim term.mode [
  | none ↦ term
  | some _ ↦ record term { mode = some term.orig_term }
]

-- get_size(): rows and cols. `w` is what the struct held before the call of ioctl, which may fail.
unfoldable pub get_size : (ioctl : Option (ℕ × ℕ)) → (w : ℕ × ℕ) → ℕ × ℕ
get_size none w = w
get_size (some size) w = size

-- read_key(): `ready` is what select found, `byte` what read returned. The int is written as its
-- low byte: a char is signed here, and -1 is 255.
unfoldable pub read_key : (ready : Bool) → (byte : Option ℕ) → ℕ
read_key ready none = 255
read_key ready (some c) = if ready then c else 255

-- handle_sigint(sig)
unfoldable pub handle_sigint : Session → Session
handle_sigint s = record s { running = false }

-- What there is when cleanup is done.
pub record Exit : Type 0 where
  pub terminal : Terminal
  pub output : List Output
  pub node : Node

-- cleanup()
unfoldable pub cleanup : Terminal → Node → Exit
unfolding disable_raw do_logout
cleanup term n = record {
  terminal = disable_raw term;
  output =
      print (escape (codes "0m"))
      ∷ print (escape (codes "?25h"))
      ∷ print (escape (codes "H") ++ 10 ∷ [])
      ∷ [];
  node = do_logout n;
}

-- What comes from outside in a round: what read_key finds, the two bytes that may follow an ESC,
-- and what the other threads have done to the host.
pub record Input : Type 0 where
  pub ready : Bool
  pub byte : Option ℕ
  pub seq : List ℕ
  pub others : Node → Node

unfoldable pub input_round : ℕ × ℕ → Input → Round
unfolding read_key
input_round size i = record {
  rows = size.0;
  cols = size.1;
  key = read_key i.ready i.byte;
  seq = i.seq;
  others = i.others;
}

-- start_ui with the set-up of the terminal, and the exit behind it. The size is asked for once. The
-- loop has ended in one of the rounds with Ctrl+C, or ends behind them with a signal.
unfoldable pub run_ui :
    Terminal → (ioctl : Option (ℕ × ℕ)) → (w : ℕ × ℕ) → List Input → Node → Option Exit
unfolding enable_raw get_size input_round handle_sigint cleanup
run_ui term ioctl w inputs n = start_ui (map (input_round (get_size ioctl w)) inputs) n >>= λ s.
    some (cleanup (enable_raw term) (handle_sigint s).node)

mode-disable_raw : (term : Terminal) → (disable_raw (enable_raw term)).mode ≡ term.mode
unfolding disable_raw enable_raw
mode-disable_raw term = elim (Option-cases term.mode) [
  | inl p ↦ ground (arith, p)
  | inr (t, p) ↦ ground (arith, p)
]

-- How the user interface is left. When its rounds run into no undefined behaviour and all its
-- screens can be drawn, whatever is typed, the terminal is at the end in the mode it was in before,
-- and behind what waits in the queue stands, among others, a LOGOUT message for each direct
-- neighbour that the search finds, here for the entry `e`, with its name as the target and for the
-- next hop to it; nothing else of the host changes at the exit. All names in the table start with
-- their first byte, and the queue has room for ten messages.
pub run_ui_leaves :
    (term : Terminal) (ioctl : Option (ℕ × ℕ)) (w : ℕ × ℕ) (inputs : List Input) (n : Node)
    (s : Session) (name : List ℕ) (e : Entry)
    → start_ui (map (input_round (get_size ioctl w)) inputs) n ≡ some s
    → AllNamed s.node.table.slots
    → lookup s.node.table name ≡ some e
    → e.hop_count ≡ 1
    → length s.node.send + scanned ≤ max_queue_size
    → (x : Exit) × (pre : List MessageSend) × (post : List MessageSend) × (run_ui term ioctl w
          inputs n
        ≡ some x)
      × (x.terminal.mode ≡ term.mode)
      × (x.node ≡ record (s.node) { send = s.node.send ++ (pre ++ logout_letter s.node e ∷ post) })
unfolding run_ui cleanup handle_sigint
run_ui_leaves term ioctl w inputs n s name e h named near one room =
    let (pre, post, told) = do_logout_tells s.node name e named near one room in
    (
      cleanup (enable_raw term) s.node,
      pre,
      post,
      ap (λ o. o >>= λ (x : Session). some (cleanup (enable_raw term) (handle_sigint x).node)) h,
      mode-disable_raw term,
      told,
    )
