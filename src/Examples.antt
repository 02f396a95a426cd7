-- ===== src/Examples.antt =====
-- Concrete hosts and messages of the chat program, in the states that its functions work on.
mod Wire
mod Tables
mod Aging
mod Messages
mod Screen
mod Transport
mod Joining
mod Beats
mod Start
mod Exchange
mod Threads
mod Trials
mod Fresh
mod Welcome
mod Handshake
mod Exit
use rn_praktikum.Base.{
  ℕ, List, [], ◌∷◌, ◌++◌, Option, none, some, Bool, true, false, codes, zeros, replicate, c_str,
}
use rn_praktikum.Queue.{MessageUi, MessageSend}
use rn_praktikum.Table.{Entry, Slot, Table, Mutex}
use rn_praktikum.Table.Update.{State}
use rn_praktikum.Connections.{Connection, Net}
use rn_praktikum.Node.{Node, User}

-- Names as arrays of 32 bytes.
abbrev pub alice : List ℕ
alice = codes "alice" ++ zeros 27

abbrev pub bob : List ℕ
bob = codes "bob" ++ zeros 29

abbrev pub carol : List ℕ
carol = codes "carol" ++ zeros 27

-- The own entry of alice: 10.0.0.1, port 5000.
abbrev pub alice_entry : Entry
alice_entry = record {
  chat_name = alice;
  adress = 0x0a00_0001;
  port = 5000;
  next_chat_name = alice;
  next_adress = 0x0a00_0001;
  next_port = 5000;
  hop_count = 0;
}

-- bob, a direct neighbour: 10.0.0.2.
abbrev pub bob_entry : Entry
bob_entry = record {
  chat_name = bob;
  adress = 0x0a00_0002;
  port = 5000;
  next_chat_name = bob;
  next_adress = 0x0a00_0002;
  next_port = 5000;
  hop_count = 1;
}

-- carol, three hops away over bob.
abbrev pub carol_entry : Entry
carol_entry = record {
  chat_name = carol;
  adress = 0x0a00_0003;
  port = 5000;
  next_chat_name = bob;
  next_adress = 0x0a00_0002;
  next_port = 5000;
  hop_count = 3;
}

abbrev pub taken : Entry → ℕ → Slot
taken e reachable = record { entry = some e; name = e.chat_name; reachable = reachable }

abbrev pub no_slot : Slot
no_slot = record { entry = none; name = zeros 32; reachable = 0 }

-- alice and carol were seen since the last cleanUp, or not; bob was not.
abbrev pub small_slots : ℕ → List Slot
small_slots seen =
    taken alice_entry seen ∷ taken bob_entry 0 ∷ taken carol_entry seen ∷ replicate 97 no_slot

abbrev pub small_table : ℕ → Table
small_table seen = record {
  slots = small_slots seen;
  free_entries = 97;
  mutex = record { held = false; faults = 0 };
}

abbrev pub small_state : State
small_state = record { table = small_table 1; ui = [] }

abbrev pub quiet_net : Net
quiet_net = record { cons = []; registered = []; closed = []; sent = [] }

abbrev pub small_node : ℕ → Node
small_node seen = record {
  own_name = alice;
  table = small_table seen;
  ui = [];
  send = [];
  net = quiet_net;
  series = [];
  users = [];
}

-- What an array on the stack may hold.
abbrev pub noise : List ℕ
noise = replicate 32 0xcc
