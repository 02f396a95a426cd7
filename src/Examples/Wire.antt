-- ===== src/Examples/Wire.antt =====
-- Examples for names, headers, lengths, records, queues, series and connections.
use rn_praktikum.Base.{
  ℕ, ◌≡◌, refl, List, [], ◌∷◌, ◌++◌, false, arith, drop, codes, zeros, replicate, c_str,
}
use rn_praktikum.Names.{get_name, set_name, header_bytes, header_of_bytes, create_header, type_chat}
use rn_praktikum.Names.RoundTrip.{header_received}
use rn_praktikum.Queue.{push, pop}
use rn_praktikum.Queue.Fifo.{run, run-IsFifo, IsFifo, Log, Op, put, get}
use rn_praktikum.Connections.{Net, get_con}
use rn_praktikum.Connections.Cache.{distinct, get_con-Serves, Serves}
use rn_praktikum.Table.Wire.{entry_bytes, read_entry, offset_next_chat_name}
use rn_praktikum.Table.Codec.{read_entry-entry_bytes}
use rn_praktikum.Examples.{alice, bob, alice_entry, carol_entry, noise}

-- A name stands at the right end of its field.
set_name_runs : set_name bob ≡ zeros 29 ++ codes "bob"
unfolding set_name
set_name_runs = refl

header_received_example :
    let h = header_of_bytes (header_bytes (create_header alice bob type_chat) ++ codes "hi") in
    (h.type ≡ type_chat)
    × (c_str (get_name (zeros 33) h.sendername) ≡ codes "alice")
    × (c_str (get_name (zeros 33) h.targetname) ≡ codes "bob")
unfolding c_str
header_received_example =
    header_received alice bob type_chat (codes "hi") (omega arith) (omega arith)

-- The hundred-and-first message is refused.
push_full : (push {A = ℕ} (replicate 100 7) 8).1 ≡ false
unfolding push
push_full = refl

abbrev empty_log : Log ℕ
empty_log = record { queue = []; taken = []; given = [] }

abbrev script : List (Op ℕ)
script = put 1 ∷ put 2 ∷ get ∷ put 3 ∷ get ∷ []

run-script :
    run empty_log script ≡ record { queue = 3 ∷ []; taken = 1 ∷ 2 ∷ 3 ∷ []; given = 1 ∷ 2 ∷ [] }
unfolding run push pop
run-script = refl

run-IsFifo_example : IsFifo (run empty_log script)
run-IsFifo_example = run-IsFifo empty_log script (record { order = refl; bounded = omega arith })

abbrev one_series : List (List ℕ)
one_series = codes "bob" ∷ []

-- Descriptors are handed out by port.
abbrev dial : ℕ → ℕ → ℕ
dial addr port = port

abbrev one_con : Net
one_con = record {
  cons = record { addr_port = 5; socket_fd = 9; counter = 0 } ∷ [];
  registered = 9 ∷ [];
  closed = [];
  sent = [];
}

get_con-Serves_example : Serves dial 7 (get_con dial 7 one_con)
unfolding distinct
get_con-Serves_example = get_con-Serves dial 7 one_con refl

abbrev carol_bytes : List ℕ
carol_bytes = entry_bytes alice_entry carol_entry ++ []

read_entry-entry_bytes_example :
    read_entry carol_bytes
      (get_name noise carol_bytes)
      (get_name noise (drop offset_next_chat_name carol_bytes))
    ≡ record carol_entry { next_chat_name = alice; next_adress = 0x0a00_0001; hop_count = 4 }
read_entry-entry_bytes_example =
    read_entry-entry_bytes alice_entry carol_entry noise noise [] (omega arith) (omega arith)
      (omega arith) (omega arith) (omega arith) (omega arith)
