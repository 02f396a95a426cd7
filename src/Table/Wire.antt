-- ===== src/Table/Wire.antt =====
-- The 80 bytes that describe one entry in a ROUTE or LOGIN message: how tableToCharArray writes
-- them and how tableUpdate reads them (src/routingTable.c), at the offsets of routingTable.h.
use rn_praktikum.Base.{ℕ, ◌+◌, ◌*◌, ◌/◌, ◌%◌, ◌^◌, List, [], ◌∷◌, ◌++◌, get_or, take}
use rn_praktikum.Table.{Entry}

abbrev pub offset_adress : ℕ
offset_adress = 32

abbrev pub offset_port : ℕ
offset_port = 36

abbrev pub offset_next_chat_name : ℕ
offset_next_chat_name = 38

abbrev pub offset_next_adress : ℕ
offset_next_adress = 70

abbrev pub offset_next_port : ℕ
offset_next_port = 74

abbrev pub offset_hop_count : ℕ
offset_hop_count = 76

-- Four bytes, the highest first, as a uint32_t; two, as a uint16_t. The shifted bytes do not
-- overlap, so the sum is the disjunction.
unfoldable pub read32 : List ℕ → ℕ → ℕ
read32 b i =
    get_or b i 0 * 2 ^ 24
    + get_or b (i + 1) 0 * 2 ^ 16
    + get_or b (i + 2) 0 * 2 ^ 8
    + get_or b (i + 3) 0

unfoldable pub read16 : List ℕ → ℕ → ℕ
read16 b i = get_or b i 0 * 2 ^ 8 + get_or b (i + 1) 0

-- (uint8_t)(x >> 24), (uint8_t)(x >> 16), (uint8_t)(x >> 8), (uint8_t)x
unfoldable pub bytes32 : ℕ → List ℕ
bytes32 x = x / 2 ^ 24 % 2 ^ 8 ∷ x / 2 ^ 16 % 2 ^ 8 ∷ x / 2 ^ 8 % 2 ^ 8 ∷ x % 2 ^ 8 ∷ []

unfoldable pub bytes16 : ℕ → List ℕ
bytes16 x = x / 2 ^ 8 % 2 ^ 8 ∷ x % 2 ^ 8 ∷ []

-- The announced hop count and one more, as a uint32_t.
unfoldable pub next_hop_count : List ℕ → ℕ
unfolding read32
next_hop_count working = (read32 working offset_hop_count + 1) % 2 ^ 32

-- newEntry of tableUpdate, with its two names already read.
unfoldable pub read_entry : List ℕ → List ℕ → List ℕ → Entry
unfolding read32 read16 next_hop_count
read_entry working name next_name = record {
  chat_name = name;
  adress = read32 working offset_adress;
  port = read16 working offset_port;
  next_chat_name = next_name;
  next_adress = read32 working offset_next_adress;
  next_port = read16 working offset_next_port;
  hop_count = next_hop_count working;
}

-- The bytes that tableToCharArray writes for entry `e` of a table whose first entry is `own`.
unfoldable pub entry_bytes : Entry → Entry → List ℕ
unfolding bytes32 bytes16
entry_bytes own e =
    take 32 e.chat_name
    ++ (bytes32 e.adress
        ++ (bytes16 e.port
            ++ (take 32 own.next_chat_name
                ++ (bytes32 own.next_adress ++ (bytes16 own.next_port ++ bytes32 e.hop_count)))))
