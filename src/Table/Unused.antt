-- ===== src/Table/Unused.antt =====
-- The two functions of src/routingTable.c that nothing calls: getChatName and
-- checkNameNotInMessage.
use rn_praktikum.Base.{
  ℕ, zero, suc, ◌/◌, ◌%◌, ◌^◌, ◌≡◌, refl, List, [], ◌∷◌, Option, none, some, ◌==◌, ◌&&◌,
  if◌then◌else◌, str_eq, take, drop,
}
use rn_praktikum.Table.{Slot, Table, scanned, record_size}

-- The loop of getChatName. The inner option is `none` for NULL; the outer one for the read through
-- the null pointer of an empty place.
unfoldable pub chat_name_from : ℕ → List Slot → ℕ → ℕ → Option (Option (List ℕ))
chat_name_from zero slots adress port = some none
chat_name_from (suc n) [] adress port = none
chat_name_from (suc n) (s ∷ slots) adress port =
    let rest = chat_name_from n slots adress port in
    elim s.entry [
      | none ↦ none
      | some e ↦ if (e.adress == adress) && (e.port == port) then some (some e.chat_name) else rest
    ]

-- getChatName(adressUndPort)
unfoldable pub get_chat_name : Table → ℕ → Option (Option (List ℕ))
unfolding chat_name_from
get_chat_name t adress_und_port =
    chat_name_from scanned t.slots (adress_und_port / 2 ^ 32) (adress_und_port % 2 ^ 16)

-- The loop of checkNameNotInMessage over the records of a message.
unfoldable pub not_in_message_from : ℕ → List ℕ → List ℕ → ℕ
not_in_message_from zero message chat_name = 1
not_in_message_from (suc n) message chat_name =
    let rest = not_in_message_from n (drop record_size message) chat_name in
    if str_eq (take 32 message) chat_name then 0 else rest

-- checkNameNotInMessage(message, chatName); sizeof(message) is that of a pointer.
unfoldable pub check_name_not_in_message : List ℕ → List ℕ → ℕ
unfolding not_in_message_from
check_name_not_in_message message chat_name =
    not_in_message_from (8 / record_size) message chat_name

-- checkNameNotInMessage returns 1 for every message, whether the name is in it or not.
pub check_name_not_in_message_always :
    (message chat_name : List ℕ) → check_name_not_in_message message chat_name ≡ 1
unfolding check_name_not_in_message not_in_message_from
check_name_not_in_message_always message chat_name = refl
