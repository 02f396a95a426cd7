-- ===== src/Queue.antt =====
-- src/queue.c and src/queue.h: the bounded queues between the threads, one to the user interface
-- and one to the sender. A linked list is the list of its cells. Each operation holds the queue's
-- mutex from its first line to its return, so it is one step here.
pub mod Fifo
use rn_praktikum.Base.{
  ℕ, suc, ◌+◌, ◌-◌, List, [], ◌∷◌, ◌++◌, Option, none, some, Bool, true, false, leb, if◌then◌else◌,
  c_str, take, length,
}

abbrev pub max_queue_size : ℕ
max_queue_size = 100

-- The type msg_counter_t: the place of a message in a series.
pub data MsgCounter : Type 0 where
  single keep up down : MsgCounter

-- QueueMessage_UI: the strings in its two arrays.
pub record MessageUi : Type 0 where
  pub text : List ℕ
  pub name : List ℕ

-- QueueMessage_SEND: `msg` holds the first msg_len bytes of its array.
pub record MessageSend : Type 0 where
  pub dest_addr : ℕ
  pub msg : List ℕ
  pub msg_len : ℕ
  pub msg_counter : MsgCounter

-- The loop of a push behind the head: `size` counts the cells gone through; `none` is "queue full".
pub append_from {ℓ} : {A : Type ℓ} → ℕ → List A → A → Option (List A)
append_from size [] new = some (new ∷ [])
append_from size (m ∷ ms) new =
    let rest = append_from (suc size) ms new in
    if leb max_queue_size (suc size)
    then none
    else (elim rest [ none ↦ none | some ms' ↦ some (m ∷ ms') ])

-- The common part of push_ui and push_send: the new list, and 0 (true) or -1 (false).
unfoldable pub push {ℓ} : {A : Type ℓ} → List A → A → List A × Bool
unfolding append_from
push [] new = (new ∷ [], true)
push (head ∷ rest) new = elim (append_from 1 rest new) [
  | none ↦ (head ∷ rest, false)
  | some rest' ↦ (head ∷ rest', true)
]

-- The common part of pop_ui and pop_send: the head and the rest; `none` is -1, an empty queue.
unfoldable pub pop {ℓ} : {A : Type ℓ} → List A → Option (A × List A)
pop [] = none
pop (head ∷ rest) = some (head, rest)

-- push_ui(text_buf, name_buf)
unfoldable pub push_ui : List ℕ → List ℕ → List MessageUi → List MessageUi × Bool
unfolding push
push_ui text name q = push q (record { text = c_str text; name = c_str name })

-- pop_ui
unfoldable pub pop_ui : List MessageUi → Option (MessageUi × List MessageUi)
unfolding pop
pop_ui q = pop q

-- push_send(msg_counter, dest_addr, msg, msg_len)
unfoldable pub push_send : MsgCounter → ℕ → List ℕ → ℕ → List MessageSend → List MessageSend × Bool
unfolding push
push_send counter dest msg len q =
    push q (record { dest_addr = dest; msg = take len msg; msg_len = len; msg_counter = counter })

-- pop_send
unfoldable pub pop_send : List MessageSend → Option (MessageSend × List MessageSend)
unfolding pop
pop_send q = pop q
