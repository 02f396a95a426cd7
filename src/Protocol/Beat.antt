-- ===== src/Protocol/Beat.antt =====
-- A heartbeat and its answer (src/protocol.c, src/heartBeat.c) between two hosts.
use rn_praktikum.Base.{
  ℕ, ◌≤◌, ◌≡◌, refl, ap, sym, ◌∙◌, inl, inr, List, [], ◌∷◌, ◌++◌, Option, none, some, true, false,
  if◌then◌else◌, arith, length, take_all, c_str, str_eq, bytes_eq, bytes_eq_refl, zeros, Bool-cases,
}
use rn_praktikum.Names.{
  Header, create_header, header_bytes, header_of_bytes, header_size, name_len, type_heart,
  type_heartresponse, get_name, set_name,
}
use rn_praktikum.Names.RoundTrip.{header_received}
use rn_praktikum.Queue.{MessageSend, single, push, push_send}
use rn_praktikum.Table.{Table, get_routing}
use rn_praktikum.Table.Lookup.{route_of, get_routing-lookup}
use rn_praktikum.Table.Forget.{lookup-congr}
use rn_praktikum.Node.{Node, User, get_hops_one_away}
use rn_praktikum.Heartbeat.{send_to, answer_from, receive_heartbeat_response}
use rn_praktikum.Protocol.Receive.{handle_msg, dispatch, msg_heart, is_for_other}
use rn_praktikum.Protocol.Chat.{handle_msg-dispatch, is_for_other-own, length-header_bytes}

-- The message of a type without a content.
abbrev pub signal : List ℕ → List ℕ → ℕ → List ℕ
signal from to type = header_bytes (create_header from to type)

-- The first user with a name.
unfoldable pub user_of : List User → List ℕ → Option User
user_of [] name = none
user_of (u ∷ us) name =
    let rest = user_of us name in if str_eq u.chat_name name then some u else rest

set_name-congr : (a b : List ℕ) → c_str a ≡ c_str b → set_name a ≡ set_name b
unfolding set_name
set_name-congr a b e = rw e refl

pub create_header-congr :
    (from a b : List ℕ) (type : ℕ)
    → c_str a ≡ c_str b
    → create_header from a type ≡ create_header from b type
unfolding create_header
create_header-congr from a b type e = rw (set_name-congr a b e) refl

pub get_routing-congr :
    (t : Table) (a b : List ℕ) → c_str a ≡ c_str b → get_routing t a ≡ get_routing t b
get_routing-congr t a b e =
    get_routing-lookup t a
    ∙ ap route_of (lookup-congr t a b (rw e (bytes_eq_refl (c_str b))))
    ∙ sym (get_routing-lookup t b)

answer_from-congr :
    (us : List User) (a b : List ℕ) → c_str a ≡ c_str b → answer_from a us ≡ answer_from b us
unfolding answer_from
answer_from-congr [] a b e = refl
answer_from-congr (u ∷ us) a b e = rw (e, answer_from-congr us a b e) refl

user_of-answer_from :
    (us : List User) (name : List ℕ) (u : User)
    → user_of us name ≡ some u
    → user_of (answer_from name us) name ≡ some (record u { not_responded = 1 })
unfolding user_of answer_from
user_of-answer_from [] name u h = cc
user_of-answer_from (x ∷ us) name u h = elim (Bool-cases (str_eq x.chat_name name)) [
  | inl e ↦
      rw (e, e)
        (ap (λ o. elim o [ none ↦ none | some v ↦ some (record v { not_responded = 1 }) ])
          (rw e at h))
  | inr e ↦ rw (e, e) (user_of-answer_from us name u (rw e at h))
]

-- The message that answers a heartbeat of `from`.
abbrev pub answer : Node → List ℕ → MessageSend
answer n from = record {
  dest_addr = get_routing n.table from;
  msg = signal n.own_name from type_heartresponse;
  msg_len = header_size;
  msg_counter = single;
}

pub length-signal : (from to : List ℕ) (type : ℕ) → length (signal from to type) ≤ header_size
length-signal from to type = omega (arith, length-header_bytes from to type)

msg_heart_lem :
    (sender from : List ℕ) (n : Node)
    → c_str sender ≡ c_str from
    → msg_heart sender n ≡ record n { send = (push n.send (answer n from)).0 }
unfolding msg_heart send_to push_send
msg_heart_lem sender from n e =
    rw
      (
        get_routing-congr n.table sender from e,
        create_header-congr n.own_name sender from type_heartresponse e,
        take_all (signal n.own_name from type_heartresponse) header_size
            (length-signal n.own_name from type_heartresponse),
      )
      refl

dispatch-heart :
    (junk junk' : ℕ → List ℕ) (type : ℕ) (sender content : List ℕ) (count : ℕ) (n : Node)
    → type ≡ type_heart
    → dispatch junk junk' type sender content count n ≡ some (msg_heart sender n)
unfolding dispatch
dispatch-heart junk junk' type sender content count n e = rw e refl

dispatch-heartresponse :
    (junk junk' : ℕ → List ℕ) (type : ℕ) (sender content : List ℕ) (count : ℕ) (n : Node)
    → type ≡ type_heartresponse
    → dispatch junk junk' type sender content count n ≡ some (receive_heartbeat_response sender n)
unfolding dispatch
dispatch-heartresponse junk junk' type sender content count n e = rw e refl

is_for_other-heartresponse :
    (h : Header) (target : List ℕ) (n : Node)
    → h.type ≡ type_heartresponse
    → is_for_other h target n ≡ false
unfolding is_for_other
is_for_other-heartresponse h target n e = rw e refl

-- A heartbeat is answered by the host that has the name in it.
handle_msg_heart :
    (junk junk' : ℕ → List ℕ) (from to rest : List ℕ) (count : ℕ) (n : Node)
    → length (c_str from) ≤ name_len
    → length (c_str to) ≤ name_len
    → str_eq to n.own_name ≡ true
    → header_size ≤ count
    → handle_msg junk junk' count (signal from to type_heart ++ rest) n
      ≡ some (record n { send = (push n.send (answer n from)).0 })
handle_msg_heart junk junk' from to rest count n hf ht own hc =
    let (type, sender, target) = header_received from to type_heart rest hf ht in
    let h = header_of_bytes (signal from to type_heart ++ rest) in
    handle_msg-dispatch junk junk' count (signal from to type_heart ++ rest) n hc
      (is_for_other-own h _ n (ap (λ s. bytes_eq s (c_str n.own_name)) target ∙ own))
    ∙ dispatch-heart junk junk' _ _ _ count n type
    ∙ ap some (msg_heart_lem (get_name (zeros 33) h.sendername) from n sender)

receive_heartbeat_response-congr :
    (a b : List ℕ) (n : Node)
    → c_str a ≡ c_str b
    → receive_heartbeat_response a n ≡ receive_heartbeat_response b n
unfolding receive_heartbeat_response
receive_heartbeat_response-congr a b n e =
    ap (λ us. record n { users = us }) (answer_from-congr (get_hops_one_away n.table n.users) a b e)

-- The answer is taken down under the name of the host that sent it.
handle_msg_heartresponse :
    (junk junk' : ℕ → List ℕ) (from to rest : List ℕ) (count : ℕ) (n : Node)
    → length (c_str from) ≤ name_len
    → length (c_str to) ≤ name_len
    → header_size ≤ count
    → handle_msg junk junk' count (signal from to type_heartresponse ++ rest) n
      ≡ some (receive_heartbeat_response from n)
handle_msg_heartresponse junk junk' from to rest count n hf ht hc =
    let (type, sender, target) = header_received from to type_heartresponse rest hf ht in
    let h = header_of_bytes (signal from to type_heartresponse ++ rest) in
    handle_msg-dispatch junk junk' count (signal from to type_heartresponse ++ rest) n hc
      (is_for_other-heartresponse h _ n type)
    ∙ dispatch-heartresponse junk junk' _ _ _ count n type
    ∙ ap some (receive_heartbeat_response-congr (get_name (zeros 33) h.sendername) from n sender)

-- A heartbeat of the host `n` to the host `n'`, and its answer. protocol_handle_msg of `n'` queues
-- one HEARTRESPONSE message to `n`, for the next hop to it, and changes nothing else; when
-- protocol_handle_msg of `n` gets the queued bytes, it changes nothing but the neighbours that the
-- heartbeat watches, and the first of them with the name of `n'`, if there is one, has answered.
-- Both names have at most 32 bytes, each read returned at least the header, and `rest` and `rest'`
-- are what the buffers hold behind it.
pub heart_answered :
    (junk junk' : ℕ → List ℕ) (to rest rest' : List ℕ) (count count' : ℕ) (n n' : Node)
    → length (c_str n.own_name) ≤ name_len
    → length (c_str n'.own_name) ≤ name_len
    → c_str to ≡ c_str n'.own_name
    → header_size ≤ count
    → header_size ≤ count'
    → (q : MessageSend) × (us : List User) × (handle_msg junk junk' count
          (signal n.own_name to type_heart ++ rest)
          n'
        ≡ some (record n' { send = (push n'.send q).0 }))
      × (q.dest_addr ≡ get_routing n'.table n.own_name)
      × (q.msg_len ≡ header_size)
      × (handle_msg junk junk' count' (q.msg ++ rest') n ≡ some (record n { users = us }))
      × ((u : User)
          → user_of (get_hops_one_away n.table n.users) n'.own_name ≡ some u
          → user_of us n'.own_name ≡ some (record u { not_responded = 1 }))
unfolding receive_heartbeat_response
heart_answered junk junk' to rest rest' count count' n n' hn hn' e hc hc' =
    let users = get_hops_one_away n.table n.users in
    (
      answer n' n.own_name,
      answer_from n'.own_name users,
      handle_msg_heart junk junk' n.own_name to rest count n' hn (rw e hn')
          (rw e (bytes_eq_refl (c_str n'.own_name))) hc,
      refl,
      refl,
      handle_msg_heartresponse junk junk' n'.own_name n.own_name rest' count' n hn' hn hc',
      λ u h. user_of-answer_from users n'.own_name u h,
    )
