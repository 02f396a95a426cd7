-- ===== src/Protocol/Joining.antt =====
-- do_login of src/protocol.c: the LOGIN message that it queues, as bytes.
use mathlib.Core.List.{append_assoc}
use rn_praktikum.Base.{
  ℕ, ◌+◌, ◌-◌, ◌*◌, ◌/◌, ◌%◌, ◌^◌, ◌≤◌, ◌<◌, ◌≡◌, ◌≢◌, refl, ap, sym, ◌∙◌, List, [], ◌∷◌, ◌++◌,
  some, ◌>>=◌, arith, length, length-append, ==_ne, take, drop, take_all, take-append, drop-append,
  zeros, zeros-split, get_or, length-replicate, write_at, write_at-append, write_at-zeros,
  write_zero,
}
use rn_praktikum.Names.{
  get_name, name_len, skip_zeros, create_header, header_bytes, header_size, type_login, eot,
  msg_size,
}
use rn_praktikum.Names.Length.{NoEot, msglen-append}
use rn_praktikum.Queue.{single, push, push_send}
use rn_praktikum.Node.{Node}
use rn_praktikum.Protocol.{do_login, login_message, send_with}
use rn_praktikum.Protocol.Chat.{length-header_bytes}

-- A write behind what an array of zeros holds so far.
write_at-next :
    (p bs : List ℕ) (n k : ℕ)
    → n ≡ length p
    → length bs ≤ k
    → write_at n bs (p ++ zeros k) ≡ (p ++ bs) ++ zeros (k - length bs)
write_at-next p bs n k e h =
    ap (λ z. write_at n bs (p ++ z)) (zeros-split (length bs) (k - length bs) k (omega arith))
    ∙ write_at-append p bs (zeros (length bs)) (zeros (k - length bs)) n e
        (sym (length-replicate {A = ℕ} (length bs) 0))
    ∙ sym (append_assoc p bs (zeros (k - length bs)))

-- A name of at most 32 bytes that getName copies to the front of an array of zeros.
get_name-short :
    (name : List ℕ) (m : ℕ)
    → get_or name 0 0 ≢ 0
    → length name ≤ 32
    → get_name (zeros (32 + m)) name ≡ name ++ zeros (32 + m - length name)
unfolding get_name skip_zeros
get_name-short [] m nz h = absurd (nz refl)
get_name-short (b ∷ xs) m nz h = rw (==_ne b 0 nz) (
    ap (λ t. write_at name_len (0 ∷ []) (write_at 0 t (zeros (32 + m)))) (take_all (b ∷ xs) 32 h)
    ∙ ap (write_at name_len (0 ∷ [])) (write_at-zeros (b ∷ xs) (32 + m) (omega arith))
    ∙ write_zero (b ∷ xs) name_len (32 + m - length (b ∷ xs)) h)

-- The name in a field of 32 bytes, left-aligned.
abbrev pub name_field : List ℕ → List ℕ
name_field name = name ++ zeros (32 - length name)

abbrev pub port_bytes : ℕ → List ℕ
port_bytes port = port / 2 ^ 8 % 2 ^ 8 ∷ port % 2 ^ 8 ∷ []

-- The header and the name field.
abbrev pub login_front : List ℕ → List ℕ → List ℕ
login_front own name = header_bytes (create_header own [] type_login) ++ name_field name

-- The bytes of the message before its EOT.
abbrev pub login_bytes : List ℕ → List ℕ → List ℕ → ℕ → List ℕ
login_bytes own name addr port = (login_front own name ++ addr) ++ port_bytes port

length-login_front : (own name : List ℕ) → length name ≤ 32 → length (login_front own name) ≡ 98
length-login_front own name hn = omega (
  arith,
  length-append (header_bytes (create_header own [] type_login)) (name_field name),
  length-append name (zeros (32 - length name)),
  length-replicate {A = ℕ} (32 - length name) 0,
  length-header_bytes own [] type_login,
)

pub length-login_bytes :
    (own name addr : List ℕ) (port : ℕ)
    → length name ≤ 32
    → length addr ≡ 4
    → length (login_bytes own name addr port) ≡ 104
length-login_bytes own name addr port hn ha = omega (
  arith,
  length-append (login_front own name ++ addr) (port_bytes port),
  length-append (login_front own name) addr,
  length-login_front own name hn,
)

login_message-layout :
    (own name addr : List ℕ) (port : ℕ)
    → get_or name 0 0 ≢ 0
    → length name ≤ 32
    → length addr ≡ 4
    → login_message own name addr port ≡ login_bytes own name addr port ++ eot ∷ zeros 1395
unfolding login_message
login_message-layout own name addr port nz hn ha =
    let header = header_bytes (create_header own [] type_login) in
    let hh : length header ≡ header_size = length-header_bytes own [] type_login in
    let field : get_name (zeros 1434) name ≡ name_field name ++ zeros 1402 =
      get_name-short name 1402 nz hn
      ∙ ap (λ z. name ++ z)
          (zeros-split (32 - length name) 1402 (32 + 1402 - length name) (omega arith))
      ∙ sym (append_assoc name (zeros (32 - length name)) (zeros 1402)) in
    let size : length (header ++ name_field name) ≡ 98 = length-login_front own name hn in
    let size' : length ((header ++ name_field name) ++ addr) ≡ 102 =
      omega (arith, length-append (header ++ name_field name) addr) in
    let left : msg_size - length header ≡ 1434 = omega arith in
    let m0 : write_at 0 header (zeros msg_size) ≡ header ++ zeros 1434 =
      write_at-zeros header msg_size (omega arith) ∙ ap (λ k. header ++ zeros k) left in
    let m1 : take header_size (header ++ zeros 1434)
          ++ get_name (drop header_size (header ++ zeros 1434)) name
        ≡ (header ++ name_field name) ++ zeros 1402 =
      rw
        (
          take-append header (zeros 1434) header_size (sym hh),
          drop-append header (zeros 1434) header_size (sym hh),
        )
        (ap (λ x. header ++ x) field ∙ sym (append_assoc header (name_field name) (zeros 1402))) in
    ap (λ m. finish (take header_size m ++ get_name (drop header_size m) name)) m0
    ∙ ap finish m1
    ∙ ap (λ m. write_at 104 (eot ∷ []) (write_at 102 (port_bytes port) m))
        (write_at-next (header ++ name_field name) addr 98 1402 (sym size) (omega arith)
          ∙ ap (λ k. ((header ++ name_field name) ++ addr) ++ zeros (1402 - k)) ha)
    ∙ ap (write_at 104 (eot ∷ [])) (
        write_at-next ((header ++ name_field name) ++ addr) (port_bytes port) 102 1398 (sym size')
          (omega arith))
    ∙ write_at-next (login_bytes own name addr port) (eot ∷ []) 104 1396
        (sym (length-login_bytes own name addr port hn ha)) (omega arith)
    ∙ append_assoc (login_bytes own name addr port) (eot ∷ []) (zeros 1395)
  where
    finish : List ℕ → List ℕ
    finish m = write_at 104 (eot ∷ []) (write_at 102 (port_bytes port) (write_at 98 addr m))

-- The message in the queue.
abbrev queued : ℕ → ℕ → List ℕ → Node → Node
queued dest len m n = record n {
  send =
      (push n.send (record { dest_addr = dest; msg = m; msg_len = len; msg_counter = single })).0;
}

-- do_login queues the bytes before the first EOT of its message.
do_login-first :
    (name addr pre rest : List ℕ) (port target_addr target_port : ℕ) (n : Node)
    → login_message n.own_name name addr port ≡ pre ++ eot ∷ rest
    → NoEot pre
    → length pre < msg_size
    → do_login name addr port target_addr target_port n
      ≡ some (queued (target_addr * 2 ^ 32 + target_port) (length pre) pre n)
unfolding do_login send_with push_send
do_login-first name addr pre rest port target_addr target_port n e ne h =
    let dest = target_addr * 2 ^ 32 + target_port in
    rw (e, do_login)
      (ap (λ o. o >>= λ len. some (send_with single dest (pre ++ eot ∷ rest) len n))
          (msglen-append pre rest ne h)
        ∙ ap (λ m. some (queued dest (length pre) m n))
            (take-append pre (eot ∷ rest) (length pre) refl))

-- do_login queues one single message of 104 bytes for the target: a header with the own name and no
-- target, the chat name in a field of 32 bytes, the local address and the local port. The name is
-- not empty and has at most 32 bytes, the address four, and none of the 104 bytes is an EOT: msglen
-- would stop at it.
pub do_login_lem :
    (name addr : List ℕ) (port target_addr target_port : ℕ) (n : Node)
    → get_or name 0 0 ≢ 0
    → length name ≤ 32
    → length addr ≡ 4
    → NoEot (login_bytes n.own_name name addr port)
    → do_login name addr port target_addr target_port n
      ≡ some (record n {
        send =
            (push n.send (record {
              dest_addr = target_addr * 2 ^ 32 + target_port;
              msg = login_bytes n.own_name name addr port;
              msg_len = 104;
              msg_counter = single;
            })).0;
      })
do_login_lem name addr port target_addr target_port n nz hn ha ne =
    let m = login_bytes n.own_name name addr port in
    let size : length m ≡ 104 = length-login_bytes n.own_name name addr port hn ha in
    do_login-first name addr m (zeros 1395) port target_addr target_port n
      (login_message-layout n.own_name name addr port nz hn ha) ne (omega arith)
    ∙ ap (λ len. some (queued (target_addr * 2 ^ 32 + target_port) len m n)) size

-- An address with a byte 4 is cut off: of the LOGIN message, only the header, the name and the
-- bytes of the address before that byte are queued. The name is not empty and has at most 32 bytes,
-- and no byte before is an EOT.
pub do_login_cut :
    (name pre post : List ℕ) (port target_addr target_port : ℕ) (n : Node)
    → get_or name 0 0 ≢ 0
    → length name ≤ 32
    → length (pre ++ 4 ∷ post) ≡ 4
    → NoEot (login_front n.own_name name ++ pre)
    → do_login name (pre ++ 4 ∷ post) port target_addr target_port n
      ≡ some (record n {
        send =
            (push n.send (record {
              dest_addr = target_addr * 2 ^ 32 + target_port;
              msg = login_front n.own_name name ++ pre;
              msg_len = 98 + length pre;
              msg_counter = single;
            })).0;
      })
do_login_cut name pre post port target_addr target_port n nz hn ha ne =
    let front = login_front n.own_name name in
    let m = front ++ pre in
    let size : length m ≡ 98 + length pre =
      omega (arith, length-append front pre, length-login_front n.own_name name hn) in
    do_login-first name (pre ++ 4 ∷ post) m (post ++ (port_bytes port ++ eot ∷ zeros 1395)) port
      target_addr target_port n
      (login_message-layout n.own_name name (pre ++ 4 ∷ post) port nz hn ha ∙ simp append_assoc) ne
      (omega (arith, size, ha, length-append pre (4 ∷ post)))
    ∙ ap (λ len. some (queued (target_addr * 2 ^ 32 + target_port) len m n)) size
