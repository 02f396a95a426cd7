-- ===== src/Tcp/Sockets.antt =====
-- CLIENT_connect_to, SERVER_listen_on and close_tcp of src/tcp_con.c: the system calls that they
-- make, and what they make of the answers. The answers are parameters.
use rn_praktikum.Base.{
  ℕ, ◌-◌, ◌/◌, ◌%◌, ◌^◌, ◌≡◌, refl, List, [], ◌∷◌, Bool, true, false, if◌then◌else◌, drop, not,
  ◌&&◌, Bool-cases, inl, inr, ◌⊎◌,
}

-- A sockaddr_in of the family AF_INET: the bytes of sin_port, the first in memory first, and
-- s_addr.
pub record SockAddr : Type 0 where
  pub port_bytes : List ℕ
  pub s_addr : ℕ

-- A system call, with its arguments.
pub data Call : Type 0 where
  socket : Call
  connect : ℕ → SockAddr → Call
  set_reuse_addr : ℕ → Call
  bind : ℕ → SockAddr → Call
  listen : ℕ → ℕ → Call
  close : ℕ → Call

-- -1 as an int.
abbrev pub minus_one : ℕ
minus_one = 2 ^ 32 - 1

-- sin_port = htons(port), sin_addr.s_addr = inet_addr(ip_str)
unfoldable pub socket_addr : ℕ → ℕ → SockAddr
socket_addr addr port = record {
  port_bytes = (port / 2 ^ 8) % 2 ^ 8 ∷ port % 2 ^ 8 ∷ [];
  s_addr = addr;
}

-- Is a descriptor closed?
unfoldable pub closes : List Call → Bool
closes [] = false
closes (close fd ∷ calls) = true
closes (c ∷ calls) = closes calls

-- `answer c` is whether the call `c` succeeds; `sock` is what socket returns, -1 included.
module _ (sock : ℕ) (answer : Call → Bool) where
  -- CLIENT_connect_to(ip_str, port), for inet_addr(ip_str) = addr: its calls and its result.
  unfoldable pub connect_to : ℕ → ℕ → List Call × ℕ
  unfolding socket_addr
  connect_to addr port =
      let call = connect sock (socket_addr addr port) in
      (socket ∷ call ∷ [], if answer call then sock else minus_one)

  -- SERVER_listen_on(ip_str, port)
  unfoldable pub listen_on : ℕ → ℕ → List Call × ℕ
  unfolding socket_addr
  listen_on addr port =
      let reuse = set_reuse_addr sock in
      let bound = bind sock (socket_addr addr port) in
      let waiting = listen sock 100 in
      if answer reuse
      then (if answer bound
          then (socket ∷ reuse ∷ bound ∷ waiting ∷ [], if answer waiting then sock else minus_one)
          else (socket ∷ reuse ∷ bound ∷ [], minus_one))
      else (socket ∷ reuse ∷ [], minus_one)

  -- close_tcp(socket_fd)
  unfoldable pub close_tcp : ℕ → List Call × ℕ
  close_tcp fd = (close fd ∷ [], if answer (close fd) then 0 else minus_one)

  -- All calls succeed; all but the last one do.
  abbrev pub all_succeed : List Call → Bool
  all_succeed [] = true
  all_succeed (c ∷ calls) = answer c && all_succeed calls

  abbrev pub fails_last : List Call → Bool
  fails_last [] = false
  fails_last (c ∷ []) = not (answer c)
  fails_last (c ∷ d ∷ calls) = answer c && fails_last (d ∷ calls)

  -- The calls behind the one of socket and the result say the same: either all of them succeed and
  -- the result is the descriptor, or the last one fails and the result is -1, with the descriptor
  -- left open.
  abbrev pub Tells : List Call × ℕ → Type 0
  Tells (calls, result) =
      ((all_succeed (drop 1 calls) ≡ true) × (result ≡ sock))
      ⊎ ((fails_last (drop 1 calls) ≡ true) × (result ≡ minus_one) × (closes calls ≡ false))

  connect_to-Tells : (addr port : ℕ) → Tells (connect_to addr port)
  unfolding connect_to closes
  connect_to-Tells addr port = elim (Bool-cases (answer (connect sock (socket_addr addr port)))) [
    | inl e ↦ inl (rw e (refl, refl))
    | inr e ↦ inr (rw e (refl, refl, refl))
  ]

  listen_on-Tells : (addr port : ℕ) → Tells (listen_on addr port)
  unfolding listen_on closes
  listen_on-Tells addr port = elim (Bool-cases (answer (set_reuse_addr sock))) [
    | inl e ↦ elim (Bool-cases (answer (bind sock (socket_addr addr port)))) [
      | inl f ↦ elim (Bool-cases (answer (listen sock 100))) [
        | inl g ↦ inl (rw (e, f, g) (rw (e, f) refl, refl))
        | inr g ↦ inr (rw (e, f, g) (rw (e, f) refl, refl, refl))
      ]
      | inr f ↦ inr (rw (e, f) (rw e (rw f refl), refl, refl))
    ]
    | inr e ↦ inr (rw e (rw e refl, refl, refl))
  ]

  -- Whatever the system answers, CLIENT_connect_to and SERVER_listen_on return the descriptor
  -- exactly when no call behind that of socket failed, and -1 right behind the first that failed.
  -- The descriptor is then left open.
  pub sockets_tell : (addr port : ℕ) → Tells (connect_to addr port) × Tells (listen_on addr port)
  sockets_tell addr port = (connect_to-Tells addr port, listen_on-Tells addr port)
