-- ===== src/Tcp.antt =====
-- send_tcp and read_tcp of src/tcp_con.c. The system calls write and read are parameters: what they
-- return is given for every call.
pub mod Stream
pub mod Sockets
use rn_praktikum.Base.{
  ℕ, zero, suc, ◌+◌, ◌-◌, ◌%◌, ◌^◌, List, [], ◌∷◌, ◌++◌, Option, none, some, ◌==◌, ltb,
  if◌then◌else◌, take, drop, length,
}
use rn_praktikum.Names.{eot}

-- BUF_SIZE
abbrev pub buf_size : ℕ
buf_size = 1500

-- MAX_READ
abbrev pub max_read : ℕ
max_read = 5

-- MIN(a, b)
abbrev pub min_size : ℕ → ℕ → ℕ
min_size a b = if ltb a b then a else b

-- -1 as a size_t.
abbrev pub failed : ℕ
failed = 2 ^ 64 - 1

-- buf of send_tcp: `last` is what malloc left in its last byte.
unfoldable pub send_buffer : ℕ → List ℕ → List ℕ
send_buffer last str = str ++ (if last == eot then last else eot) ∷ []

-- `write i k` is what the call number `i`, with a count of `k`, returns as a size_t.
module _ (write : ℕ → ℕ → ℕ) where
  -- The loop of send_tcp with the calls left, from call `i` on: `total` is total_sent, `wire` the
  -- bytes that were accepted. A size_t is never below 0, so a failed call is not noticed. `none`:
  -- more calls are needed.
  unfoldable pub send_from : ℕ → ℕ → List ℕ → ℕ → List ℕ → Option (List ℕ)
  send_from zero i buf total wire = if ltb total (length buf) then none else some wire
  send_from (suc calls) i buf total wire =
      let n = write i (min_size buf_size (length buf - total)) in
      let accepted = if n == failed then [] else take n (drop total buf) in
      let rest = send_from calls (suc i) buf ((total + n) % 2 ^ 64) (wire ++ accepted) in
      if ltb total (length buf) then rest else some wire

  -- send_tcp(socket_fd, str, size) with at most `calls` calls.
  unfoldable pub send_tcp : ℕ → ℕ → List ℕ → Option (List ℕ)
  unfolding send_buffer send_from
  send_tcp calls last str = send_from calls 0 (send_buffer last str) 0 []

-- `read i` has the bytes of the call number `i`, or is `none` when it fails.
module _ (read : ℕ → Option (List ℕ)) where
  -- The loop of read_tcp with the rounds left, the number of the call and the bytes read.
  unfoldable pub read_from : ℕ → ℕ → List ℕ → Option (List ℕ)
  read_from zero i done = some done
  read_from (suc rounds) i done = elim (read i) [
    | none ↦ none
    | some c ↦
        let rest = read_from rounds (suc i) (done ++ c) in
        if ltb (length c) buf_size then some (done ++ c) else rest
  ]

  -- read_tcp(socket_fd, read_buf): the bytes read, whose number is returned; `none` is -1.
  unfoldable pub read_tcp : Option (List ℕ)
  unfolding read_from
  read_tcp = read_from max_read 0 []
