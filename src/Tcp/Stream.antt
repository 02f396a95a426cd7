-- ===== src/Tcp/Stream.antt =====
-- What send_tcp puts on a connection and what read_tcp takes from it (src/tcp_con.c).
use Prim.Native.Nat.{min}
use rn_praktikum.Base.{
  ℕ, zero, suc, ◌+◌, ◌-◌, ◌*◌, ◌%◌, ◌^◌, ◌≤◌, ◌<◌, ◌≡◌, ap, sym, ◌∙◌, inl, inr, List, [], ◌∷◌, ◌++◌,
  Option, some, ltb, lt→ltb, le→not-ltb, arith, take, drop, length, length-append, length-take,
  length-drop, take_all, ltb→lt, not-ltb→le, Bool-cases, ==_ne,
}
use rn_praktikum.Names.{eot}
use rn_praktikum.Tcp.{
  buf_size, max_read, min_size, failed, send_buffer, send_from, send_tcp, read_from, read_tcp,
}

pub send_buffer-eot : (last : ℕ) (str : List ℕ) → send_buffer last str ≡ str ++ eot ∷ []
unfolding send_buffer
send_buffer-eot last str = ground arith

take-add : {A : Type 0} (m n : ℕ) (xs : List A) → take (m + n) xs ≡ take m xs ++ take n (drop m xs)
take-add zero n xs = ap (λ k. take k xs) (omega arith)
take-add (suc m) n [] = take_all [] (suc m + n) (omega arith) ∙ sym (take_all [] n (omega arith))
take-add (suc m) n (x ∷ xs) =
    let up : suc m + n ≡ suc (m + n) = omega arith in
    ap (λ k. take k (x ∷ xs)) up ∙ ap (λ ys. x ∷ ys) (take-add m n xs)

min_size-positive : (b : ℕ) → 0 < b → 0 < min_size buf_size b
min_size-positive b h = ground arith

min_size-le : (a b : ℕ) → min_size a b ≤ b
min_size-le a b = ground arith

mod_small : (a : ℕ) → a < 2 ^ 64 → a % 2 ^ 64 ≡ a
mod_small a h = omega arith

-- A connection that takes at least one byte of every write, and no more than it was given.
abbrev pub Accepts : (ℕ → ℕ → ℕ) → Type 0
Accepts write = (i k : ℕ) → 0 < k → (0 < write i k) × (write i k ≤ k)

module _ (write : ℕ → ℕ → ℕ) (ok : Accepts write) where
  send_from-sent :
      (calls i : ℕ) (buf : List ℕ) (total : ℕ)
      → length buf < 2 ^ 63
      → total ≤ length buf
      → length buf ≤ total + calls
      → send_from write calls i buf total (take total buf) ≡ some buf
  unfolding send_from
  send_from-sent zero i buf total small h enough =
      rw (le→not-ltb total (length buf) (omega arith), take_all buf total (omega arith))
  send_from-sent (suc calls) i buf total small h enough =
      elim (Bool-cases (ltb total (length buf))) [
        | inl lt ↦
            let below = ltb→lt total (length buf) lt in
            let k = min_size buf_size (length buf - total) in
            let positive : 0 < k = min_size-positive (length buf - total) (omega arith) in
            let bounded : k ≤ length buf - total = min_size-le buf_size (length buf - total) in
            let (some_byte, no_more) = ok i k positive in
            rw
              (
                lt,
                ==_ne (write i k) failed (omega arith),
                mod_small (total + write i k) (omega arith),
                sym (take-add total (write i k) buf),
              )
              (send_from-sent calls (suc i) buf (total + write i k) small (omega arith)
                (omega arith))
        | inr ge ↦ rw (ge, take_all buf total (not-ltb→le _ _ ge))
      ]

-- send_tcp ends after at most as many writes as there are bytes, and has then sent the given bytes
-- and one EOT, in whatever pieces the connection took them, if it takes at least one byte of each
-- write and no more than it is given. The message is shorter than 2^63 bytes.
pub send_tcp_lem :
    (write : ℕ → ℕ → ℕ) (last : ℕ) (str : List ℕ)
    → Accepts write
    → length str + 1 < 2 ^ 63
    → send_tcp write (length str + 1) last str ≡ some (str ++ eot ∷ [])
unfolding send_tcp
send_tcp_lem write last str ok small = rw (send_buffer-eot last str) (
    send_from-sent write ok (length str + 1) 0 (str ++ eot ∷ []) 0
      (omega (arith, length-append str (eot ∷ []))) (omega arith)
      (omega (arith, length-append str (eot ∷ []))))

send_from_done :
    (write : ℕ → ℕ → ℕ) (calls i : ℕ) (buf : List ℕ) (total : ℕ) (wire : List ℕ)
    → length buf ≤ total
    → send_from write calls i buf total wire ≡ some wire
unfolding send_from
send_from_done write zero i buf total wire h = rw (le→not-ltb total (length buf) h)
send_from_done write (suc calls) i buf total wire h = rw (le→not-ltb total (length buf) h)

-- A write that fails is taken for one that sent 2^64 - 1 bytes: if the first one fails, send_tcp
-- is done with nothing sent, and returns what it returns on success.
pub send_tcp-failed :
    (write : ℕ → ℕ → ℕ) (calls last : ℕ) (str : List ℕ)
    → length str + 1 < 2 ^ 63
    → ((k : ℕ) → write 0 k ≡ failed)
    → send_tcp write (suc calls) last str ≡ some []
unfolding send_tcp send_from
send_tcp-failed write calls last str small fails =
    rw (send_buffer-eot last str, fails (min_size buf_size (length (str ++ eot ∷ []) - 0)))
      (rw (lt→ltb 0 (length (str ++ eot ∷ [])) (omega (arith, size)))
        (send_from_done write calls 1 (str ++ eot ∷ []) failed [] (omega (arith, size))))
  where
    size : length (str ++ eot ∷ []) ≡ length str + 1
    size = length-append str (eot ∷ [])

-- A connection on which `bytes` are waiting.
abbrev pub waiting : List ℕ → ℕ → Option (List ℕ)
waiting bytes i = some (take buf_size (drop (i * buf_size) bytes))

read_from-waiting :
    (rounds i : ℕ) (bytes : List ℕ)
    → read_from (waiting bytes) rounds i (take (i * buf_size) bytes)
      ≡ some (take ((i + rounds) * buf_size) bytes)
unfolding read_from
read_from-waiting zero i bytes = ap (λ k. some (take (k * buf_size) bytes)) (omega arith)
read_from-waiting (suc rounds) i bytes =
    elim (Bool-cases (ltb (length (take buf_size (drop (i * buf_size) bytes))) buf_size)) [
      | inl short ↦ rw short (
          ap some (
            sym (take-add (i * buf_size) buf_size bytes)
            ∙ take_all bytes (i * buf_size + buf_size) (omega (arith, size, ltb→lt _ _ short))
            ∙ sym (
                take_all bytes ((i + suc rounds) * buf_size)
                  (omega (arith, size, ltb→lt _ _ short)))))
      | inr full ↦ rw full (
          ap (read_from (waiting bytes) rounds (suc i))
            (sym (take-add (i * buf_size) buf_size bytes) ∙ ap (λ k. take k bytes) (omega arith))
          ∙ read_from-waiting rounds (suc i) bytes
          ∙ ap (λ k. some (take (k * buf_size) bytes)) (omega arith))
    ]
  where
    size :
        length (take buf_size (drop (i * buf_size) bytes))
        ≡ min buf_size (length bytes - i * buf_size)
    size =
        length-take buf_size (drop (i * buf_size) bytes)
        ∙ ap (min buf_size) (length-drop (i * buf_size) bytes)

-- From a connection on which `bytes` are waiting, read_tcp takes all of them, or the first 7500.
pub read_tcp_lem :
    (bytes : List ℕ) → read_tcp (waiting bytes) ≡ some (take (max_read * buf_size) bytes)
unfolding read_tcp
read_tcp_lem bytes = read_from-waiting max_read 0 bytes
