-- ===== src/Names/Length.antt =====
-- msglen of src/protocol_header.c: where the count stops, and when it stops inside the array.
use rn_praktikum.Base.{
  ℕ, zero, suc, ◌+◌, ◌-◌, ◌≤◌, ◌<◌, ◌≡◌, ◌≢◌, refl, ◌⊎◌, inl, inr, ap, ◌∙◌, List, [], ◌∷◌, ◌++◌,
  some, arith, ◌==◌, length, take, get_elem?, All, Bool-cases,
}
use rn_praktikum.Names.{eot, msg_size, msglen_from, msglen}

-- No byte ends the message.
abbrev pub NoEot : List ℕ → Type 0
NoEot = All (λ b. b ≢ eot)

-- What one count says of the array `msg` that it went through, from `len` on.
abbrev Stops : ℕ → List ℕ → ℕ → ℕ → Type 0
Stops n msg len r =
    (k : ℕ) × (r ≡ len + k)
    × (k ≤ n)
    × (k < length msg)
    × NoEot (take k msg)
    × ((k ≡ n) ⊎ (get_elem? msg k ≡ some eot))

msglen_from-Stops :
    (n : ℕ) (msg : List ℕ) (len r : ℕ) → msglen_from n msg len ≡ some r → Stops n msg len r
unfolding msglen_from
msglen_from-Stops zero [] len r h = cc
msglen_from-Stops (suc n) [] len r h = cc
msglen_from-Stops zero (b ∷ bs) len r h = (0, ground arith, omega arith, omega arith, tt, inl refl)
msglen_from-Stops (suc n) (b ∷ bs) len r h = elim (Bool-cases (b == eot)) [
  | inl e ↦ (0, ground arith, omega arith, omega arith, tt, inr (ground arith))
  | inr e ↦
      let (k, p, q, l, a, s) = msglen_from-Stops n bs (len + 1) r (rw e at h) in
      (suc k, omega arith, omega arith, omega arith, (ground arith, a), ground arith)
]

-- The length of a message is where its first EOT stands, or 1499 if none of the bytes before that
-- is one; the count reads no byte behind the array.
pub msglen_first :
    (msg : List ℕ) {n : ℕ}
    → msglen msg ≡ some n
    → (n < msg_size)
      × (n < length msg)
      × NoEot (take n msg)
      × ((n ≡ msg_size - 1) ⊎ (get_elem? msg n ≡ some eot))
unfolding msglen
msglen_first msg {n} h =
    let (k, p, q, l, a, s) = msglen_from-Stops (msg_size - 1) msg 0 n h in
    let e : n ≡ k = omega arith in rw e (omega arith, l, a, s)

msglen_from-total :
    (n : ℕ) (msg : List ℕ) (len : ℕ) → n < length msg → (r : ℕ) × (msglen_from n msg len ≡ some r)
unfolding msglen_from
msglen_from-total n [] len h = absurd (omega arith)
msglen_from-total zero (b ∷ bs) len h = (len, refl)
msglen_from-total (suc n) (b ∷ bs) len h = elim (Bool-cases (b == eot)) [
  | inl e ↦ (len, rw e)
  | inr e ↦ rw e (msglen_from-total n bs (len + 1) (omega arith))
]

msglen_from-append :
    (n : ℕ) (pre rest : List ℕ) (len : ℕ)
    → NoEot pre
    → length pre ≤ n
    → msglen_from n (pre ++ eot ∷ rest) len ≡ some (len + length pre)
unfolding msglen_from
msglen_from-append zero [] rest len ne h = ground arith
msglen_from-append (suc n) [] rest len ne h = ground arith
msglen_from-append zero (b ∷ pre) rest len ne h = absurd (omega arith)
msglen_from-append (suc n) (b ∷ pre) rest len ne h =
    ground (arith, ne.0, msglen_from-append n pre rest (len + 1) ne.1)

-- In an array of at least 1500 bytes the count always ends, also where no byte is an EOT.
pub msglen_total : (msg : List ℕ) → msg_size ≤ length msg → (n : ℕ) × (msglen msg ≡ some n)
unfolding msglen
msglen_total msg h = msglen_from-total (msg_size - 1) msg 0 (omega arith)

-- A message that is closed by an EOT within its first 1500 bytes has the length of what stands
-- before that EOT.
pub msglen-append :
    (pre rest : List ℕ)
    → NoEot pre
    → length pre < msg_size
    → msglen (pre ++ eot ∷ rest) ≡ some (length pre)
unfolding msglen
msglen-append pre rest ne h =
    msglen_from-append (msg_size - 1) pre rest 0 ne (omega arith) ∙ ap some (omega arith)
