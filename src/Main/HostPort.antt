-- ===== src/Main/HostPort.antt =====
-- parse_host_port of src/main.c against the text that it reads.
use rn_praktikum.Base.{
  ℕ, zero, suc, ◌+◌, ◌*◌, ◌/◌, ◌%◌, ◌^◌, ◌≤◌, ◌<◌, ◌≡◌, ◌≢◌, refl, ap, ◌∙◌, inl, inr, List, [], ◌∷◌,
  ◌++◌, some, true, false, ltb, arith, length, length-append, take, take_all, c_str,
  c_str-NoNul_self, All, NoNul, Bool-cases, ltb→lt, ==_ne,
}
use rn_praktikum.Ui.Bounds.{All-append}
use rn_praktikum.Table.Print.{digits_from, decimal}
use rn_praktikum.Main.{
  returns, is_digit, is_space, digits_value, signed_value, skip_space, split_colon, check_port,
  parse_host_port,
}

is_digit_lem : (d : ℕ) → d < 10 → is_digit (48 + d) ≡ true
unfolding is_digit
is_digit_lem d h = ground arith

digits_value-digit :
    (v d : ℕ) (s : List ℕ) → d < 10 → digits_value v ((48 + d) ∷ s) ≡ digits_value (v * 10 + d) s
unfolding digits_value
digits_value-digit v d s h = rw (is_digit_lem d h) (ap (λ w. digits_value w s) (omega arith))

digits_value_end : (v : ℕ) → digits_value v [] ≡ v
unfolding digits_value
digits_value_end v = refl

-- What atoi reads of the digits that printf writes.
digits_value-digits_from :
    (fuel n : ℕ) (acc : List ℕ)
    → n < 10 ^ fuel
    → digits_value 0 (digits_from fuel n acc) ≡ digits_value n acc
unfolding digits_from
digits_value-digits_from zero n acc h = ap (λ w. digits_value w acc) (omega arith)
digits_value-digits_from (suc fuel) n acc h = elim (Bool-cases (ltb n 10)) [
  | inl e ↦
      rw (e, digits_from)
        (digits_value-digit 0 n acc (ltb→lt _ _ e) ∙ ap (λ w. digits_value w acc) (omega arith))
  | inr e ↦
      rw (e, digits_from)
        (digits_value-digits_from fuel (n / 10) ((48 + n % 10) ∷ acc) (omega (arith, h))
          ∙ digits_value-digit (n / 10) (n % 10) acc (omega arith)
          ∙ ap (λ w. digits_value w acc) (omega arith))
]

abbrev pub IsDigit : ℕ → Type 0
IsDigit b = (48 ≤ b) × (b ≤ 57)

digits_from-IsDigit :
    (fuel n : ℕ) (acc : List ℕ) → All IsDigit acc → All IsDigit (digits_from fuel n acc)
unfolding digits_from
digits_from-IsDigit zero n acc h = h
digits_from-IsDigit (suc fuel) n acc h = elim (Bool-cases (ltb n 10)) [
  | inl e ↦ rw e ((omega arith, omega (arith, ltb→lt _ _ e)), h)
  | inr e ↦ rw e (digits_from-IsDigit fuel (n / 10) _ ((omega arith, omega arith), h))
]

length-digits_from :
    (fuel n : ℕ) (acc : List ℕ) → length (digits_from fuel n acc) ≤ fuel + length acc
unfolding digits_from
length-digits_from zero n acc = omega arith
length-digits_from (suc fuel) n acc =
    ground (arith, length-digits_from fuel (n / 10) ((48 + n % 10) ∷ acc))

split_colon-append : (a b : List ℕ) → All (λ x. x ≢ 58) a → split_colon (a ++ 58 ∷ b) ≡ some (a, b)
unfolding split_colon
split_colon-append [] b h = refl
split_colon-append (x ∷ a) b h =
    rw (split_colon-append a b h.1, split_colon) (rw (==_ne x 58 h.0) refl)

-- Digits are neither white space nor a sign.
skip_space-digits : (s : List ℕ) → All IsDigit s → skip_space s ≡ s
unfolding skip_space is_space
skip_space-digits [] h = refl
skip_space-digits (b ∷ s) h = ground (arith, h.0)

signed_value-digits : (s : List ℕ) → All IsDigit s → signed_value s ≡ (false, digits_value 0 s)
unfolding signed_value
signed_value-digits [] h = refl
signed_value-digits (b ∷ s) h =
    rw (==_ne b 45 (λ e. omega (arith, h.0)), signed_value)
      (rw (==_ne b 43 (λ e. omega (arith, h.0))) refl)

digits-NoNul : (s : List ℕ) → All IsDigit s → NoNul s
digits-NoNul [] h = tt
digits-NoNul (b ∷ s) h = (λ e. omega (arith, h.0), digits-NoNul s h.1)

atoi-decimal : (n : ℕ) → n < 10 ^ 10 → signed_value (skip_space (decimal n)) ≡ (false, n)
unfolding decimal
atoi-decimal n h =
    let digits = digits_from-IsDigit 10 n [] tt in
    rw (skip_space-digits (digits_from 10 n []) digits) (
      signed_value-digits (digits_from 10 n []) digits
      ∙ ap (λ (v : ℕ). (false, v)) (digits_value-digits_from 10 n [] h ∙ digits_value_end n))

check_port-inside : (port : ℕ) → 0 < port → port ≤ 65535 → check_port (false, port) ≡ returns port
unfolding check_port
check_port-inside port h k = ground arith

text_NoNul : (host : List ℕ) (port : ℕ) → NoNul host → NoNul (host ++ 58 ∷ decimal port)
unfolding decimal
text_NoNul host port nul =
    All-append (λ b. b ≢ 0) host (58 ∷ digits_from 10 port []) nul
      ((λ e. omega arith), digits-NoNul _ (digits_from-IsDigit 10 port [] tt))

length-decimal : (n : ℕ) → length (decimal n) ≤ 10
unfolding decimal
length-decimal n = omega (arith, length-digits_from 10 n [])

-- A host without a colon or a 0, of less than 256 bytes, and a port from 1 to 65535, written with a
-- colon between them and the port in decimal, are read back as they were.
pub parse_host_port_printed :
    (host : List ℕ) (port : ℕ)
    → NoNul host
    → All (λ b. b ≢ 58) host
    → length host < 256
    → 0 < port
    → port ≤ 65535
    → parse_host_port (host ++ 58 ∷ decimal port) 256 ≡ returns (host, port)
unfolding parse_host_port
parse_host_port_printed host port nul colon short h k =
    let text = host ++ 58 ∷ decimal port in
    let whole : take 511 (c_str text) ≡ text =
      rw (c_str-NoNul_self text (text_NoNul host port nul)) (
        take_all text 511
          (omega (arith, length-append host (58 ∷ decimal port), length-decimal port, short))) in
    rw (whole, parse_host_port)
      (rw (split_colon-append host (decimal port) colon, parse_host_port)
        (rw (atoi-decimal port (omega (arith, k)), check_port-inside port h k)
          (rw (take_all host 255 (omega (arith, short))) refl)))
