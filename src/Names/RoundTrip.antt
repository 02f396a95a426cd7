-- ===== src/Names/RoundTrip.antt =====
-- Names and headers through their fields and back: getName after setName, and a header read from
-- the bytes of a created one.
use mathlib.Core.List.{append-nil, append_assoc}
use rn_praktikum.Base.{
  ℕ, zero, suc, ◌+◌, ◌-◌, ◌≤◌, ◌<◌, ◌≡◌, refl, ap, sym, ◌∙◌, List, [], ◌∷◌, ◌++◌, arith, length,
  take, drop, zeros, write_at, c_str, NoNul, c_str-append, c_str-NoNul, take-append, drop-append,
  take_all, length-replicate, write_at-append, length-write_at, zeros-split, write_at-zeros,
  write_zero,
}
use rn_praktikum.Names.{
  skip_zeros, get_name, set_name, name_len, Header, create_header, header_bytes, header_of_bytes,
}

-- The field that setName fills: zeros, then the name.
pub set_name_lem :
    (src : List ℕ)
    → length (c_str src) ≤ name_len
    → set_name src ≡ zeros (name_len - length (c_str src)) ++ c_str src
unfolding set_name
set_name_lem src h =
    let len = length (c_str src) in
    rw (drop-none, zeros-split (name_len - len) len name_len (omega arith))
      (write_at-front ∙ ap (◌++◌ (zeros (name_len - len))) (append-nil (c_str src)))
  where
    drop-none : drop (length (c_str src) - name_len) (c_str src) ≡ c_str src
    drop-none = ap (λ k. drop k (c_str src)) {y = 0} (omega arith)

    write_at-front :
        write_at
          (name_len - length (c_str src))
          (c_str src)
          (zeros (name_len - length (c_str src)) ++ zeros (length (c_str src)))
        ≡ zeros (name_len - length (c_str src)) ++ (c_str src ++ [])
    write_at-front = rw (← append-nil (zeros (length (c_str src)))) (
        write_at-append (zeros (name_len - length (c_str src))) (c_str src)
          (zeros (length (c_str src))) [] (name_len - length (c_str src))
          (sym (length-replicate _ 0)) (sym (length-replicate _ 0)))

-- The loop stops at the first byte that is not 0.
skip_zeros-zeros :
    (n k : ℕ) (s : List ℕ) (count : ℕ)
    → NoNul s
    → n + length s ≡ k
    → skip_zeros k (zeros n ++ s) count ≡ (s, count - n)
unfolding skip_zeros
skip_zeros-zeros zero zero [] count ns e = ground arith
skip_zeros-zeros zero zero (x ∷ s) count ns e = absurd (omega arith)
skip_zeros-zeros zero (suc k) [] count ns e = absurd (omega arith)
skip_zeros-zeros zero (suc k) (x ∷ s) count ns e = ground (arith, ns.0)
skip_zeros-zeros (suc n) zero s count ns e = absurd (omega arith)
skip_zeros-zeros (suc n) (suc k) s count ns e =
    skip_zeros-zeros n k s (count - 1) ns (omega arith) ∙ ap (λ m. (s, m)) (omega arith)

-- What getName leaves in an array of zeros is the name, and at least one 0 behind it.
get_name_clear :
    (s : List ℕ) (n : ℕ)
    → NoNul s
    → length s ≤ name_len
    → name_len < n
    → c_str (write_at name_len (0 ∷ []) (write_at 0 s (zeros n))) ≡ s
get_name_clear s n ns h k =
    rw (write_at-zeros s n (omega arith), write_zero s name_len (n - length s) h)
      (rw (ap zeros {x = n - length s} {y = suc (n - length s - 1)} (omega arith))
        (c_str-append s (zeros (n - length s - 1)) ns))

-- getName of a field that holds zeros and then a name.
get_name-zeros :
    (s : List ℕ) (n : ℕ)
    → NoNul s
    → length s ≤ name_len
    → name_len < n
    → c_str (get_name (zeros n) (zeros (name_len - length s) ++ s)) ≡ s
unfolding get_name
get_name-zeros s n ns h k =
    rw
      (
        skip_zeros-zeros (name_len - length s) name_len s name_len ns (omega arith),
        take_all s (name_len - (name_len - length s)) (omega arith),
      )
      (get_name_clear s n ns h k)

-- A name of at most 32 bytes survives the way through a header field: getName, into a zeroed array
-- of more than 32 bytes, reads the string that setName put there.
pub get_name-set_name :
    (src : List ℕ) (n : ℕ)
    → length (c_str src) ≤ name_len
    → name_len < n
    → c_str (get_name (zeros n) (set_name src)) ≡ c_str src
get_name-set_name src n h k =
    rw (set_name_lem src h) (get_name-zeros (c_str src) n (c_str-NoNul src) h k)

pub length-set_name : (src : List ℕ) → length (set_name src) ≡ name_len
unfolding set_name
length-set_name src =
    length-write_at (name_len - length (c_str src))
      (drop (length (c_str src) - name_len) (c_str src)) (zeros name_len)
    ∙ length-replicate {A = ℕ} name_len 0

-- A header is read back from the first bytes of a message that starts with it.
pub header_of_bytes-header_bytes :
    (h : Header) (rest : List ℕ)
    → length h.sendername ≡ name_len
    → length h.targetname ≡ name_len
    → header_of_bytes (header_bytes h ++ rest) ≡ h
unfolding header_of_bytes header_bytes
header_of_bytes-header_bytes h rest hs ht =
    let s = h.sendername in
    let t = h.targetname in
    λ i. record {
      type = h.type;
      version = h.version;
      sendername =
          (ap (take name_len) (append_assoc s t rest) ∙ take-append s (t ++ rest) name_len (sym hs))
            i;
      targetname =
          (ap (λ b. take name_len (drop name_len b)) (append_assoc s t rest)
              ∙ ap (take name_len) (drop-append s (t ++ rest) name_len (sym hs))
              ∙ take-append t rest name_len (sym ht))
            i;
    }

-- What a receiver reads from a message that starts with a created header: the type, and as sender
-- and target the two names, if they have at most 32 bytes each.
pub header_received :
    (sender target : List ℕ) (type : ℕ) (rest : List ℕ)
    → length (c_str sender) ≤ name_len
    → length (c_str target) ≤ name_len
    → let h = header_of_bytes (header_bytes (create_header sender target type) ++ rest) in
      (h.type ≡ type)
      × (c_str (get_name (zeros 33) h.sendername) ≡ c_str sender)
      × (c_str (get_name (zeros 33) h.targetname) ≡ c_str target)
unfolding create_header
header_received sender target type rest hs ht =
    rw
      (header_of_bytes-header_bytes (create_header sender target type) rest (length-set_name sender)
        (length-set_name target))
      (
        refl,
        get_name-set_name sender 33 hs (omega arith),
        get_name-set_name target 33 ht (omega arith),
      )
