-- ===== src/TestName.antt =====
-- src/test.c: an earlier getName on its own, and the program that tries it on a header.
use rn_praktikum.Base.{
  ℕ, zero, suc, ◌+◌, ◌-◌, ◌<◌, ◌≡◌, ◌≢◌, refl, ap, sym, ◌∙◌, List, [], ◌∷◌, ◌++◌, Option, none,
  some, ◌==◌, ltb, if◌then◌else◌, ◌>>=◌, codes, arith, length, length-append, take, drop, zeros,
  get_or, c_str, write_at, ==_ne, le→not-ltb,
}
use rn_praktikum.Names.{name_len, skip_zeros}
use rn_praktikum.Names
use rn_praktikum.Table.Print.{decimal}

-- The loop of getName: `src` and `count` behind it. `none` is a read past the bytes that are known,
-- or a count that has become negative, which memcpy takes for an enormous one.
unfoldable pub skip : List ℕ → ℕ → Option (List ℕ × ℕ)
skip [] count = none
skip (b ∷ src) zero = if b == 0 then none else some (b ∷ src, zero)
skip (b ∷ src) (suc count) =
    let rest = skip src count in if b == 0 then rest else some (b ∷ src, suc count)

-- getName(dest, src), with the bytes from `src` to the end of what is known: the array `dest`.
unfoldable pub get_name : List ℕ → List ℕ → Option (List ℕ)
unfolding skip
get_name dest src = skip src name_len >>= λ p.
    if ltb (length p.0) p.1 then none else some (write_at 0 (take p.1 p.0) dest)

-- read_buf of main: type, version, and two names of 32 bytes.
abbrev pub read_buf : List ℕ
read_buf = 1 ∷ 1 ∷ (codes "xbcaabcaabcaabcaabcaabcabcabcabz" ++ (zeros 29 ++ codes "def"))

-- main, with what its arrays `sender` and `target` hold at first: the lines that it prints.
unfoldable pub main : List ℕ → List ℕ → Option (List ℕ)
unfolding get_name decimal c_str
main sender target = do
  sender' ← get_name sender (drop 2 read_buf)
  target' ← get_name target (drop 34 read_buf)
  some (
      codes "Type: "
      ++ (decimal (get_or read_buf 0 0)
          ++ (10 ∷ codes "Version: "
              ++ (decimal (get_or read_buf 1 0)
                  ++ (10 ∷ codes "Sender Name: "
                      ++ (c_str sender'
                          ++ (10 ∷ codes "Target Name: " ++ (c_str target' ++ 10 ∷ []))))))))

skip-zeros :
    (k m count : ℕ) (b : ℕ) (tail : List ℕ)
    → b ≢ 0
    → count ≡ k + suc m
    → skip (zeros k ++ b ∷ tail) count ≡ some (b ∷ tail, suc m)
unfolding skip
skip-zeros zero m zero b tail nz e = absurd (omega arith)
skip-zeros zero m (suc count) b tail nz e =
    rw (==_ne b 0 nz) (ap (λ c. some (b ∷ tail, c)) (omega arith))
skip-zeros (suc k) m zero b tail nz e = absurd (omega arith)
skip-zeros (suc k) m (suc count) b tail nz e = skip-zeros k m count b tail nz (omega arith)

skip_zeros-zeros :
    (n k count : ℕ) (b : ℕ) (tail : List ℕ)
    → b ≢ 0
    → k < n
    → skip_zeros n (zeros k ++ b ∷ tail) count ≡ (b ∷ tail, count - k)
unfolding skip_zeros
skip_zeros-zeros zero k count b tail nz h = absurd (omega arith)
skip_zeros-zeros (suc n) zero count b tail nz h =
    rw (==_ne b 0 nz) (ap (λ c. (b ∷ tail, c)) (omega arith))
skip_zeros-zeros (suc n) (suc k) count b tail nz h =
    skip_zeros-zeros n k (count - 1) b tail nz (omega arith) ∙ ap (λ c. (b ∷ tail, c)) (omega arith)

-- For a name at the right end of its field, this getName copies what that of the program copies,
-- but writes no 0 behind it.
pub get_name_without_terminator :
    (k : ℕ) (dest name rest : List ℕ) (b : ℕ)
    → b ≢ 0
    → k + suc (length name) ≡ name_len
    → (d : List ℕ) × (get_name dest (zeros k ++ (b ∷ name ++ rest)) ≡ some d)
      × (Names.get_name dest (zeros k ++ (b ∷ name ++ rest)) ≡ write_at name_len (0 ∷ []) d)
unfolding get_name Names.get_name
get_name_without_terminator k dest name rest b nz h =
    let m = length name in
    let left : name_len - k ≡ suc m = omega arith in
    (
      write_at 0 (take (suc m) (b ∷ name ++ rest)) dest,
      rw (skip-zeros k m name_len b (name ++ rest) nz (sym h)) (
          rw
            (le→not-ltb (length (b ∷ name ++ rest)) (suc m)
              (omega (arith, length-append name rest)))
            refl),
      ap (λ (p : List ℕ × ℕ). write_at name_len (0 ∷ []) (write_at 0 (take p.1 p.0) dest))
          (skip_zeros-zeros name_len k name_len b (name ++ rest) nz (omega arith)
            ∙ ap (λ c. (b ∷ name ++ rest, c)) left),
    )

skip_all_zeros : (k count : ℕ) → skip (zeros k) count ≡ none
unfolding skip
skip_all_zeros zero count = refl
skip_all_zeros (suc k) zero = refl
skip_all_zeros (suc k) (suc count) = skip_all_zeros k count

-- For an empty name it reads on behind the field: with zeros to the end of what is known there,
-- what it does is undefined.
pub get_name_empty : (k : ℕ) (dest : List ℕ) → get_name dest (zeros k) ≡ none
unfolding get_name
get_name_empty k dest =
    ap
      (λ o. o >>= λ p. if ltb (length p.0) p.1 then none else some (write_at 0 (take p.1 p.0) dest))
      (skip_all_zeros k name_len)

-- The sender's name is followed by what the array held.
sender_shown :
    (c : ℕ)
    → get_name (zeros 32 ++ c ∷ []) (drop 2 read_buf) ≡ some (take 32 (drop 2 read_buf) ++ c ∷ [])
unfolding get_name skip
sender_shown c = refl
