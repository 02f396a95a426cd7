-- ===== src/Base/Memory.antt =====
-- What the program uses of the C library's memory and string functions, over lists of bytes.
-- A `char` is a byte, a number below 256; an array is the list of its bytes. A string stands in an
-- array up to the first 0; where an array has no 0, the string ends with the array.
use Prim.Native.Nat.{ℕ, zero, suc, ◌+◌, ◌-◌, ◌≤◌}
use Prim.Native.Char.{code}
use Prim.Native.String.{String}
use mathlib.Core.Path.{◌≡◌, refl, ap, ◌∙◌}
use mathlib.Core.Logic.{◌↔◌, ◌≢◌}
use mathlib.Core.Bool.{Bool, true, false, ◌&&◌}
use mathlib.Core.List.{List, [], ◌∷◌, ◌++◌}
use native.Mathlib.Omega.{arith}
use rn_praktikum.Base.Tests.{◌==◌, if◌then◌else◌}
use rn_praktikum.Base.Lists.{length, set, replicate, All}

-- The bytes of an ASCII literal.
abbrev pub codes : String → List ℕ
codes String.[] = []
codes (String.◌∷◌ c s) = code c ∷ codes s

-- memcpy(dest + offset, src, n) for the n bytes of a list; what lies past the array is cut off.
abbrev pub write_at : ℕ → List ℕ → List ℕ → List ℕ
write_at n [] dest = dest
write_at n (b ∷ bs) [] = []
write_at zero (b ∷ bs) (d ∷ ds) = b ∷ write_at zero bs ds
write_at (suc n) (b ∷ bs) (d ∷ ds) = d ∷ write_at n (b ∷ bs) ds

-- memset(dest, 0, n)
abbrev pub zeros : ℕ → List ℕ
zeros n = replicate n 0

-- The string in an array: the bytes before the first 0.
unfoldable pub c_str : List ℕ → List ℕ
c_str [] = []
c_str (b ∷ bs) = if b == 0 then [] else b ∷ c_str bs

unfoldable pub bytes_eq : List ℕ → List ℕ → Bool
bytes_eq [] [] = true
bytes_eq [] (b ∷ bs) = false
bytes_eq (a ∷ as') [] = false
bytes_eq (a ∷ as') (b ∷ bs) = (a == b) && bytes_eq as' bs

-- strcmp(a, b) == 0
abbrev pub str_eq : List ℕ → List ℕ → Bool
str_eq a b = bytes_eq (c_str a) (c_str b)

-- A string's own bytes: none is 0.
abbrev pub NoNul : List ℕ → Type 0
NoNul = All (λ b. b ≢ 0)

pub bytes_eq_refl : (a : List ℕ) → bytes_eq a a ≡ true
unfolding bytes_eq
bytes_eq_refl [] = refl
bytes_eq_refl (x ∷ a) = ground (arith, bytes_eq_refl a)

pub bytes_eq_sound : (a b : List ℕ) → bytes_eq a b ≡ true → a ≡ b
unfolding bytes_eq
bytes_eq_sound [] [] h = refl
bytes_eq_sound [] (b ∷ bs) h = cc
bytes_eq_sound (a ∷ as') [] h = cc
bytes_eq_sound (a ∷ as') (b ∷ bs) h = ground (arith, bytes_eq_sound as' bs)

pub bytes_eq_iff : (a b : List ℕ) → (bytes_eq a b ≡ true) ↔ (a ≡ b)
bytes_eq_iff a b = (bytes_eq_sound a b, λ e. rw e (bytes_eq_refl b))

pub str_eq_sym : (a b : List ℕ) → str_eq a b ≡ str_eq b a
str_eq_sym a b = ground (arith, bytes_eq_iff (c_str a) (c_str b), bytes_eq_iff (c_str b) (c_str a))

pub str_eq_trans : (a b c : List ℕ) → str_eq a b ≡ true → str_eq b c ≡ true → str_eq a c ≡ true
str_eq_trans a b c h k = (bytes_eq_iff _ _).1 ((bytes_eq_iff _ _).0 h ∙ (bytes_eq_iff _ _).0 k)

pub c_str-append : (a b : List ℕ) → NoNul a → c_str (a ++ 0 ∷ b) ≡ a
unfolding c_str
c_str-append [] b h = refl
c_str-append (x ∷ a) b h = ground (arith, c_str-append a b h.1)

pub c_str-NoNul_self : (a : List ℕ) → NoNul a → c_str a ≡ a
unfolding c_str
c_str-NoNul_self [] h = refl
c_str-NoNul_self (x ∷ a) h = ground (arith, c_str-NoNul_self a h.1)

pub c_str-NoNul : (a : List ℕ) → NoNul (c_str a)
unfolding c_str
c_str-NoNul [] = tt
c_str-NoNul (x ∷ a) = ground (arith, c_str-NoNul a)

pub length-c_str-le : (a : List ℕ) → length (c_str a) ≤ length a
unfolding c_str
length-c_str-le [] = omega arith
length-c_str-le (x ∷ a) = ground (arith, length-c_str-le a)

pub zeros-split : (n m k : ℕ) → k ≡ n + m → zeros k ≡ zeros n ++ zeros m
zeros-split zero m k e = ap zeros (omega arith)
zeros-split (suc n) m zero e = absurd (omega arith)
zeros-split (suc n) m (suc k) e = ap (◌∷◌ 0) (zeros-split n m k (omega arith))

pub length-write_at : (n : ℕ) (bs d : List ℕ) → length (write_at n bs d) ≡ length d
length-write_at n [] d = refl
length-write_at n (b ∷ bs) [] = refl
length-write_at zero (b ∷ bs) (x ∷ d) = ap suc (length-write_at zero bs d)
length-write_at (suc n) (b ∷ bs) (x ∷ d) = ap suc (length-write_at n (b ∷ bs) d)

-- A write that fits replaces the bytes in the middle.
pub write_at-append :
    (p bs m s : List ℕ) (n : ℕ)
    → n ≡ length p
    → length bs ≡ length m
    → write_at n bs (p ++ (m ++ s)) ≡ p ++ (bs ++ s)
write_at-append [] [] [] s n e h = refl
write_at-append [] [] (x ∷ m) s n e h = absurd (omega arith)
write_at-append [] (b ∷ bs) [] s n e h = absurd (omega arith)
write_at-append [] (b ∷ bs) (x ∷ m) s zero e h =
    ap (◌∷◌ b) (write_at-append [] bs m s zero refl (omega arith))
write_at-append [] (b ∷ bs) (x ∷ m) s (suc n) e h = absurd (omega arith)
write_at-append (x ∷ p) [] [] s n e h = refl
write_at-append (x ∷ p) [] (y ∷ m) s n e h = absurd (omega arith)
write_at-append (x ∷ p) (b ∷ bs) m s zero e h = absurd (omega arith)
write_at-append (x ∷ p) (b ∷ bs) m s (suc n) e h =
    ap (◌∷◌ x) (write_at-append p (b ∷ bs) m s n (omega arith) h)

pub write_at-zeros :
    (bs : List ℕ) (n : ℕ) → length bs ≤ n → write_at 0 bs (zeros n) ≡ bs ++ zeros (n - length bs)
write_at-zeros [] n h = ap zeros (omega arith)
write_at-zeros (b ∷ bs) zero h = absurd (omega arith)
write_at-zeros (b ∷ bs) (suc n) h =
    ap (◌∷◌ b) (write_at-zeros bs n (omega arith) ∙ ap (λ k. bs ++ zeros k) (omega arith))

-- A 0 written over a 0 changes nothing.
write_zero_zeros : (n m : ℕ) → write_at n (0 ∷ []) (zeros m) ≡ zeros m
write_zero_zeros n zero = refl
write_zero_zeros zero (suc m) = refl
write_zero_zeros (suc n) (suc m) = ap (◌∷◌ 0) (write_zero_zeros n m)

pub write_zero :
    (bs : List ℕ) (n m : ℕ) → length bs ≤ n → write_at n (0 ∷ []) (bs ++ zeros m) ≡ bs ++ zeros m
write_zero [] n m h = write_zero_zeros n m
write_zero (b ∷ bs) zero m h = absurd (omega arith)
write_zero (b ∷ bs) (suc n) m h = ap (◌∷◌ b) (write_zero bs n m (omega arith))

-- A write of as many bytes as the array has replaces them all; one behind the array is lost.
pub write_at-whole : (bs d : List ℕ) → length bs ≡ length d → write_at 0 bs d ≡ bs
write_at-whole [] [] h = refl
write_at-whole [] (x ∷ d) h = absurd (omega arith)
write_at-whole (b ∷ bs) [] h = absurd (omega arith)
write_at-whole (b ∷ bs) (x ∷ d) h = ap (◌∷◌ b) (write_at-whole bs d (omega arith))

pub write_at-past : (n b : ℕ) (d : List ℕ) → length d ≤ n → write_at n (b ∷ []) d ≡ d
write_at-past n b [] h = refl
write_at-past zero b (x ∷ d) h = absurd (omega arith)
write_at-past (suc n) b (x ∷ d) h = ap (◌∷◌ x) (write_at-past n b d (omega arith))

-- Overwriting the byte behind `pre`.
pub set-append :
    (pre rest : List ℕ) (b c : ℕ) → set (pre ++ b ∷ rest) (length pre) c ≡ pre ++ c ∷ rest
set-append [] rest b c = refl
set-append (x ∷ pre) rest b c = ap (◌∷◌ x) (set-append pre rest b c)
