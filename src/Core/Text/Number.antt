-- ===== src/Core/Text/Number.antt =====
-- Lemmas on `String::fromInt` and `String::toInt` (core/string.cpp).
use epyx.Base.{
  ℕ, zero, suc, ◌+◌, ◌*◌, ◌/◌, ◌%◌, ◌^◌, ◌<◌, ◌≡◌, refl, ap, ◌∙◌, inl, inr, Bool, true, false, [],
  ◌∷◌, some, arith, ltb, Bytes, Bool-cases, All,
}
use epyx.Base.Int.{ℤ, pos, negsuc}
use epyx.Core.Ctype.{is_space, is_digit}
use epyx.Core.Text.{
  ltrim, read_digits, take_sign, to_long, to_int, to_unsigned, to_ulong, decimal_onto,
  from_unsigned_long, from_int, fits_long,
}

digit_reads :
    (d acc : ℕ) (rest : Bytes) (any : Bool)
    → d < 10
    → read_digits ((b'0' + d) ∷ rest) acc any ≡ read_digits rest (acc * 10 + d) true
unfolding read_digits
digit_reads d acc rest any h = ground arith

digit_of : (d : ℕ) → d < 10 → is_digit (b'0' + d) ≡ true
unfolding is_digit
digit_of d h = ground arith

-- Reading the digits of `n` leaves the reader in front of `rest`, with `n` read.
read_digits-decimal_onto :
    (f n : ℕ) (rest : Bytes) (any : Bool)
    → n < f
    → read_digits (decimal_onto f n rest) 0 any ≡ read_digits rest n true
unfolding decimal_onto
read_digits-decimal_onto zero n rest any h = absurd (omega arith)
read_digits-decimal_onto (suc f) n rest any h = elim (Bool-cases (ltb n 10)) [
  | inl small ↦
      let e : n % 10 ≡ n = ground arith in
      rw (small, e)
        (digit_reads n 0 rest any (ground arith)
          ∙ ap (λ (t : ℕ). read_digits rest t true) (omega arith))
  | inr large ↦ rw large (
      read_digits-decimal_onto f (n / 10) _ any (ground arith)
      ∙ digit_reads (n % 10) (n / 10) rest true (omega arith)
      ∙ ap (λ (t : ℕ). read_digits rest t true) (omega arith))
]

-- A text that begins with a digit.
pub record Starts (s : Bytes) : Type 0 where
  pub head : ℕ
  pub tail : Bytes
  pub is_head : s ≡ head ∷ tail
  pub digit : is_digit head ≡ true

decimal_onto-Starts : (f n : ℕ) (rest : Bytes) → n < f → Starts (decimal_onto f n rest)
unfolding decimal_onto
decimal_onto-Starts zero n rest h = absurd (omega arith)
decimal_onto-Starts (suc f) n rest h = elim (Bool-cases (ltb n 10)) [
  | inl small ↦ rw small (record {
    head = b'0' + n % 10;
    tail = rest;
    is_head = refl;
    digit = unfold is_digit in ground arith;
  })
  | inr large ↦ rw large (decimal_onto-Starts f (n / 10) _ (ground arith))
]

pub from_unsigned_long-Starts : (n : ℕ) → Starts (from_unsigned_long n)
unfolding from_unsigned_long
from_unsigned_long-Starts n = decimal_onto-Starts (suc n) n [] (omega arith)

read_digits-from_unsigned_long : (n : ℕ) → read_digits (from_unsigned_long n) 0 false ≡ (n, true)
unfolding from_unsigned_long read_digits
read_digits-from_unsigned_long n = read_digits-decimal_onto (suc n) n [] false (omega arith)

-- No space is trimmed off such a text, and no sign is taken.
Starts-unsigned : (s : Bytes) → Starts s → (ltrim s ≡ s) × (take_sign s ≡ (false, s))
unfolding ltrim take_sign is_digit is_space
Starts-unsigned s h = rw h.is_head (ground arith, ground arith)

-- Every integer in the range of a `long` reads back by `toInt` from its decimal text.
pub to_int-from_int : (z : ℤ) → fits_long z ≡ true → to_int (from_int z) ≡ some z
unfolding to_int from_int to_long
to_int-from_int (pos n) h =
    let (t, g) = Starts-unsigned _ (from_unsigned_long-Starts n) in
    rw (t, g, read_digits-from_unsigned_long n) (ground arith)
to_int-from_int (negsuc n) h = rw (read_digits-from_unsigned_long (suc n)) (ground arith)

-- The same of `toULong` and an `unsigned long`.
pub to_ulong-from_unsigned_long : (n : ℕ) → n < 2 ^ 64 → to_ulong (from_unsigned_long n) ≡ some n
unfolding to_ulong to_unsigned
to_ulong-from_unsigned_long n h =
    let (t, g) = Starts-unsigned _ (from_unsigned_long-Starts n) in
    rw (t, g, read_digits-from_unsigned_long n) (ground arith)

decimal_onto-digits :
    (f n : ℕ) (rest : Bytes)
    → n < f
    → All (λ c. is_digit c ≡ true) rest
    → All (λ c. is_digit c ≡ true) (decimal_onto f n rest)
unfolding decimal_onto
decimal_onto-digits zero n rest h a = absurd (omega arith)
decimal_onto-digits (suc f) n rest h a =
    let d : is_digit (b'0' + n % 10) ≡ true = digit_of (n % 10) (omega arith) in
    elim (Bool-cases (ltb n 10)) [
      | inl small ↦ rw small (d, a)
      | inr large ↦ rw large (decimal_onto-digits f (n / 10) _ (ground arith) (d, a))
    ]

-- The text of a number is made of digits, at least one.
pub from_unsigned_long-digits : (n : ℕ) → All (λ c. is_digit c ≡ true) (from_unsigned_long n)
unfolding from_unsigned_long
from_unsigned_long-digits n = decimal_onto-digits (suc n) n [] (omega arith) tt

pub to_int-from_unsigned_long : (n : ℕ) → n < 2 ^ 63 → to_int (from_unsigned_long n) ≡ some (pos n)
unfolding from_int
to_int-from_unsigned_long n h = to_int-from_int (pos n) (ground arith)
