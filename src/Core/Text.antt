-- ===== src/Core/Text.antt =====
-- core/string.h and core/string.cpp: trimming, letter case, and numbers as text.
pub mod Number
pub mod Trim
mod Tests
use epyx.Base.{
  ℕ, zero, suc, ◌+◌, ◌-◌, ◌*◌, ◌/◌, ◌%◌, ◌^◌, Bool, true, false, List, [], ◌∷◌, ◌++◌, Option, none,
  some, ltb, leb, ◌==◌, if◌then◌else◌, Bytes, codes, map,
}
use epyx.Base.Int.{ℤ, pos, negsuc}
use epyx.Core.Ctype
use epyx.Core.Ctype.{is_space, is_digit}
use mathlib.Core.List.{reverse}

abbrev pub crlf : Bytes
crlf = b'\r' ∷ b'\n' ∷ []

-- `String::ltrim`: `find_first_not_of(spaces)` and `erase`.
unfoldable pub ltrim : Bytes → Bytes
unfolding is_space
ltrim [] = []
ltrim (c ∷ s) = if is_space c then ltrim s else c ∷ s

-- `String::rtrim`: `find_last_not_of(spaces)`, and what stands behind is erased.
unfoldable pub rtrim : Bytes → Bytes
unfolding is_space
rtrim [] = []
rtrim (c ∷ s) = elim (rtrim s) [ [] ↦ if is_space c then [] else c ∷ [] | d ∷ t ↦ c ∷ d ∷ t ]

unfoldable pub trim : Bytes → Bytes
unfolding ltrim rtrim
trim s = ltrim (rtrim s)

-- `String::toUpper` and `String::toLower`.
unfoldable pub to_upper : Bytes → Bytes
unfolding Ctype.to_upper
to_upper s = map Ctype.to_upper s

unfoldable pub to_lower : Bytes → Bytes
unfolding Ctype.to_lower
to_lower s = map Ctype.to_lower s

-- The digits at the head of a text, read by `ss >> l`, and whether there is one.
read_digits : Bytes → ℕ → Bool → ℕ × Bool
unfolding is_digit
read_digits [] acc any = (acc, any)
read_digits (c ∷ s) acc any =
    let rest = read_digits s (acc * 10 + (c - b'0')) true in if is_digit c then rest else (acc, any)

-- The sign, if any, in front of the digits: whether it is a minus, and what follows.
take_sign : Bytes → Bool × Bytes
take_sign [] = (false, [])
take_sign (c ∷ s) =
    if c == b'-' then (true, s) else if c == b'+' then (false, s) else (false, c ∷ s)

-- The range of a `long`.
abbrev pub fits_long : ℤ → Bool
fits_long (pos n) = ltb n (2 ^ 63)
fits_long (negsuc n) = ltb n (2 ^ 63)

-- The value as a `long` of 64 bits; the stream fails without a digit and out of range.
to_long : Bool → ℕ × Bool → Option ℤ
to_long minus (n, false) = none
to_long true (zero, true) = some (pos 0)
to_long true (suc n, true) = if ltb n (2 ^ 63) then some (negsuc n) else none
to_long false (n, true) = if ltb n (2 ^ 63) then some (pos n) else none

-- `String::toInt`; `none` is the ParserException.
unfoldable pub to_int : Bytes → Option ℤ
unfolding ltrim read_digits take_sign to_long
to_int s = let (minus, t) = take_sign (ltrim s) in to_long minus (read_digits t 0 false)

-- The value as an `unsigned long`: a minus sign negates it modulo 2^64.
to_unsigned : Bool → ℕ × Bool → Option ℕ
to_unsigned minus (n, false) = none
to_unsigned minus (n, true) =
    if ltb n (2 ^ 64) then some (if minus then (2 ^ 64 - n) % 2 ^ 64 else n) else none

-- `String::toULong`.
unfoldable pub to_ulong : Bytes → Option ℕ
unfolding ltrim read_digits take_sign to_unsigned
to_ulong s = let (minus, t) = take_sign (ltrim s) in to_unsigned minus (read_digits t 0 false)

-- `out << n`: decimal digits in front of a text. The fuel is the number itself, and one.
decimal_onto : ℕ → ℕ → Bytes → Bytes
decimal_onto zero n rest = rest
decimal_onto (suc f) n rest =
    let digit = b'0' + n % 10 in
    let more = decimal_onto f (n / 10) (digit ∷ rest) in if ltb n 10 then digit ∷ rest else more

-- `String::fromUnsignedLong`.
unfoldable pub from_unsigned_long : ℕ → Bytes
unfolding decimal_onto
from_unsigned_long n = decimal_onto (suc n) n []

-- `String::fromInt`.
unfoldable pub from_int : ℤ → Bytes
unfolding from_unsigned_long
from_int (pos n) = from_unsigned_long n
from_int (negsuc n) = b'-' ∷ from_unsigned_long (suc n)
