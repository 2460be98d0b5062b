-- ===== src/Dht/Id/Value.antt =====
-- An identifier as the number that its bytes write, the first one the most significant.
use native.Mathlib.Nat.{pow-suc, one-le-pow}
use epyx.Base.{ℕ, ◌+◌, ◌*◌, ◌^◌, ◌<◌, ◌≡◌, [], ◌∷◌, arith, length, Bytes, IsBytes}

abbrev pub value : Bytes → ℕ
value [] = 0
value (x ∷ xs) = x * 256 ^ length xs + value xs

pub value-lt-pow : (a : Bytes) → IsBytes a → value a < 256 ^ length a
value-lt-pow [] h = omega arith
value-lt-pow (x ∷ xs) h =
    grind (arith, value-lt-pow xs h.1, pow-suc 256 (length xs), one-le-pow (length xs) 256)

-- A first byte that is less settles the order.
pub value-lt_of_head :
    (x y : ℕ) (a b : Bytes)
    → IsBytes a
    → length a ≡ length b
    → x < y
    → value (x ∷ a) < value (y ∷ b)
value-lt_of_head x y a b h e p = grind (arith, value-lt-pow a h)
