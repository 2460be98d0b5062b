-- ===== src/Base/Bits.antt =====
-- `^` on unsigned numbers: the laws of the native `bit_xor` at variables, from its digit recursion.
use Prim.Native.Nat.{bit_xor, digits, bitwise, bit_xor-bitwise, differ}
use native.Mathlib.Nat.{le_refl, pow-suc}
use epyx.Base.{
  ℕ, zero, suc, ◌+◌, ◌*◌, ◌/◌, ◌%◌, ◌≤◌, ◌<◌, ◌^◌, ◌≡◌, refl, sym, ap, ◌∙◌, arith, ℕ_discrete,
}

-- The digits of the exclusive or, on `fuel`.
abbrev xor_digits : ℕ → ℕ → ℕ → ℕ
xor_digits fuel x y = digits (λ rest. rest) differ fuel x y

xor_digits-zero : (fuel y : ℕ) → xor_digits fuel 0 y ≡ y
xor_digits-zero zero y = refl
xor_digits-zero (suc fuel) y = refl

-- Any fuel that reaches the first number will do.
xor_digits_reach :
    (x y : ℕ) (fuel other : ℕ) → x ≤ other → x ≤ fuel → xor_digits other x y ≡ xor_digits fuel x y
xor_digits_reach zero y fuel other h g = xor_digits-zero other y ∙ sym (xor_digits-zero fuel y)
xor_digits_reach (suc x) y zero other h g = absurd (omega (arith, g))
xor_digits_reach (suc x) y (suc fuel) zero h g = absurd (omega (arith, h))
xor_digits_reach (suc x) y (suc fuel) (suc other) h g =
    let half : suc x / 2 ≤ other = omega (arith, h) in
    let half' : suc x / 2 ≤ fuel = omega (arith, g) in
    ap (λ upper. upper * 2 + differ (suc x % 2) (y % 2))
      (xor_digits_reach (suc x / 2) (y / 2) fuel other half half')

bitwise-suc :
    (x y : ℕ)
    → bitwise (λ rest. rest) differ (suc x) y
      ≡ bitwise (λ rest. rest) differ (suc x / 2) (y / 2) * 2 + differ (suc x % 2) (y % 2)
bitwise-suc x y =
    let half : suc x / 2 ≤ x = omega arith in
    ap (λ upper. upper * 2 + differ (suc x % 2) (y % 2))
      (xor_digits_reach (suc x / 2) (y / 2) (suc x / 2) x half (le_refl _))

pub zero-bit_xor : (b : ℕ) → bit_xor 0 b ≡ b
zero-bit_xor b = bit_xor-bitwise 0 b

-- The sum of two digits without its carry.
differ_mod : (a b : ℕ) → a < 2 → b < 2 → differ a b ≡ (a + b) % 2
differ_mod zero zero p q = refl
differ_mod zero (suc zero) p q = refl
differ_mod (suc zero) zero p q = refl
differ_mod (suc zero) (suc zero) p q = refl
differ_mod a b p q = absurd (omega arith)

-- The lowest digit, and the rest.
pub bit_xor_step : (a b : ℕ) → bit_xor a b ≡ bit_xor (a / 2) (b / 2) * 2 + (a + b) % 2
bit_xor_step zero b = omega (arith, zero-bit_xor b, zero-bit_xor (b / 2))
bit_xor_step (suc a) b =
    simp bit_xor-bitwise
      (omega (arith, bitwise-suc a b, differ_mod (suc a % 2) (b % 2) (omega arith) (omega arith)))

-- Each law is proved with a bound on the numbers, by recursion on the bound.
comm_fuel : (k a b : ℕ) → a + b ≤ k → bit_xor a b ≡ bit_xor b a
comm_fuel zero a b p = let e : a ≡ b = omega arith in rw e
comm_fuel (suc k) a b p = elim (ℕ_discrete (a + b) 0) [
  | yes e ↦ let e' : a ≡ b = omega arith in rw e'
  | no e ↦
      omega (arith, bit_xor_step a b, bit_xor_step b a, comm_fuel k (a / 2) (b / 2) (omega arith))
]

pub bit_xor_comm : (a b : ℕ) → bit_xor a b ≡ bit_xor b a
bit_xor_comm a b = comm_fuel (a + b) a b (le_refl _)

self_fuel : (k a : ℕ) → a ≤ k → bit_xor a a ≡ 0
self_fuel k zero p = zero-bit_xor 0
self_fuel zero (suc a) p = absurd (omega arith)
self_fuel (suc k) (suc a) p =
    omega (arith, bit_xor_step (suc a) (suc a), self_fuel k (suc a / 2) (omega arith))

pub bit_xor_self : (a : ℕ) → bit_xor a a ≡ 0
bit_xor_self a = self_fuel a a (le_refl _)

le_add_fuel : (k a b : ℕ) → a + b ≤ k → bit_xor a b ≤ a + b
le_add_fuel k zero b p = omega (arith, zero-bit_xor b)
le_add_fuel zero (suc a) b p = absurd (omega arith)
le_add_fuel (suc k) (suc a) b p =
    omega (arith, bit_xor_step (suc a) b, le_add_fuel k (suc a / 2) (b / 2) (omega arith))

-- Without carries nothing is gained over the sum.
pub bit_xor-le-add : (a b : ℕ) → bit_xor a b ≤ a + b
bit_xor-le-add a b = le_add_fuel (a + b) a b (le_refl _)

pub bit_xor-lt-pow : (k a b : ℕ) → a < 2 ^ k → b < 2 ^ k → bit_xor a b < 2 ^ k
bit_xor-lt-pow zero a b p q = omega (arith, bit_xor-le-add a b)
bit_xor-lt-pow (suc k) a b p q = omega (
  arith,
  pow-suc 2 k,
  bit_xor_step a b,
  bit_xor-lt-pow k (a / 2) (b / 2) (omega (arith, pow-suc 2 k)) (omega (arith, pow-suc 2 k)),
)

assoc_fuel : (k a b c : ℕ) → a + b + c ≤ k → bit_xor (bit_xor a b) c ≡ bit_xor a (bit_xor b c)
assoc_fuel k zero b c p = rw (zero-bit_xor b, zero-bit_xor (bit_xor b c))
assoc_fuel zero (suc a) b c p = absurd (omega arith)
assoc_fuel (suc k) (suc a) b c p =
    let x : ℕ = bit_xor (suc a / 2) (b / 2) in
    let y : ℕ = bit_xor (b / 2) (c / 2) in
    let ex : bit_xor (suc a) b / 2 ≡ x = omega (arith, bit_xor_step (suc a) b) in
    let ey : bit_xor b c / 2 ≡ y = omega (arith, bit_xor_step b c) in
    let left = bit_xor_step (bit_xor (suc a) b) c in
    let right = bit_xor_step (suc a) (bit_xor b c) in
    omega (
      arith,
      rw ex at left,
      rw ey at right,
      bit_xor_step (suc a) b,
      bit_xor_step b c,
      assoc_fuel k (suc a / 2) (b / 2) (c / 2) (omega arith),
    )

pub bit_xor_assoc : (a b c : ℕ) → bit_xor (bit_xor a b) c ≡ bit_xor a (bit_xor b c)
bit_xor_assoc a b c = assoc_fuel (a + b + c) a b c (le_refl _)

pub bit_xor_cancel : (a b c : ℕ) → bit_xor a b ≡ bit_xor a c → b ≡ c
bit_xor_cancel a b c e = cc (
  bit_xor_assoc a a b,
  bit_xor_assoc a a c,
  bit_xor_self a,
  zero-bit_xor b,
  zero-bit_xor c,
  ap (bit_xor a) e,
)

pub bit_xor-eq-zero : (a b : ℕ) → bit_xor a b ≡ 0 → a ≡ b
bit_xor-eq-zero a b e = bit_xor_cancel a a b (bit_xor_self a ∙ sym e)

-- Through a third number, distances add up at most.
pub bit_xor_triangle : (a b c : ℕ) → bit_xor a c ≤ bit_xor a b + bit_xor b c
bit_xor_triangle a b c =
    let e : bit_xor (bit_xor a b) (bit_xor b c) ≡ bit_xor a c =
      bit_xor_assoc a b (bit_xor b c)
      ∙ ap (bit_xor a) (sym (bit_xor_assoc b b c) ∙ rw (bit_xor_self b) (zero-bit_xor c)) in
    omega (arith, e, bit_xor-le-add (bit_xor a b) (bit_xor b c))
