-- ===== src/Dht/Id/Metric.antt =====
-- Lemmas on the distance of two identifiers, `operator^`.
use Prim.Native.Nat.{bit_xor}
use native.Mathlib.Nat.{mul-le-mul_right, one-le-pow}
use epyx.Base.{
  ℕ, ◌+◌, ◌^◌, ◌≤◌, ◌≡◌, refl, sym, ap, ◌∙◌, ◌↔◌, [], ◌∷◌, Option, none, arith, length, Bytes,
}
use epyx.Base.Bits.{bit_xor_comm, bit_xor_self, bit_xor_cancel, bit_xor-eq-zero, bit_xor_triangle}
use epyx.Dht.Id.FirstBit.{length-xor_loop}
use epyx.Dht.Id.Value.{value}
use epyx.Dht.Id.{DhtId, IsId, xor_loop, distance, mark}

-- The bytes do not depend on the state that the loop carries.
abbrev pub xor_bytes : Bytes → Bytes → Bytes
xor_bytes (x ∷ a) (y ∷ b) = bit_xor x y ∷ xor_bytes a b
xor_bytes _ _ = []

xor_loop-bytes : (a b : Bytes) (st : ℕ × Option ℕ) → (xor_loop a b st).0 ≡ xor_bytes a b
unfolding xor_loop
xor_loop-bytes [] b st = refl
xor_loop-bytes (x ∷ a) [] st = refl
xor_loop-bytes (x ∷ a) (y ∷ b) st = ap (◌∷◌ (bit_xor x y)) (xor_loop-bytes a b _)

pub distance-bytes : (a b : DhtId) → (distance a b).bytes ≡ xor_bytes a b
unfolding distance
distance-bytes a b = xor_loop-bytes a b (0, none)

xor_loop_comm : (a b : Bytes) (st : ℕ × Option ℕ) → xor_loop a b st ≡ xor_loop b a st
unfolding xor_loop
xor_loop_comm [] [] st = refl
xor_loop_comm [] (y ∷ b) st = refl
xor_loop_comm (x ∷ a) [] st = refl
xor_loop_comm (x ∷ a) (y ∷ b) st =
    rw (bit_xor_comm x y) (rw (xor_loop_comm a b (mark (bit_xor y x) st)))

length-xor_bytes : (a b : Bytes) → length a ≡ length b → length (xor_bytes a b) ≡ length a
length-xor_bytes a b e = ap length (sym (xor_loop-bytes a b (0, none))) ∙ length-xor_loop a b _ e

xor_bytes_cancel :
    (a b c : Bytes)
    → length a ≡ length b
    → length a ≡ length c
    → xor_bytes a b ≡ xor_bytes a c
    → b ≡ c
xor_bytes_cancel [] [] [] p q e = refl
xor_bytes_cancel [] (y ∷ b) c p q e = absurd (omega arith)
xor_bytes_cancel [] b (z ∷ c) p q e = absurd (omega arith)
xor_bytes_cancel (x ∷ a) [] c p q e = absurd (omega arith)
xor_bytes_cancel (x ∷ a) b [] p q e = absurd (omega arith)
xor_bytes_cancel (x ∷ a) (y ∷ b) (z ∷ c) p q e =
    let h : bit_xor x y ≡ bit_xor x z = cc in
    let t : xor_bytes a b ≡ xor_bytes a c = cc in
    cc (bit_xor_cancel x y z h, xor_bytes_cancel a b c (omega arith) (omega arith) t)

value-xor_bytes_self : (a : Bytes) → value (xor_bytes a a) ≡ 0
value-xor_bytes_self [] = refl
value-xor_bytes_self (x ∷ a) = rw (bit_xor_self x) (omega (arith, value-xor_bytes_self a))

value_triangle :
    (a b c : Bytes)
    → length a ≡ length b
    → length a ≡ length c
    → value (xor_bytes a c) ≤ value (xor_bytes a b) + value (xor_bytes b c)
value_triangle [] b c p q = omega arith
value_triangle (x ∷ a) [] c p q = absurd (omega arith)
value_triangle (x ∷ a) (y ∷ b) [] p q = absurd (omega arith)
value_triangle (x ∷ a) (y ∷ b) (z ∷ c) p q =
    let la = length-xor_bytes a b (omega arith) in
    let lb = length-xor_bytes b c (omega arith) in
    let lc = length-xor_bytes a c (omega arith) in
    let lab : length b ≡ length a = omega arith in
    rw (la, lb, lc, lab)
      (omega (
        arith,
        mul-le-mul_right (256 ^ length a) (bit_xor_triangle x y z),
        value_triangle a b c (omega arith) (omega arith),
      ))

eq_of_value-zero : (a b : Bytes) → length a ≡ length b → value (xor_bytes a b) ≡ 0 → a ≡ b
eq_of_value-zero [] [] e z = refl
eq_of_value-zero [] (y ∷ b) e z = absurd (omega arith)
eq_of_value-zero (x ∷ a) [] e z = absurd (omega arith)
eq_of_value-zero (x ∷ a) (y ∷ b) e z =
    let p = one-le-pow (length (xor_bytes a b)) 256 (omega arith) in
    let zero_bit : bit_xor x y ≡ 0 = grind arith in
    cc (bit_xor-eq-zero x y zero_bit, eq_of_value-zero a b (omega arith) (omega arith))

-- The distance of identifiers of 32 bytes is symmetric, is zero as a number exactly of equal ones,
-- obeys the triangle inequality as a number, and from one identifier two others are at the same
-- distance exactly if they are equal.
pub distance_metric :
    (a b c : DhtId)
    → IsId a
    → IsId b
    → IsId c
    → (distance a b ≡ distance b a)
      × ((value (distance a b).bytes ≡ 0) ↔ (a ≡ b))
      × (value (distance a c).bytes ≤ value (distance a b).bytes + value (distance b c).bytes)
      × (((distance a b).bytes ≡ (distance a c).bytes) ↔ (b ≡ c))
distance_metric a b c ha hb hc =
    let ab : length a ≡ length b = omega arith in
    let ac : length a ≡ length c = omega arith in
    let (zero_dist, tri, cancel) = parts ab ac in
    (
      unfold distance in rw (xor_loop_comm a b (0, none)),
      zero_dist,
      tri,
      (cancel, λ e. ap (λ x. (distance a x).bytes) e),
    )
  where
    parts :
        length a ≡ length b
        → length a ≡ length c
        → ((value (distance a b).bytes ≡ 0) ↔ (a ≡ b))
          × (value (distance a c).bytes ≤ value (distance a b).bytes + value (distance b c).bytes)
          × ((distance a b).bytes ≡ (distance a c).bytes → b ≡ c)
    parts p q =
        rw (distance-bytes a b, distance-bytes a c, distance-bytes b c)
          (
            (eq_of_value-zero a b p, λ e. rw (← e) (value-xor_bytes_self a)),
            value_triangle a b c p q,
            xor_bytes_cancel a b c p q,
          )
