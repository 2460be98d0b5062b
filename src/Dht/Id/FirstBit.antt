-- ===== src/Dht/Id/FirstBit.antt =====
-- Lemmas on `Distance::firstActiveBit` and the search of a byte for its first set bit.
use Prim.Native.Nat.{bit_and, bit_xor}
use native.Mathlib.Nat.{pow-suc, add-zero, add-suc}
use epyx.Base.{
  ℕ, zero, suc, ◌+◌, ◌-◌, ◌*◌, ◌^◌, ◌%◌, ◌<◌, ◌≤◌, ◌≡◌, refl, ap, ◌∙◌, ◌⊎◌, inl, inr, Bool, true,
  ◌&&◌, [], ◌∷◌, Option, none, some, arith, length, ltb, leb, ◌==◌, if◌then◌else◌, Bytes, IsBytes,
  Bool-cases, table, table_lem,
}
use epyx.Base.Bits.{bit_xor-lt-pow}
use epyx.Dht.Id.Value.{value, value-lt-pow}
use epyx.Dht.Id.{DhtId, IsId, id_length, xor_loop, finish, shift_loop, distance, mark}

pub xor_loop-IsBytes :
    (a b : Bytes) (st : ℕ × Option ℕ) → IsBytes a → IsBytes b → IsBytes (xor_loop a b st).0
unfolding xor_loop
xor_loop-IsBytes [] b st ha hb = tt
xor_loop-IsBytes (x ∷ a) [] st ha hb = tt
xor_loop-IsBytes (x ∷ a) (y ∷ b) st ha hb =
    (bit_xor-lt-pow 8 x y ha.0 hb.0, xor_loop-IsBytes a b (mark (bit_xor x y) st) ha.1 hb.1)

pub length-xor_loop :
    (a b : Bytes) (st : ℕ × Option ℕ) → length a ≡ length b → length (xor_loop a b st).0 ≡ length a
unfolding xor_loop
length-xor_loop [] b st e = refl
length-xor_loop (x ∷ a) [] st e = absurd (omega arith)
length-xor_loop (x ∷ a) (y ∷ b) st e = ap suc (length-xor_loop a b _ (omega arith))

-- Once the pointer is set, the loop leaves both variables alone.
xor_loop-some : (a b : Bytes) (n c : ℕ) → (xor_loop a b (n, some c)).1 ≡ (n, some c)
unfolding xor_loop
xor_loop-some [] b n c = refl
xor_loop-some (x ∷ a) [] n c = refl
xor_loop-some (x ∷ a) (y ∷ b) n c = xor_loop-some a b n c

-- The first loop ends at the first byte `c` that is not zero, `k` bytes from the left and `m` from
-- the right, or finds that all are zero.
abbrev Scanned : ℕ → ℕ → ℕ → ℕ × Option ℕ → Type 0
Scanned v len n end =
    ((v ≡ 0) × (end ≡ (n + 8 * len, none)))
    ⊎ ((k : ℕ) × (m : ℕ) × (c : ℕ) × (end ≡ (n + 8 * k, some c))
        × (k + suc m ≡ len)
        × (0 < c)
        × (c < 256)
        × (c * 256 ^ m ≤ v)
        × (v < (c + 1) * 256 ^ m))

Scanned-skip :
    (v len n p : ℕ) (end : ℕ × Option ℕ)
    → Scanned v len (n + 8) end
    → Scanned (0 * p + v) (suc len) n end
Scanned-skip v len n p end (inl (z, e)) =
    inl (omega arith, e ∙ ap (λ (t : ℕ). (t, none)) (omega arith))
Scanned-skip v len n p end (inr (k, m, c, e, l, pos, fits, lo, hi)) = inr (
  suc k,
  m,
  c,
  e ∙ ap (λ (t : ℕ). (t, some c)) (omega arith),
  omega arith,
  pos,
  fits,
  omega arith,
  omega arith,
)

xor_loop-Scanned :
    (a b : Bytes) (n : ℕ)
    → IsBytes a
    → IsBytes b
    → length a ≡ length b
    → Scanned (value (xor_loop a b (n, none)).0) (length a) n (xor_loop a b (n, none)).1
unfolding xor_loop
xor_loop-Scanned [] b n ha hb e = inl (refl, ap (λ (t : ℕ). (t, none)) (omega arith))
xor_loop-Scanned (x ∷ a) [] n ha hb e = absurd (omega arith)
xor_loop-Scanned (x ∷ a) (y ∷ b) n ha hb e = elim (Bool-cases (bit_xor x y == 0)) [
  | inl z ↦
      let d : bit_xor x y ≡ 0 = ground arith in
      rw d (Scanned-skip _ _ n _ _ (xor_loop-Scanned a b (n + 8) ha.1 hb.1 (omega arith)))
  | inr nz ↦
      let st : ℕ × Option ℕ = (n, some (bit_xor x y)) in
      let el : length (xor_loop a b st).0 ≡ length a = length-xor_loop a b st (omega arith) in
      let below = rw el at (value-lt-pow (xor_loop a b st).0 (xor_loop-IsBytes a b st ha.1 hb.1)) in
      rw nz (
        rw el (
          inr (
            0,
            length a,
            bit_xor x y,
            xor_loop-some a b n (bit_xor x y)
                ∙ ap (λ (t : ℕ). (t, some (bit_xor x y))) (omega arith),
            omega arith,
            ground arith,
            bit_xor-lt-pow 8 x y ha.0 hb.0,
            omega arith,
            omega arith,
          )))
]

shift_loop-add : (left active n : ℕ) → shift_loop left active n ≡ n + shift_loop left active 0
unfolding shift_loop
shift_loop-add zero active n = omega arith
shift_loop-add (suc left) active n = elim (Bool-cases (bit_and 0x80 active == 0)) [
  | inl z ↦ rw z (
      omega (
        arith,
        shift_loop-add left (active * 2 % 256) (n + 1),
        shift_loop-add left (active * 2 % 256) 1,
      ))
  | inr nz ↦ rw nz (shift_loop-add left active n)
]

abbrev first_bit_fits : ℕ → Bool
first_bit_fits c =
    let s : ℕ = shift_loop 8 c 0 in
    if c == 0 then true else ltb s 8 && leb (2 ^ (7 - s)) c && ltb c (2 ^ (8 - s))

first_bit_table : table first_bit_fits 256 ≡ true
unfolding table shift_loop
first_bit_table = refl

first_bit-bounds :
    (c : ℕ)
    → 0 < c
    → c < 256
    → (shift_loop 8 c 0 < 8) × (2 ^ (7 - shift_loop 8 c 0) ≤ c) × (c < 2 ^ (8 - shift_loop 8 c 0))
first_bit-bounds c p q = ground (arith, table_lem first_bit_fits 256 c q first_bit_table)

pow2-add : (a b : ℕ) → 2 ^ (a + b) ≡ 2 ^ a * 2 ^ b
pow2-add a zero = rw add-zero (omega arith)
pow2-add a (suc b) =
    rw (add-suc, pow-suc 2 (a + b), pow-suc 2 b)
      (omega (arith, ap (λ (t : ℕ). t * 2) (pow2-add a b)))

pow256 : (m : ℕ) → 256 ^ m ≡ 2 ^ (8 * m)
pow256 zero = refl
pow256 (suc m) =
    let e : 8 * suc m ≡ 8 + 8 * m = omega arith in
    rw (e, pow2-add 8 (8 * m), pow-suc 256 m, pow256 m) (omega arith)

-- The exponent of a bit `s` places into the byte that stands `m` bytes from the right.
place_lo : (s m c : ℕ) → 2 ^ s ≤ c → 2 ^ (s + 8 * m) ≤ c * 256 ^ m
place_lo s m c h = rw (pow2-add s (8 * m), pow256 m) (grind arith)

place_hi : (s m c : ℕ) → c < 2 ^ s → (c + 1) * 256 ^ m ≤ 2 ^ (s + 8 * m)
place_hi s m c h = rw (pow2-add s (8 * m), pow256 m) (grind arith)

abbrev pub FirstBitSpec : ℕ → ℕ → Type 0
FirstBitSpec v n = ((v ≡ 0) × (n ≡ 255)) ⊎ ((n < 256) × (2 ^ (255 - n) ≤ v) × (v < 2 ^ (256 - n)))

finish-FirstBitSpec :
    (v : ℕ) (end : ℕ × Option ℕ) → Scanned v 32 0 end → FirstBitSpec v (finish end)
unfolding finish
finish-FirstBitSpec v end (inl (z, e)) = inl (z, rw e refl)
finish-FirstBitSpec v end (inr (k, m, c, e, l, pos, fits, lo, hi)) =
    let s : ℕ = shift_loop 8 c 0 in
    let (s8, slo, shi) = first_bit-bounds c pos fits in
    let n : finish end ≡ 8 * k + s = ap finish e ∙ shift_loop-add 8 c (0 + 8 * k) ∙ omega arith in
    let a : 7 - s + 8 * m ≡ 255 - (8 * k + s) = omega arith in
    let b : 8 - s + 8 * m ≡ 256 - (8 * k + s) = omega arith in
    rw n (
      inr (
        omega arith,
        rw (← a) (omega (arith, place_lo (7 - s) m c slo)),
        rw (← b) (omega (arith, place_hi (8 - s) m c shi)),
      ))

-- Of two identifiers of 32 bytes `firstActiveBit` is the place of the first 1 in their distance,
-- counted from the highest bit, and 255 where the distance is zero.
pub distance-first_active :
    (a b : DhtId)
    → IsId a
    → IsId b
    → FirstBitSpec (value (distance a b).bytes) (distance a b).first_active
unfolding distance
distance-first_active a b ha hb =
    let el : length a ≡ length b = omega arith in
    finish-FirstBitSpec _ _ (rw ha.0 at (xor_loop-Scanned a b 0 ha.1 hb.1 el))

pub distance-IsId : (a b : DhtId) → IsId a → IsId b → IsId (distance a b).bytes
unfolding distance
distance-IsId a b ha hb =
    (length-xor_loop a b (0, none) (omega arith) ∙ ha.0, xor_loop-IsBytes a b (0, none) ha.1 hb.1)

pub first_active-lt : (a b : DhtId) → IsId a → IsId b → (distance a b).first_active < id_length
first_active-lt a b ha hb = omega (arith, distance-first_active a b ha hb)
