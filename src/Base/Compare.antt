-- ===== src/Base/Compare.antt =====
-- Three-way comparison, as `std::string::compare` and the `compare` methods give it: only the sign
-- of the number counts.
use Prim.Native.Nat.{ℕ}
use mathlib.Core.Path.{◌≡◌, refl, sym, ap, ◌∙◌}
use mathlib.Core.Logic.{◌↔◌, ◌⊎◌, inl, inr}
use mathlib.Core.List.{[], ◌∷◌}
use native.Mathlib.Omega.{arith}
use epyx.Base.Strings.{Bytes}
use epyx.Base.Tests.{ltb, if◌then◌else◌}

pub data Sign : Type 0 where
  less same greater : Sign

abbrev pub opposite : Sign → Sign
opposite less = greater
opposite same = same
opposite greater = less

-- `if (c != 0) return c;` and then the second comparison.
abbrev pub and_then : Sign → Sign → Sign
and_then less d = less
and_then same d = d
and_then greater d = greater

unfoldable pub compare_nat : ℕ → ℕ → Sign
compare_nat m n = if ltb m n then less else if ltb n m then greater else same

unfoldable pub compare_bytes : Bytes → Bytes → Sign
unfolding compare_nat
compare_bytes [] [] = same
compare_bytes [] (y ∷ b) = less
compare_bytes (x ∷ a) [] = greater
compare_bytes (x ∷ a) (y ∷ b) = and_then (compare_nat x y) (compare_bytes a b)

-- A total order: `same` is equality, the order of the arguments gives the sign, and `less` composes.
pub record IsTotal {ℓ} (A : Type ℓ) (compare : A → A → Sign) : Type ℓ where
  pub same_iff : (a b : A) → (compare a b ≡ same) ↔ (a ≡ b)
  pub turn : (a b : A) → compare b a ≡ opposite (compare a b)
  pub compose : (a b c : A) → compare a b ≡ less → compare b c ≡ less → compare a c ≡ less

pub nat_same_iff : (m n : ℕ) → (compare_nat m n ≡ same) ↔ (m ≡ n)
unfolding compare_nat
nat_same_iff m n = ground arith

pub compare_nat-IsTotal : IsTotal ℕ compare_nat
unfolding compare_nat
compare_nat-IsTotal = record {
  same_iff = nat_same_iff;
  turn = λ m n. ground arith;
  compose = λ m n k h g. ground arith;
}

bytes_turn : (a b : Bytes) → compare_bytes b a ≡ opposite (compare_bytes a b)
unfolding compare_bytes compare_nat
bytes_turn [] [] = refl
bytes_turn [] (y ∷ b) = refl
bytes_turn (x ∷ a) [] = refl
bytes_turn (x ∷ a) (y ∷ b) = ground (arith, bytes_turn a b)

bytes_same : (a b : Bytes) → compare_bytes a b ≡ same → a ≡ b
unfolding compare_bytes compare_nat
bytes_same [] [] h = refl
bytes_same [] (y ∷ b) h = ground arith
bytes_same (x ∷ a) [] h = ground arith
bytes_same (x ∷ a) (y ∷ b) h = ground (arith, bytes_same a b)

bytes_refl : (a : Bytes) → compare_bytes a a ≡ same
unfolding compare_bytes compare_nat
bytes_refl [] = refl
bytes_refl (x ∷ a) = ground (arith, bytes_refl a)

bytes_compose :
    (a b c : Bytes) → compare_bytes a b ≡ less → compare_bytes b c ≡ less → compare_bytes a c ≡ less
unfolding compare_bytes compare_nat
bytes_compose [] [] c h g = ground arith
bytes_compose [] (y ∷ b) [] h g = ground arith
bytes_compose [] (y ∷ b) (z ∷ c) h g = refl
bytes_compose (x ∷ a) [] c h g = ground arith
bytes_compose (x ∷ a) (y ∷ b) [] h g = ground arith
bytes_compose (x ∷ a) (y ∷ b) (z ∷ c) h g = ground (arith, bytes_compose a b c)

pub compare_bytes-IsTotal : IsTotal Bytes compare_bytes
compare_bytes-IsTotal = record {
  same_iff = λ a b. (bytes_same a b, λ e. ap (compare_bytes a) (sym e) ∙ bytes_refl a);
  turn = bytes_turn;
  compose = bytes_compose;
}

and_then_same : (s t : Sign) → and_then s t ≡ same → (s ≡ same) × (t ≡ same)
and_then_same less t h = (h, ground arith)
and_then_same same t h = (refl, h)
and_then_same greater t h = (h, ground arith)

and_then_less : (s t : Sign) → and_then s t ≡ less → (s ≡ less) ⊎ ((s ≡ same) × (t ≡ less))
and_then_less less t h = inl refl
and_then_less same t h = inr (refl, h)
and_then_less greater t h = inl h

and_then_turn : (s t : Sign) → and_then (opposite s) (opposite t) ≡ opposite (and_then s t)
and_then_turn less t = refl
and_then_turn same t = refl
and_then_turn greater t = refl

-- The order that compares a first part, then a second one, is total where the parts make the value.
module _ {ℓ κ μ} {A : Type ℓ} {B : Type κ} {C : Type μ} (p : C → A) (q : C → B) (cp : A → A → Sign)
    (cq : B → B → Sign) (tp : IsTotal A cp) (tq : IsTotal B cq)
    (whole : (x y : C) → p x ≡ p y → q x ≡ q y → x ≡ y) where
  abbrev lex : C → C → Sign
  lex x y = and_then (cp (p x) (p y)) (cq (q x) (q y))

  lex_same : (x y : C) → lex x y ≡ same → x ≡ y
  lex_same x y h =
      let (s, t) = and_then_same _ _ h in
      whole x y ((tp.same_iff (p x) (p y)).0 s) ((tq.same_iff (q x) (q y)).0 t)

  lex_refl : (x : C) → lex x x ≡ same
  lex_refl x = rw ((tp.same_iff (p x) (p x)).1 refl, (tq.same_iff (q x) (q x)).1 refl)

  lex_compose : (x y z : C) → lex x y ≡ less → lex y z ≡ less → lex x z ≡ less
  lex_compose x y z h g = elim (and_then_less (cp (p x) (p y)) (cq (q x) (q y)) h) [
    | inl s ↦ elim (and_then_less (cp (p y) (p z)) (cq (q y) (q z)) g) [
      | inl u ↦ rw (tp.compose (p x) (p y) (p z) s u)
      | inr (u, v) ↦ rw (← (tp.same_iff (p y) (p z)).0 u, s)
    ]
    | inr (s, t) ↦ elim (and_then_less (cp (p y) (p z)) (cq (q y) (q z)) g) [
      | inl u ↦ rw ((tp.same_iff (p x) (p y)).0 s, u)
      | inr (u, v) ↦ rw ((tp.same_iff (p x) (p y)).0 s, u, tq.compose (q x) (q y) (q z) t v)
    ]
  ]

  pub lex-IsTotal : IsTotal C lex
  lex-IsTotal = record {
    same_iff = λ x y. (lex_same x y, λ e. ap (lex x) (sym e) ∙ lex_refl x);
    turn = λ x y.
        rw (tp.turn (p x) (p y), tq.turn (q x) (q y))
          (and_then_turn (cp (p x) (p y)) (cq (q x) (q y)));
    compose = lex_compose;
  }
