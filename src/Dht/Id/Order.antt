-- ===== src/Dht/Id/Order.antt =====
-- Lemmas on the comparisons `operator<` and `operator==` of identifiers and distances.
use epyx.Base.{
  ℕ, ◌*◌, ◌^◌, ◌≡◌, refl, ap, ◌∙◌, ◌↔◌, true, [], ◌∷◌, arith, length, ltb, ◌==◌, Bytes, IsBytes,
  ==_iff,
}
use epyx.Dht.Id.Value.{value, value-lt_of_head}
use epyx.Dht.Id.{DhtId, IsId, id_lt, id_eq}

ltb-value :
    (a b : Bytes)
    → IsBytes a
    → IsBytes b
    → length a ≡ length b
    → id_lt a b ≡ ltb (value a) (value b)
unfolding id_lt
ltb-value [] [] ha hb e = refl
ltb-value [] (y ∷ b) ha hb e = absurd (omega arith)
ltb-value (x ∷ a) [] ha hb e = absurd (omega arith)
ltb-value (x ∷ a) (y ∷ b) ha hb e =
    let el : length a ≡ length b = omega arith in
    ground (
      arith,
      ltb-value a b ha.1 hb.1 el,
      value-lt_of_head x y a b ha.1 el,
      value-lt_of_head y x b a hb.1 (omega arith),
    )

eq-value :
    (a b : Bytes) → IsBytes a → IsBytes b → length a ≡ length b → id_eq a b ≡ (value a == value b)
unfolding id_eq
eq-value [] [] ha hb e = refl
eq-value [] (y ∷ b) ha hb e = absurd (omega arith)
eq-value (x ∷ a) [] ha hb e = absurd (omega arith)
eq-value (x ∷ a) (y ∷ b) ha hb e =
    let el : length a ≡ length b = omega arith in
    ground (
      arith,
      ap (λ (n : ℕ). x * 256 ^ n) el,
      eq-value a b ha.1 hb.1 el,
      value-lt_of_head x y a b ha.1 el,
      value-lt_of_head y x b a hb.1 (omega arith),
    )

eq_iff : (a b : Bytes) → length a ≡ length b → (id_eq a b ≡ true) ↔ (a ≡ b)
unfolding id_eq
eq_iff [] [] e = ground arith
eq_iff [] (y ∷ b) e = absurd (omega arith)
eq_iff (x ∷ a) [] e = absurd (omega arith)
eq_iff (x ∷ a) (y ∷ b) e = ground (arith, eq_iff a b (omega arith))

-- Of two identifiers of 32 bytes `operator<` compares the numbers that they write, and so does
-- `operator==`, which holds exactly of equal arrays.
pub id_compare :
    (a b : DhtId)
    → IsId a
    → IsId b
    → (id_lt a b ≡ ltb (value a) (value b))
      × (id_eq a b ≡ (value a == value b))
      × ((id_eq a b ≡ true) ↔ (a ≡ b))
id_compare a b ha hb =
    let e : length a ≡ length b = omega arith in
    (ltb-value a b ha.1 hb.1 e, eq-value a b ha.1 hb.1 e, eq_iff a b e)

pub value-injective : (a b : DhtId) → IsId a → IsId b → value a ≡ value b → a ≡ b
value-injective a b ha hb e =
    let (l, q, i) = id_compare a b ha hb in i.0 (q ∙ (==_iff (value a) (value b)).1 e)
