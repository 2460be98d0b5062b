-- ===== src/N2np/Relay/Names.antt =====
-- Lemmas on the names that a relay gives to nodes.
use epyx.Base.{
  ℕ, ◌+◌, ◌^◌, ◌<◌, ◌≡◌, ◌≢◌, refl, sym, ap, ◌∙◌, inl, inr, true, false, [], ◌∷◌, Option, none,
  some, arith, ◌==◌, ==_iff, Bool-cases, Bytes, All, bytes_eq, bytes_lt, bytes_eq_iff,
}
use epyx.Base.Dict
use epyx.Base.Dict.{Dict, bytes_order}
use epyx.Core.Ctype.{is_digit}
use epyx.Core.Text.{to_ulong, from_unsigned_long}
use epyx.Core.Text.Number.{to_ulong-from_unsigned_long, from_unsigned_long-digits}
use epyx.Net.Address.{SockAddress, print_address, split_at}
use epyx.Net.Address.RoundTrip.{Without, split_at-append}
use epyx.N2np.Relay.{NodeInfo, Relay, node_name, attach_node}

digits-Without : (s : Bytes) → All (λ c. is_digit c ≡ true) s → Without b'-' s
unfolding is_digit
digits-Without [] h = tt
digits-Without (c ∷ s) h = (ground (arith, h.0), digits-Without s h.1)

-- The number in a name.
number_of : Bytes → Option (Bytes × Bytes)
number_of s = split_at b'-' s

number_of-node_name :
    (n : ℕ) (a : SockAddress)
    → n ≢ 1
    → number_of (node_name n a) ≡ some (from_unsigned_long n, print_address a)
unfolding node_name number_of
number_of-node_name n a h =
    let e : (n == 1) ≡ false = ground arith in
    rw e (
      split_at-append b'-' (from_unsigned_long n) (print_address a)
        (digits-Without _ (from_unsigned_long-digits n)))

from_unsigned_long_injective :
    (m n : ℕ) → m < 2 ^ 64 → n < 2 ^ 64 → from_unsigned_long m ≡ from_unsigned_long n → m ≡ n
from_unsigned_long_injective m n h k e =
    let p : some m ≡ some n =
      sym (to_ulong-from_unsigned_long m h) ∙ ap to_ulong e ∙ to_ulong-from_unsigned_long n k in
    cc p

node_name_one : (a : SockAddress) → number_of (node_name 1 a) ≡ none
unfolding node_name number_of split_at
node_name_one a = refl

-- Different numbers below 2^64 give different names.
pub node_name_injective :
    (m n : ℕ) (a b : SockAddress) → m < 2 ^ 64 → n < 2 ^ 64 → node_name m a ≡ node_name n b → m ≡ n
node_name_injective m n a b h k e = elim (Bool-cases (m == 1)) [
  | inl one ↦ elim (Bool-cases (n == 1)) [
    | inl also ↦ (==_iff m 1).0 one ∙ sym ((==_iff n 1).0 also)
    | inr other ↦ absurd (clash n m b a (ground arith) ((==_iff m 1).0 one) (sym e))
  ]
  | inr more ↦ elim (Bool-cases (n == 1)) [
    | inl one ↦ absurd (clash m n a b (ground arith) ((==_iff n 1).0 one) e)
    | inr other ↦
        let p =
          sym (number_of-node_name m a (ground arith))
          ∙ ap number_of e
          ∙ number_of-node_name n b (ground arith) in
        from_unsigned_long_injective m n h k (first_same p)
  ]
]
  where
    first_same :
        {x y u v : Bytes} → ◌≡◌ {A = Option (Bytes × Bytes)} (some (x, u)) (some (y, v)) → x ≡ y
    first_same p = cc p

    clash : (i j : ℕ) (x y : SockAddress) → i ≢ 1 → j ≡ 1 → node_name i x ≡ node_name j y → ⊥
    clash i j x y ne one p =
        let q =
          sym (number_of-node_name i x ne)
          ∙ ap number_of (p ∙ ap (λ t. node_name t y) one)
          ∙ node_name_one y in
        absurd (cc q)

-- Every name of the map was given under a number below the next one.
abbrev pub Given : ℕ → Bytes × NodeInfo → Type 0
Given next e = (k : ℕ) × (a : SockAddress) × (k < next) × (e.0 ≡ node_name k a)

abbrev pub IsNumbered : Relay → Type 0
IsNumbered r = All (Given r.node_next_id) r.nodes

Given-later : (n : ℕ) (e : Bytes × NodeInfo) → Given n e → Given (n + 1) e
Given-later n e (k, a, h, p) = (k, a, omega arith, p)

All-later : (n : ℕ) (m : Dict Bytes NodeInfo) → All (Given n) m → All (Given (n + 1)) m
All-later n [] h = tt
All-later n (e ∷ m) h = (Given-later n e h.0, All-later n m h.1)

All-set :
    (P : Bytes × NodeInfo → Type 0) (k : Bytes) (v : NodeInfo) (m : Dict Bytes NodeInfo)
    → P (k, v)
    → All P m
    → All P (Dict.set k v m)
unfolding Dict.set
All-set P k v [] p h = (p, tt)
All-set P k v ((j, w) ∷ m) p h = elim (Bool-cases (bytes_eq j k)) [
  | inl same ↦ rw same (p, h.1)
  | inr other ↦ elim (Bool-cases (bytes_lt k j)) [
    | inl before ↦ rw (other, before) (p, (h.0, h.1))
    | inr behind ↦ rw (other, behind) (h.0, All-set P k v m p h.1)
  ]
]

pub All-unset :
    (P : Bytes × NodeInfo → Type 0) (k : Bytes) (m : Dict Bytes NodeInfo)
    → All P m
    → All P (Dict.unset k m)
unfolding Dict.unset
All-unset P k [] h = tt
All-unset P k ((j, w) ∷ m) h = elim (Bool-cases (bytes_eq j k)) [
  | inl same ↦ rw same (All-unset P k m h.1)
  | inr other ↦ rw other (h.0, All-unset P k m h.1)
]

pub fresh_name :
    (n : ℕ) (a : SockAddress) (m : Dict Bytes NodeInfo)
    → n < 2 ^ 64
    → All (Given n) m
    → Dict.find (node_name n a) m ≡ none
unfolding Dict.find
fresh_name n a [] l h = refl
fresh_name n a ((j, w) ∷ m) l h = elim (Bool-cases (bytes_eq j (node_name n a))) [
  | inr other ↦ rw other (fresh_name n a m l h.1)
  | inl same ↦
      let (k, b, lower, p) = h.0 in
      let e : node_name k b ≡ node_name n a = sym p ∙ (bytes_eq_iff j (node_name n a)).0 same in
      let clash : k ≡ n = node_name_injective k n b a (omega arith) l e in absurd (omega arith)
]

-- What attaching a node does to the map, where its names were given in turn.
pub attach_node-IsNumbered :
    (address : ℕ → SockAddress) (sock : ℕ) (r : Relay)
    → r.node_next_id < 2 ^ 64
    → IsNumbered r
    → IsNumbered (attach_node address sock r).1
unfolding attach_node
attach_node-IsNumbered address sock r l h =
    let n = r.node_next_id in
    All-set (Given (n + 1)) (node_name n (address sock)) _ r.nodes
      (n, address sock, omega arith, refl) (All-later n r.nodes h)
