-- ===== src/N2np/NodeId/Key.antt =====
-- Names of nodes as the keys of a `std::map`, by `NodeId::compare` (n2np/nodeid.cpp).
use epyx.Base.{◌≡◌, ◌↔◌, refl, ap, ◌∙◌, Bool, true, false}
use epyx.Base.Compare.{Sign, less, same, greater, opposite}
use epyx.Base.Dict.{KeyOrder}
use epyx.N2np.NodeId.{NodeName, compare_node}
use epyx.N2np.NodeId.Laws.{compare_node_lem}

abbrev pub is_same : Sign → Bool
is_same same = true
is_same _ = false

abbrev pub is_less : Sign → Bool
is_less less = true
is_less _ = false

sign_same : (s : Sign) → (is_same s ≡ true) ↔ (s ≡ same)
sign_same less = (λ h. absurd (cc h), λ h. absurd (cc h))
sign_same same = (λ h. refl, λ h. refl)
sign_same greater = (λ h. absurd (cc h), λ h. absurd (cc h))

sign_less : (s : Sign) → is_less s ≡ true → (is_less (opposite s) ≡ false) × (is_same s ≡ false)
sign_less less h = (refl, refl)
sign_less same h = absurd (cc h)
sign_less greater h = absurd (cc h)

pub node_eq_iff : (a b : NodeName) → (is_same (compare_node a b) ≡ true) ↔ (a ≡ b)
node_eq_iff a b =
    let s = sign_same (compare_node a b) in
    let c = (compare_node_lem a b).0 in (λ h. c.0 (s.0 h), λ h. s.1 (c.1 h))

pub node_lt_asym :
    (a b : NodeName)
    → is_less (compare_node a b) ≡ true
    → (is_less (compare_node b a) ≡ false) × (is_same (compare_node a b) ≡ false)
node_lt_asym a b h =
    let l = sign_less (compare_node a b) h in (ap is_less ((compare_node_lem a b).1) ∙ l.0, l.1)

instance abbrev pub node_order : KeyOrder NodeName
node_order = record {
  key_eq = λ a b. is_same (compare_node a b);
  key_lt = λ a b. is_less (compare_node a b);
  key_eq_iff = node_eq_iff;
  key_lt_asym = node_lt_asym;
}
