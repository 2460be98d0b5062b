-- ===== src/Dht/Process/Finder/Bounded.antt =====
-- Lemmas on one peer that comes to a list of at most `n` candidates.
use epyx.Base.{
  ℕ, ◌≤◌, ◌<◌, ◌≡◌, sym, ap, subst, ◌∙◌, ◌⊎◌, inl, inr, Bool, false, List, [], ◌∷◌, arith, All, ltb,
  length, Bool-cases,
}
use epyx.Dht.Id.{DhtId, IsId, distance, id_eq}
use epyx.Dht.Id.FirstBit.{distance-IsId}
use epyx.Dht.Id.Order.{id_compare}
use epyx.Dht.Id.Value.{value}
use epyx.Dht.KBucket.{Peer, SearchCandidate, nearer}
use epyx.Dht.KBucket.Nearest.Queue.{dist, IsCandidate, nearer_iff}
use epyx.Dht.Process.Finder.Counts.{count, All-count}

-- A candidate made of a peer with an identifier of 32 bytes and the property `P`.
abbrev pub IsMade : DhtId → (Peer → Type 0) → SearchCandidate → Type 0
IsMade r P c = (c.0 ≡ distance r c.1.id) × IsId c.1.id × P c.1

abbrev pub with_id : DhtId → SearchCandidate → Bool
with_id id c = id_eq c.1.id id

abbrev pub beyond : ℕ → SearchCandidate → Bool
beyond d c = ltb d (dist c)

abbrev pub far_from : DhtId → Peer → ℕ
far_from r q = value (distance r q.id).bytes

-- There are `n` candidates, none farther than the peer.
abbrev pub IsFull : ℕ → DhtId → List SearchCandidate → Peer → Type 0
IsFull n r cs q = (length cs ≡ n) × (count (beyond (far_from r q)) cs ≡ 0)

count-beyond_mono :
    (d e : ℕ) (cs : List SearchCandidate) → d ≤ e → count (beyond e) cs ≤ count (beyond d) cs
unfolding count
count-beyond_mono d e [] l = omega arith
count-beyond_mono d e (c ∷ cs) l = ground (arith, count-beyond_mono d e cs l)

not_beyond :
    (t : SearchCandidate) (cs : List SearchCandidate)
    → IsCandidate t
    → All IsCandidate cs
    → All (λ e. nearer t e ≡ false) cs
    → All (λ e. beyond (dist t) e ≡ false) cs
not_beyond t [] i h d = tt
not_beyond t (e ∷ cs) i h d = (sym (nearer_iff t e i h.0) ∙ d.0, not_beyond t cs i h.1 d.1)

module _ (r : DhtId) (hr : IsId r) (P : Peer → Type 0) where
  pub made-IsCandidate : (c : SearchCandidate) → IsMade r P c → IsCandidate c
  made-IsCandidate (d, p) m = subst (λ x. IsId x.bytes) (sym (m.0)) (distance-IsId r p.id hr (m.1))

  made_all : (cs : List SearchCandidate) → All (IsMade r P) cs → All IsCandidate cs
  made_all [] h = tt
  made_all (c ∷ cs) h = (made-IsCandidate c h.0, made_all cs h.1)

  -- No identifier twice.
  abbrev pub IsDistinct : List SearchCandidate → Type 0
  IsDistinct cs = (id : DhtId) → IsId id → count (with_id id) cs ≤ 1

  pub IsDistinct-cons :
      (c : SearchCandidate) (cs : List SearchCandidate)
      → IsMade r P c
      → count (with_id c.1.id) cs ≡ 0
      → IsDistinct cs
      → IsDistinct (c ∷ cs)
  unfolding count
  IsDistinct-cons c cs m z d id i = elim (Bool-cases (with_id id c)) [
    | inl hit ↦
        let same : c.1.id ≡ id = (id_compare c.1.id id (m.1) i).2.0 hit in
        let none_here : count (with_id id) cs ≡ 0 = ap (λ x. count (with_id x) cs) (sym same) ∙ z in
        ground (arith, none_here, hit)
    | inr miss ↦ ground (arith, d id i, miss)
  ]

  -- Behind the farthest of a list, what counts for a peer.
  pub IsFull-behind :
      (n : ℕ) (t : SearchCandidate) (ys : List SearchCandidate) (q : Peer)
      → IsMade r P t
      → All (IsMade r P) ys
      → All (λ e. nearer t e ≡ false) ys
      → length ys ≡ n
      → dist t ≤ far_from r q
      → IsFull n r ys q
  IsFull-behind n t ys q mt ms far l le =
      let z : count (beyond (dist t)) ys ≡ 0 =
        All-count (beyond (dist t)) ys
          (not_beyond t ys (made-IsCandidate t mt) (made_all ys ms) far) in
      (l, omega (arith, z, count-beyond_mono (dist t) (far_from r q) ys le))

  -- A peer that was one of the list or the one taken out.
  pub covered_member :
      (n : ℕ) (t : SearchCandidate) (ys : List SearchCandidate) (q : Peer)
      → IsMade r P t
      → All (IsMade r P) ys
      → All (λ e. nearer t e ≡ false) ys
      → length ys ≡ n
      → IsId q.id
      → 0 < count (with_id q.id) (t ∷ ys)
      → (0 < count (with_id q.id) ys) ⊎ IsFull n r ys q
  unfolding count
  covered_member n (d, p) ys q mt ms far l i k = elim (Bool-cases (with_id q.id (d, p))) [
    | inr miss ↦ inl (ground (arith, k, miss))
    | inl hit ↦
        let same : p.id ≡ q.id = (id_compare p.id q.id (mt.1) i).2.0 hit in
        let e : dist (d, p) ≡ far_from r q =
          ap (λ x. value x.bytes) (mt.0) ∙ ap (λ x. value (distance r x).bytes) same in
        inr (IsFull-behind n (d, p) ys q mt ms far l (omega (arith, e)))
  ]

  pub covered-IsFull :
      (n : ℕ) (c t : SearchCandidate) (cs ys : List SearchCandidate) (q : Peer)
      → IsMade r P t
      → All (IsMade r P) ys
      → All (λ e. nearer t e ≡ false) ys
      → length ys ≡ n
      → count (beyond (far_from r q)) (c ∷ cs) ≡ count (beyond (far_from r q)) (t ∷ ys)
      → IsFull n r cs q
      → IsFull n r ys q
  unfolding count
  covered-IsFull n c t cs ys q mt ms far l e f = elim (Bool-cases (beyond (far_from r q) t)) [
    | inr near ↦ IsFull-behind n t ys q mt ms far l (ground (arith, near))
    | inl away ↦ (l, ground (arith, e, f.1, away))
  ]
