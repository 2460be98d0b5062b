-- ===== src/Dht/KBucket/Seen.antt =====
-- Whom `seenPeer` keeps, and the order in which a bucket drops its peers.
use mathlib.Core.Bool.{true≢false}
use epyx.Base.{
  ℕ, zero, suc, ◌-◌, ◌≤◌, ◌≡◌, refl, sym, ap, ◌∙◌, subst, true, false, List, [], ◌∷◌, ◌++◌, some,
  Option-cases, Bool-cases, ◌⊎◌, inl, inr, arith, ltb, leb, length, get_or, All, All-append,
}
use epyx.N2np.NodeId.{NodeName}
use epyx.Dht.Id.{DhtId, id_eq}
use epyx.Dht.KBucket.Search.{All-remove, Searched, search_view, Each, set_at, get_or-set_cases}
use epyx.Dht.KBucket.{
  max_inactive_period, nodes_per_bucket, Peer, Bucket, KBucket, search, add_peer, seen, index_of,
  bucket_of, seen_peer,
}

abbrev pub IsIn : Peer → Bucket → Type 0
IsIn p [] = ⊥
IsIn p (q ∷ b) = (p ≡ q) ⊎ IsIn p b

IsIn-left : (p : Peer) (b c : Bucket) → IsIn p b → IsIn p (b ++ c)
IsIn-left p [] c m = elim m [ ]
IsIn-left p (q ∷ b) c (inl e) = inl e
IsIn-left p (q ∷ b) c (inr m) = inr (IsIn-left p b c m)

IsIn-remove :
    (p q : Peer) (before after : Bucket)
    → IsIn p (before ++ q ∷ after)
    → (p ≡ q) ⊎ IsIn p (before ++ after)
IsIn-remove p q [] after m = m
IsIn-remove p q (x ∷ before) after (inl e) = inr (inl e)
IsIn-remove p q (x ∷ before) after (inr m) = elim (IsIn-remove p q before after m) [
  | inl e ↦ inl e
  | inr n ↦ inr (inr n)
]

-- A peer that was heard of is not the one that is dropped.
not_dropped :
    (now : ℕ) (p q : Peer) (b : Bucket)
    → leb (now - p.last_receive_time) max_inactive_period ≡ true
    → ltb max_inactive_period (now - q.last_receive_time) ≡ true
    → IsIn p (q ∷ b)
    → IsIn p b
not_dropped now p q b h t (inl e) =
    let u = ap (λ x. ltb max_inactive_period (now - x.last_receive_time)) e ∙ t in
    ground (arith, u, h)
not_dropped now p q b h t (inr n) = n

add_peer_keeps :
    (now : ℕ) (fresh p : Peer) (b : Bucket)
    → leb (now - p.last_receive_time) max_inactive_period ≡ true
    → IsIn p b
    → IsIn p (add_peer now fresh b)
unfolding add_peer
add_peer_keeps now fresh p [] h m = elim m [ ]
add_peer_keeps now fresh p (q ∷ b) h m = elim (Bool-cases (ltb (length (q ∷ b)) nodes_per_bucket)) [
  | inl t ↦ rw t (IsIn-left p (q ∷ b) (fresh ∷ []) m)
  | inr f ↦ elim (Bool-cases (ltb max_inactive_period (now - q.last_receive_time))) [
    | inl t ↦ rw (f, t) (IsIn-left p b (fresh ∷ []) (not_dropped now p q b h t m))
    | inr g ↦ rw (f, g) m
  ]
]

seen_keeps :
    (now : ℕ) (a : DhtId) (n : NodeName) (p : Peer) (b : Bucket)
    → id_eq a p.id ≡ false
    → leb (now - p.last_receive_time) max_inactive_period ≡ true
    → IsIn p b
    → IsIn p (seen now a n b).1
unfolding seen
seen_keeps now a n p b d h m =
    let v = search_view a b in
    elim (Option-cases (search a b)) [
      | inl e ↦ rw (e, seen) (add_peer_keeps now _ p b h m)
      | inr ((q, others), e) ↦
          let (before, after, s, o, t) : Searched a b (some (q, others)) =
            subst (Searched a b) e v in
          rw (e, seen)
            (IsIn-left p others _ (elim (IsIn-remove p q before after (rw s m)) [
              | inl g ↦ absurd (true≢false (sym t ∙ ap (λ x. id_eq a x.id) (sym g) ∙ d))
              | inr k ↦ rw (sym o) k
            ]))
    ]

-- `seenPeer` leaves in its bucket every peer with another identifier that was heard of at most
-- 15000 time units ago.
pub seen_peer_keeps :
    (now : ℕ) (a : DhtId) (n : NodeName) (k : KBucket) (p : Peer) (i : ℕ)
    → id_eq a p.id ≡ false
    → now - p.last_receive_time ≤ max_inactive_period
    → IsIn p (get_or k.buckets i [])
    → IsIn p (get_or (seen_peer now a n k).1.buckets i [])
unfolding seen_peer
seen_peer_keeps now a n k p i d h m =
    get_or-set_cases (IsIn p) k.buckets i (index_of k a) _ []
      (λ e.
        seen_keeps now a n p (bucket_of k a) d (ground (arith, h))
          (subst (λ j. IsIn p (get_or k.buckets j [])) e m))
      m

-- The peers of a bucket, each heard of no later than those behind it, and by `now`.
abbrev pub IsOrdered : ℕ → Bucket → Type 0
IsOrdered now [] = Unit
IsOrdered now (p ∷ b) =
    (p.last_receive_time ≤ now)
    × All (λ q. p.last_receive_time ≤ q.last_receive_time) b
    × IsOrdered now b

IsOrdered-later : (t now : ℕ) (b : Bucket) → t ≤ now → IsOrdered t b → IsOrdered now b
IsOrdered-later t now [] l h = tt
IsOrdered-later t now (p ∷ b) l (h, g, o) = (omega (arith, h, l), g, IsOrdered-later t now b l o)

IsOrdered-snoc :
    (now : ℕ) (p : Peer) (b : Bucket)
    → p.last_receive_time ≡ now
    → IsOrdered now b
    → IsOrdered now (b ++ p ∷ [])
IsOrdered-snoc now p [] e h = (omega (arith, e), tt, tt)
IsOrdered-snoc now p (q ∷ b) e (h, g, o) = (
  h,
  All-append (λ x. q.last_receive_time ≤ x.last_receive_time) b (p ∷ []) g
      (omega (arith, h, e), tt),
  IsOrdered-snoc now p b e o,
)

IsOrdered-remove :
    (now : ℕ) (p : Peer) (before after : Bucket)
    → IsOrdered now (before ++ p ∷ after)
    → IsOrdered now (before ++ after)
IsOrdered-remove now p [] after (h, g, o) = o
IsOrdered-remove now p (q ∷ before) after (h, g, o) = (
  h,
  (All-remove (λ x. q.last_receive_time ≤ x.last_receive_time) before p after g).1,
  IsOrdered-remove now p before after o,
)

add_peer-IsOrdered :
    (now : ℕ) (p : Peer) (b : Bucket)
    → p.last_receive_time ≡ now
    → IsOrdered now b
    → IsOrdered now (add_peer now p b)
unfolding add_peer
add_peer-IsOrdered now p [] e h = IsOrdered-snoc now p [] e h
add_peer-IsOrdered now p (q ∷ b) e h = elim (Bool-cases (ltb (length (q ∷ b)) nodes_per_bucket)) [
  | inl t ↦ rw t (IsOrdered-snoc now p (q ∷ b) e h)
  | inr f ↦ elim (Bool-cases (ltb max_inactive_period (now - q.last_receive_time))) [
    | inl t ↦ rw (f, t) (IsOrdered-snoc now p b e h.2)
    | inr g ↦ rw (f, g) h
  ]
]

seen-IsOrdered :
    (now : ℕ) (a : DhtId) (n : NodeName) (b : Bucket)
    → IsOrdered now b
    → IsOrdered now (seen now a n b).1
unfolding seen
seen-IsOrdered now a n b h =
    let v = search_view a b in
    elim (Option-cases (search a b)) [
      | inl e ↦ rw (e, seen) (add_peer-IsOrdered now _ b refl h)
      | inr ((q, others), e) ↦
          let (before, after, s, o, t) : Searched a b (some (q, others)) =
            subst (Searched a b) e v in
          rw (e, seen)
            (IsOrdered-snoc now _ others refl (
              subst (IsOrdered now) o
                (IsOrdered-remove now q before after (subst (IsOrdered now) (sym s) h))))
    ]

Each-later :
    (t now j : ℕ) (bs : List Bucket)
    → t ≤ now
    → Each (λ i. IsOrdered t) j bs
    → Each (λ i. IsOrdered now) j bs
Each-later t now j [] l h = tt
Each-later t now j (b ∷ bs) l h = (IsOrdered-later t now b l h.0, Each-later t now (suc j) bs l h.1)

get-IsOrdered :
    (now j i : ℕ) (bs : List Bucket)
    → Each (λ i. IsOrdered now) j bs
    → IsOrdered now (get_or bs i [])
get-IsOrdered now j i [] h = tt
get-IsOrdered now j zero (b ∷ bs) h = h.0
get-IsOrdered now j (suc i) (b ∷ bs) h = get-IsOrdered now (suc j) i bs h.1

-- While the clock does not go back, `seenPeer` keeps the peers of every bucket in the order in
-- which they were last heard of, the front longest ago.
pub seen_peer_order :
    (t now : ℕ) (a : DhtId) (n : NodeName) (k : KBucket)
    → t ≤ now
    → Each (λ i. IsOrdered t) 0 k.buckets
    → Each (λ i. IsOrdered now) 0 (seen_peer now a n k).1.buckets
unfolding seen_peer
seen_peer_order t now a n k l h =
    let g = Each-later t now 0 k.buckets l h in
    set_at (λ i. IsOrdered now) k.buckets (index_of k a) _ g
      (seen-IsOrdered now a n (bucket_of k a) (get-IsOrdered now 0 (index_of k a) k.buckets g))
