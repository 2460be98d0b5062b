-- ===== src/Dht/KBucket/Table.antt =====
-- What `seenPeer` keeps true of the table.
use mathlib.Core.Bool.{true≢false}
use epyx.Base.{
  List, ℕ, zero, suc, ◌-◌, ◌<◌, ◌≤◌, ◌≡◌, ◌≢◌, subst, ltb→lt, refl, sym, ap, ◌∙◌, true, false, [],
  ◌∷◌, ◌++◌, none, some, Option-cases, Bool-cases, inl, inr, arith, ltb, length, length-append,
  length-set, length-replicate, replicate, All, All-append,
}
use epyx.N2np.NodeId.{NodeName}
use epyx.Dht.Id.{DhtId, IsId, distance, id_eq, id_length}
use epyx.Dht.Id.FirstBit.{first_active-lt}
use epyx.Dht.Id.Order.{id_compare}
use epyx.Dht.KBucket.Search.{All-remove, Searched, search_view, Each, get_at, set_at}
use epyx.Dht.KBucket.{
  max_inactive_period, Peer, Bucket, KBucket, nodes_per_bucket, new_kbucket, search, add_peer, seen,
  index_of, bucket_of, seen_peer,
}

-- No two peers of a bucket have the same identifier.
abbrev pub IsDistinct : Bucket → Type 0
IsDistinct [] = Unit
IsDistinct (p ∷ ps) = All (λ q. p.id ≢ q.id) ps × IsDistinct ps

-- The peers of bucket `i` of the node `own` are at that distance.
abbrev IsPlaced : DhtId → ℕ → Peer → Type 0
IsPlaced own i p = IsId p.id × ((distance own p.id).first_active ≡ i)

pub record IsBucket (own : DhtId) (i : ℕ) (b : Bucket) : Type 0 where
  pub bounded : length b ≤ nodes_per_bucket
  pub placed : All (IsPlaced own i) b
  pub distinct : IsDistinct b

pub record IsTable (k : KBucket) : Type 0 where
  pub own : IsId k.own_id
  pub count : length k.buckets ≡ id_length
  pub buckets : Each (IsBucket k.own_id) 0 k.buckets

abbrev made : ℕ → DhtId → NodeName → Peer
made now peer_id n2np_id = record { id = peer_id; n2np_id = n2np_id; last_receive_time = now }

IsDistinct-remove :
    (before after : Bucket) (p : Peer)
    → IsDistinct (before ++ p ∷ after)
    → IsDistinct (before ++ after) × All (λ q. p.id ≢ q.id) (before ++ after)
IsDistinct-remove [] after p d = (d.1, d.0)
IsDistinct-remove (q ∷ before) after p d =
    let r = All-remove (λ x. q.id ≢ x.id) before p after d.0 in
    let ih = IsDistinct-remove before after p d.1 in ((r.1, ih.0), ((λ e. r.0 (sym e)), ih.1))

IsDistinct-snoc :
    (p : Peer) (b : Bucket) → IsDistinct b → All (λ q. p.id ≢ q.id) b → IsDistinct (b ++ p ∷ [])
IsDistinct-snoc p [] d h = (tt, tt)
IsDistinct-snoc p (q ∷ b) d h = (
  All-append (λ x. q.id ≢ x.id) b (p ∷ []) d.0 ((λ e. h.0 (sym e)), tt),
  IsDistinct-snoc p b d.1 h.1,
)

snoc-IsBucket :
    (own : DhtId) (i : ℕ) (p : Peer) (b : Bucket)
    → length b < nodes_per_bucket
    → IsPlaced own i p
    → All (IsPlaced own i) b
    → IsDistinct b
    → All (λ q. p.id ≢ q.id) b
    → IsBucket own i (b ++ p ∷ [])
snoc-IsBucket own i p b l hp hb d a = record {
  bounded = omega (arith, l, length-append b (p ∷ []));
  placed = All-append (IsPlaced own i) b (p ∷ []) hb (hp, tt);
  distinct = IsDistinct-snoc p b d a;
}

add_peer-IsBucket :
    (now : ℕ) (own : DhtId) (i : ℕ) (p : Peer) (b : Bucket)
    → IsBucket own i b
    → IsPlaced own i p
    → All (λ q. p.id ≢ q.id) b
    → IsBucket own i (add_peer now p b)
unfolding add_peer
add_peer-IsBucket now own i p [] h hp a = snoc-IsBucket own i p [] (omega arith) hp tt tt tt
add_peer-IsBucket now own i p (q ∷ b) h hp a =
    let l = h.bounded in
    elim (Bool-cases (ltb (length (q ∷ b)) nodes_per_bucket)) [
      | inl t ↦ rw t (
          snoc-IsBucket own i p (q ∷ b) (ltb→lt (length (q ∷ b)) nodes_per_bucket t) hp h.placed
            h.distinct a)
      | inr f ↦ elim (Bool-cases (ltb max_inactive_period (now - q.last_receive_time))) [
        | inl t ↦
            rw (f, t) (snoc-IsBucket own i p b (omega (arith, l)) hp h.placed.1 h.distinct.1 a.1)
        | inr g ↦ rw (f, g) h
      ]
    ]

apart_all :
    (own : DhtId) (i : ℕ) (a : DhtId) (b : Bucket)
    → IsId a
    → All (IsPlaced own i) b
    → All (λ q. id_eq a q.id ≡ false) b
    → All (λ q. a ≢ q.id) b
apart_all own i a [] ha hb h = tt
apart_all own i a (q ∷ b) ha hb h = (
  (λ e. true≢false (sym ((id_compare a q.id ha hb.0.0).2.1 e) ∙ h.0)),
  apart_all own i a b ha hb.1 h.1,
)

found-IsBucket :
    (now : ℕ) (own : DhtId) (i : ℕ) (a : DhtId) (n : NodeName) (before after : Bucket) (p : Peer)
    → IsId a
    → IsBucket own i (before ++ p ∷ after)
    → id_eq a p.id ≡ true
    → IsBucket own i ((before ++ after) ++ record p { last_receive_time = now; n2np_id = n } ∷ [])
      × (record p { last_receive_time = now; n2np_id = n } ≡ made now a n)
found-IsBucket now own i a n before after p ha h t =
    let (hp, hb) = All-remove (IsPlaced own i) before p after h.placed in
    let (d, apart) = IsDistinct-remove before after p h.distinct in
    let l = h.bounded in
    (
      snoc-IsBucket own i (record p { last_receive_time = now; n2np_id = n }) (before ++ after)
          (omega (arith, l, length-append before (p ∷ after), length-append before after)) hp hb d
          apart,
      ap (λ x. made now x n) (sym ((id_compare a p.id ha hp.0).2.0 t)),
    )

pub seen-IsBucket :
    (now : ℕ) (own a : DhtId) (n : NodeName) (b : Bucket)
    → IsId a
    → IsBucket own (distance own a).first_active b
    → IsBucket own (distance own a).first_active (seen now a n b).1
      × ((seen now a n b).0 ≡ made now a n)
unfolding seen
seen-IsBucket now own a n b ha h =
    let i = (distance own a).first_active in
    let v = search_view a b in
    elim (Option-cases (search a b)) [
      | inl e ↦
          let w : Searched a b none = subst (Searched a b) e v in
          rw (e, seen)
            (
              add_peer-IsBucket now own i (made now a n) b h (ha, refl)
                  (apart_all own i a b ha h.placed w),
              refl,
            )
      | inr ((p, others), e) ↦
          let (before, after, s, o, t) : Searched a b (some (p, others)) =
            subst (Searched a b) e v in
          rw (e, seen, ← o) (found-IsBucket now own i a n before after p ha (rw s h) t)
    ]

-- `seenPeer` of an identifier of 32 bytes keeps the table well formed: as many buckets as bits, at
-- most 20 peers in each, every peer in the bucket of its distance from the node and no identifier
-- twice in a bucket; and it returns a peer with the identifier, the address and the time given.
pub seen_peer-IsTable :
    (now : ℕ) (a : DhtId) (n : NodeName) (k : KBucket)
    → IsId a
    → IsTable k
    → IsTable (seen_peer now a n k).1
      × ((seen_peer now a n k).0 ≡ record { id = a; n2np_id = n; last_receive_time = now })
unfolding seen_peer
seen_peer-IsTable now a n k ha h =
    let i = index_of k a in
    let l = h.count in
    let q = first_active-lt k.own_id a h.own ha in
    let b = get_at (IsBucket k.own_id) k.buckets i (omega (arith, l, q)) h.buckets in
    let r = seen-IsBucket now k.own_id a n (bucket_of k a) ha b in
    (
      record {
        own = h.own;
        count = length-set k.buckets i _ ∙ l;
        buckets = set_at (IsBucket k.own_id) k.buckets i _ h.buckets r.0;
      },
      r.1,
    )

pub replicate-Each :
    (P : ℕ → Bucket → Type 0) (j n : ℕ) → ((i : ℕ) → P i []) → Each P j (replicate n [])
replicate-Each P j zero h = tt
replicate-Each P j (suc n) h = (h j, replicate-Each P (suc j) n h)

pub new_kbucket-IsTable : (self : DhtId) → IsId self → IsTable (new_kbucket self)
unfolding new_kbucket
new_kbucket-IsTable self h = record {
  own = h;
  count = length-replicate {A = Bucket} id_length [];
  buckets =
      replicate-Each (IsBucket self) 0 id_length
        (λ i. record { bounded = omega arith; placed = tt; distinct = tt });
}

placed_ids : (own : DhtId) (i : ℕ) (b : Bucket) → All (IsPlaced own i) b → All (λ p. IsId p.id) b
placed_ids own i [] h = tt
placed_ids own i (p ∷ b) h = (h.0.0, placed_ids own i b h.1)

bucket_ids :
    (own : DhtId) (i : ℕ) (bs : List Bucket)
    → Each (IsBucket own) i bs
    → All (λ b. All (λ p. IsId p.id) b) bs
bucket_ids own i [] h = tt
bucket_ids own i (b ∷ bs) h = (placed_ids own i b (h.0).placed, bucket_ids own (suc i) bs h.1)

-- The identifiers in a table have 32 bytes.
pub table_ids : (k : KBucket) → IsTable k → All (λ b. All (λ p. IsId p.id) b) k.buckets
table_ids k h = bucket_ids k.own_id 0 k.buckets h.buckets
