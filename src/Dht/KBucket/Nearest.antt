-- ===== src/Dht/KBucket/Nearest.antt =====
-- What the search over the whole table finds.
pub mod Queue
use mathlib.Core.List.{Permᴰ}
use mathlib.Core.List.Permᴰ as Perm
use epyx.Base.{
  ℕ, zero, suc, ◌+◌, ◌-◌, ◌<◌, ◌≡◌, refl, subst, Bool, true, false, List, [], ◌∷◌, ◌++◌,
  append_assoc, append-nil, Option, none, some, map, arith, ltb, leb, length, length-append, drop,
  take, take-append-drop, min, All, Bool-cases, inl, inr, ltb→lt, ◌≤◌, length-drop, All-append,
  if◌then◌else◌,
}
use epyx.Dht.Id.{DhtId, IsId, Distance, distance, id_lt}
use epyx.Dht.Id.FirstBit.{distance-IsId}
use epyx.Dht.Id.Order.{id_compare}
use epyx.Dht.Id.Value.{value}
use epyx.Dht.KBucket.{
  Peer, Bucket, KBucket, SearchCandidate, nearer, push, drop_farthest, consider, scan_bucket,
  scan_buckets, find_nearest_nodes,
}
use Queue.{
  dist, IsCandidate, sort, nearer_iff, length-push, push-All, sort-All, below_all,
  push-IsDescending, push-Perm, sort-Perm, sort-IsDescending, length-sort, Kept, not_nearer,
  drop-All, Kept-same, drop-push, consider_full, consider_room, last, consider-last, IsDescending,
}

-- The candidates that the two loops visit.
abbrev bucket_candidates : DhtId → Bucket → List SearchCandidate
bucket_candidates id [] = []
bucket_candidates id (p ∷ ps) = (distance id p.id, p) ∷ bucket_candidates id ps

abbrev pub candidates : DhtId → List Bucket → List SearchCandidate
candidates id [] = []
candidates id (b ∷ bs) = bucket_candidates id b ++ candidates id bs

scan_bucket-last :
    (id : DhtId) (n : ℕ) (b : Bucket) (xs : List SearchCandidate)
    → 0 < n
    → All IsCandidate (bucket_candidates id b)
    → All IsCandidate xs
    → IsDescending xs
    → scan_bucket id n b (last n xs) ≡ some (last n (sort (bucket_candidates id b) xs))
unfolding scan_bucket
scan_bucket-last id n [] xs p hb h d = refl
scan_bucket-last id n (q ∷ b) xs p hb h d =
    let c : SearchCandidate = (distance id q.id, q) in
    rw (consider-last n c xs p hb.0 h d, scan_bucket)
      (scan_bucket-last id n b (push c xs) p hb.1 (push-All IsCandidate c xs hb.0 h)
        (push-IsDescending c xs hb.0 h d))

sort-append : (cs ds acc : List SearchCandidate) → sort (cs ++ ds) acc ≡ sort ds (sort cs acc)
sort-append [] ds acc = refl
sort-append (c ∷ cs) ds acc = sort-append cs ds (push c acc)

scan_buckets-last :
    (id : DhtId) (n : ℕ) (bs : List Bucket) (xs : List SearchCandidate)
    → 0 < n
    → All (λ b. All IsCandidate (bucket_candidates id b)) bs
    → All IsCandidate xs
    → IsDescending xs
    → scan_buckets id n bs (last n xs) ≡ some (last n (sort (candidates id bs) xs))
unfolding scan_buckets
scan_buckets-last id n [] xs p hb h d = refl
scan_buckets-last id n (b ∷ bs) xs p hb h d =
    let cs = bucket_candidates id b in
    rw (scan_bucket-last id n b xs p hb.0 h d, scan_buckets, sort-append cs (candidates id bs) xs)
      (scan_buckets-last id n bs (sort cs xs) p hb.1 (sort-All IsCandidate cs xs hb.0 h)
        (sort-IsDescending cs xs hb.0 h d))

bucket_candidates-All :
    (id : DhtId) (b : Bucket)
    → IsId id
    → All (λ p. IsId p.id) b
    → All IsCandidate (bucket_candidates id b)
bucket_candidates-All id [] hi h = tt
bucket_candidates-All id (p ∷ b) hi h =
    (distance-IsId id p.id hi h.0, bucket_candidates-All id b hi h.1)

buckets-All :
    (id : DhtId) (bs : List Bucket)
    → IsId id
    → All (λ b. All (λ p. IsId p.id) b) bs
    → All (λ b. All IsCandidate (bucket_candidates id b)) bs
buckets-All id [] hi h = tt
buckets-All id (b ∷ bs) hi h = (bucket_candidates-All id b hi h.0, buckets-All id bs hi h.1)

candidates-All :
    (id : DhtId) (bs : List Bucket)
    → All (λ b. All IsCandidate (bucket_candidates id b)) bs
    → All IsCandidate (candidates id bs)
candidates-All id [] h = tt
candidates-All id (b ∷ bs) h =
    All-append IsCandidate (bucket_candidates id b) (candidates id bs) h.0
      (candidates-All id bs h.1)

drop-nil : (n : ℕ) → drop {A = SearchCandidate} n [] ≡ []
drop-nil zero = refl
drop-nil (suc n) = refl

-- Where all identifiers have 32 bytes and n is not zero, `findNearestNodes` appends the peers of
-- `near`: `far` and `near` together are all peers of the table with their distances, in an order in
-- which none is farther than one before it, and `near` has n of them, or all where there are fewer.
pub find_nearest_nodes_lem :
    (id : DhtId) (n : ℕ) (k : KBucket)
    → IsId id
    → All (λ b. All (λ p. IsId p.id) b) k.buckets
    → 0 < n
    → (far : List SearchCandidate) × (near : List SearchCandidate) × (find_nearest_nodes id n k
        ≡ some (map (λ c. c.1) near))
      × Permᴰ (far ++ near) (candidates id k.buckets)
      × IsDescending (far ++ near)
      × (length near ≡ min n (length (candidates id k.buckets)))
unfolding find_nearest_nodes
find_nearest_nodes_lem id n k hi h p =
    let bs = k.buckets in
    let cs = candidates id bs in
    let hc = candidates-All id bs (buckets-All id bs hi h) in
    let all = sort cs [] in
    let e =
      subst (λ xs. scan_buckets id n bs xs ≡ some (last n all)) (drop-nil (0 - n))
        (scan_buckets-last id n bs [] p (buckets-All id bs hi h) tt tt) in
    let split = take-append-drop (length all - n) all in
    (
      take (length all - n) all,
      last n all,
      rw (e, find_nearest_nodes),
      rw split (sort-Perm cs []),
      rw split (sort-IsDescending cs [] hc tt tt),
      omega (arith, length-drop (length all - n) all, length-sort cs []),
    )
