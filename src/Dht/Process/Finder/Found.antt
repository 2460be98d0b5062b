-- ===== src/Dht/Process/Finder/Found.antt =====
-- Lemmas on the peers that a search keeps.
use epyx.Base.{
  ℕ, ◌≤◌, ◌<◌, ◌≡◌, refl, ap, subst, ◌∙◌, ◌⊎◌, inl, inr, true, false, List, [], ◌∷◌, arith, All,
  ltb, length, if◌then◌else◌, Bool-cases,
}
use epyx.Base.Int.{ℤ}
use epyx.Dht.Id.{DhtId, IsId, distance, id_eq}
use epyx.Dht.KBucket.{Peer, SearchCandidate}
use epyx.Dht.Process.Finder.{
  FinderActor, new_finder, HeapOps, candidate_of, has_id, has_distance, push_bounded,
  add_to_found_peers, add_to_short_list, add_all, find_parallel_queries,
}
use epyx.Dht.Process.Finder.Heap.{HeapLaws}
use epyx.Dht.Process.Finder.Counts.{count}
use epyx.Dht.Process.Finder.Bounded.{IsMade, with_id, IsFull, IsDistinct}
use epyx.Dht.Process.Finder.Step.{Kept, Reaches, has_self, count-grows, push_bounded-Kept}
use epyx.Parser.Gtt.Syntax.{to_size}

-- A peer is kept, or there are `n` others, none farther than it.
abbrev pub Covered : ℕ → DhtId → List SearchCandidate → Peer → Type 0
Covered n r cs q = (has_id q.id cs ≡ true) ⊎ IsFull n r cs q

has_id-count :
    (id : DhtId) (cs : List SearchCandidate) → has_id id cs ≡ ltb 0 (count (with_id id) cs)
unfolding has_id count
has_id-count id [] = refl
has_id-count id (c ∷ cs) = elim (Bool-cases (id_eq c.1.id id)) [
  | inl hit ↦ rw hit (ground arith)
  | inr miss ↦ rw miss (has_id-count id cs)
]

-- What `addToFoundPeers` does to the list.
abbrev keep : HeapOps → ℕ → DhtId → Peer → List SearchCandidate → List SearchCandidate
keep h n r p cs = if has_id p.id cs then cs else push_bounded h n (candidate_of r p) cs

abbrev keep_all : HeapOps → ℕ → DhtId → List Peer → List SearchCandidate → List SearchCandidate
keep_all h n r [] cs = cs
keep_all h n r (p ∷ ps) cs = keep_all h n r ps (keep h n r p cs)

abbrev add_one : HeapOps → Peer → FinderActor → FinderActor
add_one h p a = add_to_found_peers h p (add_to_short_list h p a)

add_one-keep :
    (h : HeapOps) (p : Peer) (a : FinderActor)
    → (l : List SearchCandidate) × (add_one h p a ≡ record a {
      shortlist = l;
      found_peers = keep h (to_size a.count_to_find) a.requested_id p a.found_peers;
    })
unfolding add_to_found_peers add_to_short_list
add_one-keep h p a = (
  (add_one h p a).shortlist,
  elim (Bool-cases (has_distance (distance a.requested_id p.id).bytes a.shortlist)) [
    | inl old ↦ rw old (found_part a)
    | inr far ↦ rw far (
        found_part (record a {
          shortlist =
              push_bounded h find_parallel_queries (candidate_of a.requested_id p) a.shortlist;
        }))
  ],
)
  where
    found_part :
        (b : FinderActor)
        → add_to_found_peers h p b ≡ record b {
          shortlist = (add_to_found_peers h p b).shortlist;
          found_peers = keep h (to_size b.count_to_find) b.requested_id p b.found_peers;
        }
    found_part b = elim (Bool-cases (has_id p.id b.found_peers)) [
      | inl held ↦ rw held
      | inr fresh ↦ rw fresh
    ]

add_all-keep :
    (h : HeapOps) (ps : List Peer) (a : FinderActor)
    → (add_all h ps a).found_peers
      ≡ keep_all h (to_size a.count_to_find) a.requested_id ps a.found_peers
unfolding add_all
add_all-keep h [] a = refl
add_all-keep h (p ∷ ps) a =
    let (l, e) = add_one-keep h p a in
    ap (λ b. (add_all h ps b).found_peers) e ∙ add_all-keep h ps _

module _ (h : HeapOps) (laws : HeapLaws h) (r : DhtId) (hr : IsId r) (P : Peer → Type 0)
    (n : ℕ) where
  counted :
      (id : DhtId) (cs : List SearchCandidate) → has_id id cs ≡ true → 0 < count (with_id id) cs
  counted id cs e = ground (arith, e, has_id-count id cs)

  uncounted :
      (id : DhtId) (cs : List SearchCandidate) → has_id id cs ≡ false → count (with_id id) cs ≡ 0
  uncounted id cs e = ground (arith, e, has_id-count id cs)

  keep-Kept :
      (p : Peer) (cs : List SearchCandidate)
      → IsId p.id
      → P p
      → Kept h laws r hr P n cs
      → Kept h laws r hr P n (keep h n r p cs)
        × ((q : Peer)
            → IsId q.id
            → (p.id ≡ q.id) ⊎ Reaches h laws r hr P n cs q
            → Reaches h laws r hr P n (keep h n r p cs) q)
  keep-Kept p cs i hp k = elim (Bool-cases (has_id p.id cs)) [
    | inl held ↦ rw held (
      k,
      λ q iq c. elim c [
        | inl same ↦ inl (subst (λ x. 0 < count (with_id x) cs) same (counted p.id cs held))
        | inr old ↦ old
      ],
    )
    | inr fresh ↦
        let (k', counts) =
          push_bounded-Kept h laws r hr P n (candidate_of r p) cs (refl, i, hp) k
            (uncounted p.id cs fresh) in
        rw fresh (
          k',
          λ q iq c. elim c [
            | inl same ↦ counts q iq (inl (has_self q.id (candidate_of r p) cs i same))
            | inr (inl member) ↦
                counts q iq (inl (count-grows (with_id q.id) (candidate_of r p) cs member))
            | inr (inr full) ↦ counts q iq (inr full)
          ],
        )
  ]

  -- Peers that came before, and come now.
  keep_all-Kept :
      (ps : List Peer) (cs : List SearchCandidate)
      → All (λ p. IsId p.id × P p) ps
      → Kept h laws r hr P n cs
      → Kept h laws r hr P n (keep_all h n r ps cs)
        × ((q : Peer)
            → IsId q.id
            → Reaches h laws r hr P n cs q
            → Reaches h laws r hr P n (keep_all h n r ps cs) q)
        × All (Reaches h laws r hr P n (keep_all h n r ps cs)) ps
  keep_all-Kept [] cs i k = (k, (λ q iq c. c), tt)
  keep_all-Kept (p ∷ ps) cs i k =
      let (k1, now) = keep-Kept p cs (i.0.0) (i.0.1) k in
      let (k2, later, all) = keep_all-Kept ps (keep h n r p cs) (i.1) k1 in
      (
        k2,
        λ q iq c. later q iq (now q iq (inr c)),
        (later p (i.0.0) (now p (i.0.0) (inl refl)), all),
      )

  covered : (cs : List SearchCandidate) (q : Peer) → Reaches h laws r hr P n cs q → Covered n r cs q
  covered cs q (inl member) = inl (ground (arith, member, has_id-count q.id cs))
  covered cs q (inr full) = inr full

  all-Covered :
      (cs : List SearchCandidate) (ps : List Peer)
      → All (Reaches h laws r hr P n cs) ps
      → All (Covered n r cs) ps
  all-Covered cs [] c = tt
  all-Covered cs (p ∷ ps) c = (covered cs p (c.0), all-Covered cs ps (c.1))

-- With heaps that do what the standard library says, and peers with identifiers of 32 bytes that
-- came in any order, a search keeps at most as many peers as were asked for, each with its distance
-- from the target, each one of those that came, none twice; and every peer that came is kept, or
-- there are as many as were asked for and none of them is farther from the target.
pub found_nearest :
    (h : HeapOps)
    → HeapLaws h
    → (r : DhtId) (hr : IsId r) (count : ℤ) (P : Peer → Type 0) (ps : List Peer)
    → All (λ p. IsId p.id × P p) ps
    → (cs : List SearchCandidate) × ((add_all h ps (new_finder r count)).found_peers ≡ cs)
      × (length cs ≤ to_size count)
      × All (IsMade r P) cs
      × IsDistinct r hr P cs
      × All (Covered (to_size count) r cs) ps
unfolding count
found_nearest h laws r hr count P ps i =
    let n = to_size count in
    let cs = keep_all h n r ps [] in
    let (k, old, all) = keep_all-Kept h laws r hr P n ps [] i (record {
      heap = laws.IsHeap-nil;
      made = tt;
      bounded = omega arith;
      distinct = λ id j. omega arith;
    }) in
    (
      cs,
      add_all-keep h ps (new_finder r count),
      k.bounded,
      k.made,
      k.distinct,
      all-Covered h laws r hr P n cs ps all,
    )
