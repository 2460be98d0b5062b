-- ===== src/Dht/Process/Finder/Start.antt =====
-- Lemmas on the queries of the start of a search.
use epyx.Base.{
  ℕ, ◌≡◌, refl, sym, ap, subst, ◌∙◌, inl, inr, true, false, not, ◌&&◌, List, [], ◌∷◌, ◌++◌,
  append_assoc, arith, All, Bool-cases,
}
use epyx.Dht.Id.{DhtId, IsId, distance, id_eq, id_lt}
use epyx.Dht.Id.FirstBit.{distance-IsId}
use epyx.Dht.Id.Metric.{distance_metric}
use epyx.Dht.Id.Order.{id_compare}
use epyx.Dht.KBucket.{Peer, SearchCandidate}
use epyx.Dht.Packet.{DhtPacket}
use epyx.Dht.Process.{Scene, Effect, send_query}
use epyx.Dht.Process.Finder.{
  FinderActor, candidate_of, has_distance, is_contacted, add_to_contacted_peers, send_find_query_to,
  ask_all,
}
use epyx.Dht.Process.Finder.Bounded.{IsMade, with_id, IsDistinct}
use epyx.Dht.Process.Finder.Counts.{count, count-All}
use epyx.Dht.Process.Finder.Outcomes.{asked_of-append}
use epyx.Dht.Process.Finder.Queries.{IsOnce, AnyPeer, asked_of}

module _ (r : DhtId) (hr : IsId r) where
  -- What `addToShortList` finds no distance of is not in the list.
  pub has_distance-absent :
      (p : Peer) (cs : List SearchCandidate)
      → IsId p.id
      → All (IsMade r AnyPeer) cs
      → has_distance (distance r p.id).bytes cs ≡ false
      → count (with_id p.id) cs ≡ 0
  unfolding has_distance count
  has_distance-absent p [] i m e = refl
  has_distance-absent p (c ∷ cs) i m e =
      elim (Bool-cases (id_eq c.0.bytes (distance r p.id).bytes)) [
        | inl hit ↦ let no : true ≡ false = rw hit at e in absurd (cc no)
        | inr far ↦ elim (Bool-cases (id_eq c.1.id p.id)) [
          | inr miss ↦ rw miss (has_distance-absent p cs i m.1 (rw far at e))
          | inl same ↦
              let q : c.1.id ≡ p.id = (id_compare c.1.id p.id (m.0.1) i).2.0 same in
              let d : c.0.bytes ≡ (distance r p.id).bytes =
                ap (λ x. x.bytes) (m.0.0) ∙ ap (λ x. (distance r x).bytes) q in
              let j = distance-IsId r p.id hr i in
              let hit =
                (id_compare c.0.bytes (distance r p.id).bytes (subst IsId (sym d) j) j).2.1 d in
              absurd (cc (sym hit ∙ far))
        ]
      ]

  -- Made of peers with other identifiers, two candidates are not taken for the same.
  apart :
      (c e : SearchCandidate) (cs : List SearchCandidate)
      → IsMade r AnyPeer c
      → IsMade r AnyPeer e
      → with_id c.1.id e ≡ false
      → is_contacted e.0.bytes cs ≡ false
      → is_contacted e.0.bytes (candidate_of r c.1 ∷ cs) ≡ false
  unfolding is_contacted
  apart c e cs m n other fresh =
      let d = distance r c.1.id in
      let j = distance-IsId r c.1.id hr (m.1) in
      let i : IsId e.0.bytes =
        subst (λ x. IsId x.bytes) (sym (n.0)) (distance-IsId r e.1.id hr (n.1)) in
      let (lt, eq, iff) = id_compare d.bytes e.0.bytes j i in
      let (gt, eq', iff') = id_compare e.0.bytes d.bytes i j in
      elim (Bool-cases (not (id_lt d.bytes e.0.bytes) && not (id_lt e.0.bytes d.bytes))) [
        | inr far ↦ rw (far, fresh)
        | inl same ↦
            let hit : id_eq d.bytes e.0.bytes ≡ true = ground (arith, lt, eq, gt, same) in
            let q : d.bytes ≡ (distance r e.1.id).bytes = iff.0 hit ∙ ap (λ x. x.bytes) (n.0) in
            let (a1, a2, a3, cancel) = distance_metric r c.1.id e.1.id hr (m.1) (n.1) in
            let there = (id_compare e.1.id c.1.id (n.1) (m.1)).2.1 (sym (cancel.0 q)) in
            absurd (cc (sym there ∙ other))
      ]

  others_fresh :
      (c : SearchCandidate) (cs contacted : List SearchCandidate)
      → IsMade r AnyPeer c
      → All (IsMade r AnyPeer) cs
      → All (λ e. with_id c.1.id e ≡ false) cs
      → All (λ e. is_contacted e.0.bytes contacted ≡ false) cs
      → All (λ e. is_contacted e.0.bytes (candidate_of r c.1 ∷ contacted) ≡ false) cs
  others_fresh c [] contacted m ms o f = tt
  others_fresh c (e ∷ cs) contacted m ms o f =
      (apart c e contacted m ms.0 o.0 f.0, others_fresh c cs contacted m ms.1 o.1 f.1)

  IsDistinct-rest :
      (c : SearchCandidate) (cs : List SearchCandidate)
      → IsMade r AnyPeer c
      → IsDistinct r hr AnyPeer (c ∷ cs)
      → All (λ e. with_id c.1.id e ≡ false) cs × IsDistinct r hr AnyPeer cs
  unfolding count
  IsDistinct-rest c cs m d =
      let self : with_id c.1.id c ≡ true = (id_compare c.1.id c.1.id (m.1) (m.1)).2.1 refl in
      let once = d c.1.id (m.1) in
      (
        count-All (with_id c.1.id) cs (ground (arith, once, self)),
        λ id i. let l = d id i in ground (arith, l),
      )

  -- The queries of the start go to the peers of the list, each is contacted, and none is met twice.
  abbrev pub Asks : FinderActor → FinderActor → List Effect → Type 0
  Asks a b es =
      (b.requested_id ≡ a.requested_id)
      × (b.shortlist ≡ a.shortlist)
      × (b.contacted_peers ≡ asked_of r es ++ a.contacted_peers)
      × IsOnce b.contacted_peers

  -- One query, to a peer that was not contacted.
  pub asked_first :
      (self : ℕ) (raw : DhtPacket) (c : SearchCandidate) (a : FinderActor) (s : Scene)
      → a.requested_id ≡ r
      → IsMade r AnyPeer c
      → is_contacted c.0.bytes a.contacted_peers ≡ false
      → IsOnce a.contacted_peers
      → Asks a (send_find_query_to self raw c.1 a s).0 (send_find_query_to self raw c.1 a s).2
        × ((send_find_query_to self raw c.1 a s).0.contacted_peers
            ≡ candidate_of r c.1 ∷ a.contacted_peers)
  unfolding send_find_query_to add_to_contacted_peers send_query
  asked_first self raw c a s t m f once =
      let fresh : is_contacted (distance r c.1.id).bytes a.contacted_peers ≡ false =
        ap (λ x. is_contacted x.bytes a.contacted_peers) (sym (m.0)) ∙ f in
      let fresh' : is_contacted (distance a.requested_id c.1.id).bytes a.contacted_peers ≡ false =
        ap (λ x. is_contacted (distance x c.1.id).bytes a.contacted_peers) t ∙ fresh in
      let e = ap (λ x. candidate_of x c.1 ∷ a.contacted_peers) t in
      rw fresh' ((refl, refl, e, (fresh', once)), e)

  pub ask_all-Asks :
      (self : ℕ) (raw : DhtPacket) (cs : List SearchCandidate) (a : FinderActor) (s : Scene)
      → a.requested_id ≡ r
      → All (IsMade r AnyPeer) cs
      → IsDistinct r hr AnyPeer cs
      → All (λ c. is_contacted c.0.bytes a.contacted_peers ≡ false) cs
      → IsOnce a.contacted_peers
      → Asks a (ask_all self raw cs a s).0 (ask_all self raw cs a s).2
  unfolding ask_all
  ask_all-Asks self raw [] a s t m d f once = (refl, refl, refl, once)
  ask_all-Asks self raw (c ∷ cs) a s t m d f once =
      let (b, s1, sent) = send_find_query_to self raw c.1 a s in
      let ((t1, l1, e1, once1), e) = asked_first self raw c a s t m.0 f.0 once in
      let (others, d') = IsDistinct-rest c cs m.0 d in
      let f' =
        subst (λ x. All (λ o. is_contacted o.0.bytes x ≡ false) cs) (sym e)
          (others_fresh c cs a.contacted_peers m.0 m.1 others f.1) in
      let (t2, l2, e2, once2) = ask_all-Asks self raw cs b s1 (t1 ∙ t) m.1 d' f' once1 in
      let more = (ask_all self raw cs b s1).2 in
      (
        t2 ∙ t1,
        l2 ∙ l1,
        e2
            ∙ ap (λ x. asked_of r more ++ x) e1
            ∙ sym (append_assoc (asked_of r more) (asked_of r sent) a.contacted_peers)
            ∙ ap (λ x. x ++ a.contacted_peers) (sym (asked_of-append r sent more)),
        once2,
      )
