-- ===== src/Dht/Process/Finder/Once.antt =====
-- Lemmas on whom a search asks, from its start on.
use epyx.Base.{
  ℕ, ◌≡◌, refl, sym, ap, ◌∙◌, inl, inr, Bool, true, false, List, [], ◌∷◌, ◌++◌, append_assoc,
  append-nil, subst, some, arith, All, if◌then◌else◌, Bool-cases, Option-cases,
}
use epyx.Base.Int.{ℤ}
use epyx.Dht.Id.{DhtId, IsId, distance}
use epyx.Dht.KBucket.{Peer, SearchCandidate}
use epyx.Dht.Packet.{DhtPacket}
use epyx.Dht.Process.{Scene, Effect, on_found, kill, send_query}
use epyx.Dht.Process.Setter.{decrement, is_zero_int}
use epyx.Dht.Process.Finder.{
  FinderActor, HeapOps, candidate_of, has_distance, has_id, is_contacted, first_new,
  add_to_contacted_peers, send_find_query_to, on_response, add_to_short_list, find_parallel_queries,
  add_to_found_peers, add_all, on_new_answer, begin, new_finder,
}
use epyx.Dht.Process.Finder.Heap.{HeapLaws}
use epyx.Dht.Process.Finder.Counts
use epyx.Dht.Process.Finder.Step.{Kept, push_bounded-Kept}
use epyx.Dht.Process.Finder.Start.{has_distance-absent, ask_all-Asks}
use epyx.Dht.Process.Finder.Queries.{IsOnce, AnyPeer, asked_of, first_new_found}
use epyx.Dht.Process.Finder.Outcomes.{
  Outcome, answered, timed_out, IsWhole, Step, hear, behind, go_on, hear_all, asked_of-append,
}

module _ (h : HeapOps) (laws : HeapLaws h) (r : DhtId) (hr : IsId r) where
  -- A search on its way.
  pub record IsSearching (a : FinderActor) : Type 0 where
    pub target : a.requested_id ≡ r
    pub short : Kept h laws r hr AnyPeer find_parallel_queries a.shortlist
    pub once : IsOnce a.contacted_peers

  abbrev pub Follows : FinderActor → FinderActor → List Effect → Type 0
  Follows a b es = IsSearching b × (b.contacted_peers ≡ asked_of r es ++ a.contacted_peers)

  short_added :
      (p : Peer) (a : FinderActor)
      → IsId p.id
      → IsSearching a
      → IsSearching (add_to_short_list h p a)
        × ((add_to_short_list h p a).contacted_peers ≡ a.contacted_peers)
  unfolding add_to_short_list
  short_added p a i k =
      elim (Bool-cases (has_distance (distance a.requested_id p.id).bytes a.shortlist)) [
        | inl old ↦ rw old (k, refl)
        | inr far ↦
            let e : distance a.requested_id p.id ≡ distance r p.id =
              ap (λ x. distance x p.id) k.target in
            let far' = ap (λ d. has_distance d.bytes a.shortlist) (sym e) ∙ far in
            let none_here = has_distance-absent r hr p a.shortlist i (k.short).made far' in
            let c = candidate_of a.requested_id p in
            let kept =
              push_bounded-Kept h laws r hr AnyPeer find_parallel_queries c a.shortlist (e, i, tt)
                k.short none_here in
            rw far (record { target = k.target; short = kept.0; once = k.once }, refl)
      ]

  found_added :
      (p : Peer) (a : FinderActor)
      → IsSearching a
      → IsSearching (add_to_found_peers h p a)
        × ((add_to_found_peers h p a).contacted_peers ≡ a.contacted_peers)
  unfolding add_to_found_peers
  found_added p a k = elim (Bool-cases (has_id p.id a.found_peers)) [
    | inl held ↦ rw held (k, refl)
    | inr fresh ↦ rw fresh (record { target = k.target; short = k.short; once = k.once }, refl)
  ]

  all_added :
      (ps : List Peer) (a : FinderActor)
      → All (λ p. IsId p.id) ps
      → IsSearching a
      → IsSearching (add_all h ps a) × ((add_all h ps a).contacted_peers ≡ a.contacted_peers)
  unfolding add_all
  all_added [] a i k = (k, refl)
  all_added (p ∷ ps) a i k =
      let (k1, e1) = short_added p a i.0 k in
      let (k2, e2) = found_added p (add_to_short_list h p a) k1 in
      let (k3, e3) = all_added ps (add_to_found_peers h p (add_to_short_list h p a)) i.1 k2 in
      (k3, e3 ∙ e2 ∙ e1)

  response-Follows :
      (self : ℕ) (raw : DhtPacket) (a : FinderActor) (s : Scene)
      → IsSearching a
      → Follows a (on_response self raw a s).0 (on_response self raw a s).2
  unfolding on_response send_find_query_to add_to_contacted_peers send_query
  response-Follows self raw a s k = elim (Option-cases (first_new a.contacted_peers a.shortlist)) [
    | inl done ↦ rw (done, on_response) (quiet_end (is_zero_int (decrement a.pending_requests)))
    | inr (p, next) ↦
        let t = k.target in
        let fresh' = first_new_found r a.contacted_peers a.shortlist p (k.short).made next in
        let fresh = ap (λ x. is_contacted (distance x p.id).bytes a.contacted_peers) t ∙ fresh' in
        rw (next, fresh, on_response)
          (
            record { target = t; short = k.short; once = (fresh, k.once) },
            ap (λ x. candidate_of x p ∷ a.contacted_peers) t,
          )
  ]
    where
      quiet_end :
          (b : Bool)
          → Follows a
              (record a { pending_requests = decrement a.pending_requests })
              (if b then on_found a.found_peers ∷ kill ∷ [] else [])
      quiet_end true = (record { target = k.target; short = k.short; once = k.once }, refl)
      quiet_end false = (record { target = k.target; short = k.short; once = k.once }, refl)

  -- A step of a search, and what follows from the state before it.
  abbrev pub Goes : FinderActor → Step → Type 0
  Goes a st =
      (b : FinderActor) × (t : Scene) × (es : List Effect) × (st ≡ some (b, t, es)) × Follows a b es

  hear-Goes :
      (self : ℕ) (raw : DhtPacket) (o : Outcome) (a : FinderActor) (s : Scene)
      → IsWhole o
      → IsSearching a
      → Goes a (hear h self raw o a s)
  unfolding on_new_answer
  hear-Goes self raw timed_out a s w k = (_, _, _, refl, response-Follows self raw a s k)
  hear-Goes self raw (answered pkt) a s (inl mute) k =
      let now = on_response self raw a s in
      (now.0, now.1, now.2, rw (mute, on_new_answer), response-Follows self raw a s k)
  hear-Goes self raw (answered pkt) a s (inr (ps, loud, found, ids)) k =
      let (k1, same) = all_added ps a ids k in
      let (k2, e) = response-Follows self raw (add_all h ps a) s k1 in
      let now = on_response self raw (add_all h ps a) s in
      (
        now.0,
        now.1,
        now.2,
        rw (loud, found, on_new_answer),
        (k2, e ∙ ap (λ x. asked_of r now.2 ++ x) same),
      )

  hear_all-Goes :
      (self : ℕ) (raw : DhtPacket) (os : List Outcome) (a : FinderActor) (s : Scene)
      → All IsWhole os
      → IsSearching a
      → Goes a (hear_all h self raw os a s)
  hear_all-Goes self raw [] a s w k = (a, s, [], refl, (k, refl))
  hear_all-Goes self raw (o ∷ os) a s w k =
      let (b, t, now, e, (kb, eb)) = hear-Goes self raw o a s (w.0) k in
      let (c, u, later, f, (kc, ec)) = hear_all-Goes self raw os b t (w.1) kb in
      (
        c,
        u,
        now ++ later,
        ap (go_on (hear_all h self raw os)) e ∙ ap (behind now) f,
        (
          kc,
          ec
              ∙ ap (λ x. asked_of r later ++ x) eb
              ∙ sym (append_assoc (asked_of r later) (asked_of r now) a.contacted_peers)
              ∙ ap (λ x. x ++ a.contacted_peers) (sym (asked_of-append r now later)),
        ),
      )

  new_finder-IsSearching : (count : ℤ) → IsSearching (new_finder r count)
  unfolding Counts.count
  new_finder-IsSearching count = record {
    target = refl;
    short = record {
      heap = laws.IsHeap-nil;
      made = tt;
      bounded = omega arith;
      distinct = λ id i. omega arith;
    };
    once = tt;
  }

  none_contacted : (cs : List SearchCandidate) → All (λ c. is_contacted c.0.bytes [] ≡ false) cs
  unfolding is_contacted
  none_contacted [] = tt
  none_contacted (c ∷ cs) = (refl, none_contacted cs)

  -- The start, of a search that has contacted nobody.
  begin-Follows :
      (self : ℕ) (raw : DhtPacket) (a : FinderActor) (s : Scene)
      → a.contacted_peers ≡ []
      → IsSearching a
      → IsSearching (begin h self raw a s).0
        × ((begin h self raw a s).0.contacted_peers ≡ asked_of r (begin h self raw a s).2)
  begin-Follows self raw a s e k =
      let fresh =
        subst (λ x. All (λ c. is_contacted c.0.bytes x ≡ false) a.shortlist) (sym e)
          (none_contacted a.shortlist) in
      let (t, l, c, once) =
        ask_all-Asks r hr self raw a.shortlist a s k.target (k.short).made (k.short).distinct fresh
          k.once in
      (
        record {
          target = t ∙ k.target;
          short = subst (Kept h laws r hr AnyPeer find_parallel_queries) (sym l) k.short;
          once = once;
        },
        c ∙ ap (λ x. asked_of r (begin h self raw a s).2 ++ x) e ∙ append-nil _,
      )

  -- With heaps that do what the standard library says, from the start of a search on, through any
  -- sequence of answers (a FOUND that tells of peers has them, with identifiers of 32 bytes) and
  -- timeouts, no null pointer is followed, the contacted peers are exactly those that queries were
  -- sent to, at the start and since, and no two of these queries went to peers at the same
  -- distance, so that none is asked twice.
  pub asked-IsOnce :
      (self : ℕ) (raw : DhtPacket) (count : ℤ) (nearest : List Peer) (os : List Outcome) (s : Scene)
      → All (λ p. IsId p.id) nearest
      → All IsWhole os
      → (a b : FinderActor) × (t u : Scene) × (es fs : List Effect) × (begin h self raw
            (add_all h nearest (new_finder r count))
            s
          ≡ (a, t, es))
        × (hear_all h self raw os a t ≡ some (b, u, fs))
        × (a.contacted_peers ≡ asked_of r es)
        × (b.contacted_peers ≡ asked_of r (es ++ fs))
        × IsOnce (asked_of r (es ++ fs))
  asked-IsOnce self raw count nearest os s ids w =
      let a0 = add_all h nearest (new_finder r count) in
      let (k0, same) = all_added nearest (new_finder r count) ids (new_finder-IsSearching count) in
      let (k, asked) = begin-Follows self raw a0 s same k0 in
      let (b, u, fs, e, (kb, eb)) =
        hear_all-Goes self raw os (begin h self raw a0 s).0 (begin h self raw a0 s).1 w k in
      let es = (begin h self raw a0 s).2 in
      let all : b.contacted_peers ≡ asked_of r (es ++ fs) =
        eb ∙ ap (λ x. asked_of r fs ++ x) asked ∙ sym (asked_of-append r es fs) in
      (
        (begin h self raw a0 s).0,
        b,
        (begin h self raw a0 s).1,
        u,
        es,
        fs,
        refl,
        e,
        asked,
        all,
        subst IsOnce all kb.once,
      )
