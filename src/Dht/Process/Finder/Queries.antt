-- ===== src/Dht/Process/Finder/Queries.antt =====
-- Lemmas on whom a search asks, and on how it ends.
use epyx.Base.{
  ℕ, suc, ◌≡◌, sym, ap, ◌∙◌, ◌⊎◌, inl, inr, true, false, List, [], ◌∷◌, ◌++◌, none, some, All, ◌==◌,
  if◌then◌else◌, Bool-cases, Option-cases,
}
use epyx.Base.Int.{pos, to_int32}
use epyx.Dht.Id.{DhtId, distance}
use epyx.Dht.KBucket.{Peer, SearchCandidate}
use epyx.Dht.Packet.{DhtPacket}
use epyx.Dht.Process.{
  Scene, Effect, send, start_timer, on_found, kill, send_query, register_new_connection_id,
}
use epyx.Dht.Process.Setter.{single_request_timeout}
use epyx.Dht.Process.Finder.{
  FinderActor, candidate_of, is_contacted, first_new, find_packet, add_to_contacted_peers,
  send_find_query_to, on_response,
}
use epyx.Dht.Process.Finder.Bounded.{IsMade}

-- No two of the contacted peers are at the same distance.
abbrev pub IsOnce : List SearchCandidate → Type 0
IsOnce [] = Unit
IsOnce (c ∷ cs) = (is_contacted c.0.bytes cs ≡ false) × IsOnce cs

-- The candidates that queries were sent to, the last first.
abbrev pub asked_of : DhtId → List Effect → List SearchCandidate
asked_of r [] = []
asked_of r (send pkt p ∷ es) = asked_of r es ++ candidate_of r p ∷ []
asked_of r (_ ∷ es) = asked_of r es

abbrev pub AnyPeer : Peer → Type 0
AnyPeer p = Unit

-- What `sendNewQuery` finds: a peer that was not contacted, or that all were.
pub first_new_found :
    (r : DhtId) (contacted cs : List SearchCandidate) (p : Peer)
    → All (IsMade r AnyPeer) cs
    → first_new contacted cs ≡ some p
    → is_contacted (distance r p.id).bytes contacted ≡ false
unfolding first_new
first_new_found r contacted [] p m e = absurd (cc e)
first_new_found r contacted (c ∷ cs) p m e = elim (Bool-cases (is_contacted c.0.bytes contacted)) [
  | inl old ↦ first_new_found r contacted cs p m.1 (rw old at e)
  | inr fresh ↦
      let same : some c.1 ≡ some p = rw fresh at e in
      let q : c.1 ≡ p = cc same in
      ap (λ x. is_contacted (distance r x.id).bytes contacted) (sym q)
      ∙ ap (λ d. is_contacted d.bytes contacted) (sym (m.0.0))
      ∙ fresh
]

first_new-none :
    (contacted cs : List SearchCandidate)
    → first_new contacted cs ≡ none
    → All (λ c. is_contacted c.0.bytes contacted ≡ true) cs
unfolding first_new
first_new-none contacted [] e = tt
first_new-none contacted (c ∷ cs) e = elim (Bool-cases (is_contacted c.0.bytes contacted)) [
  | inl old ↦ (old, first_new-none contacted cs (rw old at e))
  | inr fresh ↦ let no : some c.1 ≡ none = rw fresh at e in absurd (cc no)
]

-- The effects of one query.
abbrev pub query_to : DhtPacket → Peer → FinderActor → Scene → List Effect
query_to raw p a s =
    let id = s.registered.process_actors_count in
    send (record (find_packet raw a) { connection_id = to_int32 (pos id) }) p
    ∷ start_timer single_request_timeout id
    ∷ []

-- One response: a peer that was not contacted is asked and the number of open queries stays, or all
-- of the shortlist was contacted and there is one less.
abbrev pub Response : ℕ → DhtPacket → FinderActor → Scene → ℕ → Type 0
Response self raw a s k =
    ((p : Peer) × (is_contacted (distance a.requested_id p.id).bytes a.contacted_peers ≡ false)
      × (on_response self raw a s ≡ (
        record a { contacted_peers = candidate_of a.requested_id p ∷ a.contacted_peers },
        (send_query self p (find_packet raw a) single_request_timeout s).0,
        query_to raw p a s,
      )))
    ⊎ (All (λ c. is_contacted c.0.bytes a.contacted_peers ≡ true) a.shortlist
        × (on_response self raw a s ≡ (
          record a { pending_requests = pos k },
          s,
          if k == 0 then on_found a.found_peers ∷ kill ∷ [] else [],
        )))

-- An answer or a timeout of a search with k + 1 open queries, whose shortlist is made of peers with
-- identifiers of 32 bytes and their distances: one peer that was not contacted is asked, under the
-- next connection id and with a timer, is contacted then, and k + 1 queries stay open; or all of
-- the shortlist was contacted, and the user is told of the peers kept, and the actor killed,
-- exactly where k is 0.
pub on_response_lem :
    (self : ℕ) (raw : DhtPacket) (a : FinderActor) (s : Scene) (k : ℕ)
    → a.pending_requests ≡ pos (suc k)
    → All (IsMade a.requested_id AnyPeer) a.shortlist
    → Response self raw a s k
unfolding on_response send_find_query_to add_to_contacted_peers send_query
    register_new_connection_id
on_response_lem self raw a s k e m = elim (Option-cases (first_new a.contacted_peers a.shortlist)) [
  | inl done ↦ inr (first_new-none a.contacted_peers a.shortlist done, rw (done, e, on_response))
  | inr (p, next) ↦
      let fresh = first_new_found a.requested_id a.contacted_peers a.shortlist p m next in
      inl (p, fresh, rw (next, e, fresh, on_response))
]
