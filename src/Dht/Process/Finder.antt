-- ===== src/Dht/Process/Finder.antt =====
-- dht/finder-actor.h, dht/finder-actor.cpp and dht/consts.h: the search for the peers closest to an
-- identifier. Both lists are heaps of the standard library in vectors, the farthest first; where the
-- others stand is left to the library, and they are visited in that order: `heap_push` and `heap_pop`
-- are parameters. `raw` is the memory of a new packet. The children: Heap (what the library says of
-- a heap), Found (the peers that are kept, by Counts, Bounded and Step), Queries (what a response
-- does), Once (who is asked, with Outcomes and Start).
pub mod Heap
pub mod Counts
pub mod Bounded
pub mod Step
pub mod Found
pub mod Queries
pub mod Outcomes
pub mod Start
pub mod Once
mod Tests
use epyx.Base.{
  ℕ, zero, suc, Bool, true, false, not, ◌&&◌, ◌||◌, List, [], ◌∷◌, ◌++◌, Option, none, some, ltb,
  if◌then◌else◌, length, map,
}
use epyx.Base.Int.{ℤ, pos, negsuc}
use epyx.Dht.Id.{DhtId, Distance, distance, id_eq, id_lt}
use epyx.Dht.KBucket.{Peer, KBucket, SearchCandidate, find_nearest_nodes}
use epyx.Dht.Packet.{blank_packet, DhtPacket, DhtMethod, m_find, m_found, is_zero}
use epyx.Dht.Process.{Scene, Effect, on_found, on_error, kill, send_query}
use epyx.Dht.Process.Setter.{decrement, single_request_timeout, is_zero_int}
use epyx.Parser.Gtt.Syntax.{to_size}

abbrev pub find_nb_node_requested : ℕ
find_nb_node_requested = 5

abbrev pub find_parallel_queries : ℕ
find_parallel_queries = 3

pub record FinderActor : Type 0 where
  pub found_peers : List SearchCandidate
  pub shortlist : List SearchCandidate
  pub contacted_peers : List SearchCandidate
  pub count_to_find : ℤ
  pub pending_requests : ℤ
  pub requested_id : DhtId

-- The constructor.
abbrev pub new_finder : DhtId → ℤ → FinderActor
new_finder id_to_find count = record {
  found_peers = [];
  shortlist = [];
  contacted_peers = [];
  count_to_find = count;
  pending_requests = pos 0;
  requested_id = id_to_find;
}

abbrev pub candidate_of : DhtId → Peer → SearchCandidate
candidate_of requested p = (distance requested p.id, p)

-- The loop of `addToShortList`: `operator==` of distances is the one of identifiers.
unfoldable pub has_distance : DhtId → List SearchCandidate → Bool
unfolding id_eq
has_distance dist [] = false
has_distance dist (c ∷ cs) = if id_eq c.0.bytes dist then true else has_distance dist cs

-- The loop of `addToFoundPeers`.
unfoldable pub has_id : DhtId → List SearchCandidate → Bool
unfolding id_eq
has_id id [] = false
has_id id (c ∷ cs) = if id_eq c.1.id id then true else has_id id cs

-- `contactedPeers.find`, by `operator<` of the keys, and `insert`.
unfoldable pub is_contacted : DhtId → List SearchCandidate → Bool
unfolding id_lt
is_contacted dist [] = false
is_contacted dist (c ∷ cs) =
    if not (id_lt c.0.bytes dist) && not (id_lt dist c.0.bytes) then true else is_contacted dist cs

unfoldable pub add_to_contacted_peers : Peer → FinderActor → FinderActor
unfolding is_contacted
add_to_contacted_peers p a =
    let c = candidate_of a.requested_id p in
    if is_contacted c.0.bytes a.contacted_peers
    then a
    else record a { contacted_peers = c ∷ a.contacted_peers }

-- `n + 1`.
abbrev pub increment : ℤ → ℤ
increment (pos n) = pos (suc n)
increment (negsuc zero) = pos 0
increment (negsuc (suc n)) = negsuc n

-- The packet of `sendFindQueryTo`.
abbrev pub find_packet : DhtPacket → FinderActor → DhtPacket
find_packet raw a = record (blank_packet raw) {
  method = m_find;
  count = pos find_nb_node_requested;
  id_to_find = a.requested_id;
}

-- `sendFindQueryTo`.
unfoldable pub send_find_query_to :
    ℕ → DhtPacket → Peer → FinderActor → Scene → FinderActor × Scene × List Effect
unfolding add_to_contacted_peers send_query
send_find_query_to self raw p a s =
    let b = add_to_contacted_peers p a in
    let (s1, sent) = send_query self p (find_packet raw a) single_request_timeout s in
    (record b { pending_requests = increment b.pending_requests }, s1, sent)

-- The loop of `sendNewQuery`: the first peer of the list that was not contacted.
unfoldable pub first_new : List SearchCandidate → List SearchCandidate → Option Peer
unfolding is_contacted
first_new contacted [] = none
first_new contacted (c ∷ cs) =
    if is_contacted c.0.bytes contacted then first_new contacted cs else some c.1

-- `onResponse`, with `sendNewQuery`.
unfoldable pub on_response : ℕ → DhtPacket → FinderActor → Scene → FinderActor × Scene × List Effect
unfolding first_new send_find_query_to
on_response self raw a s =
    let b = record a { pending_requests = decrement a.pending_requests } in
    elim (first_new b.contacted_peers b.shortlist) [
      | some p ↦ send_find_query_to self raw p b s
      | none ↦
          (b, s, if is_zero_int b.pending_requests then on_found b.found_peers ∷ kill ∷ [] else [])
    ]

-- `onAnswerTimeout`.
abbrev pub on_answer_timeout :
    ℕ → DhtPacket → FinderActor → Scene → FinderActor × Scene × List Effect
on_answer_timeout = on_response

-- `timeout()`.
abbrev pub give_up : List Effect
give_up = on_error ∷ kill ∷ []

-- The loop of `start` over the shortlist.
unfoldable pub ask_all :
    ℕ → DhtPacket → List SearchCandidate → FinderActor → Scene → FinderActor × Scene × List Effect
unfolding send_find_query_to
ask_all self raw [] a s = (a, s, [])
ask_all self raw (c ∷ cs) a s =
    let (b, s1, sent) = send_find_query_to self raw c.1 a s in
    let (d, s2, more) = ask_all self raw cs b s1 in (d, s2, sent ++ more)

abbrev pub is_found : DhtMethod → Bool
is_found m_found = true
is_found _ = false

abbrev pub is_positive : ℤ → Bool
is_positive (pos (suc n)) = true
is_positive _ = false

-- `push_back` and `std::push_heap`; `std::pop_heap` and `pop_back`.
pub record HeapOps : Type 0 where
  pub heap_push : SearchCandidate → List SearchCandidate → List SearchCandidate
  pub heap_pop : List SearchCandidate → List SearchCandidate

module _ (h : HeapOps) where
  -- The last lines of `addToShortList` and of `addToFoundPeers`: at most `n` stay.
  unfoldable pub push_bounded : ℕ → SearchCandidate → List SearchCandidate → List SearchCandidate
  push_bounded n c cs =
      let more = h.heap_push c cs in if ltb n (length more) then h.heap_pop more else more

  unfoldable pub add_to_short_list : Peer → FinderActor → FinderActor
  unfolding push_bounded has_distance
  add_to_short_list p a =
      let c = candidate_of a.requested_id p in
      if has_distance c.0.bytes a.shortlist
      then a
      else record a { shortlist = push_bounded find_parallel_queries c a.shortlist }

  unfoldable pub add_to_found_peers : Peer → FinderActor → FinderActor
  unfolding push_bounded has_id
  add_to_found_peers p a = if has_id p.id a.found_peers then a else record a {
    found_peers =
        push_bounded (to_size a.count_to_find) (candidate_of a.requested_id p) a.found_peers;
  }

  -- The loop over the peers, in `start` and `onNewAnswer`.
  unfoldable pub add_all : List Peer → FinderActor → FinderActor
  unfolding add_to_short_list add_to_found_peers
  add_all [] a = a
  add_all (p ∷ ps) a = add_all ps (add_to_found_peers p (add_to_short_list p a))

  -- `onNewAnswer`; `none` where it follows a null pointer to the peers.
  unfoldable pub on_new_answer :
      ℕ → DhtPacket → DhtPacket → FinderActor → Scene → Option (FinderActor × Scene × List Effect)
  unfolding add_all on_response
  on_new_answer self raw pkt a s =
      if is_found pkt.method && is_zero pkt.status && is_positive pkt.count
      then elim pkt.found_peers [
        | none ↦ none
        | some ps ↦ some (on_response self raw (add_all ps a) s)
      ]
      else some (on_response self raw a s)

  abbrev pub begin : ℕ → DhtPacket → FinderActor → Scene → FinderActor × Scene × List Effect
  begin self raw a s = ask_all self raw a.shortlist a s

  -- `start`, on the table of the node; `none` where the search in it reads an empty queue.
  unfoldable pub start :
      ℕ → DhtPacket → KBucket → FinderActor → Scene → Option (FinderActor × Scene × List Effect)
  unfolding add_all ask_all find_nearest_nodes
  start self raw k a s = elim (find_nearest_nodes a.requested_id (to_size a.count_to_find) k) [
    | none ↦ none
    | some nearest ↦ some (begin self raw (add_all nearest a) s)
  ]
