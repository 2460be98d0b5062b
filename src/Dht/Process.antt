-- ===== src/Dht/Process.antt =====
-- dht/process-actor.h, dht/process-actor.cpp and the registry of dht/internal-node.cpp: queries with
-- a connection id, their answers and their timeouts. An actor is named by a number (its ActorId).
-- `onNewAnswer` and `onAnswerTimeout` are virtual: a handler tells by `some` that it calls them. The
-- child Registry proves what the handlers keep true, Counted what they let through; Setter, Getter
-- and Finder are the actors.
pub mod Registry
pub mod Counted
pub mod Setter
pub mod Getter
pub mod Finder
mod Tests
use epyx.Base.{
  ℕ, zero, suc, ◌+◌, Bool, true, false, List, [], ◌∷◌, Option, none, some, if◌then◌else◌, Bytes,
}
use epyx.Base.Dict
use epyx.Base.Dict.{Dict, nat_order}
use epyx.Base.Int.{ℤ, pos, negsuc, to_int32}
use epyx.Core.AtomMap
use epyx.Core.AtomMap.{AtomMap}
use epyx.Dht.Id.{DhtId, Distance}
use epyx.Dht.KBucket.{Peer}
use epyx.Dht.Packet.{DhtPacket}

-- The part of `InternalNode` that knows the process actors.
pub record Registered : Type 0 where
  pub process_actors_count : ℕ
  pub process_actors : AtomMap ℕ ℕ

-- `InternalNode::registerNewConnectionId`.
unfoldable pub register_new_connection_id : ℕ → Registered → ℕ × Registered
unfolding AtomMap.set
register_new_connection_id actor r =
    let n = r.process_actors_count in
    (
      n,
      record {
        process_actors_count = n + 1;
        process_actors = AtomMap.set n actor r.process_actors;
      },
    )

-- `InternalNode::unregisterConnectionId`.
unfoldable pub unregister_connection_id : ℕ → Registered → Registered
unfolding AtomMap.unset
unregister_connection_id id r = record r { process_actors = (AtomMap.unset id r.process_actors).1 }

-- The key of a map with `long` keys that an `int` makes; the map has no negative ones.
abbrev pub find_long {ℓ} : {V : Type ℓ} → ℤ → (ℕ → Option V) → Option V
find_long (pos n) look = look n
find_long (negsuc n) look = none

-- `InternalNode::dispatchToProcessActor`: the actor that gets the packet.
unfoldable pub dispatch_to_process_actor : ℤ → Registered → Option ℕ
unfolding AtomMap.find
dispatch_to_process_actor id r = find_long id (λ n. AtomMap.find n r.process_actors)

-- What the actors do beside changing their state.
pub data Effect : Type 0 where
  send : DhtPacket → Peer → Effect
  start_timer : ℕ → ℕ → Effect
  find_closest : ℕ → DhtId → Effect
  on_found_peers : List Peer → Effect
  on_found : List (Distance × Peer) → Effect
  on_set : Effect
  on_got : Bytes → Effect
  on_error : Effect
  kill : Effect

-- A process actor and the registry of its node.
pub record Scene : Type 0 where
  pub queries : Dict ℕ Bool
  pub registered : Registered

-- `ProcessActor::sendQuery` of the actor `self`.
unfoldable pub send_query : ℕ → Peer → DhtPacket → ℕ → Scene → Scene × List Effect
unfolding register_new_connection_id Dict.set to_int32
send_query self peer pkt timeout s =
    let (id, registered) = register_new_connection_id self s.registered in
    (
      record { queries = Dict.set id true s.queries; registered = registered },
      send (record pkt { connection_id = to_int32 (pos id) }) peer ∷ start_timer timeout id ∷ [],
    )

-- `(*it).second = false` and `unregisterConnectionId`.
unfoldable pub settle : ℕ → Scene → Scene
unfolding Dict.set unregister_connection_id
settle id s = record {
  queries = Dict.set id false s.queries;
  registered = unregister_connection_id id s.registered;
}

-- `treat("process receive")`, by the connection id of the packet.
unfoldable pub process_receive_at : ℕ → Scene → Option Scene
unfolding Dict.find settle
process_receive_at id s = elim (Dict.find id s.queries) [
  | none ↦ none
  | some waiting ↦ if waiting then some (settle id s) else none
]

unfoldable pub process_receive : ℤ → Scene → Option Scene
unfolding process_receive_at
process_receive id s = find_long id (λ n. process_receive_at n s)

-- `timeout("process timeout")`.
unfoldable pub process_timeout : ℕ → Scene → Option Scene
unfolding Dict.find settle
process_timeout id s = elim (Dict.find id s.queries) [
  | none ↦ none
  | some waiting ↦ some (settle id s)
]
