-- ===== src/Dht/Replicater.antt =====
-- dht/replicater-actor.h and dht/replicater-actor.cpp: the actor that stores the keys of a node again
-- from time to time, and the callback that it gives to a set operation. A timer is for the message
-- "replicate" with the key. The child Again is about whether a key is stored again.
pub mod Again
mod Tests
use epyx.Base.{
  ℕ, ◌*◌, Bool, true, false, ◌||◌, List, [], ◌∷◌, ◌++◌, Option, none, some, if◌then◌else◌, Bytes,
}
use epyx.Dht.Id.{DhtId, id_eq}
use epyx.Dht.KBucket.{Peer}
use epyx.Dht.Node.{Stock, get}
use epyx.Dht.Process
use epyx.Dht.Process.{on_found_peers, on_set, on_error}

abbrev pub replication_timeout : ℕ
replication_timeout = 60 * 1000

pub record ReplicaterSetCallback : Type 0 where
  pub is_handling_key : Bool
  pub key : Bytes

-- The constructor.
abbrev pub new_callback : Bytes → ReplicaterSetCallback
new_callback key = record { is_handling_key = false; key = key }

-- A timer with its time and key, or a set operation of a key and a value with a new callback.
pub data Effect : Type 0 where
  start_timer : ℕ → Bytes → Effect
  set_value : ReplicaterSetCallback → Bytes → Bytes → Effect

-- `treat("new key")`.
abbrev pub treat_new_key : Bytes → List Effect
treat_new_key key = start_timer replication_timeout key ∷ []

-- `timeout("replicate")`.
unfoldable pub replicate : Bytes → Stock → List Effect
unfolding get
replicate key storage = elim (get key storage) [
  | none ↦ []
  | some v ↦ set_value (new_callback key) key v ∷ []
]

-- `onSet`.
abbrev pub on_set_done : ReplicaterSetCallback → List Effect
on_set_done c = if c.is_handling_key then start_timer replication_timeout c.key ∷ [] else []

-- The loop of `onFoundPeers`, at the node `id`.
unfoldable pub is_among : DhtId → List Peer → Bool
unfolding id_eq
is_among id [] = false
is_among id (p ∷ ps) = let rest = is_among id ps in if id_eq p.id id then true else rest

abbrev pub on_peers_found : DhtId → List Peer → ReplicaterSetCallback → ReplicaterSetCallback
on_peers_found id peers c = record c { is_handling_key = c.is_handling_key || is_among id peers }

-- What the callback does with the effects of its set operation that are calls of it; `onError` is
-- the one of `SetCallback`, which does nothing.
unfoldable pub hear : DhtId → List Process.Effect → ReplicaterSetCallback → List Effect
unfolding is_among
hear id [] c = []
hear id (on_found_peers peers ∷ es) c = hear id es (on_peers_found id peers c)
hear id (on_set ∷ es) c = on_set_done c ++ hear id es c
hear id (_ ∷ es) c = hear id es c
