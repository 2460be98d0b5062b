-- ===== src/Dht/Process/Setter/Asked.antt =====
-- What a set operation sends once the peers are found.
use epyx.Base.{ℕ, ◌+◌, List, [], ◌∷◌}
use epyx.Base.Int.{pos, to_int32}
use epyx.Dht.KBucket.{Peer}
use epyx.Dht.Packet.{DhtPacket}
use epyx.Dht.Process.{Effect, send, start_timer}
use epyx.Dht.Process.Setter.{single_request_timeout}

-- One STORE and one timer for each peer, with the connection ids from `n` on.
abbrev pub asked : ℕ → DhtPacket → List Peer → List Effect
asked n pkt [] = []
asked n pkt (p ∷ ps) =
    send (record pkt { connection_id = to_int32 (pos n) }) p
    ∷ start_timer single_request_timeout n
    ∷ asked (n + 1) pkt ps
