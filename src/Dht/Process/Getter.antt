-- ===== src/Dht/Process/Getter.antt =====
-- dht/getter-actor.h and dht/getter-actor.cpp: a value asked of the nodes closest to its key. The child
-- Outcome proves what the user is told.
pub mod Outcome
use epyx.Base.{
  ℕ, zero, suc, ◌+◌, Bool, true, false, ◌&&◌, List, [], ◌∷◌, ◌++◌, Option, none, some, ◌==◌,
  if◌then◌else◌, length, Bytes,
}
use epyx.Base.Int.{ℤ, pos, negsuc, to_int32}
use epyx.Dht.Id.{DhtId}
use epyx.Dht.KBucket.{Peer}
use epyx.Dht.Packet.{blank_packet, DhtPacket, DhtMethod, m_get, m_got, is_zero}
use epyx.Dht.Process.{Scene, Effect, find_closest, on_got, on_error, kill, send_query}
use epyx.Dht.Process.Setter.{decrement, single_request_timeout, is_zero_int}

abbrev pub get_redundancy : ℕ
get_redundancy = 10

pub record GetterActor : Type 0 where
  pub key : Bytes
  pub pending_requests : ℤ
  pub found : Bool

-- `start`.
abbrev pub start : (Bytes → DhtId) → GetterActor → List Effect
start for_string a = find_closest get_redundancy (for_string a.key) ∷ []

-- `timeout()`, and the handler of "find failure".
abbrev pub give_up : List Effect
give_up = on_error ∷ kill ∷ []

-- The packet of `ask`.
abbrev pub get_packet : DhtPacket → GetterActor → DhtPacket
get_packet raw a = record (blank_packet raw) { method = m_get; key = a.key }

-- The loop over the peers that asks each.
unfoldable pub ask_all : ℕ → DhtPacket → GetterActor → List Peer → Scene → Scene × List Effect
unfolding send_query
ask_all self raw a [] s = (s, [])
ask_all self raw a (p ∷ ps) s =
    let (s1, sent) = send_query self p (get_packet raw a) single_request_timeout s in
    let (s2, more) = ask_all self raw a ps s1 in (s2, sent ++ more)

-- `treat("find success")`.
unfoldable pub find_success :
    ℕ → DhtPacket → List Peer → GetterActor → Scene → GetterActor × Scene × List Effect
unfolding ask_all to_int32
find_success self raw peers a s =
    let (s1, sent) = ask_all self raw a peers s in
    (record a { pending_requests = to_int32 (pos (length peers)); found = true }, s1, sent)

-- `onGetResponse`.
unfoldable pub on_get_response : GetterActor → GetterActor × List Effect
on_get_response a =
    let pending = decrement a.pending_requests in
    (record a { pending_requests = pending }, if is_zero_int pending then give_up else [])

abbrev pub is_got : DhtMethod → Bool
is_got m_got = true
is_got _ = false

-- `onNewAnswer`.
unfoldable pub on_new_answer : DhtPacket → GetterActor → GetterActor × List Effect
unfolding on_get_response
on_new_answer pkt a =
    if is_got pkt.method && is_zero pkt.status
    then (a, on_got pkt.value ∷ kill ∷ [])
    else on_get_response a

-- `onAnswerTimeout`.
unfoldable pub on_answer_timeout : GetterActor → GetterActor × List Effect
unfolding on_get_response
on_answer_timeout a = on_get_response a
