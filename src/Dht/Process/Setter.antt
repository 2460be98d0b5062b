-- ===== src/Dht/Process/Setter.antt =====
-- dht/setter-actor.h, dht/setter-actor.cpp and dht/consts.h: a value stored at the nodes closest to
-- its key. `for_string` is `idForString`, a hash from the crypto library; `edit` is what the callback
-- `onFoundPeers` of the user makes of the peers; `raw` is the memory of a new packet. The child
-- Outcome proves what the user is told, Asked what is sent.
pub mod Outcome
pub mod Asked
use epyx.Base.{
  ℕ, zero, suc, ◌+◌, Bool, true, false, not, ◌&&◌, ◌||◌, List, [], ◌∷◌, ◌++◌, Option, none, some,
  ◌==◌, ltb, if◌then◌else◌, length, Bytes,
}
use epyx.Base.Int.{ℤ, pos, negsuc, to_int32}
use epyx.Dht.Id.{DhtId}
use epyx.Dht.KBucket.{Peer}
use epyx.Dht.Packet.{blank_packet, DhtPacket, DhtMethod, m_store, m_stored, is_zero}
use epyx.Dht.Process.{
  Scene, Effect, find_closest, on_found_peers, on_set, on_error, kill, send_query,
}

abbrev pub set_redundancy : ℕ
set_redundancy = 10

abbrev pub set_error_threshold : ℕ
set_error_threshold = 3

abbrev pub single_request_timeout : ℕ
single_request_timeout = 2000

pub record SetterActor : Type 0 where
  pub key : Bytes
  pub value : Bytes
  pub pending_requests : ℤ
  pub n_errors : ℕ
  pub found : Bool

-- `n - 1`.
abbrev pub decrement : ℤ → ℤ
decrement (pos zero) = negsuc 0
decrement (pos (suc n)) = pos n
decrement (negsuc n) = negsuc (suc n)

-- `start`.
abbrev pub start : (Bytes → DhtId) → SetterActor → List Effect
start for_string a = find_closest set_redundancy (for_string a.key) ∷ []

-- `timeout()`, and the handler of "find failure".
abbrev pub give_up : List Effect
give_up = on_error ∷ kill ∷ []

-- The packet of `ask`.
abbrev pub store_packet : DhtPacket → SetterActor → DhtPacket
store_packet raw a = record (blank_packet raw) { method = m_store; key = a.key; value = a.value }

-- The loop over the peers that asks each.
unfoldable pub ask_all : ℕ → DhtPacket → SetterActor → List Peer → Scene → Scene × List Effect
unfolding send_query
ask_all self raw a [] s = (s, [])
ask_all self raw a (p ∷ ps) s =
    let (s1, sent) = send_query self p (store_packet raw a) single_request_timeout s in
    let (s2, more) = ask_all self raw a ps s1 in (s2, sent ++ more)

-- `treat("find success")`.
unfoldable pub find_success :
    ℕ
    → DhtPacket
    → (List Peer → List Peer)
    → List Peer
    → SetterActor
    → Scene
    → SetterActor × Scene × List Effect
unfolding ask_all to_int32
find_success self raw edit peers a s =
    let ps = edit peers in
    let (s1, sent) = ask_all self raw a ps s in
    (
      record a { pending_requests = to_int32 (pos (length ps)); found = true },
      s1,
      on_found_peers peers ∷ sent,
    )

abbrev pub is_zero_int : ℤ → Bool
is_zero_int (pos n) = n == 0
is_zero_int (negsuc n) = false

-- `onSetReceive`.
unfoldable pub on_set_receive : SetterActor → SetterActor × List Effect
on_set_receive a =
    let pending = decrement a.pending_requests in
    (
      record a { pending_requests = pending },
      if is_zero_int pending
          then if ltb a.n_errors set_error_threshold then on_set ∷ kill ∷ [] else give_up
          else [],
    )

abbrev pub is_stored : DhtMethod → Bool
is_stored m_stored = true
is_stored _ = false

-- `onNewAnswer`.
unfoldable pub on_new_answer : DhtPacket → SetterActor → SetterActor × List Effect
unfolding on_set_receive
on_new_answer pkt a = on_set_receive (
    if not (is_stored pkt.method) || not (is_zero pkt.status)
    then record a { n_errors = a.n_errors + 1 }
    else a)

-- `onAnswerTimeout`.
unfoldable pub on_answer_timeout : SetterActor → SetterActor × List Effect
unfolding on_set_receive
on_answer_timeout a = on_set_receive (record a { n_errors = a.n_errors + 1 })
