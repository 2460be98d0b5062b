-- ===== src/Dht/Process/Finder/Outcomes.antt =====
-- The outcomes of the queries of a search, one after the other.
use epyx.Base.{
  ℕ, ◌≡◌, sym, ap, ◌∙◌, ◌⊎◌, Bool, true, false, ◌&&◌, List, [], ◌∷◌, ◌++◌, append_assoc, append-nil,
  Option, none, some, All,
}
use epyx.Dht.Id.{DhtId, IsId}
use epyx.Dht.KBucket.{Peer}
use epyx.Dht.Packet.{DhtPacket, is_zero}
use epyx.Dht.Process.{Scene, Effect, send, start_timer, on_found, kill}
use epyx.Dht.Process.Finder.{
  FinderActor, HeapOps, candidate_of, is_found, is_positive, on_new_answer, on_answer_timeout,
}
use epyx.Dht.Process.Finder.Queries.{asked_of}

-- How one query ends.
pub data Outcome : Type 0 where
  answered : DhtPacket → Outcome
  timed_out : Outcome

-- A FOUND that tells of peers has them, with identifiers of 32 bytes.
abbrev pub tells : DhtPacket → Bool
tells pkt = is_found pkt.method && is_zero pkt.status && is_positive pkt.count

abbrev pub IsWhole : Outcome → Type 0
IsWhole timed_out = Unit
IsWhole (answered pkt) =
    (tells pkt ≡ false)
    ⊎ ((ps : List Peer) × (tells pkt ≡ true)
        × (pkt.found_peers ≡ some ps)
        × All (λ p. IsId p.id) ps)

abbrev pub Step : Type 0
Step = Option (FinderActor × Scene × List Effect)

abbrev pub hear : HeapOps → ℕ → DhtPacket → Outcome → FinderActor → Scene → Step
hear h self raw (answered pkt) a s = on_new_answer h self raw pkt a s
hear h self raw timed_out a s = some (on_answer_timeout self raw a s)

abbrev pub behind : List Effect → Step → Step
behind now none = none
behind now (some (a, s, later)) = some (a, s, now ++ later)

abbrev pub go_on : (FinderActor → Scene → Step) → Step → Step
go_on f none = none
go_on f (some (a, s, now)) = behind now (f a s)

-- The outcomes of queries, one after the other.
abbrev pub hear_all : HeapOps → ℕ → DhtPacket → List Outcome → FinderActor → Scene → Step
hear_all h self raw [] a s = some (a, s, [])
hear_all h self raw (o ∷ os) a s = go_on (hear_all h self raw os) (hear h self raw o a s)

pub asked_of-append :
    (r : DhtId) (es fs : List Effect) → asked_of r (es ++ fs) ≡ asked_of r fs ++ asked_of r es
asked_of-append r [] fs = sym (append-nil (asked_of r fs))
asked_of-append r (send pkt p ∷ es) fs =
    ap (λ x. x ++ candidate_of r p ∷ []) (asked_of-append r es fs)
    ∙ append_assoc (asked_of r fs) (asked_of r es) (candidate_of r p ∷ [])
asked_of-append r (start_timer t i ∷ es) fs = asked_of-append r es fs
asked_of-append r (Effect.find_closest n i ∷ es) fs = asked_of-append r es fs
asked_of-append r (Effect.on_found_peers ps ∷ es) fs = asked_of-append r es fs
asked_of-append r (on_found ps ∷ es) fs = asked_of-append r es fs
asked_of-append r (Effect.on_set ∷ es) fs = asked_of-append r es fs
asked_of-append r (Effect.on_got v ∷ es) fs = asked_of-append r es fs
asked_of-append r (Effect.on_error ∷ es) fs = asked_of-append r es fs
asked_of-append r (kill ∷ es) fs = asked_of-append r es fs
