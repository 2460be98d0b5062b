-- ===== src/Dht/Process/Tests.antt =====
-- Process actors at concrete inputs.
use epyx.Base.{◌+◌, ◌≡◌, refl, true, [], ◌∷◌, none, some, arith, ◌==◌, if◌then◌else◌, codes}
use epyx.Base.Dict
use epyx.Base.Dict.{nat_order}
use epyx.Base.Int.{pos}
use epyx.Core.AtomMap.{new_map}
use epyx.Net.Address.Samples.{home}
use epyx.Dht.Id.{reset}
use epyx.Dht.KBucket.{Peer}
use epyx.Dht.Packet.{DhtPacket, m_stored, m_got}
use epyx.Dht.Process.Counted.{process_counts}
use epyx.Dht.Process.Getter.{GetterActor}
use epyx.Dht.Process.Getter.Outcome as Got
use epyx.Dht.Process.Getter.Outcome.{getter_outcome}
use epyx.Dht.Process.Registry.{AgreesFor, sends, receives, times_out, after, after-AgreesFor}
use epyx.Dht.Process.Setter.Outcome as Stored
use epyx.Dht.Process.Setter.Outcome.{setter_outcome}
use epyx.Dht.Process.Setter.{SetterActor}
use epyx.Dht.Process.{Scene, on_got, on_error, kill, settle, process_receive, process_timeout}

abbrev idle : Scene
idle = record {
  queries = [];
  registered = record { process_actors_count = 0; process_actors = new_map };
}

abbrev peer : Peer
peer = record {
  id = reset;
  n2np_id = record { name = codes "n1"; relay = home };
  last_receive_time = 0;
}

abbrev blank : DhtPacket
blank = record {
  method = m_stored;
  from = reset;
  connection_id = pos 0;
  status = pos 0;
  count = pos 0;
  found_peers = none;
  value = codes "v";
  key = [];
  id_to_find = reset;
}

idle-AgreesFor : AgreesFor 7 idle
unfolding Dict.find
idle-AgreesFor = record {
  writable = refl;
  waits = λ id e. ground arith;
  registers = λ id e. ground arith;
  fresh = λ id l. (refl, refl);
}

after-AgreesFor_example :
    AgreesFor 7 (after 7 (sends peer blank 2000 ∷ receives (pos 0) ∷ times_out 0 ∷ []) idle)
after-AgreesFor_example =
    after-AgreesFor 7 (sends peer blank 2000 ∷ receives (pos 0) ∷ times_out 0 ∷ []) idle
      idle-AgreesFor

abbrev busy : Scene
busy = record idle { queries = (0, true) ∷ [] }

process_counts_example :
    (process_receive (pos 0) busy ≡ some (settle 0 busy))
    × (process_timeout 0 busy ≡ some (settle 0 busy))
    × (process_receive (pos 0) (settle 0 busy) ≡ none)
    × (process_timeout 0 (settle 0 busy) ≡ some (settle 0 (settle 0 busy)))
unfolding Dict.find
process_counts_example = process_counts 0 busy refl

abbrev setter : SetterActor
setter = record {
  key = codes "k";
  value = codes "v";
  pending_requests = pos 2;
  n_errors = 0;
  found = true;
}

setter_outcome_example :
    (Stored.hear_all (Stored.answered blank ∷ []) setter ≡ [])
    × ((Stored.hear Stored.timed_out (Stored.after_all (Stored.answered blank ∷ []) setter)).1
        ≡ Stored.verdict (0 + Stored.failures (Stored.answered blank ∷ []) + 1))
setter_outcome_example = setter_outcome setter (Stored.answered blank ∷ []) Stored.timed_out 0 refl

abbrev getter : GetterActor
getter = record { key = codes "k"; pending_requests = pos 2; found = true }

abbrev value : DhtPacket
value = record blank { method = m_got }

getter_outcome_example :
    ((Got.hear_all (Got.timed_out ∷ []) getter).1 ≡ [])
    × ((Got.hear (Got.answered value) (Got.hear_all (Got.timed_out ∷ []) getter).0).1
        ≡ on_got (codes "v") ∷ kill ∷ [])
    × ((Got.hear Got.timed_out (Got.hear_all (Got.timed_out ∷ []) getter).0).1
        ≡ (if 0 == 0 then on_error ∷ kill ∷ [] else []))
getter_outcome_example =
    getter_outcome getter (Got.timed_out ∷ []) Got.timed_out value 0 (tt, tt) refl tt refl
