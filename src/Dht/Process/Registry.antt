-- ===== src/Dht/Process/Registry.antt =====
-- Agreement of the registry of Process with the queries of one actor.
use epyx.Base.{
  ℕ, ◌+◌, ◌≡◌, ◌≢◌, sym, ap, Bool, true, false, List, [], ◌∷◌, Option, none, some, arith, ltb,
  if◌then◌else◌, Option-cases, inl, inr, subst,
}
use epyx.Base.Dict
use epyx.Base.Dict.{Dict, nat_order, find-set, find-unset}
use epyx.Base.Int.{ℤ, pos, negsuc}
use epyx.Core.AtomMap
use epyx.Core.AtomMap.{AtomMap}
use epyx.Dht.KBucket.{Peer}
use epyx.Dht.Packet.{DhtPacket}
use epyx.Dht.Process.{
  Scene, send_query, settle, process_receive, process_receive_at, process_timeout,
  register_new_connection_id, unregister_connection_id,
}

-- Of the actor `self`: the connection ids that wait for an answer are those registered for it, and
-- every id is below the counter.
pub record AgreesFor (self : ℕ) (s : Scene) : Type 0 where
  pub writable : s.registered.process_actors.read_only ≡ false
  pub waits :
      (id : ℕ)
      → Dict.find id s.queries ≡ some true
      → Dict.find id s.registered.process_actors.map ≡ some self
  pub registers :
      (id : ℕ)
      → Dict.find id s.registered.process_actors.map ≡ some self
      → Dict.find id s.queries ≡ some true
  pub fresh :
      (id : ℕ)
      → ltb id s.registered.process_actors_count ≡ false
      → (Dict.find id s.queries ≡ none) × (Dict.find id s.registered.process_actors.map ≡ none)

-- The maps behind `set` and `unset` of a map that is not read only.
set_map :
    (k v : ℕ) (m : AtomMap ℕ ℕ)
    → m.read_only ≡ false
    → (AtomMap.set k v m ≡ record m { map = Dict.set k v m.map })
unfolding AtomMap.set
set_map k v m w = ap (λ b. if b then m else record m { map = Dict.set k v m.map }) w

unset_map :
    (k : ℕ) (m : AtomMap ℕ ℕ)
    → m.read_only ≡ false
    → (AtomMap.unset k m).1 ≡ record m { map = Dict.unset k m.map }
unfolding AtomMap.unset
unset_map k m w = rw w

module _ (self : ℕ) (q : Dict ℕ Bool) (r : Dict ℕ ℕ) (n : ℕ)
    (waits : (id : ℕ) → Dict.find id q ≡ some true → Dict.find id r ≡ some self)
    (registers : (id : ℕ) → Dict.find id r ≡ some self → Dict.find id q ≡ some true)
    (fresh : (id : ℕ) → ltb id n ≡ false → (Dict.find id q ≡ none) × (Dict.find id r ≡ none)) where
  settled_waits :
      (k id : ℕ)
      → Dict.find id (Dict.set k false q) ≡ some true
      → Dict.find id (Dict.unset k r) ≡ some self
  settled_waits k id e = ground (arith, find-set k id false q, find-unset k id r, waits id)

  settled_registers :
      (k id : ℕ)
      → Dict.find id (Dict.unset k r) ≡ some self
      → Dict.find id (Dict.set k false q) ≡ some true
  settled_registers k id e = ground (arith, find-set k id false q, find-unset k id r, registers id)

  settled_fresh :
      (k id : ℕ)
      → Dict.find k q ≢ none
      → ltb id n ≡ false
      → (Dict.find id (Dict.set k false q) ≡ none) × (Dict.find id (Dict.unset k r) ≡ none)
  settled_fresh k id e l = ground (arith, find-set k id false q, find-unset k id r, fresh id, e)

  sent_waits :
      (id : ℕ)
      → Dict.find id (Dict.set n true q) ≡ some true
      → Dict.find id (Dict.set n self r) ≡ some self
  sent_waits id e = ground (arith, find-set n id true q, find-set n id self r, waits id)

  sent_registers :
      (id : ℕ)
      → Dict.find id (Dict.set n self r) ≡ some self
      → Dict.find id (Dict.set n true q) ≡ some true
  sent_registers id e = ground (arith, find-set n id true q, find-set n id self r, registers id)

  sent_fresh :
      (id : ℕ)
      → ltb id (n + 1) ≡ false
      → (Dict.find id (Dict.set n true q) ≡ none) × (Dict.find id (Dict.set n self r) ≡ none)
  sent_fresh id l = ground (arith, find-set n id true q, find-set n id self r, fresh id)

settle-AgreesFor :
    (self k : ℕ) (s : Scene)
    → AgreesFor self s
    → Dict.find k s.queries ≢ none
    → AgreesFor self (settle k s)
unfolding settle unregister_connection_id
settle-AgreesFor self k s h e =
    let q = s.queries in
    let m = s.registered.process_actors in
    let n = s.registered.process_actors_count in
    subst
      (λ x. AgreesFor self (record {
        queries = Dict.set k false q;
        registered = record { process_actors_count = n; process_actors = x };
      }))
      (sym (unset_map k m h.writable))
      (record {
        writable = h.writable;
        waits = settled_waits self q m.map n h.waits h.registers h.fresh k;
        registers = settled_registers self q m.map n h.waits h.registers h.fresh k;
        fresh = λ id. settled_fresh self q m.map n h.waits h.registers h.fresh k id e;
      })

send_query-AgreesFor :
    (self : ℕ) (peer : Peer) (pkt : DhtPacket) (timeout : ℕ) (s : Scene)
    → AgreesFor self s
    → AgreesFor self (send_query self peer pkt timeout s).0
unfolding send_query register_new_connection_id
send_query-AgreesFor self peer pkt timeout s h =
    let q = s.queries in
    let m = s.registered.process_actors in
    let n = s.registered.process_actors_count in
    subst
      (λ x. AgreesFor self (record {
        queries = Dict.set n true q;
        registered = record { process_actors_count = n + 1; process_actors = x };
      }))
      (sym (set_map n self m h.writable))
      (record {
        writable = h.writable;
        waits = sent_waits self q m.map n h.waits h.registers h.fresh;
        registers = sent_registers self q m.map n h.waits h.registers h.fresh;
        fresh = sent_fresh self q m.map n h.waits h.registers h.fresh;
      })

-- What happens to a process actor, one event after the other.
pub data Event : Type 0 where
  sends : Peer → DhtPacket → ℕ → Event
  receives : ℤ → Event
  times_out : ℕ → Event

abbrev or_same : Scene → Option Scene → Scene
or_same s none = s
or_same s (some t) = t

abbrev pub step : ℕ → Event → Scene → Scene
step self (sends peer pkt timeout) s = (send_query self peer pkt timeout s).0
step self (receives id) s = or_same s (process_receive id s)
step self (times_out id) s = or_same s (process_timeout id s)

abbrev pub after : ℕ → List Event → Scene → Scene
after self [] s = s
after self (e ∷ es) s = after self es (step self e s)

found_known : (o : Option Bool) (b : Bool) → o ≡ some b → o ≢ none
found_known o b e f = ground (arith, e, f)

receive_at-AgreesFor :
    (self id : ℕ) (s : Scene)
    → AgreesFor self s
    → AgreesFor self (or_same s (process_receive_at id s))
unfolding process_receive_at
receive_at-AgreesFor self id s h = elim (Option-cases (Dict.find id s.queries)) [
  | inl e ↦ rw (e, process_receive_at) h
  | inr (true, e) ↦ rw (e, process_receive_at) (settle-AgreesFor self id s h (found_known _ true e))
  | inr (false, e) ↦ rw (e, process_receive_at) h
]

timeout-AgreesFor :
    (self id : ℕ) (s : Scene) → AgreesFor self s → AgreesFor self (or_same s (process_timeout id s))
unfolding process_timeout
timeout-AgreesFor self id s h = elim (Option-cases (Dict.find id s.queries)) [
  | inl e ↦ rw (e, process_timeout) h
  | inr (b, e) ↦ rw (e, process_timeout) (settle-AgreesFor self id s h (found_known _ b e))
]

step-AgreesFor :
    (self : ℕ) (e : Event) (s : Scene) → AgreesFor self s → AgreesFor self (step self e s)
unfolding process_receive
step-AgreesFor self (sends peer pkt timeout) s h = send_query-AgreesFor self peer pkt timeout s h
step-AgreesFor self (receives (pos id)) s h = receive_at-AgreesFor self id s h
step-AgreesFor self (receives (negsuc id)) s h = h
step-AgreesFor self (times_out id) s h = timeout-AgreesFor self id s h

-- Through any sequence of queries sent, answers and timeouts, the connection ids of which a process
-- actor waits for an answer stay those registered for it at its node, and no id from the counter on
-- is in use.
pub after-AgreesFor :
    (self : ℕ) (es : List Event) (s : Scene) → AgreesFor self s → AgreesFor self (after self es s)
after-AgreesFor self [] s h = h
after-AgreesFor self (e ∷ es) s h =
    after-AgreesFor self es (step self e s) (step-AgreesFor self e s h)
