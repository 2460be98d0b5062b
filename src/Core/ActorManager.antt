-- ===== src/Core/ActorManager.antt =====
-- core/actor-manager.h, core/actor-manager-detail.h, core/actor-manager.cpp and core/actor.cpp: the
-- actors of a program, and the messages to them that a pool of workers treats. An actor is the flag
-- `alive` and the worker that holds its mutex, a function is a number, and a worker is a number.
-- `act` is one step. `add`, `kill` (the message that it posts comes with it) and the choice of
-- `treat` are one step each, since they hold the mutex of the map; `treat` gives this mutex back
-- before it calls the actor, so that the call is another step, and its end a third. A worker that
-- waits for the mutex of an actor holds that of the map, so that the code makes fewer steps
-- meanwhile than `act` lets it. `called` records the calls as they begin. The ids are not taken to
-- overflow their 32 bits. The thread of the timeouts posts its messages by `post` too. The child
-- Calls is about which messages reach an actor, with lemmas in Sound, Steps and
-- Begun.
pub mod Sound
pub mod Steps
pub mod Begun
pub mod Calls
mod Tests
use epyx.Base.{
  ℕ, zero, suc, ◌+◌, Bool, true, false, List, [], ◌∷◌, ◌++◌, Option, none, some, ◌==◌,
  if◌then◌else◌,
}
use epyx.Base.Dict
use epyx.Base.Dict.{Dict, nat_order}

-- The id of an actor and the function; `none` is the null one that `kill` posts.
abbrev pub Message : Type 0
Message = ℕ × Option ℕ

-- A worker waits for a message, has taken one, has tested the actor and holds its mutex, or is in
-- the call of the actor.
pub data Worker : Type 0 where
  resting : Worker
  holding chosen running : Message → Worker

pub record ActorManager : Type 0 where
  pub actors : Dict ℕ Bool
  pub actor_count : ℕ
  pub messages : List Message
  pub workers : ℕ → Worker
  pub owner : ℕ → Option ℕ
  pub called : List Message

abbrev pub new_manager : ActorManager
new_manager = record {
  actors = [];
  actor_count = 0;
  messages = [];
  workers = λ w. resting;
  owner = λ id. none;
  called = [];
}

-- `add`.
unfoldable pub add : ActorManager → ActorManager
unfolding Dict.set
add m = record m { actors = Dict.set m.actor_count true m.actors; actor_count = m.actor_count + 1 }

-- `post`, which puts the message into the queue of the pool.
abbrev pub post : ℕ → Option ℕ → ActorManager → ActorManager
post id msg m = record m { messages = m.messages ++ (id, msg) ∷ [] }

-- `actor->alive = false` and the null message: `Actor::kill`, which an actor calls on itself, and what
-- `ActorManager::kill` does with an actor that it finds.
unfoldable pub silence : ℕ → ActorManager → ActorManager
unfolding Dict.set
silence id m = post id none (record m { actors = Dict.set id false m.actors })

-- `ActorManager::kill`.
unfoldable pub kill : ℕ → ActorManager → ActorManager
unfolding silence Dict.find
kill id m = elim (Dict.find id m.actors) [ none ↦ m | some alive ↦ silence id m ]

-- `Actor::kill`, of an actor that is there.
unfoldable pub kill_self : ℕ → ActorManager → Option ActorManager
unfolding silence Dict.find
kill_self id m = elim (Dict.find id m.actors) [ none ↦ none | some alive ↦ some (silence id m) ]

abbrev pub assign {ℓ} : {A : Type ℓ} → ℕ → A → (ℕ → A) → ℕ → A
assign k x f v = if k == v then x else f v

-- `ActorWorkers::treat` up to where it gives the mutex of the map back, by what the map has and by
-- who holds the mutex of the actor: one that lives is chosen, a dead one is deleted.
unfoldable pub treat : ℕ → Message → Option Bool → Option ℕ → ActorManager → Option ActorManager
unfolding Dict.unset
treat w (id, f) none owner m = some (record m { workers = assign w resting m.workers })
treat w (id, f) (some true) none m =
    some (record m {
      workers = assign w (chosen (id, f)) m.workers;
      owner = assign id (some w) m.owner;
    })
treat w (id, f) (some false) none m =
    some (record m { workers = assign w resting m.workers; actors = Dict.unset id m.actors })
treat w (id, f) (some alive) (some v) m = none

-- What can happen: `take` is a worker that pops a message, `work` one that looks for the actor,
-- `call` one that begins the call of it, `finish` one that ends it.
pub data Act : Type 0 where
  new_actor : Act
  send : ℕ → ℕ → Act
  stop stop_self take work call finish : ℕ → Act

unfoldable pub take_message : ℕ → Worker → List Message → ActorManager → Option ActorManager
take_message w resting (msg ∷ rest) m =
    some (record m { messages = rest; workers = assign w (holding msg) m.workers })
take_message w _ _ m = none

unfoldable pub work_on : ℕ → Worker → ActorManager → Option ActorManager
unfolding treat Dict.find
work_on w (holding msg) m = treat w msg (Dict.find msg.0 m.actors) (m.owner msg.0) m
work_on w _ m = none

-- `actor->internal_treat(msg->second)` begins.
unfoldable pub begin_call : ℕ → Worker → ActorManager → Option ActorManager
begin_call w (chosen msg) m =
    some (record m { workers = assign w (running msg) m.workers; called = m.called ++ msg ∷ [] })
begin_call w _ m = none

-- `actor->unlock()` behind the call.
unfoldable pub end_call : ℕ → Worker → ActorManager → Option ActorManager
end_call w (running msg) m =
    some (record m { workers = assign w resting m.workers; owner = assign msg.0 none m.owner })
end_call w _ m = none

-- One step; `none` where it cannot be made.
unfoldable pub act : Act → ActorManager → Option ActorManager
unfolding add kill kill_self take_message work_on begin_call end_call
act new_actor m = some (add m)
act (send id f) m = some (post id (some f) m)
act (stop id) m = some (kill id m)
act (stop_self id) m = kill_self id m
act (take w) m = take_message w (m.workers w) m.messages m
act (work w) m = work_on w (m.workers w) m
act (call w) m = begin_call w (m.workers w) m
act (finish w) m = end_call w (m.workers w) m

abbrev pub then_run :
    (ActorManager → Option ActorManager) → Option ActorManager → Option ActorManager
then_run f none = none
then_run f (some m) = f m

-- A sequence of steps.
unfoldable pub run : List Act → ActorManager → Option ActorManager
unfolding act
run [] m = some m
run (a ∷ rest) m = then_run (run rest) (act a m)
