-- ===== src/Core/ActorManager/Sound.antt =====
-- Lemmas on the messages of a manager and the actors that they are for.
use epyx.Base.{
  length, ℕ, ◌+◌, ◌≤◌, ◌<◌, ◌≡◌, ◌≢◌, refl, sym, ◌∙◌, inl, inr, Bool, true, false, List, [], ◌∷◌,
  Option, none, some, arith, ◌==◌, leb, ==_iff, if◌then◌else◌, Bool-cases, All, All-append,
}
use epyx.Base.Dict
use epyx.Base.Dict.{Dict, nat_order, find-set, find-unset}
use epyx.Core.ActorManager.{
  Worker, resting, holding, chosen, running, Message, ActorManager, add, post, silence,
}

abbrev pub is_live : Option Bool → Bool
is_live (some true) = true
is_live _ = false

-- An id that was given, of an actor that is dead or gone.
abbrev pub IsDead : ActorManager → ℕ → Type 0
IsDead m id = (id < m.actor_count) × (is_live (Dict.find id m.actors) ≡ false)

-- A null message is for such an actor.
abbrev pub IsHarmless : ActorManager → Message → Type 0
IsHarmless m (id, none) = IsDead m id
IsHarmless m (id, some f) = Unit

abbrev pub is_null : Message → Bool
is_null (id, none) = true
is_null (id, some f) = false

abbrev pub IsCall : Message → Type 0
IsCall msg = is_null msg ≡ false

-- The calls of one actor.
abbrev pub calls_to : ℕ → List Message → List Message
calls_to id [] = []
calls_to id (c ∷ cs) = if id == c.0 then c ∷ calls_to id cs else calls_to id cs

-- What a worker has: a message that is harmless, or one that is no null message.
abbrev pub IsHeld : ActorManager → Worker → Type 0
IsHeld m resting = Unit
IsHeld m (holding msg) = IsHarmless m msg
IsHeld m (chosen msg) = IsCall msg
IsHeld m (running msg) = Unit

-- The actor whose mutex the worker has.
abbrev pub locks : Worker → Option ℕ
locks (chosen msg) = some msg.0
locks (running msg) = some msg.0
locks _ = none

pub record IsSound (m : ActorManager) : Type 0 where
  pub unused : (id : ℕ) → m.actor_count ≤ id → Dict.find id m.actors ≡ none
  pub queued : All (IsHarmless m) m.messages
  pub held : (w : ℕ) → IsHeld m (m.workers w)
  pub calls : All IsCall m.called
  pub locked : (w id : ℕ) → locks (m.workers w) ≡ some id → m.owner id ≡ some w

-- No dead actor comes to life.
abbrev pub Later : ActorManager → ActorManager → Type 0
Later m m' = (id : ℕ) → IsDead m id → IsDead m' id

abbrev pub is_chosen_for : ℕ → Worker → Bool
is_chosen_for id (chosen msg) = msg.0 == id
is_chosen_for id _ = false

abbrev pub passed : ℕ → (ℕ → Worker) → Option ℕ → ℕ
passed id workers none = 0
passed id workers (some w) = if is_chosen_for id (workers w) then 1 else 0

-- 1 if the worker that holds the mutex of the actor has tested it and not begun to call it, else 0.
abbrev pub about_to_call : ℕ → ActorManager → ℕ
about_to_call id m = passed id m.workers (m.owner id)

abbrev pub calls_of : ℕ → ActorManager → ℕ
calls_of id m = length (calls_to id m.called)

-- Nor does a worker begin to call it that had not chosen it.
abbrev pub Goes : ActorManager → ActorManager → Type 0
Goes m m' =
    IsSound m'
    × Later m m'
    × ((id : ℕ)
        → IsDead m id
        → calls_of id m' + about_to_call id m' ≤ calls_of id m + about_to_call id m)

pub Later-IsHarmless :
    (m m' : ActorManager) (msg : Message) → Later m m' → IsHarmless m msg → IsHarmless m' msg
Later-IsHarmless m m' (id, none) l h = l id h
Later-IsHarmless m m' (id, some f) l h = tt

pub Later-All :
    (m m' : ActorManager) (msgs : List Message)
    → Later m m'
    → All (IsHarmless m) msgs
    → All (IsHarmless m') msgs
Later-All m m' [] l h = tt
Later-All m m' (msg ∷ msgs) l h = (Later-IsHarmless m m' msg l h.0, Later-All m m' msgs l h.1)

pub Later-IsHeld : (m m' : ActorManager) (o : Worker) → Later m m' → IsHeld m o → IsHeld m' o
Later-IsHeld m m' resting l h = tt
Later-IsHeld m m' (holding msg) l h = Later-IsHarmless m m' msg l h
Later-IsHeld m m' (chosen msg) l h = h
Later-IsHeld m m' (running msg) l h = tt

-- What is not in the map is dead once its id was given.
pub IsDead-set :
    (k : ℕ) (v : Bool) (n : ℕ) (id : ℕ) (d : Dict ℕ Bool)
    → id < n
    → is_live (Dict.find id d) ≡ false
    → (v ≡ true → id ≢ k)
    → (id < n) × (is_live (Dict.find id (Dict.set k v d)) ≡ false)
IsDead-set k true n id d l h ne =
    let other : (k == id) ≡ false = ground (arith, ne refl) in
    (l, rw (find-set k id true d, other) h)
IsDead-set k false n id d l h ne = elim (Bool-cases (k == id)) [
  | inl same ↦ (l, rw (find-set k id false d, same))
  | inr other ↦ (l, rw (find-set k id false d, other) h)
]

pub IsDead-unset :
    (k n id : ℕ) (d : Dict ℕ Bool)
    → id < n
    → is_live (Dict.find id d) ≡ false
    → (id < n) × (is_live (Dict.find id (Dict.unset k d)) ≡ false)
IsDead-unset k n id d l h = elim (Bool-cases (k == id)) [
  | inl same ↦ (l, rw (find-unset k id d, same))
  | inr other ↦ (l, rw (find-unset k id d, other) h)
]

pub add-Goes : (m : ActorManager) → IsSound m → Goes m (add m)
unfolding add
add-Goes m s = (
  record {
    unused = λ id l.
        find-set m.actor_count id true m.actors
        ∙ (let e : (m.actor_count == id) ≡ false = ground arith in
            rw e (s.unused id (omega arith)));
    queued = Later-All m (add m) m.messages later s.queued;
    held = λ w. Later-IsHeld m (add m) (m.workers w) later (s.held w);
    calls = s.calls;
    locked = s.locked;
  },
  later,
  λ id d. omega arith,
)
  where
    later : Later m (add m)
    later id (l, h) =
        IsDead-set m.actor_count true (m.actor_count + 1) id m.actors (omega arith) h
          (λ e same. absurd (omega arith))

pub post-Goes : (id f : ℕ) (m : ActorManager) → IsSound m → Goes m (post id (some f) m)
post-Goes id f m s = (
  record {
    unused = s.unused;
    queued = All-append (IsHarmless m) m.messages ((id, some f) ∷ []) s.queued (tt, tt);
    held = s.held;
    calls = s.calls;
    locked = s.locked;
  },
  λ i d. d,
  λ i d. omega arith,
)

pub silence-Goes :
    (id : ℕ) (alive : Bool) (m : ActorManager)
    → IsSound m
    → Dict.find id m.actors ≡ some alive
    → Goes m (silence id m) × IsDead (silence id m) id
unfolding silence
silence-Goes id alive m s e = (
  (
    record {
      unused = λ i l.
          find-set id i false m.actors
          ∙ (let other : (id == i) ≡ false = ground (arith, known) in rw other (s.unused i l));
      queued =
          All-append (IsHarmless (silence id m)) m.messages ((id, none) ∷ [])
            (Later-All m (silence id m) m.messages later s.queued) (dead, tt);
      held = λ w. Later-IsHeld m (silence id m) (m.workers w) later (s.held w);
      calls = s.calls;
      locked = s.locked;
    },
    later,
    λ i d. omega arith,
  ),
  dead,
)
  where
    known : id < m.actor_count
    known = elim (Bool-cases (leb m.actor_count id)) [
      | inl over ↦
          let no : some alive ≡ none = sym e ∙ s.unused id (ground (arith, over)) in absurd (cc no)
      | inr under ↦ ground (arith, under)
    ]

    later : Later m (silence id m)
    later i (l, h) = IsDead-set id false m.actor_count i m.actors l h (λ t. absurd (cc t))

    self : (id == id) ≡ true
    self = (==_iff id id).1 refl

    dead : IsDead (silence id m) id
    dead = (known, rw (find-set id id false m.actors, self))
