-- ===== src/Core/ActorManager/Steps.antt =====
-- Lemmas on a worker that takes a message and looks for its actor.
use epyx.Base.{
  ℕ, ◌≤◌, ◌≡◌, refl, sym, ap, ◌∙◌, inl, inr, Bool, true, false, List, [], ◌∷◌, Option, none, some,
  arith, ◌==◌, ==_iff, Bool-cases, All,
}
use epyx.Base.Dict
use epyx.Base.Dict.{Dict, nat_order, find-unset}
use epyx.Core.ActorManager.{
  Worker, resting, holding, chosen, running, Message, ActorManager, assign, treat, take_message,
  work_on,
}
use epyx.Core.ActorManager.Sound.{
  is_live, IsHarmless, IsHeld, IsCall, IsSound, Later, Goes, Later-All, Later-IsHeld, IsDead-unset,
  locks, is_chosen_for, passed,
}

pub same-Goes : (m : ActorManager) → IsSound m → Goes m m
same-Goes m s = (s, (λ i d. d), λ i d. omega arith)

abbrev pub MayGo : ActorManager → Option ActorManager → Type 0
MayGo m none = Unit
MayGo m (some m') = Goes m m'

pub assign-IsHeld :
    (m : ActorManager) (w : ℕ) (o : Worker)
    → IsHeld m o
    → ((v : ℕ) → IsHeld m (m.workers v))
    → (v : ℕ) → IsHeld m (assign w o m.workers v)
assign-IsHeld m w o h hs v = elim (Bool-cases (w == v)) [
  | inl same ↦ rw same h
  | inr other ↦ rw other (hs v)
]

pub assign-locked :
    (m : ActorManager) (w : ℕ) (o : Worker)
    → locks o ≡ none
    → ((v id : ℕ) → locks (m.workers v) ≡ some id → m.owner id ≡ some v)
    → (v id : ℕ) → locks (assign w o m.workers v) ≡ some id
    → m.owner id ≡ some v
assign-locked m w o h hs v id e = elim (Bool-cases (w == v)) [
  | inl same ↦ let e' : locks o ≡ some id = rw same at e in absurd (cc (sym h ∙ e'))
  | inr other ↦ hs v id (rw other at e)
]

not_chosen : (id : ℕ) (o : Worker) → locks o ≡ none → is_chosen_for id o ≡ false
not_chosen id resting e = refl
not_chosen id (holding msg) e = refl
not_chosen id (chosen msg) e = absurd (cc e)
not_chosen id (running msg) e = refl

-- A worker that turns to what is no choice of the actor is not about to call it.
pub passed-drop :
    (id w : ℕ) (o : Worker) (workers : ℕ → Worker) (own : Option ℕ)
    → is_chosen_for id o ≡ false
    → passed id (assign w o workers) own ≤ passed id workers own
passed-drop id w o workers none e = omega arith
passed-drop id w o workers (some v) e = elim (Bool-cases (w == v)) [
  | inl same ↦ rw (same, e) (omega arith)
  | inr other ↦ rw other (omega arith)
]

pub take-Goes :
    (w : ℕ) (o : Worker) (msgs : List Message) (m : ActorManager)
    → m.messages ≡ msgs
    → IsSound m
    → MayGo m (take_message w o msgs m)
unfolding take_message
take-Goes w (holding msg) msgs m e s = tt
take-Goes w (chosen msg) msgs m e s = tt
take-Goes w (running msg) msgs m e s = tt
take-Goes w resting [] m e s = tt
take-Goes w resting (msg ∷ rest) m e s =
    let q : All (IsHarmless m) (msg ∷ rest) = rw e at (s.queued) in
    (
      record {
        unused = s.unused;
        queued = q.1;
        held = assign-IsHeld m w (holding msg) q.0 s.held;
        calls = s.calls;
        locked = assign-locked m w (holding msg) refl s.locked;
      },
      (λ i d. d),
      λ i d. let l = passed-drop i w (holding msg) m.workers (m.owner i) refl in omega (arith, l),
    )

-- The function of a message for an actor that lives is not null.
live-IsCall :
    (m : ActorManager) (msg : Message)
    → IsHarmless m msg
    → Dict.find msg.0 m.actors ≡ some true
    → IsCall msg
live-IsCall m (id, some f) h e = refl
live-IsCall m (id, none) h e = let no : true ≡ false = sym (ap is_live e) ∙ h.1 in absurd (cc no)

chosen-locked :
    (m : ActorManager) (w : ℕ) (msg : Message)
    → m.owner msg.0 ≡ none
    → ((v id : ℕ) → locks (m.workers v) ≡ some id → m.owner id ≡ some v)
    → (v id : ℕ) → locks (assign w (chosen msg) m.workers v) ≡ some id
    → assign msg.0 (some w) m.owner id ≡ some v
chosen-locked m w msg free hs v id e = elim (Bool-cases (w == v)) [
  | inl same ↦
      let mine : some msg.0 ≡ some id = rw same at e in
      let q : msg.0 ≡ id = cc mine in
      let hit : (msg.0 == id) ≡ true = (==_iff msg.0 id).1 q in
      rw hit (ap some ((==_iff w v).0 same))
  | inr other ↦
      let old = hs v id (rw other at e) in
      elim (Bool-cases (msg.0 == id)) [
        | inl hit ↦ let no = sym free ∙ ap m.owner ((==_iff msg.0 id).0 hit) ∙ old in absurd (cc no)
        | inr miss ↦ rw (miss, old)
      ]
]

treat-Goes :
    (w : ℕ) (msg : Message) (o : Option Bool) (own : Option ℕ) (m : ActorManager)
    → Dict.find msg.0 m.actors ≡ o
    → m.owner msg.0 ≡ own
    → IsHarmless m msg
    → IsSound m
    → MayGo m (treat w msg o own m)
unfolding treat
treat-Goes w (id, f) none own m e free h s = (
  record {
    unused = s.unused;
    queued = s.queued;
    held = assign-IsHeld m w resting tt s.held;
    calls = s.calls;
    locked = assign-locked m w resting refl s.locked;
  },
  (λ i d. d),
  λ i d. let l = passed-drop i w resting m.workers (m.owner i) refl in omega (arith, l),
)
treat-Goes w (id, f) (some alive) (some v) m e free h s = ground arith
treat-Goes w (id, f) (some true) none m e free h s = (
  record {
    unused = s.unused;
    queued = s.queued;
    held = assign-IsHeld m w (chosen (id, f)) (live-IsCall m (id, f) h e) s.held;
    calls = s.calls;
    locked = chosen-locked m w (id, f) free s.locked;
  },
  (λ i d. d),
  λ i d.
      let other : (id == i) ≡ false = elim (Bool-cases (id == i)) [
        | inl same ↦
            let no : true ≡ false =
              sym (ap is_live e)
              ∙ ap (λ k. is_live (Dict.find k m.actors)) ((==_iff id i).0 same)
              ∙ d.1 in
            absurd (cc no)
        | inr miss ↦ miss
      ] in
      let l = passed-drop i w (chosen (id, f)) m.workers (m.owner i) other in
      rw other (omega (arith, l)),
)
treat-Goes w (id, f) (some false) none m e free h s = (
  record {
    unused = λ i l.
        find-unset id i m.actors
        ∙ elim (Bool-cases (id == i)) [ inl same ↦ rw same | inr other ↦ rw other (s.unused i l) ];
    queued = Later-All m left m.messages later s.queued;
    held = λ v.
        Later-IsHeld m left (assign w resting m.workers v) later
          (assign-IsHeld m w resting tt s.held v);
    calls = s.calls;
    locked = assign-locked m w resting refl s.locked;
  },
  later,
  λ i d. let l = passed-drop i w resting m.workers (m.owner i) refl in omega (arith, l),
)
  where
    left : ActorManager
    left = record m { workers = assign w resting m.workers; actors = Dict.unset id m.actors }

    later : Later m left
    later i (l, g) = IsDead-unset id m.actor_count i m.actors l g

pub work-Goes :
    (w : ℕ) (o : Worker) (m : ActorManager) → m.workers w ≡ o → IsSound m → MayGo m (work_on w o m)
unfolding work_on
work-Goes w resting m e s = tt
work-Goes w (chosen msg) m e s = tt
work-Goes w (running msg) m e s = tt
work-Goes w (holding msg) m e s =
    let h : IsHeld m (holding msg) = rw e at (s.held w) in
    treat-Goes w msg (Dict.find msg.0 m.actors) (m.owner msg.0) m refl refl h s
