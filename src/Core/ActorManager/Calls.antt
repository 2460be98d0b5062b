-- ===== src/Core/ActorManager/Calls.antt =====
-- Lemmas on the functions that actors are called with.
use epyx.Base.{
  ◌+◌, ◌≤◌, ℕ, ◌<◌, ◌≡◌, refl, sym, ap, subst, ◌∙◌, inl, inr, Bool, false, List, [], ◌∷◌, Option,
  none, some, arith, Option-cases, All,
}
use epyx.Base.Dict
use epyx.Base.Dict.{Dict, nat_order, find-set, find-unset}
use epyx.Core.ActorManager.{
  ActorManager, new_manager, silence, kill, kill_self, Act, new_actor, send, stop, stop_self, take,
  work, call, finish, act, then_run, run,
}
use epyx.Core.ActorManager.Sound.{
  is_live, IsDead, IsCall, calls_of, about_to_call, IsSound, Goes, add-Goes, post-Goes,
  silence-Goes,
}
use epyx.Core.ActorManager.Steps.{same-Goes, MayGo, take-Goes, work-Goes}
use epyx.Core.ActorManager.Begun.{call-Goes, finish-Goes}

kill_gone : (id : ℕ) (m : ActorManager) → Dict.find id m.actors ≡ none → kill id m ≡ m
unfolding kill
kill_gone id m e = rw (e, kill)

kill_there :
    (id : ℕ) (alive : Bool) (m : ActorManager)
    → Dict.find id m.actors ≡ some alive
    → kill id m ≡ silence id m
unfolding kill
kill_there id alive m e = rw (e, kill)

kill-Goes : (id : ℕ) (m : ActorManager) → IsSound m → Goes m (kill id m)
kill-Goes id m s = elim (Option-cases (Dict.find id m.actors)) [
  | inl gone ↦ subst (Goes m) (sym (kill_gone id m gone)) (same-Goes m s)
  | inr (alive, there) ↦
      subst (Goes m) (sym (kill_there id alive m there)) (silence-Goes id alive m s there).0
]

kill_self-Goes : (id : ℕ) (m : ActorManager) → IsSound m → MayGo m (kill_self id m)
unfolding kill_self
kill_self-Goes id m s = elim (Option-cases (Dict.find id m.actors)) [
  | inl gone ↦ rw (gone, MayGo) tt
  | inr (alive, there) ↦ rw (there, MayGo) (silence-Goes id alive m s there).0
]

act-Goes : (a : Act) (m : ActorManager) → IsSound m → MayGo m (act a m)
unfolding act
act-Goes new_actor m s = add-Goes m s
act-Goes (send id f) m s = post-Goes id f m s
act-Goes (stop id) m s = kill-Goes id m s
act-Goes (stop_self id) m s = kill_self-Goes id m s
act-Goes (take w) m s = take-Goes w (m.workers w) m.messages m refl s
act-Goes (work w) m s = work-Goes w (m.workers w) m refl s
act-Goes (call w) m s = call-Goes w (m.workers w) m refl s
act-Goes (finish w) m s = finish-Goes w (m.workers w) m refl s

run-Goes : (acts : List Act) (m : ActorManager) → IsSound m → MayGo m (run acts m)
unfolding run
run-Goes [] m s = same-Goes m s
run-Goes (a ∷ rest) m s = next (act a m) (act-Goes a m s) (λ m'. run-Goes rest m')
  where
    chain : (m' : ActorManager) (o : Option ActorManager) → Goes m m' → MayGo m' o → MayGo m o
    chain m' none g h = tt
    chain m' (some m'') (s', l, c) (s'', l', c') = (
      s'',
      (λ i d. l' i (l i d)),
      λ i d. let x = c i d in let y = c' i (l i d) in omega (arith, x, y),
    )

    next :
        (o : Option ActorManager)
        → MayGo m o
        → ((m' : ActorManager) → IsSound m' → MayGo m' (run rest m'))
        → MayGo m (then_run (run rest) o)
    next none g f = tt
    next (some m') g f = chain m' (run rest m') g (f m' (g.0))

new_manager-IsSound : IsSound new_manager
unfolding Dict.find
new_manager-IsSound = record {
  unused = λ id l. refl;
  queued = tt;
  held = λ w. tt;
  calls = tt;
  locked = λ w id e. absurd (cc e);
}

-- Through any sequence of steps from a new manager, no worker calls the null function, which `kill`
-- posts as a message: it reaches an actor only when this is dead or deleted.
pub no_null-IsCall :
    (acts : List Act) (m : ActorManager) → run acts new_manager ≡ some m → All IsCall m.called
no_null-IsCall acts m e =
    let g : MayGo new_manager (some m) = rw e at (run-Goes acts new_manager new_manager-IsSound) in
    (g.0).calls

-- After `ActorManager::kill` of an id that was given, whatever was done before and whatever follows
-- (actors added, messages posted, actors killed, and workers that take messages, choose actors, and
-- begin and end calls in any order), the actor does not live, and a call of it begins at most once
-- more, and only if the worker that holds its mutex at the kill has tested it and not begun to call
-- it.
pub killed_not_called :
    (before after : List Act) (id : ℕ) (m m' : ActorManager)
    → run before new_manager ≡ some m
    → id < m.actor_count
    → run after (kill id m) ≡ some m'
    → (calls_of id m' ≤ calls_of id m + about_to_call id m)
      × (is_live (Dict.find id m'.actors) ≡ false)
unfolding silence
killed_not_called before after id m m' e l f =
    let g : MayGo new_manager (some m) =
      rw e at (run-Goes before new_manager new_manager-IsSound) in
    elim (Option-cases (Dict.find id m.actors)) [
      | inl gone ↦
          let dead : IsDead m id = (l, ap is_live gone) in
          let f' : run after m ≡ some m' = ap (run after) (sym (kill_gone id m gone)) ∙ f in
          let h : MayGo m (some m') = rw f' at (run-Goes after m (g.0)) in
          let k = h.2 id dead in (omega (arith, k), (h.1 id dead).1)
      | inr (alive, there) ↦
          let (k, dead) = silence-Goes id alive m (g.0) there in
          let f' : run after (silence id m) ≡ some m' =
            ap (run after) (sym (kill_there id alive m there)) ∙ f in
          let h : MayGo (silence id m) (some m') = rw f' at (run-Goes after (silence id m) (k.0)) in
          let n = h.2 id dead in (omega (arith, n), (h.1 id dead).1)
    ]
