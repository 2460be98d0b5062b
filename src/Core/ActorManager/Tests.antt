-- ===== src/Core/ActorManager/Tests.antt =====
-- A manager with two workers at concrete steps.
use epyx.Base.{◌+◌, ◌≤◌, ◌≡◌, refl, false, List, [], ◌∷◌, Option, none, some, arith, All}
use epyx.Base.Dict
use epyx.Base.Dict.{nat_order}
use epyx.Core.ActorManager.{
  ActorManager, new_manager, kill, Act, new_actor, send, stop, take, work, call, finish, run,
}
use epyx.Core.ActorManager.Calls.{no_null-IsCall, killed_not_called}
use epyx.Core.ActorManager.Sound.{IsCall, calls_of, about_to_call, is_live}

abbrev reached : Option ActorManager → ActorManager
reached none = new_manager
reached (some m) = m

-- An actor is called with 7, killed, and deleted by the second worker, before the null message.
abbrev steps : List Act
steps =
    new_actor
    ∷ send 0 7
    ∷ send 0 8
    ∷ take 0
    ∷ work 0
    ∷ call 0
    ∷ finish 0
    ∷ take 1
    ∷ stop 0
    ∷ work 1
    ∷ take 0
    ∷ work 0
    ∷ []

calls_test : (reached (run steps new_manager)).called ≡ (0, some 7) ∷ []
unfolding run
calls_test = refl

deleted_test : (reached (run steps new_manager)).actors ≡ []
unfolding run
deleted_test = refl

no_null-IsCall_example : All IsCall (reached (run steps new_manager)).called
unfolding run
no_null-IsCall_example = no_null-IsCall steps (reached (run steps new_manager)) refl

-- The first worker has tested the actor and not called it yet.
abbrev early : List Act
early = new_actor ∷ send 0 7 ∷ send 0 8 ∷ take 0 ∷ work 0 ∷ []

abbrev late : List Act
late = call 0 ∷ finish 0 ∷ take 1 ∷ work 1 ∷ take 0 ∷ work 0 ∷ []

abbrev start : ActorManager
start = reached (run early new_manager)

abbrev killed : ActorManager
killed = reached (run late (kill 0 start))

called_after_kill_test : (start.called ≡ []) × (killed.called ≡ (0, some 7) ∷ [])
unfolding run
called_after_kill_test = (refl, refl)

killed_not_called_example :
    (calls_of 0 killed ≤ calls_of 0 start + about_to_call 0 start)
    × (is_live (Dict.find 0 killed.actors) ≡ false)
unfolding run
killed_not_called_example = killed_not_called early late 0 start killed refl (omega arith) refl
