-- ===== src/Core/BlockingQueue/Tests.antt =====
-- The queue run by concrete schedules of two threads.
use epyx.Base.{arith, ℕ, ◌≡◌, refl, false, List, [], ◌∷◌, ◌++◌, Option, none, some, ◌==◌}
use epyx.Core.BlockingQueue.{
  pop, flush, asleep, Queue, new_queue, Act, call_push, call_close, call_take, go, notify, run,
}
use epyx.Core.BlockingQueue.Exclusion.{holds, mutual_exclusion}
use epyx.Core.BlockingQueue.History.{run_fifo}
use epyx.Core.BlockingQueue.Wakeup.{close_loses_wakeup}

-- A thread pushes 5 and 6, the other waits for the first of them and takes it.
abbrev hand_over : List (ℕ × Act)
hand_over =
    (0, call_take pop)
    ∷ (0, go)
    ∷ (0, go)
    ∷ (0, go)
    ∷ (1, call_push 5)
    ∷ (1, go)
    ∷ (1, go)
    ∷ (1, notify (some 0))
    ∷ (1, call_push 6)
    ∷ (1, go)
    ∷ (1, go)
    ∷ (0, go)
    ∷ (0, go)
    ∷ (0, go)
    ∷ []

abbrev outcome : Option Queue → List ℕ × List ℕ
outcome none = ([], [])
outcome (some q) = (q.taken, q.fifo)

hand_over_test : outcome (run 2 hand_over new_queue) ≡ (5 ∷ [], 6 ∷ [])
unfolding run
hand_over_test = refl

abbrev reached : Option Queue → Queue
reached none = new_queue
reached (some q) = q

abbrev last : Queue
last = reached (run 2 hand_over new_queue)

run_fifo_example : last.pushed ≡ last.taken ++ last.fifo
unfolding run
run_fifo_example = run_fifo 2 hand_over {q = last} refl

-- One thread is in `push` and holds the mutex.
abbrev half_pushed : List (ℕ × Act)
half_pushed = (0, call_take pop) ∷ (1, call_push 5) ∷ (1, go) ∷ []

abbrev pushing_queue : Queue
pushing_queue = reached (run 2 half_pushed new_queue)

mutual_exclusion_example :
    (pushing_queue.owner ≡ some 1) × ((j : ℕ) → holds (pushing_queue.pc j) ≡ (1 == j))
unfolding run
mutual_exclusion_example = mutual_exclusion 2 half_pushed pushing_queue 1 refl refl

-- The queue is closed, and another thread flushes it.
abbrev flushing : List (ℕ × Act)
flushing = (1, call_take flush) ∷ (1, go) ∷ (1, go) ∷ (1, go) ∷ []

-- A `pop` that has found the queue open and empty.
abbrev about_to_wait : Queue
about_to_wait = reached (run 2 ((0, call_take pop) ∷ (0, go) ∷ (0, go) ∷ []) new_queue)

abbrev too_late : Queue
too_late = reached (run 2 ((1, call_close) ∷ (1, go) ∷ (0, go) ∷ flushing) about_to_wait)

close_loses_wakeup_example : (too_late.opened ≡ false) × (too_late.pc 0 ≡ asleep pop)
unfolding run
close_loses_wakeup_example =
    close_loses_wakeup 2 0 1 flushing about_to_wait too_late refl refl (λ j. ground arith)
      (tt, (tt, (tt, (tt, tt)))) refl
