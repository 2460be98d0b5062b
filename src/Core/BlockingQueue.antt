-- ===== src/Core/BlockingQueue.antt =====
-- core/blocking-queue.h and core/blocking-queue-detail.h: the queue that threads pass messages by.
-- A thread is a number, and `act` is a step of one thread between two accesses to what is shared: the
-- mutex, the flag `opened`, the deque and the condition variable. `pushed` and `taken` record the
-- order in which elements went in and came out. The environment chooses the calls, who is notified,
-- when a wait times out and when one ends with no reason. The children: Exclusion (the mutex),
-- History (what comes out), Wakeup (a thread that is not woken).
pub mod Exclusion
pub mod History
pub mod Asleep
pub mod Wakeup
mod Tests
use epyx.Base.{
  ℕ, zero, suc, Bool, true, false, not, ◌&&◌, List, [], ◌∷◌, ◌++◌, Option, none, some, ◌==◌,
  if◌then◌else◌,
}

-- The calls that take elements: `pop()`, `pop(msec)`, `flush()` and `flush(msec)`.
pub data Call : Type 0 where
  pop pop_for flush flush_for : Call

-- Where a thread stands. In `pushing_in`, `testing`, `waiting` and `taking` it holds the mutex.
pub data Pc : Type 0 where
  idle notifying closing : Pc
  pushing pushing_in : ℕ → Pc
  entering testing waiting asleep woken late taking : Call → Pc

pub record Queue : Type 0 where
  pub fifo : List ℕ
  pub opened : Bool
  pub owner : Option ℕ
  pub pc : ℕ → Pc
  pub pushed : List ℕ
  pub taken : List ℕ

-- The constructor, with no thread in a call.
abbrev pub new_queue : Queue
new_queue = record {
  fifo = [];
  opened = true;
  owner = none;
  pc = λ i. idle;
  pushed = [];
  taken = [];
}

-- What the environment lets a thread do.
pub data Act : Type 0 where
  call_push : ℕ → Act
  call_take try_take : Call → Act
  call_close go : Act
  notify : Option ℕ → Act
  spurious time_out : Act

abbrev pub move : ℕ → Pc → (ℕ → Pc) → ℕ → Pc
move i p pc j = if i == j then p else pc j

abbrev pub is_empty : List ℕ → Bool
is_empty [] = true
is_empty (x ∷ xs) = false

abbrev pub is_asleep : Pc → Bool
is_asleep (asleep c) = true
is_asleep _ = false

abbrev pub wake : Pc → Pc
wake (asleep c) = woken c
wake p = p

-- A thread takes the mutex, where it is free, and goes on at `p`.
unfoldable pub lock_at : ℕ → Pc → Queue → Option Queue
lock_at i p q = elim q.owner [
  | none ↦ some (record q { owner = some i; pc = move i p q.pc })
  | some j ↦ none
]

-- After `cond.wait` the loop tests again; `pop(msec)` has an `if` in place of the loop.
abbrev pub rejoin : Call → Pc
rejoin pop_for = taking pop_for
rejoin c = testing c

-- What `pop` and `flush` take off the deque.
abbrev pub takes : Call → List ℕ → List ℕ × List ℕ
takes c [] = ([], [])
takes flush (x ∷ xs) = (x ∷ xs, [])
takes flush_for (x ∷ xs) = (x ∷ xs, [])
takes _ (x ∷ xs) = (x ∷ [], xs)

unfoldable pub take_out : ℕ → Call → Queue → Queue
take_out i c q =
    let (out, left) = takes c q.fifo in
    record q { fifo = left; taken = q.taken ++ out; owner = none; pc = move i idle q.pc }

-- The next step of a thread in a call.
unfoldable pub go_on : ℕ → Pc → Queue → Option Queue
unfolding lock_at take_out
go_on i (pushing v) q = lock_at i (pushing_in v) q
go_on i (pushing_in v) q = some (record q {
  fifo = q.fifo ++ v ∷ [];
  pushed = q.pushed ++ v ∷ [];
  owner = none;
  pc = move i notifying q.pc;
})
go_on i (entering c) q = lock_at i (testing c) q
go_on i (testing c) q =
    some
      (record q { pc = move i (if q.opened && is_empty q.fifo then waiting c else taking c) q.pc })
go_on i (waiting c) q = some (record q { owner = none; pc = move i (asleep c) q.pc })
go_on i (woken c) q = lock_at i (rejoin c) q
go_on i (late c) q = elim q.owner [
  | none ↦ some (record q { pc = move i idle q.pc })
  | some j ↦ none
]
go_on i (taking c) q = some (take_out i c q)
go_on i closing q = some (record q { pc = move i idle (λ j. wake (q.pc j)) })
go_on i _ q = none

abbrev pub is_free : Option ℕ → Bool
is_free none = true
is_free (some j) = false

-- A call begins: `push` tests `opened` before it takes the mutex, and `close` clears it without.
-- `tryPop` and `tryFlush` take the mutex only if it is free, and are one step.
unfoldable pub begin : ℕ → Act → Pc → Queue → Option Queue
unfolding take_out
begin i (call_push v) idle q =
    some (if q.opened then record q { pc = move i (pushing v) q.pc } else q)
begin i (call_take c) idle q = some (record q { pc = move i (entering c) q.pc })
begin i (try_take c) idle q = some (if is_free q.owner then take_out i c q else q)
begin i call_close idle q = some (record q { opened = false; pc = move i closing q.pc })
begin i _ _ q = none

unfoldable pub sleeps : ℕ → (ℕ → Pc) → Bool
sleeps zero pc = false
sleeps (suc n) pc = if is_asleep (pc n) then true else sleeps n pc

-- `cond.notify_one()`, of `n` threads: one that sleeps, or none if none does.
unfoldable pub notify_one : ℕ → ℕ → Option ℕ → Queue → Option Queue
unfolding sleeps
notify_one n i (some j) q =
    if is_asleep (q.pc j)
    then some (record q { pc = move i idle (move j (wake (q.pc j)) q.pc) })
    else none
notify_one n i none q = if sleeps n q.pc then none else some (record q { pc = move i idle q.pc })

unfoldable pub notify_at : ℕ → ℕ → Option ℕ → Pc → Queue → Option Queue
unfolding notify_one
notify_at n i who notifying q = notify_one n i who q
notify_at n i who _ q = none

-- A wait ends with no reason, or by its time.
unfoldable pub end_wait : ℕ → Act → Pc → Queue → Option Queue
end_wait i spurious (asleep c) q = some (record q { pc = move i (woken c) q.pc })
end_wait i time_out (asleep pop_for) q = some (record q { pc = move i (late pop_for) q.pc })
end_wait i time_out (asleep flush_for) q = some (record q { pc = move i (late flush_for) q.pc })
end_wait i _ _ q = none

-- One step of the thread `i`, of `n`; `none` where it cannot be made.
unfoldable pub act : ℕ → ℕ → Act → Queue → Option Queue
unfolding go_on begin notify_at end_wait
act n i (call_push v) q = begin i (call_push v) (q.pc i) q
act n i (call_take c) q = begin i (call_take c) (q.pc i) q
act n i (try_take c) q = begin i (try_take c) (q.pc i) q
act n i call_close q = begin i call_close (q.pc i) q
act n i go q = go_on i (q.pc i) q
act n i (notify who) q = notify_at n i who (q.pc i) q
act n i spurious q = end_wait i spurious (q.pc i) q
act n i time_out q = end_wait i time_out (q.pc i) q

abbrev pub then_run : (Queue → Option Queue) → Option Queue → Option Queue
then_run f none = none
then_run f (some q) = f q

-- A schedule of steps.
unfoldable pub run : ℕ → List (ℕ × Act) → Queue → Option Queue
unfolding act
run n [] q = some q
run n ((i, a) ∷ rest) q = then_run (run n rest) (act n i a q)
