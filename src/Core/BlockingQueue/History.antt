-- ===== src/Core/BlockingQueue/History.antt =====
-- Lemmas on what comes out of the queue, and in which order.
use epyx.Base.{
  ℕ, ◌≡◌, refl, sym, ap, ◌∙◌, inl, inr, List, [], ◌∷◌, ◌++◌, append_assoc, append-nil, Option, none,
  some, arith, Bool-cases, Option-cases,
}
use epyx.Core.BlockingQueue.{
  Call, pop, pop_for, flush, flush_for, Pc, idle, notifying, closing, pushing, pushing_in, entering,
  testing, waiting, asleep, woken, late, taking, Queue, new_queue, Act, call_push, call_take,
  try_take, call_close, go, notify, spurious, time_out, lock_at, takes, take_out, go_on, begin,
  is_asleep, sleeps, notify_one, notify_at, end_wait, act, run, then_run,
}

-- What went in is what came out and what is there, in this order.
abbrev pub IsKept : Queue → Type 0
IsKept q = q.pushed ≡ q.taken ++ q.fifo

abbrev Keeps : Option Queue → Type 0
Keeps none = Unit
Keeps (some q) = IsKept q

takes-append : (c : Call) (xs : List ℕ) → (takes c xs).0 ++ (takes c xs).1 ≡ xs
takes-append pop [] = refl
takes-append pop (x ∷ xs) = refl
takes-append pop_for [] = refl
takes-append pop_for (x ∷ xs) = refl
takes-append flush [] = refl
takes-append flush (x ∷ xs) = append-nil (x ∷ xs)
takes-append flush_for [] = refl
takes-append flush_for (x ∷ xs) = append-nil (x ∷ xs)

take_out-IsKept : (i : ℕ) (c : Call) (q : Queue) → IsKept q → IsKept (take_out i c q)
unfolding take_out
take_out-IsKept i c q h =
    h ∙ ap (λ x. q.taken ++ x) (sym (takes-append c q.fifo)) ∙ sym (append_assoc q.taken _ _)

lock_at-Keeps : (i : ℕ) (p : Pc) (q : Queue) → IsKept q → Keeps (lock_at i p q)
unfolding lock_at
lock_at-Keeps i p q h = elim (Option-cases q.owner) [
  | inl free ↦ rw (free, Keeps) h
  | inr (j, held) ↦ rw (held, Keeps) tt
]

go_on-Keeps : (i : ℕ) (p : Pc) (q : Queue) → IsKept q → Keeps (go_on i p q)
unfolding go_on
go_on-Keeps i idle q h = tt
go_on-Keeps i notifying q h = tt
go_on-Keeps i closing q h = h
go_on-Keeps i (pushing v) q h = lock_at-Keeps i (pushing_in v) q h
go_on-Keeps i (pushing_in v) q h = ap (λ x. x ++ v ∷ []) h ∙ append_assoc q.taken q.fifo (v ∷ [])
go_on-Keeps i (entering c) q h = lock_at-Keeps i (testing c) q h
go_on-Keeps i (testing c) q h = h
go_on-Keeps i (waiting c) q h = h
go_on-Keeps i (asleep c) q h = tt
go_on-Keeps i (woken c) q h = lock_at-Keeps i _ q h
go_on-Keeps i (late c) q h = elim (Option-cases q.owner) [
  | inl free ↦ rw (free, Keeps) h
  | inr (j, held) ↦ rw (held, Keeps) tt
]
go_on-Keeps i (taking c) q h = take_out-IsKept i c q h

begin-Keeps : (i : ℕ) (a : Act) (p : Pc) (q : Queue) → IsKept q → Keeps (begin i a p q)
unfolding begin
begin-Keeps i (call_push v) idle q h = ground (arith, h)
begin-Keeps i (call_take c) idle q h = h
begin-Keeps i (try_take c) idle q h = elim (Option-cases q.owner) [
  | inl free ↦ rw (free, Keeps) (take_out-IsKept i c q h)
  | inr (j, held) ↦ rw (held, Keeps) h
]
begin-Keeps i call_close idle q h = h
begin-Keeps i _ _ q h = ground arith

notify-Keeps :
    (n i : ℕ) (who : Option ℕ) (p : Pc) (q : Queue) → IsKept q → Keeps (notify_at n i who p q)
unfolding notify_at notify_one
notify-Keeps n i none notifying q h = elim (Bool-cases (sleeps n q.pc)) [
  | inl some_sleep ↦ rw (some_sleep, Keeps) tt
  | inr awake ↦ rw (awake, Keeps) h
]
notify-Keeps n i (some j) notifying q h = elim (Bool-cases (is_asleep (q.pc j))) [
  | inl sleeping ↦ rw (sleeping, Keeps) h
  | inr awake ↦ rw (awake, Keeps) tt
]
notify-Keeps n i who _ q h = ground arith

end_wait-Keeps : (i : ℕ) (a : Act) (p : Pc) (q : Queue) → IsKept q → Keeps (end_wait i a p q)
unfolding end_wait
end_wait-Keeps i spurious (asleep c) q h = h
end_wait-Keeps i time_out (asleep pop_for) q h = h
end_wait-Keeps i time_out (asleep flush_for) q h = h
end_wait-Keeps i _ _ q h = ground arith

act-Keeps : (n i : ℕ) (a : Act) (q : Queue) → IsKept q → Keeps (act n i a q)
unfolding act
act-Keeps n i (call_push v) q h = begin-Keeps i (call_push v) (q.pc i) q h
act-Keeps n i (call_take c) q h = begin-Keeps i (call_take c) (q.pc i) q h
act-Keeps n i (try_take c) q h = begin-Keeps i (try_take c) (q.pc i) q h
act-Keeps n i call_close q h = begin-Keeps i call_close (q.pc i) q h
act-Keeps n i go q h = go_on-Keeps i (q.pc i) q h
act-Keeps n i (notify who) q h = notify-Keeps n i who (q.pc i) q h
act-Keeps n i spurious q h = end_wait-Keeps i spurious (q.pc i) q h
act-Keeps n i time_out q h = end_wait-Keeps i time_out (q.pc i) q h

run-Keeps : (n : ℕ) (acts : List (ℕ × Act)) (q : Queue) → IsKept q → Keeps (run n acts q)
unfolding run
run-Keeps n [] q h = h
run-Keeps n ((i, a) ∷ rest) q h =
    next (act n i a q) (act-Keeps n i a q h) (λ q' h'. run-Keeps n rest q' h')
  where
    next :
        (o : Option Queue)
        → Keeps o
        → ((q' : Queue) → IsKept q' → Keeps (run n rest q'))
        → Keeps (then_run (run n rest) o)
    next none k go_on = tt
    next (some q') k go_on = go_on q' k

-- After any schedule of steps of any threads, the elements pushed are those taken, in the order of
-- the pushes, followed by those in the queue.
pub run_fifo :
    (n : ℕ) (acts : List (ℕ × Act)) {q : Queue}
    → run n acts new_queue ≡ some q
    → q.pushed ≡ q.taken ++ q.fifo
run_fifo n acts e = rw e at (run-Keeps n acts new_queue refl)
