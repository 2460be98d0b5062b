-- ===== src/Core/BlockingQueue/Wakeup.antt =====
-- Lemmas on a `pop` that is asleep when the queue is closed: `close` takes no mutex, so its
-- notification can come between the test of `pop` and its wait.
use epyx.Base.{
  ℕ, ◌≡◌, refl, sym, ap, ◌∙◌, inl, inr, true, false, List, ◌∷◌, none, some, ◌==◌, ==_iff,
  Bool-cases,
}
use epyx.Core.BlockingQueue.{
  pop, Pc, idle, notifying, closing, pushing, pushing_in, entering, testing, waiting, asleep, woken,
  late, taking, Queue, Act, call_close, go, move, go_on, begin, wake, act, run, then_run,
}
use epyx.Core.BlockingQueue.Asleep.{may_notify, IsLost, AllOrdinary, run-Stays}

wake-may_notify : (p : Pc) → may_notify (wake p) ≡ may_notify p
wake-may_notify (asleep c) = refl
wake-may_notify idle = refl
wake-may_notify notifying = refl
wake-may_notify closing = refl
wake-may_notify (pushing v) = refl
wake-may_notify (pushing_in v) = refl
wake-may_notify (entering c) = refl
wake-may_notify (testing c) = refl
wake-may_notify (waiting c) = refl
wake-may_notify (woken c) = refl
wake-may_notify (late c) = refl
wake-may_notify (taking c) = refl

-- The queue after a call of `close` by `i`, and after the wait of `k` has begun behind it.
abbrev closed : ℕ → Queue → Queue
closed i q = record q { opened = false; pc = move i idle (λ j. wake (move i closing q.pc j)) }

abbrev gone_to_sleep : ℕ → Queue → Queue
gone_to_sleep k q = record q { owner = none; pc = move k (asleep pop) q.pc }

close_step :
    (n i : ℕ) (rest : List (ℕ × Act)) (q : Queue)
    → q.pc i ≡ idle
    → run n ((i, call_close) ∷ (i, go) ∷ rest) q ≡ run n rest (closed i q)
unfolding run act begin go_on
close_step n i rest q e =
    let self : (i == i) ≡ true = (==_iff i i).1 refl in
    let shut : Queue = record q { opened = false; pc = move i closing q.pc } in
    let there : shut.pc i ≡ closing = rw self in
    ap (λ p. then_run (run n ((i, go) ∷ rest)) (begin i call_close p q)) e
    ∙ ap (λ p. then_run (run n rest) (go_on i p shut)) there

sleep_step :
    (n k : ℕ) (rest : List (ℕ × Act)) (q : Queue)
    → q.pc k ≡ waiting pop
    → run n ((k, go) ∷ rest) q ≡ run n rest (gone_to_sleep k q)
unfolding run act go_on
sleep_step n k rest q e = ap (λ p. then_run (run n rest) (go_on k p q)) e

closed_pc :
    (i k : ℕ) (q : Queue) → q.pc i ≡ idle → q.pc k ≡ waiting pop → (closed i q).pc k ≡ waiting pop
closed_pc i k q e w = elim (Bool-cases (i == k)) [
  | inl same ↦
      let no : idle ≡ waiting pop = sym e ∙ ap q.pc ((==_iff i k).0 same) ∙ w in absurd (cc no)
  | inr other ↦ rw (other, w)
]

closed-quiet :
    (i k j : ℕ) (q : Queue)
    → may_notify (q.pc j) ≡ false
    → may_notify ((gone_to_sleep k (closed i q)).pc j) ≡ false
closed-quiet i k j q h = elim (Bool-cases (k == j)) [
  | inl same ↦ rw same refl
  | inr other ↦ elim (Bool-cases (i == j)) [
    | inl mine ↦ rw (other, mine) refl
    | inr away ↦ rw (other, away) (wake-may_notify (q.pc j) ∙ h)
  ]
]

-- Where a `pop()` has tested the queue and is about to wait, and no thread is in a `push` behind
-- its test of `opened` or in a `close`: if another thread calls `close`, which runs to its end
-- before the wait begins, then this `pop()` sleeps on through every further schedule in which
-- `close` is not called again and no wait ends without a reason.
pub close_loses_wakeup :
    (n k i : ℕ) (acts : List (ℕ × Act)) (q q' : Queue)
    → q.pc k ≡ waiting pop
    → q.pc i ≡ idle
    → ((j : ℕ) → may_notify (q.pc j) ≡ false)
    → AllOrdinary acts
    → run n ((i, call_close) ∷ (i, go) ∷ (k, go) ∷ acts) q ≡ some q'
    → (q'.opened ≡ false) × (q'.pc k ≡ asleep pop)
close_loses_wakeup n k i acts q q' w e h o f =
    let slept : Queue = gone_to_sleep k (closed i q) in
    let self : (k == k) ≡ true = (==_iff k k).1 refl in
    let lost : IsLost k slept = record {
      sleeping = rw self;
      shut = refl;
      quiet = λ j. closed-quiet i k j q (h j);
    } in
    let shape : run n acts slept ≡ some q' =
      sym (
        close_step n i ((k, go) ∷ acts) q e
        ∙ sleep_step n k acts (closed i q) (closed_pc i k q e w))
      ∙ f in
    let l : IsLost k q' = rw shape at (run-Stays k n acts slept o lost) in (l.shut, l.sleeping)
