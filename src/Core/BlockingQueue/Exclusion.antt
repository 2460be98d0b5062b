-- ===== src/Core/BlockingQueue/Exclusion.antt =====
-- Lemmas on the mutex of the queue: who holds it, and who may change the deque.
use epyx.Base.{
  ℕ, ◌≡◌, refl, sym, ap, ◌∙◌, inl, inr, Bool, true, false, List, [], ◌∷◌, Option, none, some, arith,
  ◌==◌, ==_iff, Bool-cases, Option-cases,
}
use epyx.Core.BlockingQueue.{
  Call, pop, pop_for, flush, flush_for, Pc, idle, notifying, closing, pushing, pushing_in, entering,
  testing, waiting, asleep, woken, late, taking, Queue, new_queue, Act, call_push, call_take,
  try_take, call_close, go, notify, spurious, time_out, move, wake, rejoin, lock_at, take_out,
  go_on, begin, is_asleep, sleeps, notify_one, notify_at, end_wait, act, run, then_run,
}

-- A thread between the lock and the unlock of a call.
abbrev pub holds : Pc → Bool
holds (pushing_in v) = true
holds (testing c) = true
holds (waiting c) = true
holds (taking c) = true
holds _ = false

-- Whoever stands there owns the mutex.
abbrev pub IsGuarded : Queue → Type 0
IsGuarded q = (i : ℕ) → holds (q.pc i) ≡ true → q.owner ≡ some i

abbrev Guards : Option Queue → Type 0
Guards none = Unit
Guards (some q) = IsGuarded q

-- A thread moves where nobody owns the mutex, and gets it.
locks : (i : ℕ) (p : Pc) (q : Queue) → IsGuarded q → Guards (lock_at i p q)
unfolding lock_at
locks i p q h = elim (Option-cases q.owner) [
  | inr (j, held) ↦ rw (held, Guards) tt
  | inl free ↦ rw (free, Guards) (moved free)
]
  where
    moved : q.owner ≡ none → (j : ℕ) → holds (move i p q.pc j) ≡ true → some i ≡ some j
    moved free j k = elim (Bool-cases (i == j)) [
      | inl same ↦ ap some ((==_iff i j).0 same)
      | inr other ↦ absurd (ground (arith, h j, other))
    ]

-- A thread moves to where it needs no mutex; the others and the owner stay.
leaves :
    (i : ℕ) (p : Pc) (q : Queue)
    → holds p ≡ false
    → IsGuarded q
    → (j : ℕ) → holds (move i p q.pc j) ≡ true
    → q.owner ≡ some j
leaves i p q away h j k = elim (Bool-cases (i == j)) [
  | inl same ↦ absurd (ground (arith, away, same))
  | inr other ↦ ground (arith, h j, other)
]

-- The owner gives the mutex back.
unlocks :
    (i : ℕ) (p : Pc) (q : Queue)
    → holds (q.pc i) ≡ true
    → holds p ≡ false
    → IsGuarded q
    → (j : ℕ) → holds (move i p q.pc j) ≡ true
    → none ≡ some j
unlocks i p q mine away h j k = elim (Bool-cases (i == j)) [
  | inl same ↦ absurd (ground (arith, away, same))
  | inr other ↦ absurd (ground (arith, h j, h i, other))
]

stays :
    (i : ℕ) (p : Pc) (q : Queue)
    → holds (q.pc i) ≡ true
    → IsGuarded q
    → (j : ℕ) → holds (move i p q.pc j) ≡ true
    → q.owner ≡ some j
stays i p q mine h j k = elim (Bool-cases (i == j)) [
  | inl same ↦ h i mine ∙ ap some ((==_iff i j).0 same)
  | inr other ↦ ground (arith, h j, other)
]

rejoined : (c : Call) → holds (rejoin c) ≡ true
rejoined pop = refl
rejoined pop_for = refl
rejoined flush = refl
rejoined flush_for = refl

awake : (p : Pc) → holds (wake p) ≡ true → holds p ≡ true
awake p h = ground (arith, h)

go_on-Guards : (i : ℕ) (p : Pc) (q : Queue) → q.pc i ≡ p → IsGuarded q → Guards (go_on i p q)
unfolding go_on take_out
go_on-Guards i idle q e h = tt
go_on-Guards i notifying q e h = tt
go_on-Guards i (asleep c) q e h = tt
go_on-Guards i closing q e h =
    leaves i idle (record q { pc = λ j. wake (q.pc j) }) refl (λ j k. h j (awake (q.pc j) k))
go_on-Guards i (pushing v) q e h = locks i (pushing_in v) q h
go_on-Guards i (pushing_in v) q e h = unlocks i notifying q (ap holds e) refl h
go_on-Guards i (entering c) q e h = locks i (testing c) q h
go_on-Guards i (testing c) q e h = stays i _ q (ap holds e) h
go_on-Guards i (waiting c) q e h = unlocks i (asleep c) q (ap holds e) refl h
go_on-Guards i (woken c) q e h = locks i (rejoin c) q h
go_on-Guards i (late c) q e h = elim (Option-cases q.owner) [
  | inl free ↦ rw (free, Guards) (leaves i idle q refl h)
  | inr (j, held) ↦ rw (held, Guards) tt
]
go_on-Guards i (taking c) q e h = unlocks i idle q (ap holds e) refl h

begin-Guards : (i : ℕ) (a : Act) (p : Pc) (q : Queue) → IsGuarded q → Guards (begin i a p q)
unfolding begin take_out
begin-Guards i (call_push v) idle q h = elim (Bool-cases q.opened) [
  | inl yes_open ↦ rw (yes_open, Guards) (leaves i (pushing v) q refl h)
  | inr shut ↦ rw (shut, Guards) h
]
begin-Guards i (call_take c) idle q h = leaves i (entering c) q refl h
begin-Guards i (try_take c) idle q h = elim (Option-cases q.owner) [
  | inl free ↦ rw (free, Guards) (λ j k. sym free ∙ leaves i idle q refl h j k)
  | inr (j, held) ↦ rw (held, Guards) (λ k l. sym held ∙ h k l)
]
begin-Guards i call_close idle q h = leaves i closing q refl h
begin-Guards i _ _ q h = ground arith

notify-Guards :
    (n i : ℕ) (who : Option ℕ) (p : Pc) (q : Queue) → IsGuarded q → Guards (notify_at n i who p q)
unfolding notify_at notify_one
notify-Guards n i none notifying q h = elim (Bool-cases (sleeps n q.pc)) [
  | inl some_sleep ↦ rw (some_sleep, Guards) tt
  | inr none_sleeps ↦ rw (none_sleeps, Guards) (leaves i idle q refl h)
]
notify-Guards n i (some j) notifying q h = elim (Bool-cases (is_asleep (q.pc j))) [
  | inr up ↦ rw (up, Guards) tt
  | inl sleeping ↦
      rw (sleeping, Guards)
        (leaves i idle (record q { pc = move j (wake (q.pc j)) q.pc }) refl
          (leaves j (wake (q.pc j)) q (ground (arith, sleeping)) h))
]
notify-Guards n i who _ q h = ground arith

end_wait-Guards : (i : ℕ) (a : Act) (p : Pc) (q : Queue) → IsGuarded q → Guards (end_wait i a p q)
unfolding end_wait
end_wait-Guards i spurious (asleep c) q h = leaves i (woken c) q refl h
end_wait-Guards i time_out (asleep pop_for) q h = leaves i (late pop_for) q refl h
end_wait-Guards i time_out (asleep flush_for) q h = leaves i (late flush_for) q refl h
end_wait-Guards i _ _ q h = ground arith

act-Guards : (n i : ℕ) (a : Act) (q : Queue) → IsGuarded q → Guards (act n i a q)
unfolding act
act-Guards n i (call_push v) q h = begin-Guards i (call_push v) (q.pc i) q h
act-Guards n i (call_take c) q h = begin-Guards i (call_take c) (q.pc i) q h
act-Guards n i (try_take c) q h = begin-Guards i (try_take c) (q.pc i) q h
act-Guards n i call_close q h = begin-Guards i call_close (q.pc i) q h
act-Guards n i go q h = go_on-Guards i (q.pc i) q refl h
act-Guards n i (notify who) q h = notify-Guards n i who (q.pc i) q h
act-Guards n i spurious q h = end_wait-Guards i spurious (q.pc i) q h
act-Guards n i time_out q h = end_wait-Guards i time_out (q.pc i) q h

run-Guards : (n : ℕ) (acts : List (ℕ × Act)) (q : Queue) → IsGuarded q → Guards (run n acts q)
unfolding run
run-Guards n [] q h = h
run-Guards n ((i, a) ∷ rest) q h =
    next (act n i a q) (act-Guards n i a q h) (λ q' h'. run-Guards n rest q' h')
  where
    next :
        (o : Option Queue)
        → Guards o
        → ((q' : Queue) → IsGuarded q' → Guards (run n rest q'))
        → Guards (then_run (run n rest) o)
    next none k go_on = tt
    next (some q') k go_on = go_on q' k

-- In every state that a schedule reaches, a thread that stands between the lock and the unlock of a
-- call owns the mutex, and no other thread stands there.
pub mutual_exclusion :
    (n : ℕ) (acts : List (ℕ × Act)) (q : Queue) (i : ℕ)
    → run n acts new_queue ≡ some q
    → holds (q.pc i) ≡ true
    → (q.owner ≡ some i) × ((j : ℕ) → holds (q.pc j) ≡ (i == j))
mutual_exclusion n acts q i e a = (g i a, only)
  where
    g : IsGuarded q
    g = rw e at (run-Guards n acts new_queue (λ k l. absurd (cc l)))

    only : (j : ℕ) → holds (q.pc j) ≡ (i == j)
    only j = elim (Bool-cases (i == j)) [
      | inl same ↦
          let e : i ≡ j = (==_iff i j).0 same in ap (λ k. holds (q.pc k)) (sym e) ∙ a ∙ sym same
      | inr other ↦ elim (Bool-cases (holds (q.pc j))) [
        | inr out ↦ out ∙ sym other
        | inl b ↦
            let same : some i ≡ some j = sym (g i a) ∙ g j b in
            let e : i ≡ j = cc same in
            let no : true ≡ false = sym ((==_iff i j).1 e) ∙ other in absurd (cc no)
      ]
    ]
