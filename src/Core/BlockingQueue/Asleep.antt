-- ===== src/Core/BlockingQueue/Asleep.antt =====
-- Lemmas on a `pop` that sleeps on a closed queue.
use epyx.Base.{
  ℕ, ◌≡◌, ◌≢◌, refl, sym, ap, subst, ◌∙◌, inl, inr, Bool, true, false, List, [], ◌∷◌, Option, none,
  some, arith, ◌==◌, ==_iff, if◌then◌else◌, Bool-cases, Option-cases,
}
use epyx.Core.BlockingQueue.{
  Call, pop, pop_for, flush, flush_for, Pc, idle, notifying, closing, pushing, pushing_in, entering,
  testing, waiting, asleep, woken, late, taking, Queue, Act, call_push, call_take, try_take,
  call_close, go, notify, spurious, time_out, move, rejoin, lock_at, take_out, go_on, begin,
  is_free, notify_at, end_wait, act, run, then_run,
}

-- A thread that may still notify: it is about to, or on its way to put an element in.
abbrev pub may_notify : Pc → Bool
may_notify notifying = true
may_notify closing = true
may_notify (pushing v) = true
may_notify (pushing_in v) = true
may_notify _ = false

-- The thread `k` sleeps in `pop()` on a closed queue, and nobody is left to wake it.
pub record IsLost (k : ℕ) (q : Queue) : Type 0 where
  pub sleeping : q.pc k ≡ asleep pop
  pub shut : q.opened ≡ false
  pub quiet : (i : ℕ) → may_notify (q.pc i) ≡ false

-- The steps of threads that use the queue further, but do not close it again.
abbrev pub Ordinary : Act → Type 0
Ordinary call_close = ⊥
Ordinary spurious = ⊥
Ordinary _ = Unit

abbrev Stays : ℕ → Option Queue → Type 0
Stays k none = Unit
Stays k (some q) = IsLost k q

-- A thread that is not the lost one moves to where it does not notify.
IsLost-move :
    (k i : ℕ) (p : Pc) (q : Queue) (fifo taken : List ℕ) (owner : Option ℕ)
    → IsLost k q
    → q.pc i ≢ asleep pop
    → may_notify p ≡ false
    → IsLost k (record q { fifo = fifo; taken = taken; owner = owner; pc = move i p q.pc })
IsLost-move k i p q fifo taken owner l ne m = record {
  sleeping = elim (Bool-cases (i == k)) [
    | inl same ↦ absurd (ne (ap q.pc ((==_iff i k).0 same) ∙ l.sleeping))
    | inr other ↦ rw other (l.sleeping)
  ];
  shut = l.shut;
  quiet =
      λ j. elim (Bool-cases (i == j)) [ inl same ↦ rw same m | inr other ↦ rw other (l.quiet j) ];
}

-- A thread at such a place is not lost, and does not exist.
not_there : (k i : ℕ) (p : Pc) (q : Queue) → q.pc i ≡ p → may_notify p ≡ true → IsLost k q → ⊥
not_there k i p q e m l = let no : true ≡ false = sym m ∙ ap may_notify (sym e) ∙ l.quiet i in cc no

module _ (k i : ℕ) (q : Queue) (l : IsLost k q) where
  lock-Stays : (p : Pc) → q.pc i ≢ asleep pop → may_notify p ≡ false → Stays k (lock_at i p q)
  unfolding lock_at
  lock-Stays p ne m = elim (Option-cases q.owner) [
    | inl free ↦ rw (free, Stays) (IsLost-move k i p q q.fifo q.taken (some i) l ne m)
    | inr (j, held) ↦ rw (held, Stays) tt
  ]

  away : (p : Pc) → q.pc i ≡ p → p ≢ asleep pop → q.pc i ≢ asleep pop
  away p e ne h = ne (sym e ∙ h)

  rejoin_quiet : (c : Call) → may_notify (rejoin c) ≡ false
  rejoin_quiet pop = refl
  rejoin_quiet pop_for = refl
  rejoin_quiet flush = refl
  rejoin_quiet flush_for = refl

  tested : (b : Bool) (c : Call) → may_notify (if b then waiting c else taking c) ≡ false
  tested true c = refl
  tested false c = refl

  go_on-Stays : (p : Pc) → q.pc i ≡ p → Stays k (go_on i p q)
  unfolding go_on take_out
  go_on-Stays idle e = tt
  go_on-Stays notifying e = tt
  go_on-Stays (asleep c) e = tt
  go_on-Stays closing e = absurd (not_there k i closing q e refl l)
  go_on-Stays (pushing v) e = absurd (not_there k i (pushing v) q e refl l)
  go_on-Stays (pushing_in v) e = absurd (not_there k i (pushing_in v) q e refl l)
  go_on-Stays (entering c) e = lock-Stays (testing c) (away (entering c) e (λ h. cc h)) refl
  go_on-Stays (testing c) e =
      IsLost-move k i _ q q.fifo q.taken q.owner l (away (testing c) e (λ h. cc h)) (tested _ c)
  go_on-Stays (waiting c) e =
      IsLost-move k i (asleep c) q q.fifo q.taken none l (away (waiting c) e (λ h. cc h)) refl
  go_on-Stays (woken c) e = lock-Stays (rejoin c) (away (woken c) e (λ h. cc h)) (rejoin_quiet c)
  go_on-Stays (late c) e = elim (Option-cases q.owner) [
    | inl free ↦
        rw (free, Stays)
          (IsLost-move k i idle q q.fifo q.taken q.owner l (away (late c) e (λ h. cc h)) refl)
    | inr (j, held) ↦ rw (held, Stays) tt
  ]
  go_on-Stays (taking c) e = IsLost-move k i idle q _ _ none l (away (taking c) e (λ h. cc h)) refl

  begin-Stays : (a : Act) (p : Pc) → q.pc i ≡ p → Ordinary a → Stays k (begin i a p q)
  unfolding begin take_out
  begin-Stays (call_push v) idle e o =
      subst (λ b. IsLost k (if b then record q { pc = move i (pushing v) q.pc } else q))
        (sym (l.shut)) l
  begin-Stays (call_take c) idle e o =
      IsLost-move k i (entering c) q q.fifo q.taken q.owner l (away idle e (λ h. cc h)) refl
  begin-Stays (try_take c) idle e o = elim (Option-cases q.owner) [
    | inl free ↦
        subst (λ o. IsLost k (if is_free o then take_out i c q else q)) (sym free)
          (IsLost-move k i idle q _ _ none l (away idle e (λ h. cc h)) refl)
    | inr (j, held) ↦ subst (λ o. IsLost k (if is_free o then take_out i c q else q)) (sym held) l
  ]
  begin-Stays call_close idle e o = absurd o
  begin-Stays _ _ e o = ground arith

  notify-Stays : (n : ℕ) (who : Option ℕ) (p : Pc) → q.pc i ≡ p → Stays k (notify_at n i who p q)
  unfolding notify_at
  notify-Stays n who notifying e = absurd (not_there k i notifying q e refl l)
  notify-Stays n who _ e = ground arith

  end_wait-Stays : (a : Act) (p : Pc) → q.pc i ≡ p → Ordinary a → Stays k (end_wait i a p q)
  unfolding end_wait
  end_wait-Stays spurious p e o = absurd o
  end_wait-Stays time_out (asleep pop_for) e o =
      IsLost-move k i (late pop_for) q q.fifo q.taken q.owner l
        (away (asleep pop_for) e (λ h. cc h)) refl
  end_wait-Stays time_out (asleep flush_for) e o =
      IsLost-move k i (late flush_for) q q.fifo q.taken q.owner l
        (away (asleep flush_for) e (λ h. cc h)) refl
  end_wait-Stays _ _ e o = ground arith

  act-Stays : (n : ℕ) (a : Act) → Ordinary a → Stays k (act n i a q)
  unfolding act
  act-Stays n (call_push v) o = begin-Stays (call_push v) (q.pc i) refl o
  act-Stays n (call_take c) o = begin-Stays (call_take c) (q.pc i) refl o
  act-Stays n (try_take c) o = begin-Stays (try_take c) (q.pc i) refl o
  act-Stays n call_close o = absurd o
  act-Stays n go o = go_on-Stays (q.pc i) refl
  act-Stays n (notify who) o = notify-Stays n who (q.pc i) refl
  act-Stays n spurious o = absurd o
  act-Stays n time_out o = end_wait-Stays time_out (q.pc i) refl o

abbrev pub AllOrdinary : List (ℕ × Act) → Type 0
AllOrdinary [] = Unit
AllOrdinary ((i, a) ∷ rest) = Ordinary a × AllOrdinary rest

pub run-Stays :
    (k n : ℕ) (acts : List (ℕ × Act)) (q : Queue)
    → AllOrdinary acts
    → IsLost k q
    → Stays k (run n acts q)
unfolding run
run-Stays k n [] q o l = l
run-Stays k n ((i, a) ∷ rest) q o l =
    next (act n i a q) (act-Stays k i q l n a o.0) (λ q' l'. run-Stays k n rest q' o.1 l')
  where
    next :
        (x : Option Queue)
        → Stays k x
        → ((q' : Queue) → IsLost k q' → Stays k (run n rest q'))
        → Stays k (then_run (run n rest) x)
    next none s f = tt
    next (some q') s f = f q' s
