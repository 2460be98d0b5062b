-- ===== src/Core/ActorManager/Begun.antt =====
-- Lemmas on the begin and the end of a call of an actor.
use epyx.Base.{
  ℕ, ◌+◌, ◌≤◌, ◌≡◌, refl, sym, ap, subst, ◌∙◌, inl, inr, true, List, [], ◌∷◌, ◌++◌, none, some,
  arith, ◌==◌, ==_iff, if◌then◌else◌, length, Bool-cases, All-append,
}
use epyx.Base.Dict.{nat_order}
use epyx.Core.ActorManager.{
  Worker, resting, holding, chosen, running, Message, ActorManager, assign, begin_call, end_call,
}
use epyx.Core.ActorManager.Sound.{IsHeld, IsCall, calls_to, IsSound, locks, about_to_call, calls_of}
use epyx.Core.ActorManager.Steps.{MayGo, assign-IsHeld, passed-drop}

calls_to-append :
    (id : ℕ) (cs : List Message) (c : Message)
    → length (calls_to id (cs ++ c ∷ [])) ≡ length (calls_to id cs) + (if id == c.0 then 1 else 0)
calls_to-append id [] c = elim (Bool-cases (id == c.0)) [ inl t ↦ rw t refl | inr f ↦ rw f refl ]
calls_to-append id (b ∷ cs) c =
    let e = calls_to-append id cs c in
    elim (Bool-cases (id == b.0)) [ inl t ↦ rw t (omega (arith, e)) | inr f ↦ rw f e ]

pub call-Goes :
    (w : ℕ) (o : Worker) (m : ActorManager)
    → m.workers w ≡ o
    → IsSound m
    → MayGo m (begin_call w o m)
unfolding begin_call
call-Goes w resting m e s = tt
call-Goes w (holding msg) m e s = tt
call-Goes w (running msg) m e s = tt
call-Goes w (chosen msg) m e s =
    let h : IsHeld m (chosen msg) = rw e at (s.held w) in
    let mine : m.owner msg.0 ≡ some w = s.locked w msg.0 (ap locks e) in
    (
      record {
        unused = s.unused;
        queued = s.queued;
        held = assign-IsHeld m w (running msg) tt s.held;
        calls = All-append IsCall m.called (msg ∷ []) s.calls (h, tt);
        locked = λ v id q. elim (Bool-cases (w == v)) [
          | inl same ↦
              let k : some msg.0 ≡ some id = rw same at q in
              let kept = mine ∙ ap some ((==_iff w v).0 same) in
              subst (λ x. m.owner x ≡ some v) (cc k) kept
          | inr other ↦ s.locked v id (rw other at q)
        ];
      },
      (λ i d. d),
      λ i d. begun i mine,
    )
  where
    after : ActorManager
    after = record m { workers = assign w (running msg) m.workers; called = m.called ++ msg ∷ [] }

    begun :
        (i : ℕ)
        → m.owner msg.0 ≡ some w
        → calls_of i after + about_to_call i after ≤ calls_of i m + about_to_call i m
    begun i mine =
        let n = calls_to-append i m.called msg in
        elim (Bool-cases (i == msg.0)) [
          | inr other ↦
              let l = passed-drop i w (running msg) m.workers (m.owner i) refl in
              let n' : calls_of i after ≡ calls_of i m + 0 = rw other at n in omega (arith, n', l)
          | inl hit ↦
              let q : i ≡ msg.0 = (==_iff i msg.0).0 hit in
              let there : m.owner i ≡ some w = ap m.owner q ∙ mine in
              let self : (w == w) ≡ true = (==_iff w w).1 refl in
              let back : (msg.0 == i) ≡ true = (==_iff msg.0 i).1 (sym q) in
              let n' : calls_of i after ≡ calls_of i m + 1 = rw hit at n in
              let now : about_to_call i after ≡ 0 = rw (there, self) refl in
              let before : about_to_call i m ≡ 1 = rw (there, e, back) refl in
              omega (arith, n', now, before)
        ]

pub finish-Goes :
    (w : ℕ) (o : Worker) (m : ActorManager) → m.workers w ≡ o → IsSound m → MayGo m (end_call w o m)
unfolding end_call
finish-Goes w resting m e s = tt
finish-Goes w (holding msg) m e s = tt
finish-Goes w (chosen msg) m e s = tt
finish-Goes w (running msg) m e s =
    let mine : m.owner msg.0 ≡ some w = s.locked w msg.0 (ap locks e) in
    (
      record {
        unused = s.unused;
        queued = s.queued;
        held = assign-IsHeld m w resting tt s.held;
        calls = s.calls;
        locked = λ v id q. elim (Bool-cases (w == v)) [
          | inl same ↦ let no : none ≡ some id = rw same at q in absurd (cc no)
          | inr other ↦
              let old = s.locked v id (rw other at q) in
              elim (Bool-cases (msg.0 == id)) [
                | inl hit ↦
                    let two : some w ≡ some v =
                      sym mine ∙ ap m.owner ((==_iff msg.0 id).0 hit) ∙ old in
                    let same : (w == v) ≡ true = (==_iff w v).1 (cc two) in
                    absurd (cc (sym same ∙ other))
                | inr miss ↦ rw (miss, old)
              ]
        ];
      },
      (λ i d. d),
      λ i d.
          let l = passed-drop i w resting m.workers (m.owner i) refl in
          elim (Bool-cases (msg.0 == i)) [
            | inl hit ↦ rw hit (omega arith)
            | inr miss ↦ rw miss (omega (arith, l))
          ],
    )
