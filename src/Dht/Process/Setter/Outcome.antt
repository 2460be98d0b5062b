-- ===== src/Dht/Process/Setter/Outcome.antt =====
-- What the user of a set operation is told.
use epyx.Base.{
  ℕ, zero, suc, ◌+◌, ◌≡◌, refl, ap, ◌∙◌, Bool, true, false, not, ◌||◌, List, [], ◌∷◌, ◌++◌,
  append-nil, arith, ◌==◌, ltb, if◌then◌else◌, Bool-cases, inl, inr, length,
}
use epyx.Base.Int.{pos}
use epyx.Dht.Packet.{DhtPacket, is_zero}
use epyx.Dht.Process.{Effect, on_set, on_error, kill}
use epyx.Dht.Process.Setter.{
  SetterActor, on_new_answer, on_answer_timeout, on_set_receive, is_stored, set_error_threshold,
}

-- How one query ends.
pub data Outcome : Type 0 where
  answered : DhtPacket → Outcome
  timed_out : Outcome

abbrev pub hear : Outcome → SetterActor → SetterActor × List Effect
hear (answered pkt) a = on_new_answer pkt a
hear timed_out a = on_answer_timeout a

-- The effects of all outcomes, one after the other.
abbrev pub hear_all : List Outcome → SetterActor → List Effect
hear_all [] a = []
hear_all (o ∷ os) a = (hear o a).1 ++ hear_all os (hear o a).0

-- The queries that did not store the value.
abbrev pub is_failure : Outcome → Bool
is_failure (answered pkt) = not (is_stored pkt.method) || not (is_zero pkt.status)
is_failure timed_out = true

abbrev pub failures : List Outcome → ℕ
failures [] = 0
failures (o ∷ os) = (if is_failure o then 1 else 0) + failures os

-- What is told at the end, with that many failures.
abbrev pub verdict : ℕ → List Effect
verdict n = if ltb n set_error_threshold then on_set ∷ kill ∷ [] else on_error ∷ kill ∷ []

abbrev counted : Outcome → SetterActor → SetterActor
counted o a = if is_failure o then record a { n_errors = a.n_errors + 1 } else a

hear_counts : (o : Outcome) (a : SetterActor) → hear o a ≡ on_set_receive (counted o a)
unfolding on_new_answer on_answer_timeout
hear_counts (answered pkt) a = refl
hear_counts timed_out a = refl

abbrev waiting : ℕ → SetterActor → SetterActor
waiting n a = record a { pending_requests = pos n }

last_one : (a : SetterActor) → (on_set_receive (waiting 1 a)).1 ≡ verdict a.n_errors
unfolding on_set_receive
last_one a = refl

not_last :
    (a : SetterActor) (n : ℕ) → on_set_receive (waiting (suc (suc n)) a) ≡ (waiting (suc n) a, [])
unfolding on_set_receive
not_last a n = let z : (suc n == 0) ≡ false = ground arith in rw (z, on_set_receive)

one_more : (o : Outcome) (a : SetterActor) → (counted o a).n_errors ≡ a.n_errors + failures (o ∷ [])
one_more o a = elim (Bool-cases (is_failure o)) [ inl t ↦ rw t | inr f ↦ rw f (omega arith) ]

counted-waiting :
    (o : Outcome) (n : ℕ) (a : SetterActor) → counted o (waiting n a) ≡ waiting n (counted o a)
counted-waiting o n a = elim (Bool-cases (is_failure o)) [ inl t ↦ rw t | inr f ↦ rw f ]

hear_all-waiting :
    (o : Outcome) (os : List Outcome) (a : SetterActor)
    → hear_all (o ∷ os) (waiting (suc (length os)) a) ≡ verdict (a.n_errors + failures (o ∷ os))
hear_all-waiting o [] a =
    append-nil _
    ∙ ap (λ r. r.1) (hear_counts o (waiting 1 a) ∙ ap on_set_receive (counted-waiting o 1 a))
    ∙ last_one (counted o a)
    ∙ ap verdict (one_more o a)
hear_all-waiting o (o' ∷ os) a =
    let n = length os in
    let h =
      hear_counts o (waiting (suc (suc n)) a)
      ∙ ap on_set_receive (counted-waiting o (suc (suc n)) a)
      ∙ not_last (counted o a) n in
    let e = one_more o a in
    let total : (counted o a).n_errors + failures (o' ∷ os) ≡ a.n_errors + failures (o ∷ o' ∷ os) =
      omega (arith, e) in
    ap (λ (r : SetterActor × List Effect). r.1 ++ hear_all (o' ∷ os) r.0) h
    ∙ hear_all-waiting o' os (counted o a)
    ∙ ap verdict total

-- The effects of all the outcomes together, where as many queries are open.
pub hear_all_lem :
    (a : SetterActor) (o : Outcome) (os : List Outcome)
    → a.pending_requests ≡ pos (length (o ∷ os))
    → hear_all (o ∷ os) a ≡ verdict (a.n_errors + failures (o ∷ os))
hear_all_lem a o os e =
    ap (λ n. hear_all (o ∷ os) (record a { pending_requests = n })) e ∙ hear_all-waiting o os a

-- The actor behind the outcomes.
abbrev pub after_all : List Outcome → SetterActor → SetterActor
after_all [] a = a
after_all (o ∷ os) a = after_all os (hear o a).0

abbrev counted_all : List Outcome → SetterActor → SetterActor
counted_all [] a = a
counted_all (o ∷ os) a = counted_all os (counted o a)

errors_after :
    (os : List Outcome) (a : SetterActor) → (counted_all os a).n_errors ≡ a.n_errors + failures os
errors_after [] a = omega arith
errors_after (o ∷ os) a =
    let e = one_more o a in
    errors_after os (counted o a)
    ∙ (let total : (counted o a).n_errors + failures os ≡ a.n_errors + failures (o ∷ os) =
          omega (arith, e) in
        total)

hear-waiting :
    (o : Outcome) (n : ℕ) (a : SetterActor)
    → hear o (waiting (suc (suc n)) a) ≡ (waiting (suc n) (counted o a), [])
hear-waiting o n a =
    hear_counts o (waiting (suc (suc n)) a)
    ∙ ap on_set_receive (counted-waiting o (suc (suc n)) a)
    ∙ not_last (counted o a) n

-- The outcomes before the last query leave the user without a call.
quiet :
    (os : List Outcome) (n : ℕ) (a : SetterActor)
    → (hear_all os (waiting (length os + suc n) a) ≡ [])
      × (after_all os (waiting (length os + suc n) a) ≡ waiting (suc n) (counted_all os a))
quiet [] n a = (refl, ap (λ k. waiting k a) (omega arith))
quiet (o ∷ os) n a =
    let m = length os + n in
    let e : suc (length os) + suc n ≡ suc (suc m) = omega arith in
    let f : suc m ≡ length os + suc n = omega arith in
    let h =
      ap (λ k. hear o (waiting k a)) e
      ∙ hear-waiting o m a
      ∙ ap (λ k. (waiting k (counted o a), [])) f in
    let q = quiet os n (counted o a) in
    (
      ap (λ (r : SetterActor × List Effect). r.1 ++ hear_all os r.0) h ∙ q.0,
      ap (λ (r : SetterActor × List Effect). after_all os r.0) h ∙ q.1,
    )

hear_then :
    (o : Outcome) (n : ℕ) (a : SetterActor)
    → (hear o (waiting (suc n) a)).1
      ≡ (if n == 0 then verdict (a.n_errors + failures (o ∷ [])) else [])
hear_then o zero a =
    ap (λ r. r.1) (hear_counts o (waiting 1 a) ∙ ap on_set_receive (counted-waiting o 1 a))
    ∙ last_one (counted o a)
    ∙ ap verdict (one_more o a)
hear_then o (suc n) a =
    let z : (suc n == 0) ≡ false = ground arith in rw z (ap (λ r. r.1) (hear-waiting o n a))

-- Where n + 1 queries of a set operation are open after some outcomes, the user has heard nothing,
-- and the next outcome tells nothing if n is not 0; if it is the last one it tells `onSet` if fewer
-- than 3 queries failed, counting those before, else `onError`, and the actor is killed.
pub setter_outcome :
    (a : SetterActor) (os : List Outcome) (o : Outcome) (n : ℕ)
    → a.pending_requests ≡ pos (length os + suc n)
    → (hear_all os a ≡ [])
      × ((hear o (after_all os a)).1
          ≡ (if n == 0 then verdict (a.n_errors + failures os + failures (o ∷ [])) else []))
setter_outcome a os o n e =
    let q = quiet os n a in
    (
      ap (λ k. hear_all os (record a { pending_requests = k })) e ∙ q.0,
      ap (λ k. (hear o (after_all os (record a { pending_requests = k }))).1) e
          ∙ ap (λ b. (hear o b).1) q.1
          ∙ hear_then o n (counted_all os a)
          ∙ ap (λ k. if n == 0 then verdict (k + failures (o ∷ [])) else []) (errors_after os a),
    )
