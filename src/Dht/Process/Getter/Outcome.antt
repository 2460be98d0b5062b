-- ===== src/Dht/Process/Getter/Outcome.antt =====
-- What the user of a get operation is told.
use epyx.Base.{
  ℕ, zero, suc, ◌+◌, ◌≡◌, refl, ap, ◌∙◌, true, false, ◌&&◌, List, [], ◌∷◌, ◌++◌, arith, ◌==◌,
  if◌then◌else◌, length, All,
}
use epyx.Base.Int.{pos}
use epyx.Dht.Packet.{DhtPacket, is_zero}
use epyx.Dht.Process.{Effect, on_got, on_error, kill}
use epyx.Dht.Process.Getter.{GetterActor, on_new_answer, on_answer_timeout, on_get_response, is_got}

-- How one query ends.
pub data Outcome : Type 0 where
  answered : DhtPacket → Outcome
  timed_out : Outcome

abbrev pub hear : Outcome → GetterActor → GetterActor × List Effect
hear (answered pkt) a = on_new_answer pkt a
hear timed_out a = on_answer_timeout a

-- The effects of the outcomes, one after the other, and the actor behind them.
abbrev pub hear_all : List Outcome → GetterActor → GetterActor × List Effect
hear_all [] a = (a, [])
hear_all (o ∷ os) a = let (b, now) = hear o a in let (c, later) = hear_all os b in (c, now ++ later)

-- A query that brings no value.
abbrev pub IsMiss : Outcome → Type 0
IsMiss (answered pkt) = (is_got pkt.method && is_zero pkt.status) ≡ false
IsMiss timed_out = Unit

abbrev waiting : ℕ → GetterActor → GetterActor
waiting n a = record a { pending_requests = pos n }

hear_miss : (o : Outcome) (a : GetterActor) → IsMiss o → hear o a ≡ on_get_response a
unfolding on_new_answer on_answer_timeout
hear_miss (answered pkt) a h = rw (h, on_new_answer)
hear_miss timed_out a h = refl

not_last :
    (a : GetterActor) (n : ℕ) → on_get_response (waiting (suc (suc n)) a) ≡ (waiting (suc n) a, [])
unfolding on_get_response
not_last a n = let z : (suc n == 0) ≡ false = ground arith in rw (z, on_get_response)

last_miss : (a : GetterActor) → (on_get_response (waiting 1 a)).1 ≡ on_error ∷ kill ∷ []
unfolding on_get_response
last_miss a = refl

behind : List Outcome → GetterActor × List Effect → GetterActor × List Effect
behind os (b, now) = let (c, later) = hear_all os b in (c, now ++ later)

-- Misses before the last query leave the user without a call.
quiet :
    (os : List Outcome) (n : ℕ) (a : GetterActor)
    → All IsMiss os
    → hear_all os (waiting (length os + suc n) a) ≡ (waiting (suc n) a, [])
unfolding behind
quiet [] n a h = ap (λ k. (waiting k a, [])) (omega arith)
quiet (o ∷ os) n a h =
    let m = length os + n in
    let e : suc (length os) + suc n ≡ suc (suc m) = omega arith in
    let f : suc m ≡ length os + suc n = omega arith in
    ap (λ k. behind os (hear o (waiting k a))) e
    ∙ ap (behind os) (hear_miss o (waiting (suc (suc m)) a) h.0 ∙ not_last a m)
    ∙ ap (λ k. behind os (waiting k a, [])) f
    ∙ ap (λ (r : GetterActor × List Effect). (r.0, [] ++ r.1)) (quiet os n a h.1)

miss_then :
    (a : GetterActor) (n : ℕ)
    → (on_get_response (waiting (suc n) a)).1 ≡ (if n == 0 then on_error ∷ kill ∷ [] else [])
miss_then a zero = last_miss a
miss_then a (suc n) =
    let z : (suc n == 0) ≡ false = ground arith in rw z (ap (λ r. r.1) (not_last a n))

-- After queries of a get operation that all brought no value, with n + 1 still open, the user has
-- heard nothing; a value that comes next is told at once and the actor killed, and an outcome
-- without a value tells `onError` and kills the actor if it is the last one, and tells nothing
-- before.
pub getter_outcome :
    (a : GetterActor) (os : List Outcome) (o : Outcome) (pkt : DhtPacket) (n : ℕ)
    → All IsMiss os
    → a.pending_requests ≡ pos (length os + suc n)
    → IsMiss o
    → (is_got pkt.method && is_zero pkt.status) ≡ true
    → ((hear_all os a).1 ≡ [])
      × ((hear (answered pkt) (hear_all os a).0).1 ≡ on_got pkt.value ∷ kill ∷ [])
      × ((hear o (hear_all os a).0).1 ≡ (if n == 0 then on_error ∷ kill ∷ [] else []))
unfolding on_new_answer
getter_outcome a os o pkt n h e miss hit =
    let q = ap (λ k. hear_all os (record a { pending_requests = k })) e ∙ quiet os n a h in
    (
      ap (λ r. r.1) q,
      rw (hit, on_new_answer),
      ap (λ r. (hear o r.0).1) q
          ∙ ap (λ r. r.1) (hear_miss o (waiting (suc n) a) miss)
          ∙ miss_then a n,
    )
