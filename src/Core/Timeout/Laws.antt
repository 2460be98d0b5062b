-- ===== src/Core/Timeout/Laws.antt =====
-- The operations of a timeout in microseconds.
use epyx.Base.{ℕ, ◌+◌, ◌-◌, ◌*◌, ◌/◌, ◌%◌, ◌^◌, ◌<◌, ◌≡◌, ap, ◌∙◌, true, arith, ltb, lt→ltb}
use epyx.Base.Int.{pos, to_int32}
use epyx.Core.Timeout.{
  Timeval, Timeout, new_timeout, has_expired, remaining_timeval, remaining_msec, due_before,
}

-- An instant as a number of microseconds.
abbrev pub micros : Timeval → ℕ
micros tv = tv.sec * 1000000 + tv.usec

abbrev pub IsInstant : Timeval → Type 0
IsInstant tv = tv.usec < 1000000

pub new_timeout-micros :
    (tv : Timeval) (ms : ℕ)
    → 1000 * ms < 2 ^ 32
    → (micros (new_timeout tv ms).max_time ≡ micros tv + 1000 * ms)
      × IsInstant (new_timeout tv ms).max_time
unfolding new_timeout
new_timeout-micros tv ms h = (omega (arith, h), omega arith)

expired_micros :
    (tv : Timeval) (t : Timeout)
    → IsInstant tv
    → IsInstant t.max_time
    → has_expired tv t ≡ ltb (micros t.max_time) (micros tv)
unfolding has_expired
expired_micros tv t h g = ground (arith, h, g)

remaining_micros :
    (tv : Timeval) (t : Timeout)
    → IsInstant tv
    → IsInstant t.max_time
    → micros (remaining_timeval tv t) ≡ micros t.max_time - micros tv
unfolding remaining_timeval
remaining_micros tv t h g = ground (arith, h, g)

remaining-IsInstant :
    (tv : Timeval) (t : Timeout)
    → IsInstant tv
    → IsInstant t.max_time
    → IsInstant (remaining_timeval tv t)
unfolding remaining_timeval
remaining-IsInstant tv t h g = ground (arith, h, g)

before_micros :
    (s t : Timeout)
    → IsInstant s.max_time
    → IsInstant t.max_time
    → due_before s t ≡ ltb (micros s.max_time) (micros t.max_time)
unfolding due_before
before_micros s t h g = ground (arith, h, g)

-- A timeout of fewer than 2^32 microseconds set at `now` has run out, at any instant, exactly where
-- more than that time has passed, and the time it has left is what is missing of it, nothing once
-- it has passed, with fewer than a million microseconds.
pub timeout_lem :
    (now tv : Timeval) (ms : ℕ)
    → IsInstant tv
    → 1000 * ms < 2 ^ 32
    → (has_expired tv (new_timeout now ms) ≡ ltb (micros now + 1000 * ms) (micros tv))
      × (micros (remaining_timeval tv (new_timeout now ms)) ≡ micros now + 1000 * ms - micros tv)
      × IsInstant (remaining_timeval tv (new_timeout now ms))
timeout_lem now tv ms h l =
    let t = new_timeout now ms in
    let (e, g) = new_timeout-micros now ms l in
    (
      expired_micros tv t h g ∙ ap (λ m. ltb m (micros tv)) e,
      remaining_micros tv t h g ∙ ap (λ m. m - micros tv) e,
      remaining-IsInstant tv t h g,
    )

-- Of two timeouts set at the same instant, both of fewer than 2^32 microseconds, `operator<` puts
-- first the one with fewer milliseconds.
pub due_before_lem :
    (now : Timeval) (ms ns : ℕ)
    → 1000 * ms < 2 ^ 32
    → 1000 * ns < 2 ^ 32
    → due_before (new_timeout now ms) (new_timeout now ns) ≡ ltb ms ns
due_before_lem now ms ns h g =
    let (e, i) = new_timeout-micros now ms h in
    let (f, j) = new_timeout-micros now ns g in
    let b = before_micros (new_timeout now ms) (new_timeout now ns) i j in ground (arith, b, e, f)

-- Of a timeout just set, of fewer than 2^32 microseconds, `remainingMsec` gives the whole seconds
-- alone, in milliseconds: it adds the microseconds modulo 1000 and does not divide them.
pub remaining_msec_lem :
    (now : Timeval) (ms : ℕ)
    → IsInstant now
    → 1000 * ms < 2 ^ 32
    → remaining_msec now (new_timeout now ms) ≡ pos (ms / 1000 * 1000)
unfolding remaining_msec to_int32
remaining_msec_lem now ms h l =
    let (x, e, i) = timeout_lem now now ms h l in
    let r = remaining_timeval now (new_timeout now ms) in
    let s : r.sec * 1000 + r.usec % 1000 ≡ ms / 1000 * 1000 = omega (arith, e, i) in
    let m : ms / 1000 * 1000 % 2 ^ 32 ≡ ms / 1000 * 1000 = omega (arith, l) in
    let q : ltb (ms / 1000 * 1000) (2 ^ 31) ≡ true =
      lt→ltb (ms / 1000 * 1000) (2 ^ 31) (omega (arith, l)) in
    ap (λ n. to_int32 (pos n)) s ∙ rw (m, q, to_int32)
