-- ===== src/Core/Timeout.antt =====
-- core/timeout.h and core/timeout.cpp: an instant up to which a query may take. `gettimeofday` is an
-- argument, an instant in seconds and microseconds since 1970.
pub mod Laws
mod Tests
use epyx.Base.{
  ℕ, zero, suc, ◌+◌, ◌-◌, ◌*◌, ◌/◌, ◌%◌, ◌^◌, Bool, true, false, ◌&&◌, ◌||◌, ltb, ◌==◌,
  if◌then◌else◌,
}
use epyx.Base.Int.{ℤ, pos, to_int32}

pub record Timeval : Type 0 where
  pub sec : ℕ
  pub usec : ℕ

-- `Timeout`: the field `maxTime`.
pub record Timeout : Type 0 where
  pub max_time : Timeval

-- The constructor; `1000 * ms` is an `unsigned int`.
unfoldable pub new_timeout : Timeval → ℕ → Timeout
new_timeout tv ms =
    let usec = tv.usec + 1000 * ms % 2 ^ 32 in
    record { max_time = record { sec = tv.sec + usec / 1000000; usec = usec % 1000000 } }

-- `Timeout::hasExpired`.
unfoldable pub has_expired : Timeval → Timeout → Bool
has_expired tv t =
    ltb t.max_time.sec tv.sec || (tv.sec == t.max_time.sec && ltb t.max_time.usec tv.usec)

abbrev pub no_time : Timeval
no_time = record { sec = 0; usec = 0 }

-- `Timeout::remainingTimeval`.
unfoldable pub remaining_timeval : Timeval → Timeout → Timeval
remaining_timeval tv t =
    let left = t.max_time.sec - tv.sec in
    if ltb t.max_time.sec tv.sec
    then no_time
    else if ltb t.max_time.usec tv.usec
    then if left == 0
      then no_time
      else record { sec = left - 1; usec = 1000000 + t.max_time.usec - tv.usec }
    else record { sec = left; usec = t.max_time.usec - tv.usec }

-- `Timeout::remainingMsec`: the sum is returned as an `int`.
unfoldable pub remaining_msec : Timeval → Timeout → ℤ
unfolding remaining_timeval to_int32
remaining_msec now t =
    let tv = remaining_timeval now t in to_int32 (pos (tv.sec * 1000 + tv.usec % 1000))

-- `operator<`.
unfoldable pub due_before : Timeout → Timeout → Bool
due_before t1 t2 =
    if ltb t1.max_time.sec t2.max_time.sec
    then true
    else if ltb t2.max_time.sec t1.max_time.sec
    then false
    else ltb t1.max_time.usec t2.max_time.usec
