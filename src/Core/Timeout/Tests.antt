-- ===== src/Core/Timeout/Tests.antt =====
-- Timeouts at concrete inputs.
use epyx.Base.{◌+◌, ◌-◌, ◌*◌, ◌/◌, ◌≡◌, arith, ltb}
use epyx.Base.Int.{pos}
use epyx.Core.Timeout.{
  Timeval, new_timeout, has_expired, remaining_timeval, remaining_msec, due_before,
}
use epyx.Core.Timeout.Laws.{micros, IsInstant, timeout_lem, due_before_lem, remaining_msec_lem}

abbrev start : Timeval
start = record { sec = 5; usec = 999000 }

abbrev later : Timeval
later = record { sec = 6; usec = 1 }

timeout_lem_test :
    (has_expired later (new_timeout start 2000) ≡ ltb (micros start + 1000 * 2000) (micros later))
    × (micros (remaining_timeval later (new_timeout start 2000))
        ≡ micros start + 1000 * 2000 - micros later)
    × IsInstant (remaining_timeval later (new_timeout start 2000))
timeout_lem_test = timeout_lem start later 2000 (omega arith) (omega arith)

due_before_lem_test : due_before (new_timeout start 2000) (new_timeout start 5000) ≡ ltb 2000 5000
due_before_lem_test = due_before_lem start 2000 5000 (omega arith) (omega arith)

remaining_msec_lem_test : remaining_msec start (new_timeout start 999) ≡ pos (999 / 1000 * 1000)
remaining_msec_lem_test = remaining_msec_lem start 999 (omega arith) (omega arith)
