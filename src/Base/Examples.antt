-- ===== src/Base/Examples.antt =====
-- The theorems on the base library, at concrete inputs.
use cloud_storge_system.Common.{
  ℕ, ◌≡◌, refl, true, Bytes, bytes, Option, none, some, arith, to_string, List, [], ◌∷◌,
}
use cloud_storge_system.Base.AsyncLogging.{Logging, started, Event, appends, advances, stops, run}
use cloud_storge_system.Base.AsyncLogging.Stored.{stored, flat}
use cloud_storge_system.Base.AsyncLogging.Runs.{kept, round, UndroppedAll, run-stored, round-stored}
use cloud_storge_system.Base.Date.{julian_day_number, year_month_day, week_day}
use cloud_storge_system.Base.Date.Calendar.{IsDate}
use cloud_storge_system.Base.Date.RoundTrip.{year_month_day-julian_day_number}
use cloud_storge_system.Base.LogStream.{Stream, integer, write, convert}
use cloud_storge_system.Base.LogStream.Whole.{Whole, shown, write-Whole}

abbrev count_stream : Stream
count_stream = record { text = bytes "n = " }

write-Whole_example :
    Whole (shown (integer true 42)) count_stream (write (integer true 42) count_stream)
unfolding to_string
write-Whole_example = write-Whole (integer true 42) count_stream (omega arith) (omega arith)

written_number : write (integer true 42) count_stream ≡ some (record { text = bytes "n = -42" })
unfolding write convert
written_number = refl

-- Buffers of eight bytes: two of them are filled before the thread takes the lock.
abbrev log_events : List Event
log_events =
    appends (bytes "first")
    ∷ appends (bytes "second")
    ∷ advances []
    ∷ advances []
    ∷ appends (bytes "third")
    ∷ advances []
    ∷ appends (bytes "fourth")
    ∷ []

run-stored_example :
    (t : Logging) × (run 8 log_events started ≡ some t)
    × (UndroppedAll 8 log_events started → stored t ≡ kept 8 log_events)
run-stored_example = run-stored 8 log_events

abbrev or_started : Option Logging → Logging
or_started none = started
or_started (some s) = s

abbrev after_log : Logging
unfolding run
after_log = or_started (run 8 log_events started)

round-stored_example :
    (t : Logging) × (run 8 (round (bytes "notice")) after_log ≡ some t)
    × (flat t.output ≡ stored after_log)
unfolding run after_log
round-stored_example =
    round-stored 8 log_events (bytes "notice") after_log refl refl refl (omega arith)

abbrev output_of : Option Logging → List Bytes
output_of none = []
output_of (some s) = s.output

-- A line that comes after the thread has taken the buffers, before `stop`, never reaches the file.
lost_line :
    output_of (
      run 8
        (appends (bytes "one")
          ∷ advances []
          ∷ advances []
          ∷ appends (bytes "two")
          ∷ stops
          ∷ advances []
          ∷ advances []
          ∷ advances []
          ∷ [])
        started)
    ≡ bytes "one" ∷ []
unfolding run
lost_line = refl

leap_day : IsDate 2024 2 29
leap_day = record {
  month_least = omega arith;
  month_most = omega arith;
  day_least = omega arith;
  day_most = omega arith;
  year_least = omega arith;
  year_most = omega arith;
}

year_month_day-julian_day_number_example :
    (j : ℕ) × (julian_day_number 2024 2 29 ≡ some j)
    × (year_month_day j ≡ some (record { year = 2024; month = 2; day = 29 }))
year_month_day-julian_day_number_example = year_month_day-julian_day_number 2024 2 29 leap_day

-- In the year 6000000 the days no longer fit.
too_late : julian_day_number 6000000 1 1 ≡ none
unfolding julian_day_number
too_late = refl

first_day : julian_day_number 1970 1 1 ≡ some 2440588
unfolding julian_day_number
first_day = refl

-- 1970-01-01, day 2440588, was a Thursday, which is 4 when Sunday is 0.
thursday_as_sunday : week_day 2440588 ≡ 0
unfolding week_day
thursday_as_sunday = refl
