-- ===== src/Countdown/Tests.antt =====
-- The countdown at concrete times, and the theorems at them.
use voting_app.Prelude.{none, ◌≡◌, ◌/◌, refl}
use voting_app.Api.{codes}
use voting_app.Countdown.{format, tick}
use voting_app.Countdown.Reading.{seconds_of, seconds_of-format}
use voting_app.Decimal.{show}

format_tests :
    (format 3723999 ≡ codes "1h 02m 03s")
    × (format 61000 ≡ codes "1m 01s")
    × (format 90061000 ≡ codes "1d 1h 01m 01s")
    × (tick 500 500 ≡ none)
unfolding format tick show
format_tests = (refl, refl, refl, refl)

seconds_of-format_example : seconds_of (format 3723999) ≡ 3723999 / 1000
seconds_of-format_example = seconds_of-format 3723999
