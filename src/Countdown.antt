-- ===== src/Countdown.antt =====
-- FrontEnd/src/pages/Home.tsx, lines 12 to 44: the text of the countdown. Times are milliseconds; the
-- quotients are exact on them (a double has 53 bits), and `Math.floor` of a remainder of a quotient
-- is the remainder of the whole quotient.
pub mod Reading
mod Tests
use voting_app.Prelude.{
  ℕ, ◌≡◌, ◌/◌, Text, Option, ◌%◌, ◌∷◌, ◌++◌, if◌then◌else◌, ltb, leb, none, some, ◌-◌, [],
}
use voting_app.Decimal.{show}

abbrev pub days : ℕ → ℕ
days diff = diff / 86400000

abbrev pub hours : ℕ → ℕ
hours diff = (diff / 3600000) % 24

abbrev pub minutes : ℕ → ℕ
minutes diff = (diff / 60000) % 60

abbrev pub seconds : ℕ → ℕ
seconds diff = (diff / 1000) % 60

-- `s.padStart(2, '0')`.
abbrev pub pad_start : Text → Text
pad_start [] = b'0' ∷ b'0' ∷ []
pad_start (c ∷ []) = b'0' ∷ c ∷ []
pad_start (c ∷ d ∷ s) = c ∷ d ∷ s

-- `${n}` and a unit, and then the rest of the text.
abbrev pub part : Text → ℕ → Text → Text
part n unit rest = n ++ unit ∷ rest

unfoldable pub format : ℕ → Text
format diff =
    if ltb 0 (days diff)
    then part (show (days diff)) b'd' (
        b' '
        ∷ part (show (hours diff)) b'h' (
            b' '
            ∷ part (pad_start (show (minutes diff))) b'm'
                (b' ' ∷ part (pad_start (show (seconds diff))) b's' [])))
    else if ltb 0 (hours diff)
    then part (show (hours diff)) b'h' (
        b' '
        ∷ part (pad_start (show (minutes diff))) b'm'
            (b' ' ∷ part (pad_start (show (seconds diff))) b's' []))
    else part (show (minutes diff)) b'm' (b' ' ∷ part (pad_start (show (seconds diff))) b's' [])

-- What `tick` sets, at the time `now`.
unfoldable pub tick : ℕ → ℕ → Option Text
tick ends_at now = if leb ends_at now then none else some (format (ends_at - now))
