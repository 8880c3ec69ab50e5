-- ===== src/DateText.antt =====
-- `Date.prototype.toISOString` for the instants from 1970 to 9999, as milliseconds since 1970: the
-- form in which src/cve/maintenance.ts keeps its cursors.
mod Tests
use Prim.Native.String.{◌++◌}
use ai_event_intelligence_ag.Base.{
  ℕ, ◌+◌, ◌-◌, ◌*◌, ◌/◌, ◌%◌, String, ◌≡◌, refl, if◌then◌else◌, ltb, leb, zero, suc,
}

pub digit : ℕ → String
digit zero = "0"
digit (suc zero) = "1"
digit (suc (suc zero)) = "2"
digit (suc (suc (suc zero))) = "3"
digit (suc (suc (suc (suc zero)))) = "4"
digit (suc (suc (suc (suc (suc zero))))) = "5"
digit (suc (suc (suc (suc (suc (suc zero)))))) = "6"
digit (suc (suc (suc (suc (suc (suc (suc zero))))))) = "7"
digit (suc (suc (suc (suc (suc (suc (suc (suc zero)))))))) = "8"
digit _ = "9"

two : ℕ → String
unfolding digit
two n = digit (n / 10 % 10) ++ digit (n % 10)

-- The date of a day counted from 1970-01-01, in the proleptic Gregorian calendar.
date_text : ℕ → String
unfolding two
date_text days =
    let z = days + 719468 in
    let era = z / 146097 in
    let doe = z % 146097 in
    let yoe = (doe + doe / 36524 - doe / 1460 - doe / 146096) / 365 in
    let doy = doe + yoe / 100 - (365 * yoe + yoe / 4) in
    let mp = (5 * doy + 2) / 153 in
    let day = doy - (153 * mp + 2) / 5 + 1 in
    let month : ℕ = if ltb mp 10 then mp + 3 else mp - 9 in
    let year = yoe + era * 400 + (if leb month 2 then 1 else 0) in
    two (year / 100) ++ two (year % 100) ++ "-" ++ two month ++ "-" ++ two day

-- The first ten characters of the text: `toISOString().slice(0, 10)`.
unfoldable pub to_iso_date : ℕ → String
unfolding date_text
to_iso_date ms = date_text (ms / 86400000)

unfoldable pub to_iso_string : ℕ → String
unfolding to_iso_date
to_iso_string ms =
    let s = ms / 1000 % 86400 in
    to_iso_date ms
    ++ "T"
    ++ two (s / 3600)
    ++ ":"
    ++ two (s / 60 % 60)
    ++ ":"
    ++ two (s % 60)
    ++ "."
    ++ digit (ms % 1000 / 100)
    ++ two (ms % 100)
    ++ "Z"
