-- ===== src/DateText/Tests.antt =====
-- `toISOString` on two instants.
use ai_event_intelligence_ag.Base.{◌≡◌, refl}
use ai_event_intelligence_ag.DateText.{to_iso_string}

iso_epoch : to_iso_string 0 ≡ "1970-01-01T00:00:00.000Z"
unfolding to_iso_string
iso_epoch = refl

iso_leap_day : to_iso_string 1709210096789 ≡ "2024-02-29T12:34:56.789Z"
unfolding to_iso_string
iso_leap_day = refl
