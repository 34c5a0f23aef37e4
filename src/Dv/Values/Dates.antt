-- ===== src/Dv/Values/Dates.antt =====
-- src/dvparser.cc: the dates and times of type F and G.
use wmbm_16brandnew.Prelude.{ℕ, ◌+◌, ◌*◌, ◌/◌, ◌%◌, ◌≤◌, ◌<◌, ◌≡◌, ◌↔◌, refl, true, leb, arith}
use wmbm_16brandnew.Dv.Values.{Tm, extract_date, extract_time}

-- A date of the years from 2000 to 2127, written in two bytes by the layout that the source draws,
-- is read back, and nothing else of the time is touched.
pub extract_date_reads :
    (day month year : ℕ) (tm : Tm)
    → day < 32
    → month ≤ 12
    → year < 128
    → extract_date (year / 8 * 16 + month) (year % 8 * 32 + day) tm
      ≡ (true, record tm { mday = day; month = month; year = 2000 + year })
unfolding extract_date
extract_date_reads day month year tm hd hm hy =
    let month_bits : (year / 8 * 16 + month) % 16 ≡ month = omega arith in
    let day_bits : (year % 8 * 32 + day) % 32 ≡ day = omega arith in
    let years : 2000 + (year % 8 * 32 + day) / 32 % 8 + (year / 8 * 16 + month) / 16 % 16 * 8
        ≡ 2000 + year =
      omega arith in
    let accepted : leb month 12 ≡ true = ground arith in
    rw (month_bits, day_bits, years, accepted) refl

-- The time that is read is a time of the day exactly when the reading reports success, whatever the
-- unused bits of the two bytes hold.
pub extract_time_lem :
    (hi lo : ℕ) (tm : Tm)
    → ((extract_time hi lo tm).0 ≡ true)
      ↔ (((extract_time hi lo tm).1.min < 60) × ((extract_time hi lo tm).1.hour < 24))
unfolding extract_time
extract_time_lem hi lo tm = ground arith
