-- ===== src/Drivers/Rtc.antt =====
-- drivers/rtc.c: the clock's registers read until two readings agree, and their conversion. What the
-- ports give is a list of readings, each taken when no update was in progress.
use vyro_os.Base.{
  ℕ, zero, suc, ◌+◌, ◌*◌, ◌/◌, ◌%◌, ◌^◌, Bool, true, false, ◌&&◌, not, List, [], ◌∷◌, ◌==◌,
  if◌then◌else◌, bit_and, bit_or,
}
pub mod Convert
pub mod Tests

-- `rtc_time_t`
pub record RtcTime : Type 0 where
  pub second : ℕ
  pub minute : ℕ
  pub hour : ℕ
  pub day : ℕ
  pub month : ℕ
  pub year : ℕ

unfoldable pub bcd_to_bin : ℕ → ℕ
bcd_to_bin bcd = (bcd / 2 ^ 4 * 10 + bit_and bcd 0x0F) % 256

-- the conditions of the `do` loop, negated
pub same_time : RtcTime → RtcTime → Bool
same_time a b =
    (a.second == b.second)
    && ((a.minute == b.minute)
        && ((a.hour == b.hour)
            && ((a.day == b.day) && ((a.month == b.month) && (a.year == b.year)))))

-- The `do` loop: each further reading is compared with the one before; without one, the loop has
-- the last.
pub read_stable : RtcTime → List RtcTime → RtcTime
unfolding same_time
read_stable last [] = last
read_stable last (t ∷ ts) = let rest = read_stable t ts in if same_time last t then t else rest

-- `if (!(status_b & 0x04))`: numbers in BCD; the hour keeps its highest bit
pub from_bcd : RtcTime → RtcTime
unfolding bcd_to_bin
from_bcd t = record {
  second = bcd_to_bin t.second;
  minute = bcd_to_bin t.minute;
  hour =
      bit_or ((bit_and t.hour 0x0F + bit_and t.hour 0x70 / 2 ^ 4 * 10) % 256) (bit_and t.hour 0x80);
  day = bcd_to_bin t.day;
  month = bcd_to_bin t.month;
  year = bcd_to_bin (t.year % 256);
}

-- `if (!(status_b & 0x02) && (t->hour & 0x80))`: an hour after noon
pub from_pm : ℕ → ℕ → ℕ
from_pm status_b hour =
    if (bit_and status_b 0x02 == 0) && not (bit_and hour 0x80 == 0)
    then (bit_and hour 0x7F + 12) % 24
    else hour

-- The conversion behind the loop, by the status register B.
pub rtc_convert : ℕ → RtcTime → RtcTime
unfolding from_bcd from_pm
rtc_convert status_b t =
    let u = if bit_and status_b 0x04 == 0 then from_bcd t else t in
    record u { hour = from_pm status_b u.hour; year = (u.year + 2000) % 2 ^ 16 }

pub rtc_read : RtcTime → List RtcTime → ℕ → RtcTime
unfolding read_stable rtc_convert
rtc_read first readings status_b = rtc_convert status_b (read_stable first readings)
