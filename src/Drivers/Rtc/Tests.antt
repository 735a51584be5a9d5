-- ===== src/Drivers/Rtc/Tests.antt =====
-- A time in the registers of a 12-hour clock in BCD, and noon and midnight on such a clock.
use vyro_os.Base.{◌+◌, ◌≡◌, refl, true, [], ◌∷◌, arith}
use vyro_os.Drivers.Rtc.{
  RtcTime, bcd_to_bin, from_bcd, from_pm, same_time, read_stable, rtc_convert, rtc_read,
}
use vyro_os.Drivers.Rtc.Convert.{mode_byte, registers, rtc_convert-registers}

abbrev evening : RtcTime
evening = record { second = 59; minute = 7; hour = 21; day = 31; month = 12; year = 26 }

abbrev noon : RtcTime
noon = record evening { hour = 12 }

abbrev midnight : RtcTime
midnight = record evening { hour = 0 }

rtc_convert-registers_example :
    rtc_convert (mode_byte true true) (registers true true evening)
    ≡ (record evening { year = evening.year + 2000 })
rtc_convert-registers_example =
    rtc_convert-registers true true evening
      (omega arith, omega arith, omega arith, omega arith, omega arith, omega arith) refl

-- Noon is read as hour 0 and midnight as hour 12.
noon_read : (rtc_convert (mode_byte true true) (registers true true noon)).hour ≡ 0
unfolding rtc_convert from_bcd from_pm bcd_to_bin
noon_read = refl

midnight_read : (rtc_convert (mode_byte true true) (registers true true midnight)).hour ≡ 12
unfolding rtc_convert from_bcd from_pm bcd_to_bin
midnight_read = refl

-- A reading that changed in between is taken again.
read_again : rtc_read noon (evening ∷ evening ∷ noon ∷ []) 0x06 ≡ (record evening { year = 2026 })
unfolding rtc_read read_stable same_time rtc_convert from_pm
read_again = refl
