-- ===== src/Drivers/Rtc/Convert.antt =====
-- What the registers hold in each mode, and that the conversion reads it back.
use vyro_os.Base.{
  ℕ, ◌+◌, ◌*◌, ◌/◌, ◌%◌, ◌^◌, ◌<◌, ◌≡◌, refl, ap, ◌∙◌, Bool, true, false, ◌&&◌, ltb, ◌==◌, ==_iff,
  if◌then◌else◌, bit_and, bit_or, arith,
}
use vyro_os.Base.Bits.{all_below, all_below-holds}
use vyro_os.Drivers.Rtc.{RtcTime, bcd_to_bin, from_bcd, from_pm, rtc_convert}

-- Two decimal digits in a byte, or the number itself.
abbrev pub digits_byte : Bool → ℕ → ℕ
digits_byte true x = x / 10 * 16 + x % 10
digits_byte false x = x

-- The hour: 1 to 12 with the highest bit set after noon, or 0 to 23.
abbrev pub hour_byte : Bool → Bool → ℕ → ℕ
hour_byte bcd true h =
    digits_byte bcd (if h % 12 == 0 then 12 else h % 12) + (if ltb h 12 then 0 else 0x80)
hour_byte bcd false h = digits_byte bcd h

-- Status register B: bit 2 for binary numbers, bit 1 for 24 hours.
abbrev pub mode_byte : Bool → Bool → ℕ
mode_byte bcd twelve = (if bcd then 0 else 0x04) + (if twelve then 0 else 0x02)

-- What the registers hold at a time; `year` is the last two digits.
abbrev pub registers : Bool → Bool → RtcTime → RtcTime
registers bcd twelve t = record {
  second = digits_byte bcd t.second;
  minute = digits_byte bcd t.minute;
  hour = hour_byte bcd twelve t.hour;
  day = digits_byte bcd t.day;
  month = digits_byte bcd t.month;
  year = digits_byte bcd t.year;
}

-- A time of a day, its year in two digits.
abbrev pub IsTime : RtcTime → Type 0
IsTime t =
    (t.second < 60)
    × (t.minute < 60)
    × (t.hour < 24)
    × (t.day < 32)
    × (t.month < 13)
    × (t.year < 100)

-- With 12 hours, an hour that is not 12 at noon or midnight.
abbrev pub IsRegular : Bool → ℕ → Type 0
IsRegular true h = (h % 12 == 0) ≡ false
IsRegular false h = Unit

digits_table : all_below 100 (λ x. bcd_to_bin (digits_byte true x % 256) == x) ≡ true
unfolding all_below bcd_to_bin
digits_table = refl

bcd_to_bin_lem : (x : ℕ) → x < 100 → bcd_to_bin (digits_byte true x % 256) ≡ x
bcd_to_bin_lem x h = (==_iff _ _).0 (all_below-holds 100 _ x digits_table h)

bcd_to_bin_byte : (x : ℕ) → x < 100 → bcd_to_bin (digits_byte true x) ≡ x
bcd_to_bin_byte x h =
    ap bcd_to_bin {x = digits_byte true x} {y = digits_byte true x % 256} (omega arith)
    ∙ bcd_to_bin_lem x h

-- The hour as the conversion leaves it.
hour_read : Bool → Bool → ℕ → ℕ
hour_read bcd twelve h =
    let byte = hour_byte bcd twelve h in
    from_pm (mode_byte bcd twelve) (
      if bcd
      then bit_or ((bit_and byte 0x0F + bit_and byte 0x70 / 2 ^ 4 * 10) % 256) (bit_and byte 0x80)
      else byte)

hour_ok : Bool → Bool → ℕ → Bool
unfolding hour_read
hour_ok bcd twelve h = if twelve && (h % 12 == 0) then true else (hour_read bcd twelve h == h)

hour_table : (bcd twelve : Bool) → all_below 24 (hour_ok bcd twelve) ≡ true
unfolding all_below hour_ok hour_read from_pm
hour_table true true = refl
hour_table true false = refl
hour_table false true = refl
hour_table false false = refl

otherwise : (b x : Bool) → (if b then true else x) ≡ true → b ≡ false → x ≡ true
otherwise b x h off = ground arith

hour_read_lem :
    (bcd twelve : Bool) (h : ℕ) → h < 24 → IsRegular twelve h → hour_read bcd twelve h ≡ h
unfolding hour_ok
hour_read_lem bcd true h lt regular =
    (==_iff _ _).0
      (otherwise (h % 12 == 0) _ (all_below-holds 24 _ h (hour_table bcd true) lt) regular)
hour_read_lem bcd false h lt regular =
    (==_iff _ _).0 (all_below-holds 24 _ h (hour_table bcd false) lt)

year_lem : (y : ℕ) → y < 100 → (y + 2000) % 2 ^ 16 ≡ y + 2000
year_lem y h = omega arith

decimal :
    (twelve : Bool) (t : RtcTime)
    → IsTime t
    → IsRegular twelve t.hour
    → (record (from_bcd (registers true twelve t)) {
      hour = hour_read true twelve t.hour;
      year = (bcd_to_bin (digits_byte true t.year % 256) + 2000) % 2 ^ 16;
    })
      ≡ (record t { year = t.year + 2000 })
unfolding from_bcd
decimal twelve t (s, m, h, d, o, y) regular =
    rw
      (
        bcd_to_bin_byte t.second (omega arith),
        bcd_to_bin_byte t.minute (omega arith),
        hour_read_lem true twelve t.hour h regular,
        bcd_to_bin_byte t.day (omega arith),
        bcd_to_bin_byte t.month (omega arith),
        bcd_to_bin_lem t.year y,
        year_lem t.year y,
      )
      refl

binary :
    (twelve : Bool) (t : RtcTime)
    → IsTime t
    → IsRegular twelve t.hour
    → (record t { hour = hour_read false twelve t.hour; year = (t.year + 2000) % 2 ^ 16 })
      ≡ (record t { year = t.year + 2000 })
binary twelve t (s, m, h, d, o, y) regular =
    rw (hour_read_lem false twelve t.hour h regular, year_lem t.year y) refl

-- In each of the four modes, the conversion gives the time that the registers stand for, with 2000
-- added to the year, except for the hours of noon and midnight on a 12-hour clock.
pub rtc_convert-registers :
    (bcd twelve : Bool) (t : RtcTime)
    → IsTime t
    → IsRegular twelve t.hour
    → rtc_convert (mode_byte bcd twelve) (registers bcd twelve t)
      ≡ (record t { year = t.year + 2000 })
unfolding rtc_convert from_bcd hour_read
rtc_convert-registers true true t h regular = decimal true t h regular
rtc_convert-registers true false t h regular = decimal false t h regular
rtc_convert-registers false true t h regular = binary true t h regular
rtc_convert-registers false false t h regular = binary false t h regular
