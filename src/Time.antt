-- ===== src/Time.antt =====
-- include/common/time.h: a time as a text. The fields of the broken-down time, which localtime_r
-- fills in, are an argument.
use caimr.Prelude.{
  ℕ, ◌+◌, ◌-◌, ◌*◌, ◌/◌, ◌%◌, ◌≤◌, ◌≡◌, refl, Bool, true, ◌&&◌, ltb, if◌then◌else◌, Option, none,
  some, Bytes, [], ◌∷◌, ◌++◌, length, arith,
}
use caimr.LogStream.Decimal.{is_digit}

-- `tm_buf`, with the year and the month as one writes them.
pub record Tm : Type 0 where
  pub year : ℕ
  pub month : ℕ
  pub day : ℕ
  pub hour : ℕ
  pub minute : ℕ
  pub second : ℕ

-- The conversions %m, %d, %H, %M and %S of strftime.
abbrev pub two_digits : ℕ → Bytes
two_digits n = (48 + n / 10) ∷ (48 + n % 10) ∷ []

-- %Y of a year with four digits.
abbrev pub four_digits : ℕ → Bytes
four_digits n = two_digits (n / 100) ++ two_digits (n % 100)

-- What strftime writes for "%Y-%m-%d %H:%M:%S".
abbrev pub text : Tm → Bytes
text tm =
    four_digits tm.year
    ++ 45 ∷ two_digits tm.month
    ++ 45 ∷ two_digits tm.day
    ++ 32 ∷ two_digits tm.hour
    ++ 58 ∷ two_digits tm.minute
    ++ 58 ∷ two_digits tm.second

-- strftime leaves the buffer undefined if the text, with its end, does not fit: `none`.
pub to_cstring : Tm → Option Bytes
to_cstring tm = if ltb (length (text tm)) 64 then some (text tm) else none

pub to_string : Tm → Option Bytes
unfolding to_cstring
to_string tm = to_cstring tm

-- What localtime_r gives, up to the year 9999; a second may be a leap second.
pub record InCalendar (tm : Tm) : Type 0 where
  pub years : (1000 ≤ tm.year) × (tm.year ≤ 9999)
  pub months : (1 ≤ tm.month) × (tm.month ≤ 12)
  pub days : (1 ≤ tm.day) × (tm.day ≤ 31)
  pub hours : tm.hour ≤ 23
  pub minutes : tm.minute ≤ 59
  pub seconds : tm.second ≤ 60

-- A reader of such texts, written without regard to the code.
abbrev pub read_two : ℕ → ℕ → ℕ
read_two a b = (a - 48) * 10 + (b - 48)

abbrev pub digit_pair : ℕ → ℕ → Bool
digit_pair a b = is_digit a && is_digit b

abbrev pub read_time : Bytes → Option Tm
read_time (a ∷ b ∷ c ∷ d ∷ _ ∷ e ∷ f ∷ _ ∷ g ∷ h ∷ _ ∷ i ∷ j ∷ _ ∷ k ∷ l ∷ _ ∷ m ∷ n ∷ []) =
    if digit_pair a b
      && digit_pair c d
      && digit_pair e f
      && digit_pair g h
      && digit_pair i j
      && digit_pair k l
      && digit_pair m n
    then some (record {
      year = read_two a b * 100 + read_two c d;
      month = read_two e f;
      day = read_two g h;
      hour = read_two i j;
      minute = read_two k l;
      second = read_two m n;
    })
    else none
read_time _ = none

pair_lem : (n : ℕ) → n ≤ 99 → digit_pair (48 + n / 10) (48 + n % 10) ≡ true
pair_lem n h = ground arith

read_two_lem : (n : ℕ) → read_two (48 + n / 10) (48 + n % 10) ≡ n
read_two_lem n = omega arith

read_year_lem :
    (n : ℕ)
    → read_two (48 + n / 100 / 10) (48 + n / 100 % 10) * 100
        + read_two (48 + n % 100 / 10) (48 + n % 100 % 10)
      ≡ n
read_year_lem n = omega (arith, read_two_lem (n / 100), read_two_lem (n % 100))

-- A time of the calendar fits into the buffer. It is written in exactly 19 characters, as many as the
-- log takes of it, and a reader that knows nothing of the code gets each of its fields back.
to_cstring_lem :
    (tm : Tm)
    → InCalendar tm
    → (to_cstring tm ≡ some (text tm)) × (length (text tm) ≡ 19) × (read_time (text tm) ≡ some tm)
unfolding to_cstring
to_cstring_lem tm v = (
  refl,
  refl,
  simp
      (
        pair_lem (tm.year / 100) (omega (arith, v.years)),
        pair_lem (tm.year % 100) (omega arith),
        pair_lem tm.month (omega (arith, v.months)),
        pair_lem tm.day (omega (arith, v.days)),
        pair_lem tm.hour (omega (arith, v.hours)),
        pair_lem tm.minute (omega (arith, v.minutes)),
        pair_lem tm.second (omega (arith, v.seconds)),
      )
      (λ i. some (record {
        year = read_year_lem tm.year i;
        month = read_two_lem tm.month i;
        day = read_two_lem tm.day i;
        hour = read_two_lem tm.hour i;
        minute = read_two_lem tm.minute i;
        second = read_two_lem tm.second i;
      })),
)
