-- ===== src/Response/Timestamp/Calendar.antt =====
-- The day numbers of the parser follow the calendar.
use mathlib.Core.Path.{ap₂}
use panopticon_agent.Prelude.{
  ℕ, zero, suc, ◌+◌, ◌-◌, ◌*◌, ◌/◌, ◌%◌, ◌≤◌, ◌<◌, ◌≡◌, ◌≢◌, dec_lt, if-both, ltb→lt, subst, sym,
  ◌∙◌, false, ltb, if◌then◌else◌, arith,
}
use panopticon_agent.Response.Timestamp.{max_day, shifted_days, is_leap}

-- A day of the calendar.
pub record Date : Type 0 where
  pub year : ℕ
  pub month : ℕ
  pub day : ℕ

-- The day after, by the calendar's rules.
unfoldable pub next_day : Date → Date
next_day d =
    if ltb d.day (max_day d.year d.month)
    then record d { day = d.day + 1 }
    else if ltb d.month 12
    then record d { month = d.month + 1; day = 1 }
    else record { year = d.year + 1; month = 1; day = 1 }

pub record IsDate (d : Date) : Type 0 where
  pub month_low : 1 ≤ d.month
  pub month_high : d.month ≤ 12
  pub day_low : 1 ≤ d.day
  pub day_high : d.day ≤ max_day d.year d.month

abbrev pub number : Date → ℕ
number d = shifted_days d.year d.month d.day

shift_day : (e x t d : ℕ) → 1 ≤ d → e + (x + (t + (d + 1) - 1)) ≡ e + (x + (t + d - 1)) + 1
shift_day e x t d h = omega arith

same_month : (y m d : ℕ) → 1 ≤ d → shifted_days y m (d + 1) ≡ shifted_days y m d + 1
unfolding shifted_days
same_month y m d h = shift_day _ _ _ d h

m1 : (y : ℕ) → shifted_days y 2 1 ≡ shifted_days y 1 31 + 1
unfolding shifted_days
m1 y = omega arith

abbrev year_days : ℕ → ℕ
year_days r = r * 365 + r / 4 - r / 100

year_leap : (r : ℕ) → 0 < r → r % 4 ≡ 0 → r % 100 ≢ 0 → year_days r ≡ year_days (r - 1) + 366
year_leap r p a b = omega arith

year_common : (r : ℕ) → r % 4 ≢ 0 → year_days r ≡ year_days (r - 1) + 365
year_common r a = omega arith

year_century : (r : ℕ) → 0 < r → r % 100 ≡ 0 → year_days r ≡ year_days (r - 1) + 365
year_century r p a = omega arith

abbrev leap_day : ℕ → ℕ
leap_day y = if is_leap y then 1 else 0

-- A year inside its era is as long as the rule for leap years says.
year_step :
    (e : ℕ) → 0 < e % 400 → year_days (e % 400) ≡ year_days (e % 400 - 1) + (365 + leap_day e)
year_step e p = ground (
  arith,
  year_leap (e % 400) p,
  year_common (e % 400),
  year_century (e % 400) p,
  mod4 e,
  mod100 e,
)
  where
    mod4 : (e : ℕ) → e % 400 % 4 ≡ e % 4
    mod4 e = omega arith

    mod100 : (e : ℕ) → e % 400 % 100 ≡ e % 100
    mod100 e = omega arith

-- The part of the day number that the year, counted from March, decides.
abbrev era_days : ℕ → ℕ
era_days y = y / 400 * 146097 + year_days (y - y / 400 * 400)

era_step : (e : ℕ) → 0 < e → era_days e ≡ era_days (e - 1) + (365 + leap_day e)
era_step e p = elim (dec_lt 0 (e % 400)) [
  | yes h ↦
      let a : e - e / 400 * 400 ≡ e % 400 = omega arith in
      let b : (e - 1) / 400 ≡ e / 400 = omega arith in
      let c : e - 1 - e / 400 * 400 ≡ e % 400 - 1 = omega arith in
      rw (b, a, c) (omega (arith, year_step e h))
  | no h ↦
      let a : e - e / 400 * 400 ≡ 0 = omega arith in
      let b : (e - 1) / 400 ≡ e / 400 - 1 = omega arith in
      let c : e - 1 - (e / 400 - 1) * 400 ≡ 399 = omega arith in
      let l : leap_day e ≡ 1 = ground arith in rw (b, a, c, l) (omega arith)
]

leap_day_era : (y : ℕ) → leap_day (y + 400) ≡ leap_day y
leap_day_era y =
    let a : (y + 400) % 4 ≡ y % 4 = omega arith in
    let b : (y + 400) % 100 ≡ y % 100 = omega arith in
    let c : (y + 400) % 400 ≡ y % 400 = omega arith in rw (a, b, c)

february : (y : ℕ) → shifted_days y 3 1 ≡ shifted_days y 2 (28 + leap_day y) + 1
unfolding shifted_days
february y =
    let z : y + 400 - 0 ≡ y + 400 = omega arith in
    rw z (omega (arith, era_step (y + 400) (omega arith), leap_day_era y))

max_day_february : (y : ℕ) → max_day y 2 ≡ 28 + leap_day y
unfolding max_day
max_day_february y = ground arith

max_day_december : (y m : ℕ) → m ≡ 12 → max_day y m ≡ 31
unfolding max_day
max_day_december y m h = rw h

-- The other months, by their last days.
month_end :
    (y m : ℕ) → 1 ≤ m → m < 12 → shifted_days y (m + 1) 1 ≡ shifted_days y m (max_day y m) + 1
unfolding shifted_days max_day
month_end y zero a b = absurd (omega arith)
month_end y (suc zero) a b = omega arith
month_end y (suc (suc zero)) a b = rw (max_day_february y) (february y)
month_end y (suc (suc (suc zero))) a b = omega arith
month_end y (suc (suc (suc (suc zero)))) a b = omega arith
month_end y (suc (suc (suc (suc (suc zero))))) a b = omega arith
month_end y (suc (suc (suc (suc (suc (suc zero)))))) a b = omega arith
month_end y (suc (suc (suc (suc (suc (suc (suc zero))))))) a b = omega arith
month_end y (suc (suc (suc (suc (suc (suc (suc (suc zero)))))))) a b = omega arith
month_end y (suc (suc (suc (suc (suc (suc (suc (suc (suc zero))))))))) a b = omega arith
month_end y (suc (suc (suc (suc (suc (suc (suc (suc (suc (suc zero)))))))))) a b = omega arith
month_end y (suc (suc (suc (suc (suc (suc (suc (suc (suc (suc (suc zero))))))))))) a b = omega arith
month_end y (suc (suc (suc (suc (suc (suc (suc (suc (suc (suc (suc (suc m)))))))))))) a b =
    absurd (omega arith)

year_end : (y : ℕ) → shifted_days (y + 1) 1 1 ≡ shifted_days y 12 31 + 1
unfolding shifted_days
year_end y = omega arith

-- The day number that the parser computes grows by one from each day of the calendar to the next,
-- through every month, leap day and year's end.
pub number-next_day : (d : Date) → IsDate d → number (next_day d) ≡ number d + 1
unfolding next_day
number-next_day d v =
    if-both (λ e. number e ≡ number d + 1) (ltb d.day (max_day d.year d.month)) _ _
      (λ _. same_month d.year d.month d.day v.day_low)
      (λ h.
        if-both (λ e. number e ≡ number d + 1) (ltb d.month 12) _ _
          (λ k.
            subst (λ n. shifted_days d.year (d.month + 1) 1 ≡ shifted_days d.year d.month n + 1)
              (last h) (month_end d.year d.month v.month_low (ltb→lt _ _ k)))
          (λ k. year_last (december k) (last h)))
  where
    last : ltb d.day (max_day d.year d.month) ≡ false → max_day d.year d.month ≡ d.day
    last h = ground (arith, v.day_high)

    december : ltb d.month 12 ≡ false → d.month ≡ 12
    december k = ground (arith, v.month_high)

    year_last :
        d.month ≡ 12
        → max_day d.year d.month ≡ d.day
        → shifted_days (d.year + 1) 1 1 ≡ shifted_days d.year d.month d.day + 1
    year_last k h =
        year_end d.year
        ∙ ap₂ (λ m n. shifted_days d.year m n + 1) (sym k)
            (sym (max_day_december d.year d.month k) ∙ h)
