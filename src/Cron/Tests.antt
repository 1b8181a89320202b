-- ===== src/Cron/Tests.antt =====
-- Runs of the cron evaluator, and its theorems at concrete inputs.
use aart.Base.{
  add_number, ℕ, ◌+◌, ◌/◌, ◌%◌, ◌≡◌, ◌↔◌, refl, true, none, some, List, [], ◌∷◌, ◌++◌, Text, codes,
  ok, err, Member, arith,
}
use aart.Expr.{span, number_from}
use aart.Cron.{
  Number, nan, natural, CronFields, ZonedParts, endless, invalid_segment, wrong_field_count,
  read_number, stepped, values_by, parse_segment, parse_segments, parse_field, parse_fields,
  parse_cron, first_minute, cron_matches, cron_fire_times_between,
}
use aart.Cron.Windows.{cron_fire_times_between-append}
use aart.Cron.Exact.{IsFire, cron_fire_times_between-exact}
use aart.Cron.Steps.{IsStep, values_by-total, stepped_endless, stepped_stuck}

-- `Number` of digits; any other text is none here.
abbrev number : Text → Number
number s = elim (read_number s) [ none ↦ nan | some n ↦ natural n ]

-- The clock of UTC on the first days of 1970.
abbrev utc : ℕ → ZonedParts
utc t = record {
  minute = (t / 60000) % 60;
  hour = (t / 3600000) % 24;
  day = t / 86400000 + 1;
  month = 1;
  weekday = (t / 86400000 + 4) % 7;
}

abbrev quarter_hours : CronFields
quarter_hours = record {
  minutes = 0 ∷ 15 ∷ 30 ∷ 45 ∷ [];
  hours = 9 ∷ [];
  days_of_month = 1 ∷ [];
  months = 1 ∷ [];
  days_of_week = 4 ∷ 5 ∷ [];
  days_of_month_restricted = true;
  days_of_week_restricted = true;
}

abbrev schedule : Text
schedule = codes "*/15 9 1 1 4-5"

parsed_schedule : parse_cron number schedule ≡ ok quarter_hours
unfolding parse_cron parse_fields parse_field parse_segments parse_segment span number_from
    add_number
parsed_schedule = refl

four_fields : parse_cron number (codes "* * * *") ≡ err (wrong_field_count 4)
unfolding parse_cron parse_fields
four_fields = refl

no_number : parse_segment number 0 59 (codes "x") ≡ err (invalid_segment (codes "x"))
unfolding parse_segment span number_from add_number
no_number = refl

step_of_zero : parse_segment number 0 59 (codes "*/0") ≡ err endless
unfolding parse_segment span number_from add_number
step_of_zero = refl

-- 09:00 and 09:15 on the first of January 1970.
two_fires :
    cron_fire_times_between utc number schedule 32399999 33300000 ≡ ok (32400000 ∷ 33300000 ∷ [])
unfolding cron_fire_times_between parse_cron parse_fields parse_field parse_segments parse_segment
    span number_from add_number first_minute cron_matches
two_fires = refl

cron_fire_times_between-append_example :
    (first : List ℕ) × ((rest : List ℕ) × ((cron_fire_times_between utc number schedule 32399999
            32400000
          ≡ ok first)
        × ((cron_fire_times_between utc number schedule 32400000 33300000 ≡ ok rest)
            × (cron_fire_times_between utc number schedule 32399999 33300000
                ≡ ok (first ++ rest)))))
cron_fire_times_between-append_example =
    cron_fire_times_between-append utc number schedule quarter_hours 32399999 32400000 33300000
      parsed_schedule (omega arith) (omega arith) (omega arith)

cron_fire_times_between-exact_example :
    (fires : List ℕ) × ((cron_fire_times_between utc number schedule 32399999 33300000 ≡ ok fires)
      × ((t : ℕ) → Member t fires ↔ IsFire utc quarter_hours 32399999 33300000 t))
cron_fire_times_between-exact_example =
    cron_fire_times_between-exact utc number schedule quarter_hours 32399999 33300000
      parsed_schedule (omega arith)

values_by-total_example :
    (vs : List ℕ) × ((values_by 0 59 15 ≡ ok vs) × ((v : ℕ) → Member v vs ↔ IsStep 0 59 15 v))
values_by-total_example = values_by-total 0 59 15 (omega arith) (omega arith)

stepped_endless_example : stepped 1000 0 59 0 ≡ none
stepped_endless_example = stepped_endless 1000 0 59 (omega arith)

no_end : stepped 1000 9007199254740992 9007199254740993 1 ≡ none
no_end = stepped_stuck 1000 9007199254740993 (omega arith)
