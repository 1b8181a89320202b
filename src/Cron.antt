-- ===== src/Cron.antt =====
-- packages/server/src/ticker/cron.ts
--
-- A time is its number of milliseconds since 1970. `zoned_parts` is the reading of a time on the clock of
-- a time zone, which `Intl.DateTimeFormat` gives, and `number` is `Number` of a text; a number that is no
-- natural one equals no part of a time, and is left out of a field's values. A loop that does not end is
-- `endless`.
pub mod Windows
pub mod Steps
pub mod Exact
mod Tests
use aart.Base.{
  add_number, ℕ, zero, suc, ◌+◌, ◌-◌, ◌*◌, ◌/◌, Bool, true, false, not, ◌||◌, Option, none, some,
  List, [], ◌∷◌, ◌++◌, map, Text, text_eq, codes, any, trim, is_space, length, leb, ◌==◌,
  if◌then◌else◌, Result, ok, err, ◌>>=◌,
}
use aart.Expr.{is_digit, span, number_from}

pub data CronError : Type 0 where
  invalid_segment : Text → CronError
  wrong_field_count : ℕ → CronError
  endless : CronError

pub data Number : Type 0 where
  nan other : Number
  natural : ℕ → Number

pub record Field : Type 0 where
  pub values : List ℕ
  pub restricted : Bool

pub record CronFields : Type 0 where
  pub minutes : List ℕ
  pub hours : List ℕ
  pub days_of_month : List ℕ
  pub months : List ℕ
  pub days_of_week : List ℕ
  pub days_of_month_restricted : Bool
  pub days_of_week_restricted : Bool

pub record ZonedParts : Type 0 where
  pub minute : ℕ
  pub hour : ℕ
  pub day : ℕ
  pub month : ℕ
  pub weekday : ℕ

-- `split` at each character that passes a test.
abbrev pub cons_first : ℕ → List Text → List Text
cons_first c [] = (c ∷ []) ∷ []
cons_first c (s ∷ parts) = (c ∷ s) ∷ parts

abbrev pub split_at : (ℕ → Bool) → Text → List Text
split_at p [] = [] ∷ []
split_at p (c ∷ s) = let rest = split_at p s in if p c then [] ∷ rest else cons_first c rest

-- `split(/\s+/)` of a trimmed text: a run of white space separates once.
abbrev pub drop_empty : List Text → List Text
drop_empty [] = []
drop_empty ([] ∷ parts) = drop_empty parts
drop_empty ((c ∷ s) ∷ parts) = (c ∷ s) ∷ drop_empty parts

abbrev pub split_spaces : Text → List Text
split_spaces [] = [] ∷ []
split_spaces (c ∷ s) = drop_empty (split_at is_space (c ∷ s))

-- `^\d+$`
abbrev pub read_number : Text → Option ℕ
read_number s =
    let (digits, rest) = span is_digit s in
    if length digits == 0
    then none
    else if length rest == 0
    then some (number_from 0 digits)
    else none

-- `^(\d+)-(\d+)$`
abbrev pub bounds_of : List Text → Option (ℕ × ℕ)
bounds_of (a ∷ b ∷ []) = elim (read_number a) [
  | none ↦ none
  | some lo ↦ elim (read_number b) [ none ↦ none | some hi ↦ some (lo, hi) ]
]
bounds_of parts = none

abbrev pub read_range : Text → Option (ℕ × ℕ)
read_range s = bounds_of (split_at (λ c. c == b'-') s)

-- `for (let v = lo; v <= hi; v += step) values.add(v)`, on fuel: where a round leaves `v` as it was, no fuel
-- is enough, and a round that does not leaves it larger by one at least.
abbrev pub stepped : ℕ → ℕ → ℕ → ℕ → Option (List ℕ)
stepped zero lo hi step = none
stepped (suc fuel) lo hi step = elim (leb lo hi) [
  | false ↦ some []
  | true ↦ elim (stepped fuel (add_number lo step) hi step) [
    | none ↦ none
    | some vs ↦ some (lo ∷ vs)
  ]
]

abbrev pub values_by : ℕ → ℕ → ℕ → Result CronError (List ℕ)
values_by lo hi step = elim (stepped (suc (suc hi)) lo hi step) [
  | none ↦ err endless
  | some vs ↦ ok vs
]

-- What stands before the slash of a step.
abbrev pub step_range : ℕ → ℕ → Text → Option (ℕ × ℕ)
step_range min max range =
    if text_eq range (codes "*") then some (min, max) else elim (read_range range) [
      | some bounds ↦ some bounds
      | none ↦ elim (read_number range) [ none ↦ none | some n ↦ some (n, n) ]
    ]

-- `^(\*|\d+-\d+|\d+)\/(\d+)$`: the bounds and the step.
abbrev pub read_step : ℕ → ℕ → List Text → Option (ℕ × (ℕ × ℕ))
read_step min max (range ∷ step ∷ []) = elim (step_range min max range) [
  | none ↦ none
  | some (lo, hi) ↦ elim (read_number step) [ none ↦ none | some n ↦ some (lo, (hi, n)) ]
]
read_step min max parts = none

module _ (number : Text → Number) where
  -- One segment of a field.
  unfoldable pub parse_segment : ℕ → ℕ → Text → Result CronError (List ℕ)
  parse_segment min max part = elim (read_step min max (split_at (λ c. c == b'/') part)) [
    | some (lo, (hi, step)) ↦ values_by lo hi step
    | none ↦ elim (read_range part) [
      | some (lo, hi) ↦ values_by lo hi 1
      | none ↦ if text_eq part (codes "*") then values_by min max 1 else elim (number part) [
        | nan ↦ err (invalid_segment part)
        | other ↦ ok []
        | natural n ↦ ok (n ∷ [])
      ]
    ]
  ]

  unfoldable pub parse_segments : ℕ → ℕ → List Text → Result CronError (List ℕ)
  parse_segments min max [] = ok []
  parse_segments min max (part ∷ parts) = do
    values ← parse_segment min max part
    rest ← parse_segments min max parts
    ok (values ++ rest)

  unfoldable pub parse_field : Text → ℕ → ℕ → Result CronError Field
  parse_field raw min max = do
    values ← parse_segments min max (split_at (λ c. c == b',') raw)
    ok (record { values = values; restricted = not (text_eq raw (codes "*")) })

  unfoldable pub parse_fields : List Text → Result CronError CronFields
  parse_fields (minute ∷ hour ∷ dom ∷ month ∷ dow ∷ []) = do
    minutes ← parse_field minute 0 59
    hours ← parse_field hour 0 23
    days_of_month ← parse_field dom 1 31
    months ← parse_field month 1 12
    days_of_week ← parse_field dow 0 6
    ok (record {
      minutes = minutes.values;
      hours = hours.values;
      days_of_month = days_of_month.values;
      months = months.values;
      days_of_week = days_of_week.values;
      days_of_month_restricted = days_of_month.restricted;
      days_of_week_restricted = days_of_week.restricted;
    })
  parse_fields parts = err (wrong_field_count (length parts))

  unfoldable pub parse_cron : Text → Result CronError CronFields
  parse_cron expr = parse_fields (split_spaces (trim expr))

abbrev pub has_value : ℕ → List ℕ → Bool
has_value n values = any (λ v. v == n) values

-- The test of the days, when one of the two fields or both are restricted.
abbrev pub day_matches : Bool → Bool → Bool → Bool → Bool
day_matches true true dom_match dow_match = dom_match || dow_match
day_matches true false dom_match dow_match = dom_match
day_matches false true dom_match dow_match = dow_match
day_matches false false dom_match dow_match = true

abbrev pub guard_max : ℕ
guard_max = 6 * (366 * (24 * 60))

-- The first minute after a time.
unfoldable pub first_minute : ℕ → ℕ
first_minute from =
    let cursor = ((from + 59999) / 60000) * 60000 in
    if cursor == from then cursor + 60000 else cursor

module _ (zoned_parts : ℕ → ZonedParts) where
  unfoldable pub cron_matches : CronFields → ℕ → Bool
  cron_matches fields date =
      let p = zoned_parts date in
      if not (has_value p.minute fields.minutes)
      then false
      else if not (has_value p.hour fields.hours)
      then false
      else if not (has_value p.month fields.months)
      then false
      else day_matches fields.days_of_month_restricted fields.days_of_week_restricted
          (has_value p.day fields.days_of_month) (has_value p.weekday fields.days_of_week)

  -- The loop over the minutes; the fuel is the guard on the rounds that the code has.
  abbrev pub fire_times : ℕ → CronFields → ℕ → ℕ → List ℕ
  fire_times zero fields cursor to_inclusive = []
  fire_times (suc rounds) fields cursor to_inclusive = elim (leb cursor to_inclusive) [
    | false ↦ []
    | true ↦
        let rest = fire_times rounds fields (cursor + 60000) to_inclusive in
        if cron_matches fields cursor then cursor ∷ rest else rest
  ]

  unfoldable pub cron_fire_times_between :
      (Text → Number) → Text → ℕ → ℕ → Result CronError (List ℕ)
  cron_fire_times_between number expr from_exclusive to_inclusive = do
    fields ← parse_cron number expr
    ok (fire_times guard_max fields (first_minute from_exclusive) to_inclusive)
