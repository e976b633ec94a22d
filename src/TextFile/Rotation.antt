-- ===== src/TextFile/Rotation.antt =====
-- The rotation predicates of the file backend (text_file_backend.cpp): check_time_point_validity,
-- rotation_at_time_point and rotation_at_time_interval. Boost.DateTime is an argument: its dates and
-- the operations on them that the code uses. Times of day and intervals are in seconds.
pub mod Due
pub mod Weekly
use boost_log.Base.{
  ℕ, ◌+◌, ◌-◌, ◌*◌, ◌/◌, ◌%◌, Bool, true, false, Option, none, some, leb, ltb, ◌==◌, ◌&&◌, ◌||◌,
  if◌then◌else◌, not,
}

pub data DayKind : Type 0 where
  not_specified weekday monthday : DayKind

-- The member m_Previous apart, which the call returns.
pub record TimePoint : Type 0 where
  pub day_kind : DayKind
  pub day : ℕ
  pub hour : ℕ
  pub minute : ℕ
  pub second : ℕ

-- The exceptions of check_time_point_validity.
pub data TimeError : Type 0 where
  hours_out_of_range minutes_out_of_range seconds_out_of_range : TimeError

pub check_time_point_validity : ℕ → ℕ → ℕ → Option TimeError
check_time_point_validity hour minute second =
    if leb 24 hour
    then some hours_out_of_range
    else if leb 60 minute
    then some minutes_out_of_range
    else if leb 60 second
    then some seconds_out_of_range
    else none

-- The constructor: the time point, or the exception.
pub data Construction : Type 0 where
  constructed : TimePoint → Construction
  out_of_range : TimeError → Construction

pub construct : DayKind → ℕ → ℕ → ℕ → ℕ → Construction
unfolding check_time_point_validity
construct kind day hour minute second = elim (check_time_point_validity hour minute second) [
  | none ↦
      constructed
        (record { day_kind = kind; day = day; hour = hour; minute = minute; second = second })
  | some e ↦ out_of_range e
]

-- A date is its day number, and a ptime the number of seconds at 86400 to the day. Boost.DateTime
-- answers for the days of weeks and months; `replace_day d n` is the day n of the month of d, or `none`
-- where the constructor of the date throws.
pub record Calendar : Type 0 where
  pub day_of_week : ℕ → ℕ
  pub day_of_month : ℕ → ℕ
  pub replace_day : ℕ → ℕ → Option ℕ
  pub add_month : ℕ → ℕ

pub rotation_time : TimePoint → ℕ
rotation_time t = t.hour * 3600 + t.minute * 60 + t.second

abbrev pub date_of : ℕ → ℕ
date_of time = time / 86400

abbrev pub time_of_day : ℕ → ℕ
time_of_day time = time % 86400

abbrev pub time_at : ℕ → ℕ → ℕ
time_at date seconds = date * 86400 + seconds

-- The switch of operator(): the next time of rotation after the previous call that counted. The days
-- of the weeks are added as differences of signed numbers; no date is so early that this matters.
next_rotation : Calendar → TimePoint → ℕ → Option ℕ
unfolding rotation_time
next_rotation cal t previous =
    let date = date_of previous in
    let passed = leb (rotation_time t) (time_of_day previous) in
    let by_day : ℕ = if passed then date + 1 else date in
    let wday = cal.day_of_week date in
    let this_week : ℕ = date + t.day - wday in
    let by_week : ℕ =
      if ltb t.day wday || (t.day == wday) && passed then this_week + 7 else this_week in
    let mday = cal.day_of_month date in
    elim t.day_kind [
      | not_specified ↦ some (time_at by_day (rotation_time t))
      | weekday ↦ some (time_at by_week (rotation_time t))
      | monthday ↦ elim (cal.replace_day date t.day) [
        | none ↦ none
        | some this_month ↦ some (
            time_at
              (if ltb t.day mday || (t.day == mday) && passed
                then cal.add_month this_month
                else this_month)
              (rotation_time t))
      ]
    ]

-- How a call of a predicate ends: its result and m_Previous, or with an exception.
pub data Verdict : Type 0 where
  verdict : Bool → Option ℕ → Verdict
  bad_date : Verdict

abbrev decide_rotation : ℕ → ℕ → Option ℕ → Verdict
decide_rotation now previous none = bad_date
decide_rotation now previous (some next) =
    if leb next now then verdict true (some now) else verdict false (some previous)

-- rotation_at_time_point::operator()
pub is_time_to_rotate : Calendar → TimePoint → ℕ → Option ℕ → Verdict
unfolding next_rotation
is_time_to_rotate cal t now none = verdict false (some now)
is_time_to_rotate cal t now (some previous) =
    decide_rotation now previous (next_rotation cal t previous)

-- rotation_at_time_interval::operator()
pub is_interval_over : ℕ → ℕ → Option ℕ → Verdict
is_interval_over interval now none = verdict false (some now)
is_interval_over interval now (some previous) =
    decide_rotation now previous (some (previous + interval))
