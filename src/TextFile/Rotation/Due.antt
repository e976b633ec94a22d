-- ===== src/TextFile/Rotation/Due.antt =====
-- When the time based rotation is due (text_file_backend.cpp).
use boost_log.Base.{
  ℕ, ◌+◌, ◌*◌, ◌≤◌, ◌<◌, ◌≡◌, refl, true, false, Option, none, some, leb, arith, if◌then◌else◌, ◌⊎◌,
  inl, inr,
}
use boost_log.TextFile.Rotation.{
  DayKind, not_specified, TimePoint, TimeError, check_time_point_validity, constructed,
  out_of_range, construct, Calendar, rotation_time, date_of, time_of_day, time_at, verdict,
  is_time_to_rotate, is_interval_over,
}

-- A time of day that the constructors accept.
abbrev pub IsTimePoint : TimePoint → Type 0
IsTimePoint t = (t.hour < 24) × (t.minute < 60) × (t.second < 60)

-- The constructors accept a time of day exactly if it is one, and throw only if a part of it
-- is out of range.
construct-IsTimePoint :
    (kind : DayKind) (day hour minute second : ℕ)
    → ((t : TimePoint) × (construct kind day hour minute second ≡ constructed t)
        × IsTimePoint t
        × (t.day_kind ≡ kind)
        × (t.day ≡ day)
        × (rotation_time t ≡ hour * 3600 + minute * 60 + second))
      ⊎ ((e : TimeError) × (construct kind day hour minute second ≡ out_of_range e)
          × ((24 ≤ hour) ⊎ ((60 ≤ minute) ⊎ (60 ≤ second))))
unfolding construct check_time_point_validity rotation_time
construct-IsTimePoint kind day hour minute second =
    go (check_time_point_validity hour minute second) refl
  where
    go :
        (r : Option TimeError)
        → check_time_point_validity hour minute second ≡ r
        → ((t : TimePoint) × (construct kind day hour minute second ≡ constructed t)
            × IsTimePoint t
            × (t.day_kind ≡ kind)
            × (t.day ≡ day)
            × (rotation_time t ≡ hour * 3600 + minute * 60 + second))
          ⊎ ((e : TimeError) × (construct kind day hour minute second ≡ out_of_range e)
              × ((24 ≤ hour) ⊎ ((60 ≤ minute) ⊎ (60 ≤ second))))
    go none e = inl (
      record { day_kind = kind; day = day; hour = hour; minute = minute; second = second },
      ground arith,
      ground arith,
      refl,
      refl,
      refl,
    )
    go (some x) e = inr (x, ground arith, ground arith)

-- The first moment after `previous` at which a condition holds.
abbrev pub IsFirstAfter : ℕ → (ℕ → Type 0) → ℕ → Type 0
IsFirstAfter previous P next =
    (previous < next) × P next × ((m : ℕ) → previous < m → P m → next ≤ m)

pub rotation_time-lt : (t : TimePoint) → IsTimePoint t → rotation_time t < 86400
unfolding rotation_time
rotation_time-lt t valid = omega arith

-- A predicate that is due every day at a valid time of day: once it has been called, it is due in a
-- later call exactly if the first moment after the last call that counted with that time of day has
-- come, and the call then counts; else nothing changes.
is_time_to_rotate-daily :
    (cal : Calendar) (t : TimePoint) (now previous : ℕ)
    → IsTimePoint t
    → t.day_kind ≡ not_specified
    → (next : ℕ) × IsFirstAfter previous (λ m. time_of_day m ≡ rotation_time t) next
      × (is_time_to_rotate cal t now (some previous)
          ≡ (if leb next now then verdict true (some now) else verdict false (some previous)))
unfolding is_time_to_rotate
is_time_to_rotate-daily cal t now previous valid kind = (
  next,
  (ground (arith, bound), ground (arith, bound), (λ m l h. ground (arith, bound))),
  rw (kind, is_time_to_rotate),
)
  where
    next : ℕ
    next =
        time_at
          (if leb (rotation_time t) (time_of_day previous)
            then date_of previous + 1
            else date_of previous)
          (rotation_time t)

    bound : rotation_time t < 86400
    bound = rotation_time-lt t valid

-- A call of the interval predicate that is due comes at least the interval after the time that the
-- predicate remembers, and the predicate then remembers the time of the call.
is_interval_over-apart :
    (interval now previous later : ℕ)
    → is_interval_over interval now (some previous) ≡ verdict true (some later)
    → (later ≡ now) × (previous + interval ≤ later)
unfolding is_interval_over
is_interval_over-apart interval now previous later e = ground arith
