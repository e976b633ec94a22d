-- ===== src/TextFile/Rotation/Weekly.antt =====
-- When the rotation on a day of the week is due (text_file_backend.cpp).
use boost_log.Base.{
  ℕ, ◌+◌, ◌-◌, ◌/◌, ◌%◌, ◌≤◌, ◌<◌, ◌≡◌, refl, sym, ◌∙◌, Bool, true, false, some, leb, ltb, ◌==◌,
  ◌&&◌, ◌||◌, arith, if◌then◌else◌,
}
use boost_log.TextFile.Rotation.{
  weekday, TimePoint, Calendar, rotation_time, date_of, time_of_day, time_at, verdict,
  is_time_to_rotate,
}
use boost_log.TextFile.Rotation.Due.{IsTimePoint, IsFirstAfter, rotation_time-lt}

-- The date of the next rotation, as the code computes it.
abbrev weekly_date : ℕ → ℕ → ℕ → Bool → ℕ
weekly_date date day wday passed =
    if ltb day wday || (day == wday) && passed then date + day - wday + 7 else date + day - wday

weekly_least :
    (offset day rotation previous date wday : ℕ)
    → rotation < 86400
    → day < 7
    → 7 ≤ date
    → date ≡ previous / 86400
    → wday ≡ (date + offset) % 7
    → IsFirstAfter previous
        (λ m. (m % 86400 ≡ rotation) × ((m / 86400 + offset) % 7 ≡ day))
        (time_at (weekly_date date day wday (leb rotation (previous % 86400))) rotation)
weekly_least offset day rotation previous date wday r d early e w =
    (ground arith, (ground arith, ground arith), λ m l h. ground arith)

-- A predicate that is due on a day of the week at a valid time of day, where the days of the week
-- follow one another in turn and the last call that counted is not in the first week of the day
-- numbers: it is due exactly if the first moment after that call on that day of the week with that time
-- of day has come, and the call then counts; else nothing changes.
is_time_to_rotate-weekly :
    (cal : Calendar) (offset : ℕ) (t : TimePoint) (now previous : ℕ)
    → ((d : ℕ) → cal.day_of_week d ≡ (d + offset) % 7)
    → IsTimePoint t
    → t.day < 7
    → t.day_kind ≡ weekday
    → 7 ≤ date_of previous
    → (next : ℕ) × IsFirstAfter previous
        (λ m. (time_of_day m ≡ rotation_time t) × (cal.day_of_week (date_of m) ≡ t.day))
        next
      × (is_time_to_rotate cal t now (some previous)
          ≡ (if leb next now then verdict true (some now) else verdict false (some previous)))
unfolding is_time_to_rotate
is_time_to_rotate-weekly cal offset t now previous law valid day kind early = (
  next,
  (
    first.0,
    (first.1.0, law (date_of next) ∙ first.1.1),
    λ m l h. first.2 m l (h.0, sym (law (date_of m)) ∙ h.1),
  ),
  rw (kind, is_time_to_rotate),
)
  where
    next : ℕ
    next =
        time_at
          (weekly_date (date_of previous) t.day (cal.day_of_week (date_of previous))
            (leb (rotation_time t) (time_of_day previous)))
          (rotation_time t)

    first :
        IsFirstAfter previous
          (λ m. (m % 86400 ≡ rotation_time t) × ((m / 86400 + offset) % 7 ≡ t.day))
          next
    first =
        weekly_least offset t.day (rotation_time t) previous (date_of previous)
          (cal.day_of_week (date_of previous)) (rotation_time-lt t valid) day early refl
          (law (date_of previous))
