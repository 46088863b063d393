-- ===== src/Schedule/Hours.antt =====
-- src/protocol/scheduler.rs: the hours of a rule, as an arc of the clock.
use gosh_dl.Base.{
  ℕ, ◌+◌, ◌-◌, ◌%◌, ◌<◌, ◌≡◌, refl, ◌&&◌, ◌||◌, if◌then◌else◌, ◌==◌, leb, length, inl, inr,
  Bool-cases, arith,
}
use gosh_dl.Schedule.{ScheduleRule, Weekday, has_day, matches}

-- How many hours after `start` it is.
abbrev pub hours_after : ℕ → ℕ → ℕ
hours_after start hour = (hour + 24 - start) % 24

hours_lem :
    (start end hour : ℕ)
    → start < 24
    → end < 24
    → hour < 24
    → (if leb start end then leb start hour && leb hour end else leb start hour || leb hour end)
      ≡ leb (hours_after start hour) (hours_after start end)
hours_lem start end hour a b c = elim (Bool-cases (leb start end)) [
  | inl plain ↦ elim (Bool-cases (leb start hour)) [
    | inl late ↦ ground arith
    | inr early ↦ ground arith
  ]
  | inr wraps ↦ elim (Bool-cases (leb start hour)) [
    | inl late ↦ ground arith
    | inr early ↦ ground arith
  ]
]

-- A rule with hours below 24 applies, on each of its days or on every day if it names none, in the hours
-- that come after its start no later than its end does, going round the clock.
pub matches_lem :
    (rule : ScheduleRule) (hour : ℕ) (day : Weekday)
    → rule.start_hour < 24
    → rule.end_hour < 24
    → hour < 24
    → matches rule hour day ≡ (
        ((length rule.days == 0) || has_day rule.days day)
        && leb (hours_after rule.start_hour hour) (hours_after rule.start_hour rule.end_hour))
unfolding matches
matches_lem rule hour day a b c =
    let arc = hours_lem rule.start_hour rule.end_hour hour a b c in
    elim (Bool-cases (length rule.days == 0)) [
      | inl every ↦ rw every arc
      | inr some_days ↦ elim (Bool-cases (has_day rule.days day)) [
        | inl named ↦ rw (some_days, named) arc
        | inr other ↦ rw (some_days, other) refl
      ]
    ]
