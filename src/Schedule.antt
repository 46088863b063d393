-- ===== src/Schedule.antt =====
-- src/protocol/scheduler.rs: the rules of the bandwidth schedule; src/scheduler.rs: the limits in force.
-- The hour and the weekday of a call are its arguments; a limit is in bytes a second.
mod Hours
mod Limits
mod Tests
use gosh_dl.Base.{
  ℕ, ◌≡◌, Bool, true, false, not, ◌&&◌, ◌||◌, List, [], ◌∷◌, ◌++◌, Option, none, some,
  if◌then◌else◌, ◌==◌, leb, length, min,
}

pub data Weekday : Type 0 where
  mon tue wed thu fri sat sun : Weekday

abbrev pub day_number : Weekday → ℕ
day_number mon = 0
day_number tue = 1
day_number wed = 2
day_number thu = 3
day_number fri = 4
day_number sat = 5
day_number sun = 6

abbrev pub has_day : List Weekday → Weekday → Bool
has_day [] day = false
has_day (d ∷ days) day = (day_number d == day_number day) || has_day days day

pub record ScheduleRule : Type 0 where
  pub start_hour : ℕ
  pub end_hour : ℕ
  pub days : List Weekday
  pub download_limit : Option ℕ
  pub upload_limit : Option ℕ

pub new_rule : ℕ → ℕ → List Weekday → Option ℕ → Option ℕ → ScheduleRule
new_rule start_hour end_hour days download_limit upload_limit = record {
  start_hour = min start_hour 23;
  end_hour = min end_hour 23;
  days = days;
  download_limit = download_limit;
  upload_limit = upload_limit;
}

pub all_days : ℕ → ℕ → Option ℕ → Option ℕ → ScheduleRule
unfolding new_rule
all_days start_hour end_hour = new_rule start_hour end_hour []

pub weekdays : ℕ → ℕ → Option ℕ → Option ℕ → ScheduleRule
unfolding new_rule
weekdays start_hour end_hour = new_rule start_hour end_hour (mon ∷ tue ∷ wed ∷ thu ∷ fri ∷ [])

pub weekends : ℕ → ℕ → Option ℕ → Option ℕ → ScheduleRule
unfolding new_rule
weekends start_hour end_hour = new_rule start_hour end_hour (sat ∷ sun ∷ [])

-- A rule whose end is before its start goes on past midnight.
pub matches : ScheduleRule → ℕ → Weekday → Bool
matches rule hour day =
    if not (length rule.days == 0) && not (has_day rule.days day)
    then false
    else if leb rule.start_hour rule.end_hour
    then leb rule.start_hour hour && leb hour rule.end_hour
    else leb rule.start_hour hour || leb hour rule.end_hour

pub record BandwidthLimits : Type 0 where
  pub download : Option ℕ
  pub upload : Option ℕ

pub record BandwidthScheduler : Type 0 where
  pub rules : List ScheduleRule
  pub default_limits : BandwidthLimits
  pub current_limits : BandwidthLimits

pub evaluate_rules : List ScheduleRule → BandwidthLimits → ℕ → Weekday → BandwidthLimits
unfolding matches
evaluate_rules [] default_limits hour day = default_limits
evaluate_rules (rule ∷ rules) default_limits hour day =
    if matches rule hour day
    then record { download = rule.download_limit; upload = rule.upload_limit }
    else evaluate_rules rules default_limits hour day

pub new : List ScheduleRule → BandwidthLimits → ℕ → Weekday → BandwidthScheduler
unfolding evaluate_rules
new rules default_limits hour day = record {
  rules = rules;
  default_limits = default_limits;
  current_limits = evaluate_rules rules default_limits hour day;
}

abbrev pub same_limit : Option ℕ → Option ℕ → Bool
same_limit none none = true
same_limit none (some m) = false
same_limit (some n) none = false
same_limit (some n) (some m) = n == m

abbrev pub same_limits : BandwidthLimits → BandwidthLimits → Bool
same_limits a b = same_limit a.download b.download && same_limit a.upload b.upload

-- With whether the limits have changed.
pub update : BandwidthScheduler → ℕ → Weekday → BandwidthScheduler × Bool
unfolding evaluate_rules
update s hour day =
    let new_limits = evaluate_rules s.rules s.default_limits hour day in
    if not (same_limits s.current_limits new_limits)
    then (record s { current_limits = new_limits }, true)
    else (s, false)

pub add_rule : BandwidthScheduler → ScheduleRule → ℕ → Weekday → BandwidthScheduler
unfolding update
add_rule s rule hour day = (update (record s { rules = s.rules ++ rule ∷ [] }) hour day).0

pub clear_rules : BandwidthScheduler → ℕ → Weekday → BandwidthScheduler
unfolding update
clear_rules s hour day = (update (record s { rules = [] }) hour day).0

pub set_rules : BandwidthScheduler → List ScheduleRule → ℕ → Weekday → BandwidthScheduler
unfolding update
set_rules s rules hour day = (update (record s { rules = rules }) hour day).0

pub set_defaults : BandwidthScheduler → BandwidthLimits → ℕ → Weekday → BandwidthScheduler
unfolding update
set_defaults s limits hour day = (update (record s { default_limits = limits }) hour day).0
