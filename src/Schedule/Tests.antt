-- ===== src/Schedule/Tests.antt =====
-- The schedule of src/scheduler.rs at concrete inputs: a rule from 22 to 6 on Mondays.
use gosh_dl.Base.{[], ◌∷◌, none, some}
use gosh_dl.Schedule.{ScheduleRule, mon, BandwidthLimits, BandwidthScheduler}

abbrev night : ScheduleRule
night = record {
  start_hour = 22;
  end_hour = 6;
  days = mon ∷ [];
  download_limit = some 1000;
  upload_limit = none;
}

abbrev unlimited : BandwidthLimits
unlimited = record { download = none; upload = none }

abbrev scheduler : BandwidthScheduler
scheduler = record { rules = night ∷ []; default_limits = unlimited; current_limits = unlimited }
