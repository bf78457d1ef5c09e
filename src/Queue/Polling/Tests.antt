-- ===== src/Queue/Polling/Tests.antt =====
-- A run of the polling selector: the data are numbers, equal numbers are the same object.
use affiliate_platform_api.Prelude.{ℕ, some}
use affiliate_platform_api.Queue.Polling.{Selector}

abbrev quiet : Selector ℕ
quiet = record { last = some (7, 4); unchanged_streak = 3 }
