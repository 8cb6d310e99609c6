-- ===== src/Scheduler/Examples.antt =====
-- The theorems about the scheduler at concrete inputs, and runs that can be followed in the source.
use module_agents_part.Prelude.{
  ℕ, suc, ◌+◌, ◌*◌, ◌≤◌, ◌<◌, ◌≡◌, refl, inl, inr, true, false, none, some, [], ◌∷◌, arith,
}
use module_agents_part.Prelude.Int.{pos}
use module_agents_part.Scheduler.Task.{
  ScheduleType, ScheduledTask, ok, NextCron, seconds, compute_next_run,
}
use module_agents_part.Scheduler.Tick.{store, tick, register, fire_task, called}
use module_agents_part.Scheduler.Interval.{Has, next_run_anchored, drift_free, ticks, anchored}
use module_agents_part.Scheduler.Firing.{
  CutShort, IsLater, next_run_future, missing_interval_stops_tick,
}

-- a cron expression that always means "in a minute"
abbrev every_minute : NextCron
every_minute _ _ now = ok (now + seconds 60)

every_minute-IsLater : IsLater every_minute
every_minute-IsLater e tz now t h = ground arith

abbrev ten_minutes : ScheduledTask
ten_minutes = record {
  id = "cleanup";
  schedule_type = ScheduleType.interval;
  fn = some 1;
  interval_s = some (pos 600);
  cron_expr = none;
  timezone = "UTC";
  next_run = some (seconds 600);
  enabled = true;
  session_id = none;
}

-- The system slept for 25 minutes: one run, and the next one at minute 40.
slept :
    (tick every_minute (seconds 2100) (ten_minutes ∷ [])).tasks
    ≡ record ten_minutes { next_run = some (seconds 2400) } ∷ []
unfolding tick
slept = refl

next_run_anchored_example :
    (k : ℕ) × (compute_next_run every_minute ten_minutes (seconds 2100)
      ≡ ok (some (seconds 600 + suc k * seconds 600)))
    × (seconds 2100 < seconds 600 + suc k * seconds 600)
    × ((j : ℕ) → j < k → seconds 600 + suc j * seconds 600 ≤ seconds 2100)
next_run_anchored_example =
    next_run_anchored every_minute ten_minutes 599 (seconds 600) (seconds 2100) refl refl refl

abbrev every_hour : ScheduledTask
every_hour = record ten_minutes { id = "report"; interval_s = some (pos 3600) }

drift_free_example :
    (k : ℕ) × Has
      (anchored ten_minutes (seconds 600) (seconds 600) k)
      (ticks every_minute (seconds 2100 ∷ seconds 2401 ∷ []) (every_hour ∷ ten_minutes ∷ []))
drift_free_example =
    drift_free every_minute ten_minutes 599 (seconds 600) (seconds 2100 ∷ seconds 2401 ∷ [])
      (every_hour ∷ ten_minutes ∷ []) refl refl refl (inr (inl refl))

next_run_future_example : seconds 2100 < seconds 2400
unfolding compute_next_run
next_run_future_example =
    next_run_future every_minute ten_minutes (seconds 2100) (seconds 2400) every_minute-IsLater refl

abbrev broken : ScheduledTask
broken = record ten_minutes { id = "broken"; interval_s = none }

missing_interval_stops_tick_example :
    (register every_minute (seconds 2100) broken (ten_minutes ∷ [])
      ≡ ok (store broken (ten_minutes ∷ [])))
    × CutShort broken
        (ten_minutes ∷ [])
        (tick every_minute (seconds 2100) (ten_minutes ∷ []))
        (tick every_minute (seconds 2100) (ten_minutes ∷ broken ∷ ten_minutes ∷ []))
unfolding tick
missing_interval_stops_tick_example =
    missing_interval_stops_tick every_minute (seconds 2100) (seconds 600) broken (ten_minutes ∷ [])
      (ten_minutes ∷ []) (ten_minutes ∷ []) refl refl refl refl (omega arith) refl

fires : fire_task (λ _. false) ten_minutes ≡ called 1
unfolding fire_task
fires = refl
