-- ===== src/Scheduler/Task.antt =====
-- `ScheduledTask` and `compute_next_run`.
use module_agents_part.Prelude.{
  ℕ, zero, suc, ◌+◌, ◌*◌, String, Bool, Option, none, some, ltb, leb, if◌then◌else◌,
}
use module_agents_part.Prelude.Int.{ℤ, pos}

-- `other` is any string beside the three of `ScheduleType`
pub data ScheduleType : Type 0 where
  once interval cron : ScheduleType
  other : String → ScheduleType

abbrev pub Time : Type 0
Time = ℕ

-- timedelta(seconds=n), in microseconds
abbrev pub seconds : ℕ → ℕ
seconds n = n * 1000000

-- A coroutine function is known by an identity.
abbrev pub TaskFn : Type 0
TaskFn = ℕ

-- `metadata` is never read and is left out
pub record ScheduledTask : Type 0 where
  pub id : String
  pub schedule_type : ScheduleType
  pub fn : Option TaskFn
  pub interval_s : Option ℤ
  pub cron_expr : Option String
  pub timezone : String
  pub next_run : Option Time
  pub enabled : Bool
  pub session_id : Option String

-- the exceptions of `compute_next_run`
pub data Failure : Type 0 where
  value_error runtime_error : Failure

pub data Result (A : Type 0) : Type 0 where
  ok : A → Result A
  raise : Failure → Result A

-- `while nxt <= now: nxt += step`; a step is positive, so `now + 1` rounds are enough
unfoldable pub skip_missed : ℕ → ℕ → Time → Time → Time
skip_missed zero step now nxt = nxt
skip_missed (suc fuel) step now nxt =
    let rest = skip_missed fuel step now (nxt + step) in if leb nxt now then rest else nxt

abbrev pub next_once : Option Time → Time → Option Time
next_once none now = none
next_once (some t) now = if ltb now t then some t else none

-- the `interval` branch, for a positive interval of `n` seconds
abbrev pub next_interval : ℕ → Option Time → Time → Time
next_interval n none now = now + seconds n
next_interval n (some t) now = skip_missed (suc now) (seconds n) now (t + seconds n)

-- What croniter and zoneinfo give for an expression and a timezone: the next time after `now`.
abbrev pub NextCron : Type 0
NextCron = String → String → Time → Result Time

abbrev pub some_time : Result Time → Result (Option Time)
some_time (ok t) = ok (some t)
some_time (raise e) = raise e

abbrev pub next_of : NextCron → ScheduleType → ScheduledTask → Time → Result (Option Time)
next_of next_cron ScheduleType.once task now = ok (next_once task.next_run now)
next_of next_cron ScheduleType.interval task now = elim task.interval_s [
  | none ↦ raise value_error
  | some (pos (suc n)) ↦ ok (some (next_interval (suc n) task.next_run now))
  | some _ ↦ raise value_error
]
next_of next_cron ScheduleType.cron task now = elim task.cron_expr [
  | none ↦ raise value_error
  | some expr ↦ some_time (next_cron expr task.timezone now)
]
next_of next_cron (ScheduleType.other _) task now = raise value_error

-- compute_next_run, of times and intervals without bounds: beyond the range of datetime and timedelta the
-- code raises an OverflowError
unfoldable pub compute_next_run : NextCron → ScheduledTask → Time → Result (Option Time)
unfolding skip_missed
compute_next_run next_cron task now = next_of next_cron task.schedule_type task now
