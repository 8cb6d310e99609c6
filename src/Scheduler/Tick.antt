-- ===== src/Scheduler/Tick.antt =====
-- `DriftCorrectedScheduler`. `tasks` is the values of the dict, in its order; a task's key is its id.
-- A tick only ever changes or removes the task that it is at, so it is a walk over that list.
use module_agents_part.Prelude.{
  String, Bool, true, false, Option, none, some, List, [], ◌∷◌, ltb, ◌==◌, if◌then◌else◌,
}
use module_agents_part.Scheduler.Task.{
  ScheduleType, ScheduledTask, TaskFn, Time, Failure, Result, ok, raise, NextCron, compute_next_run,
}

-- self.tasks[task.id] = task
unfoldable pub store : ScheduledTask → List ScheduledTask → List ScheduledTask
store task [] = task ∷ []
store task (t ∷ ts) = if t.id == task.id then task ∷ ts else t ∷ store task ts

-- self.tasks.pop(task_id, None)
unfoldable pub unregister : String → List ScheduledTask → List ScheduledTask
unregister id [] = []
unregister id (t ∷ ts) = let rest = unregister id ts in if t.id == id then rest else t ∷ rest

abbrev pub stored :
    Result (Option Time) → ScheduledTask → List ScheduledTask → Result (List ScheduledTask)
stored (ok next) task ts = ok (store (record task { next_run = next }) ts)
stored (raise e) task ts = raise e

-- register: a task that has its next run is stored as it is
unfoldable pub register :
    NextCron → Time → ScheduledTask → List ScheduledTask → Result (List ScheduledTask)
unfolding store compute_next_run
register next_cron now task ts = elim task.next_run [
  | none ↦ stored (compute_next_run next_cron task now) task ts
  | some _ ↦ ok (store task ts)
]

-- what a tick leaves: the tasks, the ones that it fired, and the exception that ended it
pub record Ticked : Type 0 where
  pub tasks : List ScheduledTask
  pub fired : List ScheduledTask
  pub error : Option Failure

-- task.next_run is not None and task.next_run <= now
abbrev pub is_reached : Option Time → Time → Bool
is_reached none now = false
is_reached (some t) now = if ltb now t then false else true

-- neither `continue` is taken
abbrev pub is_due : ScheduledTask → Time → Bool
is_due task now = if task.enabled then is_reached task.next_run now else false

abbrev pub is_once : ScheduleType → Bool
is_once ScheduleType.once = true
is_once _ = false

abbrev pub keep : ScheduledTask → Ticked → Ticked
keep task r = record r { tasks = task ∷ r.tasks }

abbrev pub fire : ScheduledTask → Ticked → Ticked
fire task r = record r { fired = task ∷ r.fired }

-- A fired task that recurs: its next run, or the exception, which leaves the later tasks unvisited.
abbrev pub advance : Result (Option Time) → ScheduledTask → List ScheduledTask → Ticked → Ticked
advance (ok next) task ts rest = keep (record task { next_run = next }) (fire task rest)
advance (raise e) task ts rest = record { tasks = task ∷ ts; fired = task ∷ []; error = some e }

-- _tick
unfoldable pub tick : NextCron → Time → List ScheduledTask → Ticked
unfolding compute_next_run
tick next_cron now [] = record { tasks = []; fired = []; error = none }
tick next_cron now (task ∷ ts) =
    let rest = tick next_cron now ts in
    if is_due task now
    then (if is_once task.schedule_type
        then fire task rest
        else advance (compute_next_run next_cron task now) task ts rest)
    else keep task rest

-- _fire: a task without a function does nothing, and an exception of the function is logged
pub data Run : Type 0 where
  skipped : Run
  called : TaskFn → Run
  logged : TaskFn → Run

unfoldable pub fire_task : (TaskFn → Bool) → ScheduledTask → Run
fire_task raises task = elim task.fn [
  | none ↦ skipped
  | some f ↦ if raises f then logged f else called f
]
