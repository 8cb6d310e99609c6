-- ===== src/Scheduler/Firing.antt =====
-- Which tasks a tick fires.
use module_agents_part.Prelude.{
  zero, suc, ◌≤◌, ◌<◌, ◌≡◌, refl, ap, String, Bool, true, false, Option, none, some, List, [], ◌∷◌,
  ◌++◌, arith, subst, ltb, if◌then◌else◌,
}
use module_agents_part.Prelude.Int.{ℤ, pos, negsuc}
use module_agents_part.Scheduler.Task.{
  ScheduleType, ScheduledTask, Time, value_error, Result, ok, raise, NextCron, compute_next_run,
  next_of, next_once, next_interval, some_time,
}
use module_agents_part.Scheduler.Tick.{
  Ticked, store, tick, is_due, is_once, is_reached, keep, fire, advance, register,
}
use module_agents_part.Scheduler.Interval.{interval_future}

-- What the scheduler relies on croniter for: the next time lies after the one that is given.
abbrev pub IsLater : NextCron → Type 0
IsLater next_cron = (e tz : String) (now t : Time) → next_cron e tz now ≡ ok t → now < t

abbrev IsFuture : Time → Result (Option Time) → Type 0
IsFuture now (ok (some t)) = now < t
IsFuture now _ = Unit

cron-IsFuture :
    (now : Time) (r : Result Time) → ((t : Time) → r ≡ ok t → now < t) → IsFuture now (some_time r)
cron-IsFuture now (ok t) h = h t refl
cron-IsFuture now (raise e) h = tt

once-IsFuture : (now : Time) (o : Option Time) → IsFuture now (ok (next_once o now))
once-IsFuture now none = tt
once-IsFuture now (some t) = go (ltb now t) refl
  where
    go : (b : Bool) → ltb now t ≡ b → IsFuture now (ok (if b then some t else none))
    go true e = ground arith
    go false e = tt

interval_case :
    (now : Time) (i : Option ℤ) (a : Option Time)
    → IsFuture now (elim i [
      | none ↦ raise value_error
      | some (pos (suc n)) ↦ ok (some (next_interval (suc n) a now))
      | some _ ↦ raise value_error
    ])
interval_case now none a = tt
interval_case now (some (pos zero)) a = tt
interval_case now (some (pos (suc n))) a = interval_future n a now
interval_case now (some (negsuc n)) a = tt

-- Whatever the type of a task, its computed next run lies in the future.
pub next_run_future :
    (next_cron : NextCron) (task : ScheduledTask) (now t : Time)
    → IsLater next_cron
    → compute_next_run next_cron task now ≡ ok (some t)
    → now < t
unfolding compute_next_run
next_run_future next_cron task now t later e = subst (IsFuture now) e (go task.schedule_type)
  where
    go : (type : ScheduleType) → IsFuture now (next_of next_cron type task now)
    go ScheduleType.once = once-IsFuture now task.next_run
    go ScheduleType.interval = interval_case now task.interval_s task.next_run
    go ScheduleType.cron = cron_case task.cron_expr
      where
        cron_case :
            (x : Option String)
            → IsFuture now (elim x [
              | none ↦ raise value_error
              | some expr ↦ some_time (next_cron expr task.timezone now)
            ])
        cron_case none = tt
        cron_case (some expr) =
            cron-IsFuture now (next_cron expr task.timezone now) (later expr task.timezone now)
    go (ScheduleType.other _) = tt

-- the tasks that are due, in their order
abbrev pub due : Time → List ScheduledTask → List ScheduledTask
due now [] = []
due now (t ∷ ts) = let rest = due now ts in if is_due t now then t ∷ rest else rest

-- A tick that meets no exception fires exactly the tasks that are due, once each and in their order.
fired-eq-due :
    (next_cron : NextCron) (now : Time) (ts : List ScheduledTask)
    → (tick next_cron now ts).error ≡ none
    → (tick next_cron now ts).fired ≡ due now ts
unfolding tick
fired-eq-due next_cron now [] e = refl
fired-eq-due next_cron now (t ∷ ts) e =
    go (is_due t now) (is_once t.schedule_type) (compute_next_run next_cron t now)
      (fired-eq-due next_cron now ts) e
  where
    go :
        (d o : Bool) (r : Result (Option Time))
        → ((tick next_cron now ts).error ≡ none → (tick next_cron now ts).fired ≡ due now ts)
        → (if d
            then (if o
                then fire t (tick next_cron now ts)
                else advance r t ts (tick next_cron now ts))
            else keep t (tick next_cron now ts)).error
          ≡ none
        → (if d
            then (if o
                then fire t (tick next_cron now ts)
                else advance r t ts (tick next_cron now ts))
            else keep t (tick next_cron now ts)).fired
          ≡ (if d then t ∷ due now ts else due now ts)
    go true true r ih e = ap (λ l. t ∷ l) (ih e)
    go true false (ok next) ih e = ap (λ l. t ∷ l) (ih e)
    go true false (raise x) ih e = cc
    go false o r ih e = ih e

not_due : (next : Option Time) (now : Time) → IsFuture now (ok next) → is_reached next now ≡ false
not_due none now h = refl
not_due (some t) now h = ground arith

computed-IsFuture :
    (next_cron : NextCron) (task : ScheduledTask) (now : Time)
    → IsLater next_cron
    → (next : Option Time) → compute_next_run next_cron task now ≡ ok next
    → IsFuture now (ok next)
computed-IsFuture next_cron task now later none e = tt
computed-IsFuture next_cron task now later (some t) e = next_run_future next_cron task now t later e

-- After a tick that meets no exception no task is due any more at the same time: a second tick would
-- fire nothing.
nothing_due_after :
    (next_cron : NextCron) (now : Time) (ts : List ScheduledTask)
    → IsLater next_cron
    → (tick next_cron now ts).error ≡ none
    → due now (tick next_cron now ts).tasks ≡ []
unfolding tick
nothing_due_after next_cron now [] later e = refl
nothing_due_after next_cron now (t ∷ ts) later e =
    go (is_due t now) (is_once t.schedule_type) (compute_next_run next_cron t now) refl
      (computed-IsFuture next_cron t now later) (nothing_due_after next_cron now ts later) e
  where
    go :
        (d o : Bool) (r : Result (Option Time))
        → is_due t now ≡ d
        → ((next : Option Time) → r ≡ ok next → IsFuture now (ok next))
        → ((tick next_cron now ts).error ≡ none → due now (tick next_cron now ts).tasks ≡ [])
        → (if d
            then (if o
                then fire t (tick next_cron now ts)
                else advance r t ts (tick next_cron now ts))
            else keep t (tick next_cron now ts)).error
          ≡ none
        → due now
            (if d
              then (if o
                  then fire t (tick next_cron now ts)
                  else advance r t ts (tick next_cron now ts))
              else keep t (tick next_cron now ts)).tasks
          ≡ []
    go true true r same future ih e = ih e
    go true false (ok next) same future ih e =
        ground (arith, not_due next now (future next refl), ih e)
    go true false (raise x) same future ih e = cc
    go false o r same future ih e = ground (arith, ih e)

-- A tick that a task stops, against the tick of the tasks before it.
pub record CutShort (task : ScheduledTask) (after : List ScheduledTask) (alone whole : Ticked)
    : Type 0 where
  pub failed : whole.error ≡ some value_error
  pub left : whole.tasks ≡ alone.tasks ++ task ∷ after
  pub fired : whole.fired ≡ alone.fired ++ task ∷ []

-- the tasks before one that stops the tick do not change that it does
behind-CutShort :
    (next_cron : NextCron) (now : Time) (task : ScheduledTask) (before after : List ScheduledTask)
    → tick next_cron now (task ∷ after)
      ≡ record { tasks = task ∷ after; fired = task ∷ []; error = some value_error }
    → (tick next_cron now before).error ≡ none
    → CutShort task after (tick next_cron now before) (tick next_cron now (before ++ task ∷ after))
unfolding tick
behind-CutShort next_cron now task [] after first fine = record {
  failed = ap (λ (r : Ticked). r.error) first;
  left = ap (λ (r : Ticked). r.tasks) first;
  fired = ap (λ (r : Ticked). r.fired) first;
}
behind-CutShort next_cron now task (t ∷ before) after first fine =
    go (is_due t now) (is_once t.schedule_type) (compute_next_run next_cron t now)
      (behind-CutShort next_cron now task before after first) fine
  where
    alone : Ticked
    alone = tick next_cron now before

    whole : Ticked
    whole = tick next_cron now (before ++ task ∷ after)

    go :
        (d o : Bool) (r : Result (Option Time))
        → (alone.error ≡ none → CutShort task after alone whole)
        → (if d then (if o then fire t alone else advance r t before alone) else keep t alone).error
          ≡ none
        → CutShort task after
            (if d then (if o then fire t alone else advance r t before alone) else keep t alone)
            (if d
              then (if o then fire t whole else advance r t (before ++ task ∷ after) whole)
              else keep t whole)
    go true true r ih fine =
        let h = ih fine in
        record { failed = h.failed; left = h.left; fired = ap (λ l. t ∷ l) h.fired }
    go true false (ok next) ih fine =
        let h = ih fine in
        record {
          failed = h.failed;
          left = ap (λ l. record t { next_run = next } ∷ l) h.left;
          fired = ap (λ l. t ∷ l) h.fired;
        }
    go true false (raise x) ih fine = cc
    go false o r ih fine =
        let h = ih fine in
        record { failed = h.failed; left = ap (λ l. t ∷ l) h.left; fired = h.fired }

-- such a task stops the tick that it is due in
stops-first :
    (next_cron : NextCron) (now anchor : Time) (task : ScheduledTask) (after : List ScheduledTask)
    → task.schedule_type ≡ ScheduleType.interval
    → task.interval_s ≡ none
    → task.next_run ≡ some anchor
    → task.enabled ≡ true
    → anchor ≤ now
    → tick next_cron now (task ∷ after)
      ≡ record { tasks = task ∷ after; fired = task ∷ []; error = some value_error }
unfolding tick
stops-first next_cron now anchor task after s i a on le = ground arith

-- An interval task with a next run and no interval is accepted by `register`, whatever is registered.
-- In a tick that it is due in, where no task before it fails: the tick ends with a ValueError, the
-- tasks before it are fired and advanced as in a tick of their own, it is fired itself and keeps its
-- next run, and the tasks behind it are neither fired nor changed.
pub missing_interval_stops_tick :
    (next_cron : NextCron) (now anchor : Time) (task : ScheduledTask)
    (registered before after : List ScheduledTask)
    → task.schedule_type ≡ ScheduleType.interval
    → task.interval_s ≡ none
    → task.next_run ≡ some anchor
    → task.enabled ≡ true
    → anchor ≤ now
    → (tick next_cron now before).error ≡ none
    → (register next_cron now task registered ≡ ok (store task registered))
      × CutShort task after
          (tick next_cron now before)
          (tick next_cron now (before ++ task ∷ after))
unfolding register
missing_interval_stops_tick next_cron now anchor task registered before after s i a on le fine = (
  rw a refl,
  behind-CutShort next_cron now task before after
      (stops-first next_cron now anchor task after s i a on le) fine,
)
