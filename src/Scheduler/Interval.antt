-- ===== src/Scheduler/Interval.antt =====
-- The next run of an interval task: anchored, in the future, and the first such.
use module_agents_part.Prelude.{
  ℕ, zero, suc, ◌+◌, ◌*◌, ◌≤◌, ◌<◌, ◌≡◌, refl, Option, none, some, List, [], ◌∷◌, arith, ◌⊎◌, sym,
  subst, Bool, true, false, if◌then◌else◌, leb, if_ind, Bool-cases, inl, inr,
}
use module_agents_part.Prelude.Int.{pos}
use module_agents_part.Scheduler.Tick.{tick, is_due, is_once, keep, fire, advance}
use module_agents_part.Scheduler.Task.{
  ScheduleType, ScheduledTask, Time, Result, ok, raise, NextCron, seconds, skip_missed,
  next_interval, compute_next_run,
}

-- The time reached: `k` more steps, the first that lies in the future.
abbrev Reached : ℕ → Time → Time → Time → Type 0
Reached step now nxt r =
    (k : ℕ) × (r ≡ nxt + k * step) × (now < r) × ((j : ℕ) → j < k → nxt + j * step ≤ now)

later_steps :
    (step now nxt : ℕ) (k : ℕ)
    → nxt ≤ now
    → ((j : ℕ) → j < k → nxt + step + j * step ≤ now)
    → (j : ℕ) → j < suc k
    → nxt + j * step ≤ now
later_steps step now nxt k le h zero lt = omega arith
later_steps step now nxt k le h (suc j) lt = omega (arith, h j)

skip_missed-Reached :
    (fuel step now nxt : ℕ)
    → 0 < step
    → now < nxt + fuel
    → Reached step now nxt (skip_missed fuel step now nxt)
unfolding skip_missed
skip_missed-Reached zero step now nxt pos_step enough =
    (0, omega arith, omega arith, λ j lt. absurd (omega arith))
skip_missed-Reached (suc fuel) step now nxt pos_step enough =
    let (k, e, future, missed) =
      skip_missed-Reached fuel step now (nxt + step) pos_step (omega arith) in
    if_ind (Reached step now nxt) (leb nxt now)
      (λ past. (suc k, omega (arith, e), future, later_steps step now nxt k (ground arith) missed))
      (λ ahead. (0, omega arith, ground arith, λ j lt. absurd (omega arith)))

-- For an interval task with a positive interval and an anchor: the next run is computed, it is the
-- anchor plus a positive number of intervals, it lies in the future, and every earlier such time has
-- passed.
pub next_run_anchored :
    (next_cron : NextCron) (task : ScheduledTask) (n anchor now : ℕ)
    → task.schedule_type ≡ ScheduleType.interval
    → task.interval_s ≡ some (pos (suc n))
    → task.next_run ≡ some anchor
    → (k : ℕ) × (compute_next_run next_cron task now ≡ ok (some (anchor + suc k * seconds (suc n))))
      × (now < anchor + suc k * seconds (suc n))
      × ((j : ℕ) → j < k → anchor + suc j * seconds (suc n) ≤ now)
unfolding compute_next_run
next_run_anchored next_cron task n anchor now e i a =
    let step = seconds (suc n) in
    let (k, r, future, missed) =
      skip_missed-Reached (suc now) step now (anchor + step) (omega arith) (omega arith) in
    (k, ground (arith, r), omega (arith, r, future), λ j lt. omega (arith, missed j lt))

pub interval_future : (n : ℕ) (o : Option Time) (now : Time) → now < next_interval (suc n) o now
interval_future n none now = omega arith
interval_future n (some t) now =
    let (k, r, future, missed) =
      skip_missed-Reached (suc now) (seconds (suc n)) now (t + seconds (suc n)) (omega arith)
        (omega arith) in
    future

-- the tasks after a list of ticks
abbrev pub ticks : NextCron → List Time → List ScheduledTask → List ScheduledTask
ticks next_cron [] ts = ts
ticks next_cron (now ∷ nows) ts = ticks next_cron nows (tick next_cron now ts).tasks

abbrev pub anchored : ScheduledTask → ℕ → ℕ → ℕ → ScheduledTask
anchored task step anchor k = record task { next_run = some (anchor + k * step) }

sum_steps : (a k m step : ℕ) → a + k * step + m * step ≡ a + (k + m) * step
sum_steps a k m step = omega arith

-- a task is one of those registered
abbrev pub Has : ScheduledTask → List ScheduledTask → Type 0
Has task [] = ⊥
Has task (t ∷ ts) = (t ≡ task) ⊎ Has task ts

-- one tick moves the task by a number of whole intervals, maybe none, whatever the others do
tick-anchored :
    (next_cron : NextCron) (task : ScheduledTask) (n anchor now : ℕ) (ts : List ScheduledTask)
    → task.schedule_type ≡ ScheduleType.interval
    → task.interval_s ≡ some (pos (suc n))
    → task.next_run ≡ some anchor
    → Has task ts
    → (k : ℕ) × Has (anchored task (seconds (suc n)) anchor k) (tick next_cron now ts).tasks
unfolding tick
tick-anchored next_cron task n anchor now [] e i a h = absurd h
tick-anchored next_cron task n anchor now (t ∷ ts) e i a (inl here) =
    let (k, computed, future, missed) = next_run_anchored next_cron task n anchor now e i a in
    subst (λ u. Kept (tick next_cron now (u ∷ ts)).tasks) (sym here)
      (elim (Bool-cases (is_due task now)) [
        | inl due ↦ (
          suc k,
          subst (Has (anchored task (seconds (suc n)) anchor (suc k))) (sym (moved k computed due))
              (inl refl),
        )
        | inr waits ↦ (0, rw (waits, tick) (inl (ground arith)))
      ])
  where
    Kept : List ScheduledTask → Type 0
    Kept l = (k : ℕ) × Has (anchored task (seconds (suc n)) anchor k) l

    moved :
        (k : ℕ)
        → compute_next_run next_cron task now ≡ ok (some (anchor + suc k * seconds (suc n)))
        → is_due task now ≡ true
        → (tick next_cron now (task ∷ ts)).tasks
          ≡ anchored task (seconds (suc n)) anchor (suc k) ∷ (tick next_cron now ts).tasks
    moved k computed due = ground (arith, computed)
tick-anchored next_cron task n anchor now (t ∷ ts) e i a (inr there) =
    go (is_due t now) (is_once t.schedule_type) (compute_next_run next_cron t now)
      (tick-anchored next_cron task n anchor now ts e i a there)
  where
    Kept : List ScheduledTask → Type 0
    Kept l = (k : ℕ) × Has (anchored task (seconds (suc n)) anchor k) l

    later : (t' : ScheduledTask) (l : List ScheduledTask) → Kept l → Kept (t' ∷ l)
    later t' l (k, h) = (k, inr h)

    same : anchored task (seconds (suc n)) anchor 0 ≡ task
    same = ground arith

    go :
        (d o : Bool) (r : Result (Option Time))
        → Kept (tick next_cron now ts).tasks
        → Kept
            (if d
              then (if o
                  then fire t (tick next_cron now ts)
                  else advance r t ts (tick next_cron now ts))
              else keep t (tick next_cron now ts)).tasks
    go true true r h = h
    go true false (ok next) h = later _ _ h
    go true false (raise x) h = (0, inr (subst (λ u. Has u ts) (sym same) there))
    go false o r h = later _ _ h

-- No drift: whatever tasks are registered beside it, after any ticks, at whatever times and with
-- whatever errors of the other tasks, an interval task is still registered, its next run is its first
-- anchor plus a whole number of intervals, and nothing else of it has changed.
pub drift_free :
    (next_cron : NextCron) (task : ScheduledTask) (n anchor : ℕ) (nows : List Time)
    (ts : List ScheduledTask)
    → task.schedule_type ≡ ScheduleType.interval
    → task.interval_s ≡ some (pos (suc n))
    → task.next_run ≡ some anchor
    → Has task ts
    → (k : ℕ) × Has (anchored task (seconds (suc n)) anchor k) (ticks next_cron nows ts)
drift_free next_cron task n anchor [] ts e i a h = (0, subst (λ u. Has u ts) (ground arith) h)
drift_free next_cron task n anchor (now ∷ nows) ts e i a h =
    let (k, one) = tick-anchored next_cron task n anchor now ts e i a h in
    let step = seconds (suc n) in
    let (m, more) =
      drift_free next_cron (anchored task step anchor k) n (anchor + k * step) nows
        (tick next_cron now ts).tasks e i refl one in
    (
      k + m,
      subst
          (λ (t : ℕ).
            Has (record task { next_run = some t })
              (ticks next_cron nows (tick next_cron now ts).tasks))
          (sum_steps anchor k m step) more,
    )
