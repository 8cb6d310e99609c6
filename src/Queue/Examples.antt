-- ===== src/Queue/Examples.antt =====
-- The theorems about the queue at concrete inputs, and runs that can be followed in the source.
use module_agents_part.Prelude.{
  ◌+◌, ◌≤◌, ◌≡◌, refl, Bool, true, false, List, [], ◌∷◌, arith, All, bit, length, if◌then◌else◌,
  ◌==◌,
}
use module_agents_part.Prelude.Dict.{get, put}
use module_agents_part.Queue.Sort.{sort}
use module_agents_part.Queue.State.{
  QueuedTask, World, init, session_of, running_count, cancelled_count,
}
use module_agents_part.Queue.Enqueue.{planner_task, executor_task, handoff_task, enqueue}
use module_agents_part.Queue.Finish.{Outcome, handle_failure}
use module_agents_part.Queue.Events.{Event, finish_nth, step, run}
use module_agents_part.Queue.Frame.{run-max}
use module_agents_part.Queue.Serial.{serialized, cancelled_stays_active, concurrency_capped}
use module_agents_part.Queue.Conserve.{tasks, tasks-enqueue, tasks-finish_nth, is_over}
use module_agents_part.Queue.Waiting.{no_idle_slot}
use module_agents_part.Queue.Priority.{idle_worker_preempted}
use module_agents_part.Queue.Retries.{failure_leaves_pending}

-- Two slots, three sessions; `a` gets a second task, `c` has to wait.
abbrev busy : List Event
busy =
    Event.set_process_fn
    ∷ Event.enqueue_planner "a"
    ∷ Event.enqueue_executor "a"
    ∷ Event.enqueue_planner "b"
    ∷ Event.enqueue_planner "c"
    ∷ Event.enqueue_executor "d"
    ∷ []

abbrev crowded : World
crowded = run (init 2 false) busy

crowded_counts :
    (length crowded.running ≡ 2)
    × (length crowded.waiting ≡ 2)
    × (length (session_of "a" crowded).pending_tasks ≡ 1)
unfolding run sort get put
crowded_counts = (refl, refl, refl)

-- `b` fails and is retried; the slot goes to `d`, whose executor task goes before `c`'s planner task.
abbrev failing : List Event
failing = Event.finish 0 Outcome.raises ∷ []

after_failure :
    let w = run crowded failing in
    (length w.running ≡ 2)
    × (running_count "d" w ≡ 1)
    × (running_count "b" w ≡ 0)
    × (w.delayed ≡ record { delay = 5; task = planner_task "b" } ∷ [])
unfolding run sort get put
after_failure = (refl, refl, refl, refl)

-- shutdown with two workers, of which one is still running when the grace period is over
abbrev leaving : List Event
leaving =
    Event.enqueue_planner "b"
    ∷ Event.enqueue_executor "a"
    ∷ Event.shutdown
    ∷ Event.finish 0 (Outcome.returns false)
    ∷ []

abbrev cut_off : List Event
cut_off =
    Event.enqueue_planner "b"
    ∷ Event.enqueue_executor "a"
    ∷ Event.shutdown
    ∷ Event.finish 0 (Outcome.returns false)
    ∷ Event.cancel 0
    ∷ []

cut_off_counts :
    let w = run (init 2 false) cut_off in
    (w.running ≡ []) × (w.active_count ≡ 1) × ((session_of "b" w).active ≡ true)
unfolding run sort get put
cut_off_counts = (refl, refl, refl)

stuck_after_cancel :
    let w = run (init 2 false) leaving in
    let w' = step w (Event.cancel 0) in
    ((session_of "b" w').active ≡ true)
    × (running_count "b" w' ≡ 0)
    × (w'.active_count ≡ w.active_count)
    × (length w'.running + 1 ≡ length w.running)
unfolding run sort get put
stuck_after_cancel = cancelled_stays_active 2 false leaving 0 (planner_task "b") [] refl refl

serialized_example :
    let w = run (init 2 false) cut_off in
    (running_count "b" w ≤ 1)
    × (running_count "b" w + cancelled_count "b" w ≡ bit (session_of "b" w).active)
    × (w.shutting_down ≡ false → running_count "b" w ≡ bit (session_of "b" w).active)
serialized_example = serialized 2 false cut_off "b"

concurrency_capped_example :
    let w = run (init 2 false) busy in
    (length w.running + length w.cancelled ≡ w.active_count)
    × (w.active_count ≤ 2)
    × (length w.running ≤ 2)
    × (w.shutting_down ≡ false → length w.running ≡ w.active_count)
concurrency_capped_example = concurrency_capped 2 false busy

-- two tasks of `c` wait; when both slots free up one of them runs, and the other has to wait for it
abbrev freed : List Event
freed =
    Event.set_process_fn
    ∷ Event.enqueue_planner "a"
    ∷ Event.enqueue_planner "b"
    ∷ Event.enqueue_planner "c"
    ∷ Event.enqueue_executor "c"
    ∷ Event.finish 0 (Outcome.returns true)
    ∷ Event.finish 1 (Outcome.returns true)
    ∷ []

freed_counts :
    let w = run (init 2 false) freed in (w.active_count ≡ 1) × (w.waiting ≡ planner_task "c" ∷ [])
unfolding run sort get put
freed_counts = (refl, refl)

no_idle_slot_example :
    let w = run (init 2 false) freed in
    All (λ t. (session_of t.session_id w).active ≡ true) w.waiting
no_idle_slot_example =
    no_idle_slot 2 false freed (omega (arith, freed_counts.0, run-max 2 (init 2 false) freed refl))

abbrev for_c : QueuedTask → Bool
for_c t = t.session_id == "c"

tasks-enqueue_example :
    tasks for_c (enqueue (handoff_task "c" "to_loop") crowded)
    ≡ (if crowded.shutting_down then tasks for_c crowded else tasks for_c crowded + 1)
tasks-enqueue_example = tasks-enqueue for_c (handoff_task "c" "to_loop") crowded

abbrev is_b : QueuedTask → Bool
is_b t = t.session_id == "b"

tasks-finish_nth_example :
    (tasks is_b (finish_nth 0 Outcome.raises crowded)
        + (if is_over crowded (planner_task "b") Outcome.raises (session_of "b" crowded)
            then 1
            else 0)
      ≡ tasks is_b crowded)
    × ((finish_nth 0 Outcome.raises crowded).delayed ≡ (
        if is_over crowded (planner_task "b") Outcome.raises (session_of "b" crowded)
        then crowded.delayed
        else record { delay = 5; task = planner_task "b" } ∷ crowded.delayed))
unfolding run get put
tasks-finish_nth_example =
    tasks-finish_nth is_b 0 Outcome.raises crowded (planner_task "b") (planner_task "a" ∷ [])
      (session_of "b" crowded) refl refl

-- `a`'s worker is registered and idle; a planner task, of the lowest priority, preempts it
abbrev idling : World
idling =
    run (init 2 false)
      (Event.enqueue_executor "a" ∷ Event.register "a" "sessions/a/ipc/input" ∷ Event.idle "a" ∷ [])

idle_worker_preempted_example :
    (enqueue (planner_task "a") idling).closes ≡ "sessions/a/ipc/input" ∷ idling.closes
unfolding run get put
idle_worker_preempted_example =
    idle_worker_preempted (planner_task "a") idling "sessions/a/ipc/input" refl refl refl refl

-- `a` alone, with an executor task pending behind a planner task that fails
abbrev alone : World
alone = run (init 2 false) (Event.enqueue_planner "a" ∷ Event.enqueue_executor "a" ∷ [])

failure_leaves_pending_example :
    let w = handle_failure (planner_task "a") (session_of "a" alone) alone in
    ((session_of "a" w).active ≡ false)
    × ((session_of "a" w).pending_tasks ≡ executor_task "a" ∷ [])
    × (w.running ≡ alone.running)
unfolding run sort get put
failure_leaves_pending_example =
    failure_leaves_pending (planner_task "a") (session_of "a" alone) alone refl (omega arith) refl
