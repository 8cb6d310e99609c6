-- ===== src/Queue/Finish.antt =====
-- What follows a task: `_run_task`, `_after_task`, `_handle_failure`, `_release_slot`,
-- `_maybe_start_from_waiting`, and the delayed retry.
use module_agents_part.Prelude.{
  ℕ, zero, suc, ◌+◌, ◌-◌, ◌*◌, ◌^◌, String, Bool, true, false, Option, none, some, List, [], ◌∷◌,
  ltb, length, if◌then◌else◌, is_some, ◌==◌,
}
use module_agents_part.Prelude.Dict.{Dict, get, remove}
use module_agents_part.Queue.State.{
  QueuedTask, SessionState, World, session_or_fresh, session_of, set_session, launch, activate,
  is_scheduled, max_retries, base_retry_s, planner_kind, executor_kind, handoff_kind,
  scheduled_kind,
}
use module_agents_part.Queue.Enqueue.{
  by_priority, enqueue, planner_task, executor_task, handoff_task, scheduled_task,
}

-- sess is None or not sess.active
abbrev pub is_free : Dict SessionState → QueuedTask → Bool
is_free sessions t = if (session_or_fresh (get t.session_id sessions)).active then false else true

-- the inner `for`: the first waiting task whose session is not active, and the list without it
unfoldable pub pick : Dict SessionState → List QueuedTask → Option (QueuedTask × List QueuedTask)
pick sessions [] = none
pick sessions (t ∷ ts) =
    let rest = pick sessions ts in
    if is_free sessions t
    then some (t, ts)
    else elim rest [ none ↦ none | some (u, us) ↦ some (u, t ∷ us) ]

-- the body of the outer `while`, once a task is picked
unfoldable pub start_picked : QueuedTask → List QueuedTask → World → World
start_picked t rest w =
    let w' = set_session t.session_id (activate t (session_of t.session_id w)) w in
    launch t (record w' { waiting = rest; active_count = w.active_count + 1 })

-- the `while`; a round takes a task off `waiting`, so its length is enough fuel
unfoldable pub start_waiting : ℕ → World → World
unfolding start_picked pick
start_waiting zero w = w
start_waiting (suc fuel) w =
    if ltb w.active_count w.max_concurrent
    then elim (pick w.sessions (by_priority w.waiting)) [
      | none ↦ record w { waiting = by_priority w.waiting }
      | some (t, rest) ↦ start_waiting fuel (start_picked t rest w)
    ]
    else w

-- _maybe_start_from_waiting
unfoldable pub maybe_start : World → World
unfolding start_waiting
maybe_start w = start_waiting (length w.waiting) w

-- `max(0, n - 1)` is truncated subtraction
abbrev pub drop_slot : World → World
drop_slot w = record w { active_count = w.active_count - 1 }

-- the session's flags in `_release_slot`
abbrev pub deactivate : Option SessionState → String → World → World
deactivate none sid w = w
deactivate (some s) sid w = set_session sid (record s { active = false; idle_waiting = false }) w

-- `_release_slot`, up to its last line
abbrev pub released : String → World → World
released sid w =
    let w' = deactivate (get sid w.sessions) sid w in
    drop_slot (record w' { active_workers = remove sid w.active_workers })

-- _release_slot
unfoldable pub release_slot : String → World → World
unfolding maybe_start
release_slot sid w = maybe_start (released sid w)

-- the session's part of `_after_task`, by its pending list, sorted
unfoldable pub next_or_idle : String → SessionState → List QueuedTask → World → World
unfolding maybe_start
next_or_idle sid s (t ∷ rest) w = launch t (
    set_session sid
      (record s {
        pending_tasks = rest;
        idle_waiting = false;
        is_scheduled_task = is_scheduled t.kind;
      })
      w)
next_or_idle sid s [] w = maybe_start (drop_slot (deactivate (some s) sid w))

-- _after_task
unfoldable pub after_task : String → World → World
unfolding next_or_idle
after_task sid w = elim (get sid w.sessions) [
  | none ↦ w
  | some s ↦
      next_or_idle sid s (by_priority s.pending_tasks)
        (record w { active_workers = remove sid w.active_workers })
]

-- self.BASE_RETRY_S * (2 ** (sess.retry_count - 1))
abbrev pub backoff : ℕ → ℕ
backoff retry_count = base_retry_s * 2 ^ (retry_count - 1)

-- _handle_failure, with the session's entry; a spawned retry is remembered with its delay
unfoldable pub handle_failure : QueuedTask → SessionState → World → World
unfolding after_task release_slot
handle_failure t s w =
    let sid = t.session_id in
    let n = s.retry_count + 1 in
    if ltb max_retries n
    then after_task sid (set_session sid (record s { retry_count = 0 }) w)
    else let w' = release_slot sid (set_session sid (record s { retry_count = n }) w) in
      record w' { delayed = record { delay = backoff n; task = t } ∷ w'.delayed }

-- What the awaited callable does: `await process_fn(sid)` returns a Boolean or raises.
pub data Outcome : Type 0 where
  returns : Bool → Outcome
  raises : Outcome

-- the `try` of `_run_task`: a scheduled callable's return is a success, and without a `process_fn`
-- the task fails
unfoldable pub succeeded : World → QueuedTask → Outcome → Bool
succeeded w t raises = false
succeeded w t (returns b) =
    if (if is_scheduled t.kind then is_some t.scheduled_fn else false)
    then true
    else if w.process_fn_set
    then b
    else false

-- _run_task, from the end of the `await`; `self._sessions[sid]` without an entry ends the coroutine
unfoldable pub run_task : QueuedTask → Outcome → World → World
unfolding handle_failure after_task succeeded
run_task t o w = elim (get t.session_id w.sessions) [
  | none ↦ w
  | some s ↦
      if succeeded w t o
      then after_task t.session_id (set_session t.session_id (record s { retry_count = 0 }) w)
      else handle_failure t s w
]

-- the task that `_delayed_retry` enqueues, by the old one's kind
unfoldable pub retried : QueuedTask → Option QueuedTask
retried t = elim t.kind [
  | planner_kind ↦ some (planner_task t.session_id)
  | executor_kind ↦ some (executor_task t.session_id)
  | handoff_kind ↦ elim t.direction [ none ↦ none | some d ↦ some (handoff_task t.session_id d) ]
  | scheduled_kind ↦ elim t.scheduled_fn [
    | none ↦ none
    | some fn ↦ elim t.task_id [
      | none ↦ none
      | some id ↦ if id == "" then none else some (scheduled_task t.session_id id fn)
    ]
  ]
]

-- `_delayed_retry`, from the end of its sleep
unfoldable pub delayed_retry : QueuedTask → World → World
unfolding retried enqueue
delayed_retry t w =
    if w.shutting_down then w else elim (retried t) [ none ↦ w | some u ↦ enqueue u w ]
