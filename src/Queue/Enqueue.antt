-- ===== src/Queue/Enqueue.antt =====
-- `_enqueue`, the `enqueue_*` methods, `_send_close`, `notify_idle` and the container registry.
use module_agents_part.Prelude.{
  ℕ, ◌+◌, String, Bool, true, false, ◌&&◌, none, some, List, [], ◌∷◌, ◌++◌, leb, ltb, when,
  if◌then◌else◌,
}
use module_agents_part.Prelude.Dict.{get}
use module_agents_part.Queue.Sort.{sort}
use module_agents_part.Queue.State.{
  TaskPriority, QueuedTask, SessionState, World, ScheduledFn, value, session_of, set_session,
  launch, activate, planner_kind, executor_kind, handoff_kind, scheduled_kind,
}

abbrev pub by_priority : List QueuedTask → List QueuedTask
by_priority = sort (λ t. t.priority)

-- _send_close: no directory, no sentinel
unfoldable pub send_close : SessionState → World → World
send_close s w = elim s.ipc_input_dir [ none ↦ w | some dir ↦ record w { closes = dir ∷ w.closes } ]

abbrev pub last_priority : List QueuedTask → ℕ
last_priority [] = 0
last_priority (t ∷ []) = t.priority
last_priority (t ∷ u ∷ ts) = last_priority (u ∷ ts)

-- any(p(t) for t in ts)
abbrev pub any : (QueuedTask → Bool) → List QueuedTask → Bool
any p [] = false
any p (t ∷ ts) = if p t then true else any p ts

-- any(t.priority < sess.pending_tasks[-1].priority + 1 for t in sess.pending_tasks)
unfoldable pub wants_preemption : List QueuedTask → Bool
wants_preemption ts = any (λ t. ltb t.priority (last_priority ts + 1)) ts

-- the branch `if sess.active`
unfoldable pub append_pending : QueuedTask → World → World
unfolding wants_preemption send_close
append_pending t w =
    let s = session_of t.session_id w in
    let s' = record s { pending_tasks = by_priority (s.pending_tasks ++ t ∷ []) } in
    when (s'.idle_waiting && wants_preemption s'.pending_tasks) (send_close s')
      (set_session t.session_id s' w)

-- the branch `if self._active_count >= self.max_concurrent`; `setdefault` has entered the session
unfoldable pub hold : QueuedTask → World → World
hold t w =
    let w' = set_session t.session_id (session_of t.session_id w) w in
    record w' { waiting = by_priority (w.waiting ++ t ∷ []) }

-- the rest: take a slot and launch
unfoldable pub start : QueuedTask → World → World
start t w =
    let w' = set_session t.session_id (activate t (session_of t.session_id w)) w in
    launch t (record w' { active_count = w.active_count + 1 })

-- _enqueue
unfoldable pub enqueue : QueuedTask → World → World
unfolding append_pending hold start
enqueue t w =
    if w.shutting_down
    then w
    else if (session_of t.session_id w).active
    then append_pending t w
    else if leb w.max_concurrent w.active_count
    then hold t w
    else start t w

abbrev pub planner_task : String → QueuedTask
planner_task sid = record {
  priority = value TaskPriority.planner;
  session_id = sid;
  kind = planner_kind;
  scheduled_fn = none;
  task_id = none;
  direction = none;
}

abbrev pub executor_task : String → QueuedTask
executor_task sid = record {
  priority = value TaskPriority.executor;
  session_id = sid;
  kind = executor_kind;
  scheduled_fn = none;
  task_id = none;
  direction = none;
}

abbrev pub handoff_task : String → String → QueuedTask
handoff_task sid direction = record {
  priority = value TaskPriority.handoff;
  session_id = sid;
  kind = handoff_kind;
  scheduled_fn = none;
  task_id = none;
  direction = some direction;
}

abbrev pub scheduled_task : String → String → ScheduledFn → QueuedTask
scheduled_task sid task_id fn = record {
  priority = value TaskPriority.scheduled;
  session_id = sid;
  kind = scheduled_kind;
  scheduled_fn = some fn;
  task_id = some task_id;
  direction = none;
}

-- register_container: `setdefault`, then the directory
unfoldable pub register_container : String → String → World → World
register_container sid dir w =
    set_session sid (record (session_of sid w) { ipc_input_dir = some dir }) w

unfoldable pub unregister_container : String → World → World
unregister_container sid w = elim (get sid w.sessions) [
  | none ↦ w
  | some s ↦ set_session sid (record s { ipc_input_dir = none }) w
]

abbrev pub any_pending : List QueuedTask → Bool
any_pending [] = false
any_pending (_ ∷ _) = true

unfoldable pub notify_idle : String → World → World
unfolding send_close
notify_idle sid w = elim (get sid w.sessions) [
  | none ↦ w
  | some s ↦
      let s' = record s { idle_waiting = true } in
      when (any_pending s.pending_tasks) (send_close s') (set_session sid s' w)
]
