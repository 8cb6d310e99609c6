-- ===== src/Queue/State.antt =====
-- The data of session/queue.py, and the state of a queue with the coroutines that it started.
use module_agents_part.Prelude.{
  ℕ, String, Bool, true, false, Option, none, some, List, [], ◌∷◌, ◌==◌, count,
}
use module_agents_part.Prelude.Dict.{Dict, get, put}

-- class TaskPriority(IntEnum)
pub data TaskPriority : Type 0 where
  scheduled handoff executor planner : TaskPriority

abbrev pub value : TaskPriority → ℕ
value scheduled = 0
value handoff = 1
value executor = 2
value planner = 3

-- The strings of `QueuedTask.kind`: only the `enqueue_*` methods build tasks, with these four.
pub data Kind : Type 0 where
  planner_kind executor_kind handoff_kind scheduled_kind : Kind

-- A callable is known by an identity: the queue only stores and calls it.
abbrev pub ScheduledFn : Type 0
ScheduledFn = ℕ

pub record QueuedTask : Type 0 where
  pub priority : ℕ
  pub session_id : String
  pub kind : Kind
  pub scheduled_fn : Option ScheduledFn
  pub task_id : Option String
  pub direction : Option String

-- class _SessionState
pub record SessionState : Type 0 where
  pub active : Bool
  pub idle_waiting : Bool
  pub is_scheduled_task : Bool
  pub pending_tasks : List QueuedTask
  pub ipc_input_dir : Option String
  pub retry_count : ℕ

-- _SessionState()
abbrev pub fresh_session : SessionState
fresh_session = record {
  active = false;
  idle_waiting = false;
  is_scheduled_task = false;
  pending_tasks = [];
  ipc_input_dir = none;
  retry_count = 0;
}

abbrev pub max_retries : ℕ
max_retries = 5

-- BASE_RETRY_S, in seconds
abbrev pub base_retry_s : ℕ
base_retry_s = 5

pub record Retry : Type 0 where
  pub delay : ℕ
  pub task : QueuedTask

pub record World : Type 0 where
  pub max_concurrent : ℕ
  pub process_fn_set : Bool
  pub sessions : Dict SessionState
  pub waiting : List QueuedTask
  pub active_count : ℕ
  pub shutting_down : Bool
  pub active_workers : Dict QueuedTask
  pub running : List QueuedTask
  -- the coroutines that the end of the grace period of `shutdown` cancelled
  pub cancelled : List QueuedTask
  pub delayed : List Retry
  pub closes : List String

-- SessionQueue(max_concurrent, process_fn)
abbrev pub init : ℕ → Bool → World
init max_concurrent process_fn_set = record {
  max_concurrent = max_concurrent;
  process_fn_set = process_fn_set;
  sessions = [];
  waiting = [];
  active_count = 0;
  shutting_down = false;
  active_workers = [];
  running = [];
  cancelled = [];
  delayed = [];
  closes = [];
}

-- self._sessions.setdefault(sid, _SessionState()), as a value
abbrev pub session_or_fresh : Option SessionState → SessionState
session_or_fresh none = fresh_session
session_or_fresh (some s) = s

abbrev pub session_of : String → World → SessionState
session_of sid w = session_or_fresh (get sid w.sessions)

-- `sess` is the object that the table holds, so an assignment to its fields is a write to the table
abbrev pub set_session : String → SessionState → World → World
set_session sid s w = record w { sessions = put sid s w.sessions }

-- runner = asyncio.create_task(self._run_task(t)); self._active_workers[t.session_id] = runner
abbrev pub launch : QueuedTask → World → World
launch t w = record w {
  running = t ∷ w.running;
  active_workers = put t.session_id t w.active_workers;
}

abbrev pub is_scheduled : Kind → Bool
is_scheduled scheduled_kind = true
is_scheduled _ = false

-- sess.active = True; sess.is_scheduled_task = task.kind == "scheduled"
abbrev pub activate : QueuedTask → SessionState → SessionState
activate t s = record s { active = true; is_scheduled_task = is_scheduled t.kind }

abbrev pub runs_for : String → QueuedTask → Bool
runs_for sid t = t.session_id == sid

-- how many coroutines run for a session
abbrev pub running_count : String → World → ℕ
running_count sid w = count (runs_for sid) w.running

-- how many coroutines of a session were cancelled
abbrev pub cancelled_count : String → World → ℕ
cancelled_count sid w = count (runs_for sid) w.cancelled
