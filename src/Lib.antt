-- ===== src/Lib.antt =====
-- A verification library for sovereign-agent (sovereign_agent/). The program runs agent sessions: each
-- session is a directory with a state document, a queue serialises the work on each session, a
-- scheduler fires recurring tasks, and tickets record every operation.
--
-- How the files correspond to the code:
--
-- Prelude: tests on native numbers, lists, Python's `dict` with string keys as an association list in
-- insertion order, JSON values.
--
-- Queue: class SessionQueue of sovereign_agent/session/queue.py. Queue/State.antt has its data, and the
-- state World of a queue together with the coroutines that it created. Queue/Enqueue.antt has _enqueue,
-- the enqueue_* methods, the container registry, notify_idle and _send_close; Queue/Finish.antt has
-- _run_task, _after_task, _handle_failure, _release_slot, _maybe_start_from_waiting and the delayed
-- retry. Queue/Events.antt makes interleavings of these into lists of events: calls, the end of the i-th
-- running coroutine with any outcome, the waking of the i-th delayed retry, and after shutdown the
-- cancellation of the i-th running coroutine by the end of the grace period. The loop of
-- _maybe_start_from_waiting takes the length of the waiting list as fuel, since each round takes one
-- task off it. A negative cap behaves like 0 and is not modelled apart. The logging calls are left out.
--
-- Scheduler: sovereign_agent/scheduler/drift_corrected.py, with datetimes as microseconds since the
-- epoch, without bounds: the OverflowError beyond the range of datetime and timedelta is left out. The loop that skips missed intervals has `now + 1` rounds of fuel, more than it can use, since
-- each round adds at least a second. croniter and zoneinfo are the parameter next_cron.
--
-- Session: sovereign_agent/session/state.py (State.antt, Transitions.antt, RoundTrip.antt) and the
-- handle of sovereign_agent/session/directory.py (Handle.antt, Persistence.antt). The ISO-8601 text of a
-- datetime is the parameter Iso, with the law that a written datetime is read back.
--
-- Session/Store.antt has create_session, load_session, list_sessions, archive_session and
-- Session.parent_session of sovereign_agent/session/directory.py, over a dictionary from names to what the
-- directories hold, a document being a JSON object, another JSON value, text that is no JSON, or bytes that
-- are no UTF-8; Session/Resume.antt and Ancestors.antt have sovereign_agent/session/resume.py. The fuel
-- of find_ancestor_chain is one more than the number of directories, since each round finds another one.
--
-- Ipc: read_and_consume and the close sentinel of sovereign_agent/ipc/protocol.py (Consume.antt), and a poll
-- of sovereign_agent/ipc/watcher.py (Watcher.antt; Names.antt has what it takes out of the names of files). An inbox is the list of its files in the order of their
-- names; how reading, moving or unlinking a file ends is part of the file. Approval.antt has the documents and the boxes
-- of requests for approval of sovereign_agent/ipc/approval.py, and how decisions are recorded and found; the
-- executor's side of it is with the executor.
--
-- Tickets: sovereign_agent/tickets/state.py (State.antt), manifest.py (Manifest.antt) and ticket.py
-- (Ticket.antt). A ticket is the object together with the files of its directory; `state.json` is kept
-- as the record written to it, `manifest.json` as the manifest. SHA-256 is the parameter sha256, and the
-- files that a manifest lists are a dictionary from paths to contents, one for each call of succeed.
--
-- Executor: sovereign_agent/executor/__init__.py with RegisteredTool.execute of
-- sovereign_agent/tools/registry.py (Tool.antt) and the requests of sovereign_agent/ipc/approval.py.
-- Dispatch.antt has _invoke_tool and _dispatch_tool_calls. Tools read and change a state of any type W.
-- asyncio.gather is a pool of coroutines: the environment picks who runs next, a coroutine runs to its
-- end when picked, and each result stands at its coroutine's place. Tools that interleave at their own
-- awaits, an argument that is named `self`, and a tool call whose arguments are no JSON object, for which
-- `tool.execute(**arguments)` raises a TypeError out of the loop, are outside the model. What the writes of
-- an approval request end in is a parameter. Loop.antt and React.antt have _react_loop; the model's answers are any function of the messages,
-- which grow every turn, and the fuel of the loop is the number of turns that are left. The texts of repr,
-- json.dumps and str are parameters, and times are left out of events and requests. Resume.antt has
-- resume_from_approval, whose loop is that of _react_loop, and Ticketed.antt the ticket around a run, whose
-- times are given: writing the raw output may raise, and the file may have changed when the manifest is
-- verified, but the ticket's own files are taken to be written, and a run is not cancelled.
--
-- Mounts: sovereign_agent/orchestrator/mounts.py. A resolved path is the list of its components; what the
-- file system says of a path is the parameter fs.
--
-- Halves: StructuredHalf.run of sovereign_agent/halves/structured.py, over any type of data. What checks
-- and actions do, and the exceptions that they raise, is part of the rules.
-- Halves/Loop.antt is LoopHalf.run of sovereign_agent/halves/loop.py; the planner, the session's change of
-- state and the executor are the interface Services.
--
-- Errors: sovereign_agent/errors.py. Discovery: validate_schema of sovereign_agent/discovery.py.
--
-- Orchestrator: sovereign_agent/orchestrator/main.py. Process.antt fills Services with the session handle:
-- process_session, its dispatchers and advance_session_once work on the session's object and its document,
-- and while the planner or the executor runs (the interface Engine), others may write that document.
-- Callbacks.antt has the callbacks of the watcher and the start, Task.antt run_task. Trace events and logging
-- calls are left out, but for the append that advance_session_once makes outside its try block, which may
-- raise; writing a session's document is taken to succeed.
--
-- Not modelled: the confinement of paths, the planner's parsing and the verifiers, all of which
-- decide and can be added in this style; and process, network, file-system and command-line glue
-- (_internal/, the workers, observability/, voice/, cli/), which has little logic of its own. chapters/ and
-- examples/ are teaching copies and demonstrations.
pub mod Prelude
pub mod Queue
pub mod Scheduler
pub mod Session
pub mod Tickets
pub mod Executor
pub mod Mounts
pub mod Halves
pub mod Ipc
pub mod Errors
pub mod Discovery
pub mod Orchestrator
