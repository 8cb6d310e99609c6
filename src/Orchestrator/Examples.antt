-- ===== src/Orchestrator/Examples.antt =====
-- The theorems about the orchestrator at concrete sessions.
use module_agents_part.Prelude.{ℕ, ◌+◌, ◌≡◌, refl, true, false, Option, none, some, [], ◌∷◌}
use module_agents_part.Prelude.Dict.{get}
use module_agents_part.Prelude.Json.{Fields, str, obj, end, field}
use module_agents_part.Errors.{Exception}
use module_agents_part.Executor.Loop.{answered}
use module_agents_part.Halves.Loop.{done, raises}
use module_agents_part.Session.State.{to_dict}
use module_agents_part.Session.Store.{Document, readable, loaded, read_entry}
use module_agents_part.Session.Examples.{clock, fresh}
use module_agents_part.Queue.State.{init}
use module_agents_part.Ipc.Consume.{File, parsed}
use module_agents_part.Ipc.Watcher.{SessionFiles, Handlers}
use module_agents_part.Orchestrator.Process.{Engine, process_session}
use module_agents_part.Orchestrator.Processed.{Processed, process_session-Processed}
use module_agents_part.Orchestrator.Advancing.{document_reads}
use module_agents_part.Orchestrator.Callbacks.{on_handoff}
use module_agents_part.Orchestrator.Handing.{Handled, on_handoff-Handled}
use module_agents_part.Orchestrator.Task.{run_task}
use module_agents_part.Orchestrator.TaskEnding.{Ends, initial_document, run_task-Ends}

-- one subgoal, which succeeds; the world counts the runs
abbrev engine : Engine ℕ
engine = record {
  plan = λ l.
      done
        (record { id = "sg_1"; description = "d"; success_criterion = "c"; assigned_half = "loop" }
          ∷ [])
        (l.handle.disk, l.world);
  execute = λ sg l. done (answered "sg_1" true "booked" [] 1) (l.handle.disk, l.world + 1);
  planner_dict = λ sgs. obj end;
  output_dict = λ o. obj (field "final_answer" (str "booked") end);
  str_nat = λ n. "1";
}

-- an executor that raises
abbrev broken : Engine ℕ
broken = record engine {
  execute = λ sg l. raises (Exception.other "OSError" "disk") (l.handle.disk, l.world);
}

abbrev doc : Option Document
doc = some (readable (to_dict clock fresh))

process_session-Processed_example :
    Processed clock doc 0 (read_entry clock "s" doc) (process_session clock 9 engine "s" doc 0)
process_session-Processed_example = process_session-Processed clock 9 engine "s" doc 0

abbrev payload : Fields
payload = field "result" (str "done") end

abbrev completion : File
completion = record {
  name = "session_complete.json";
  is_file = true;
  is_tmp = false;
  modified_ms = some 500;
  content = parsed (obj payload);
  movable = true;
  deletable = true;
}

abbrev handlers : Handlers
handlers = record { on_output = false; on_handoff = true; on_complete = true }

abbrev files : SessionFiles
files = record {
  outputs = none;
  ipc = [];
  completion = some completion;
  audit = [];
  malformed = [];
  reasons = 0;
  logged_completion = none;
}

reads_fresh : read_entry clock "s" doc ≡ loaded (record { session_id = "s"; state = fresh })
reads_fresh =
    document_reads clock {W = ℕ} "s" "planning"
      (record { handle = record { state = fresh; disk = to_dict clock fresh }; world = 0 })
      (refl, refl)

abbrev handed : Option Document
handed = some (readable (to_dict clock (record fresh { state = "handed_off_to_structured" })))

on_handoff-Handled_example :
    Handled clock 9 "s" handed "structured"
      (str "confirm")
      (init 2 true)
      (read_entry clock "s" handed)
      (on_handoff clock 9 "s" handed "structured" (str "confirm") (init 2 true))
on_handoff-Handled_example =
    on_handoff-Handled clock 9 "s" handed "structured" (str "confirm") (init 2 true)

run_task-Ends_example :
    Ends clock "sess_1"
      (process_session clock 9 engine "sess_1"
        (initial_document clock "sess_1" 9 "demo" "book" none)
        0)
      (run_task clock (λ v. "x") 9 engine 0 "sess_1" "demo" "book" none [])
unfolding get
run_task-Ends_example =
    run_task-Ends clock (λ v. "x") 9 engine 0 "sess_1" "demo" "book" none [] refl
