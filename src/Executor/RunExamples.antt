-- ===== src/Executor/RunExamples.antt =====
-- Resuming and tickets at concrete runs of the executor.
use module_agents_part.Prelude.{◌∷◌, none, true, []}
use module_agents_part.Prelude.Json.{null}
use module_agents_part.Errors.{Exception}
use module_agents_part.Executor.Examples.{World, subgoal}
use module_agents_part.Executor.Loop.{ExecutorResult, answered}
use module_agents_part.Executor.Resume.{Shown}
use module_agents_part.Executor.Ticketed.{Surroundings, run_via_ticket, Tells, run_via_ticket-Tells}
use module_agents_part.Halves.Loop.{Attempt, done, raises}

abbrev shown : Shown
shown = record { show = λ v. "v"; dumps = λ v. "{}" }

abbrev surroundings : Surroundings
surroundings = record {
  sha256 = λ s. s;
  str_nat = λ n. "n";
  raw_path = "raw_output.json";
  raw_output = λ r. "{}";
  size_of = λ s. 2;
  metrics = λ r. null;
  raw_raises = λ r. none;
  files = λ r. ("raw_output.json", "{}") ∷ [];
  started = 5;
  completed = 9;
}

abbrev paid : Attempt ExecutorResult World
paid = done (answered "sg_1" true "paid" [] 1) []

run_via_ticket-Tells_example :
    Tells surroundings "tk_1" subgoal paid (run_via_ticket surroundings "tk_1" subgoal paid)
run_via_ticket-Tells_example = run_via_ticket-Tells surroundings "tk_1" subgoal paid

abbrev broken : Attempt ExecutorResult World
broken = raises (Exception.other "OSError" "disk") []

-- an exception of another kind is raised wrapped
wrapped :
    Tells surroundings "tk_1" subgoal broken (run_via_ticket surroundings "tk_1" subgoal broken)
wrapped = run_via_ticket-Tells surroundings "tk_1" subgoal broken
