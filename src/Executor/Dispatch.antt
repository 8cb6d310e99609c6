-- ===== src/Executor/Dispatch.antt =====
-- executor/__init__.py: _invoke_tool, _is_parallel_safe and _dispatch_tool_calls. A concurrent run goes
-- through its calls in an order that the environment picks, one whole call at a time.
use Prim.Native.String.{◌++◌ as concat}
use module_agents_part.Prelude.{
  ℕ, zero, suc, String, Bool, false, Option, none, some, List, [], ◌∷◌, ◌++◌, map, if◌then◌else◌,
}
use module_agents_part.Prelude.Dict.{get}
use module_agents_part.Prelude.Json.{Fields}
use module_agents_part.Executor.Tool.{ToolResult, Registry, Failure, execute, not_registered}

-- A tool call whose arguments are a JSON object. Arguments of another shape, for which
-- `tool.execute(**arguments)` raises a TypeError, are not modelled.
pub record ToolCall : Type 0 where
  pub id : String
  pub name : String
  pub arguments : Fields

-- what `_invoke_tool` returns: a result's dict, or the dict for an unknown tool
pub data ToolOutput : Type 0 where
  tool_result : ToolResult → ToolOutput
  unknown_tool : Failure → String → ToolOutput

-- the executor.tool_called event, without its time stamp
pub record TraceEvent : Type 0 where
  pub tool : String
  pub arguments : Fields
  pub success : Bool
  pub summary : String

pub data Policy : Type 0 where
  never always respect_tool_flags : Policy

-- What calls leave: their outputs, the events that they appended to the trace, and the state.
pub record Effect (R W : Type 0) : Type 0 where
  pub outputs : R
  pub events : List TraceEvent
  pub world : W

-- an original index with its call
abbrev pub Indexed : Type 0
Indexed = ℕ × ToolCall

-- enumerate(calls), from i on
unfoldable pub enumerate : ℕ → List ToolCall → List Indexed
enumerate i [] = []
enumerate i (c ∷ cs) = (i, c) ∷ enumerate (suc i) cs

-- a coroutine of `asyncio.gather`
pub data Slot : Type 0 where
  pending : ToolCall → Slot
  finished : ToolOutput → Slot

abbrev pub called : ToolCall → ToolResult → TraceEvent
called tc r = record {
  tool = tc.name;
  arguments = tc.arguments;
  success = r.success;
  summary = r.summary;
}

module _ {W : Type 0} (preview : Fields → String) (tools : Registry W) where
  -- _is_parallel_safe
  abbrev pub is_parallel_safe : String → Bool
  is_parallel_safe name = elim (get name tools) [ none ↦ false | some tool ↦ tool.parallel_safe ]

  -- _invoke_tool; the append to the trace is taken to succeed
  unfoldable pub invoke_tool : ToolCall → W → Effect ToolOutput W
  unfolding execute
  invoke_tool tc w = elim (get tc.name tools) [
    | none ↦ record {
      outputs = ToolOutput.unknown_tool (not_registered tc.name) (concat "unknown tool: " tc.name);
      events = [];
      world = w;
    }
    | some tool ↦
        let (r, w') = execute preview tool tc.arguments w in
        record { outputs = ToolOutput.tool_result r; events = called tc r ∷ []; world = w' }
  ]

  -- `if current: runs.append(current)`
  abbrev pub flush : List (List Indexed) → List Indexed → List (List Indexed)
  flush runs [] = runs
  flush runs (c ∷ cs) = runs ++ (c ∷ cs) ∷ []

  -- the body of the loop of the default policy, on `runs` and `current`
  unfoldable pub group_one :
      Indexed → List (List Indexed) × List Indexed → List (List Indexed) × List Indexed
  group_one (i, c) (runs, current) =
      if is_parallel_safe c.name
      then (runs, current ++ (i, c) ∷ [])
      else (flush runs current ++ ((i, c) ∷ []) ∷ [], [])

  -- the loop, and what follows it
  unfoldable pub group : List Indexed → List (List Indexed) × List Indexed → List (List Indexed)
  unfolding group_one
  group [] s = flush s.0 s.1
  group (x ∷ xs) s = group xs (group_one x s)

  -- the runs of a policy
  unfoldable pub runs_of : Policy → List ToolCall → List (List Indexed)
  unfolding enumerate group
  runs_of never calls = map (λ c. c ∷ []) (enumerate 0 calls)
  runs_of always calls = enumerate 0 calls ∷ []
  runs_of respect_tool_flags calls = group (enumerate 0 calls) ([], [])

  -- The n-th coroutine runs, if it has not run yet.
  unfoldable pub run_nth : ℕ → List Slot → W → Effect (List Slot) W
  unfolding invoke_tool
  run_nth n [] w = record { outputs = []; events = []; world = w }
  run_nth zero (pending c ∷ slots) w =
      let e = invoke_tool c w in
      record { outputs = finished e.outputs ∷ slots; events = e.events; world = e.world }
  run_nth zero (finished o ∷ slots) w = record {
    outputs = finished o ∷ slots;
    events = [];
    world = w;
  }
  run_nth (suc n) (s ∷ slots) w =
      let e = run_nth n slots w in
      record { outputs = s ∷ e.outputs; events = e.events; world = e.world }

  -- The coroutines that are left run in the order of the list.
  unfoldable pub run_rest : List Slot → W → Effect (List ToolOutput) W
  unfolding invoke_tool
  run_rest [] w = record { outputs = []; events = []; world = w }
  run_rest (pending c ∷ slots) w =
      let e = invoke_tool c w in
      let rest = run_rest slots e.world in
      record {
        outputs = e.outputs ∷ rest.outputs;
        events = e.events ++ rest.events;
        world = rest.world;
      }
  run_rest (finished o ∷ slots) w =
      let rest = run_rest slots w in
      record { outputs = o ∷ rest.outputs; events = rest.events; world = rest.world }

  -- asyncio.gather: the environment picks who runs next; the results come in the order of the input
  unfoldable pub gather : List ℕ → List Slot → W → Effect (List ToolOutput) W
  unfolding run_nth run_rest
  gather [] slots w = run_rest slots w
  gather (n ∷ picks) slots w =
      let e = run_nth n slots w in
      let rest = gather picks e.outputs e.world in
      record { outputs = rest.outputs; events = e.events ++ rest.events; world = rest.world }

  -- the body of `for run in runs`, up to the stores
  unfoldable pub perform : List ℕ → List Indexed → W → Effect (List ToolOutput) W
  unfolding invoke_tool gather
  perform picks ((i, c) ∷ []) w =
      let e = invoke_tool c w in
      record { outputs = e.outputs ∷ []; events = e.events; world = e.world }
  perform picks run w = gather picks (map (λ (x : Indexed). pending x.1) run) w

-- outputs[i] = result
unfoldable pub store_at : ℕ → ToolOutput → List (Option ToolOutput) → List (Option ToolOutput)
store_at i o [] = []
store_at zero o (x ∷ xs) = some o ∷ xs
store_at (suc i) o (x ∷ xs) = x ∷ store_at i o xs

-- the loop over zip(run, results)
unfoldable pub store :
    List Indexed → List ToolOutput → List (Option ToolOutput) → List (Option ToolOutput)
unfolding store_at
store ((i, c) ∷ run) (o ∷ os) outputs = store run os (store_at i o outputs)
store _ _ outputs = outputs

-- [None] * len(calls)
unfoldable pub blanks : List ToolCall → List (Option ToolOutput)
blanks [] = []
blanks (c ∷ cs) = none ∷ blanks cs

-- The outputs, or `none` where the assertion that every slot is populated fails.
unfoldable pub populated : List (Option ToolOutput) → Option (List ToolOutput)
populated [] = some []
populated (none ∷ xs) = none
populated (some o ∷ xs) = elim (populated xs) [ none ↦ none | some os ↦ some (o ∷ os) ]

module _ {W : Type 0} (preview : Fields → String) (tools : Registry W) where
  -- the loop over the runs; `schedule` picks the order within a run
  unfoldable pub perform_all :
      (List Indexed → W → List ℕ)
      → List (List Indexed)
      → List (Option ToolOutput)
      → W
      → Effect (List (Option ToolOutput)) W
  unfolding perform store
  perform_all schedule [] outputs w = record { outputs = outputs; events = []; world = w }
  perform_all schedule (run ∷ runs) outputs w =
      let e = perform preview tools (schedule run w) run w in
      let rest = perform_all schedule runs (store run e.outputs outputs) e.world in
      record { outputs = rest.outputs; events = e.events ++ rest.events; world = rest.world }

  -- _dispatch_tool_calls
  unfoldable pub dispatch :
      (List Indexed → W → List ℕ) → Policy → List ToolCall → W → Effect (Option (List ToolOutput)) W
  unfolding runs_of perform_all populated blanks
  dispatch schedule policy [] w = record { outputs = some []; events = []; world = w }
  dispatch schedule policy (c ∷ cs) w =
      let e = perform_all schedule (runs_of preview tools policy (c ∷ cs)) (blanks (c ∷ cs)) w in
      record { outputs = populated e.outputs; events = e.events; world = e.world }
