-- ===== src/Executor/Dispatching.antt =====
-- What _dispatch_tool_calls promises under each policy.
use module_agents_part.Prelude.{
  ℕ, zero, suc, ◌≡◌, refl, sym, ap, ◌∙◌, String, true, Option, some, List, [], ◌∷◌, ◌++◌, map,
  length, length-append, All, All-mono, All-map, arith, inl, inr, option_ind,
}
use module_agents_part.Prelude.Dict.{get}
use module_agents_part.Prelude.Json.{Fields}
use module_agents_part.Executor.Tool.{Registry, RegisteredTool, ToolResult, execute, verify_call}
use module_agents_part.Executor.Dispatch.{
  ToolCall, ToolOutput, Effect, Indexed, Slot, pending, finished, Policy, never, respect_tool_flags,
  is_parallel_safe, invoke_tool, run_nth, run_rest, gather, perform, perform_all, dispatch, store,
  blanks, populated, enumerate, runs_of,
}
use module_agents_part.Executor.Batching.{
  joined, joined-runs_of, runs_of-IsSafeRun, IsSafeRun, IsSafe,
}
use module_agents_part.Executor.Pool.{KeepsWorld, Agrees}
use module_agents_part.Executor.Sequential.{
  call_of, IsOrderly, done_in_order, dispatch-Agrees, store-append, store-enumerate, populated-some,
}

module _ {W : Type 0} (preview : Fields → String) (tools : Registry W) where
  -- Tools that are marked as safe to run in parallel do not change the state.
  abbrev pub AreReadOnly : Type 0
  AreReadOnly =
      (name : String) (tool : RegisteredTool W)
      → get name tools ≡ some tool
      → tool.parallel_safe ≡ true
      → (args : Fields) (w : W) → (tool.fn args w).1 ≡ w

  execute_keeps :
      (tool : RegisteredTool W) (args : Fields) (w : W)
      → (tool.fn args w).1 ≡ w
      → (execute preview tool args w).1 ≡ w
  unfolding execute
  execute_keeps tool args w h =
      option_ind (λ (r : ToolResult × W). r.1 ≡ w) (verify_call preview tool args) (λ _. h)
        (λ r _. refl)

  safe-KeepsWorld :
      (read_only : AreReadOnly) (c : ToolCall)
      → is_parallel_safe preview tools c.name ≡ true
      → KeepsWorld preview tools c
  unfolding invoke_tool
  safe-KeepsWorld read_only c safe w =
      option_ind (λ (e : Effect ToolOutput W). e.world ≡ w) (get c.name tools) (λ _. refl)
        (λ tool found.
          execute_keeps tool c.arguments w
            (read_only c.name tool found (marked tool found) c.arguments w))
    where
      marked : (tool : RegisteredTool W) → get c.name tools ≡ some tool → tool.parallel_safe ≡ true
      marked tool found = ground (arith, found, safe)

  -- If the tools that are marked parallel-safe do not change the state, then a turn under the default
  -- policy gives the outputs and leaves the state that the calls one after the other do, and the same
  -- trace events up to their order, whatever order the concurrent calls run in.
  pub respect_tool_flags-Agrees :
      (read_only : AreReadOnly) (schedule : List Indexed → W → List ℕ) (calls : List ToolCall)
      (w : W)
      → Agrees
          (dispatch preview tools schedule respect_tool_flags calls w)
          (done_in_order preview tools calls w)
  respect_tool_flags-Agrees read_only schedule calls w =
      dispatch-Agrees preview tools schedule respect_tool_flags calls w (
        All-mono (IsSafeRun preview tools) (IsOrderly preview tools) orderly
          (runs_of preview tools respect_tool_flags calls) (runs_of-IsSafeRun preview tools calls))
    where
      orderly : (run : List Indexed) → IsSafeRun preview tools run → IsOrderly preview tools run
      orderly run (inl alone) = inl alone
      orderly run (inr safe) = inr (
          All-map (KeepsWorld preview tools) call_of run (
            All-mono (IsSafe preview tools) (λ x. KeepsWorld preview tools x.1)
              (λ x. safe-KeepsWorld read_only x.1) run safe))

  -- Under the policy "never" a turn is its calls one after the other, whatever the tools do.
  never-Agrees :
      (schedule : List Indexed → W → List ℕ) (calls : List ToolCall) (w : W)
      → Agrees (dispatch preview tools schedule never calls w) (done_in_order preview tools calls w)
  never-Agrees schedule calls w =
      dispatch-Agrees preview tools schedule never calls w
        (unfold runs_of in alone (enumerate 0 calls))
    where
      alone : (xs : List Indexed) → All (IsOrderly preview tools) (map (λ x. x ∷ []) xs)
      alone [] = tt
      alone (x ∷ xs) = (inl refl, alone xs)

  length-run_nth :
      (n : ℕ) (slots : List Slot) (w : W)
      → length (run_nth preview tools n slots w).outputs ≡ length slots
  unfolding run_nth
  length-run_nth n [] w = refl
  length-run_nth zero (pending c ∷ slots) w = refl
  length-run_nth zero (finished o ∷ slots) w = refl
  length-run_nth (suc n) (s ∷ slots) w = ap suc (length-run_nth n slots w)

  length-run_rest :
      (slots : List Slot) (w : W) → length (run_rest preview tools slots w).outputs ≡ length slots
  unfolding run_rest
  length-run_rest [] w = refl
  length-run_rest (pending c ∷ slots) w =
      ap suc (length-run_rest slots (invoke_tool preview tools c w).world)
  length-run_rest (finished o ∷ slots) w = ap suc (length-run_rest slots w)

  length-gather :
      (picks : List ℕ) (slots : List Slot) (w : W)
      → length (gather preview tools picks slots w).outputs ≡ length slots
  unfolding gather
  length-gather [] slots w = length-run_rest slots w
  length-gather (n ∷ picks) slots w =
      length-gather picks (run_nth preview tools n slots w).outputs
        (run_nth preview tools n slots w).world
      ∙ length-run_nth n slots w

  length-map_pending :
      (xs : List Indexed) → length (map (λ (x : Indexed). pending x.1) xs) ≡ length xs
  length-map_pending [] = refl
  length-map_pending (x ∷ xs) = ap suc (length-map_pending xs)

  length-perform :
      (picks : List ℕ) (run : List Indexed) (w : W)
      → length (perform preview tools picks run w).outputs ≡ length run
  unfolding perform
  length-perform picks [] w = length-gather picks [] w
  length-perform picks (x ∷ []) w = refl
  length-perform picks (x ∷ y ∷ run) w =
      length-gather picks (map (λ (x : Indexed). pending x.1) (x ∷ y ∷ run)) w
      ∙ length-map_pending (x ∷ y ∷ run)

  -- the loop stores one output for each call of the runs
  stores_all :
      (schedule : List Indexed → W → List ℕ) (runs : List (List Indexed))
      (outs : List (Option ToolOutput)) (w : W)
      → (os : List ToolOutput) × (length os ≡ length (joined runs))
        × ((perform_all preview tools schedule runs outs w).outputs ≡ store (joined runs) os outs)
  unfolding perform_all
  stores_all schedule [] outs w = ([], refl, unfold store in refl)
  stores_all schedule (run ∷ runs) outs w =
      let e = perform preview tools (schedule run w) run w in
      let (os, len, same) = stores_all schedule runs (store run e.outputs outs) e.world in
      let all_run = length-perform (schedule run w) run w in
      (
        e.outputs ++ os,
        omega (arith, length-append e.outputs os, length-append run (joined runs), len, all_run),
        same ∙ sym (store-append run (joined runs) e.outputs os outs all_run),
      )

  length-enumerate : (i : ℕ) (cs : List ToolCall) → length (enumerate i cs) ≡ length cs
  unfolding enumerate
  length-enumerate i [] = refl
  length-enumerate i (c ∷ cs) = ap suc (length-enumerate (suc i) cs)

  -- Whatever the policy, the tools and the order of concurrent calls: the assertion that every slot is
  -- populated holds, and there is one output for each call.
  pub dispatch_total :
      (schedule : List Indexed → W → List ℕ) (policy : Policy) (calls : List ToolCall) (w : W)
      → (os : List ToolOutput) × (length os ≡ length calls)
        × ((dispatch preview tools schedule policy calls w).outputs ≡ some os)
  unfolding dispatch
  dispatch_total schedule policy [] w = ([], refl, refl)
  dispatch_total schedule policy (c ∷ cs) w =
      let calls = c ∷ cs in
      let (os, len, same) =
        stores_all schedule (runs_of preview tools policy calls) (blanks calls) w in
      let same_runs = joined-runs_of preview tools policy calls in
      let one_each = len ∙ ap length same_runs ∙ length-enumerate 0 calls in
      (
        os,
        one_each,
        ap populated (
              same
              ∙ ap (λ xs. store xs os (blanks calls)) same_runs
              ∙ store-enumerate calls os [] one_each)
            ∙ populated-some os,
      )
