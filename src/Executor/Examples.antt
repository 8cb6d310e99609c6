-- ===== src/Executor/Examples.antt =====
-- The theorems about the executor at concrete inputs.
use module_agents_part.Prelude.{
  ℕ, ◌≡◌, refl, ap, subst, String, true, false, Option, none, some, List, [], ◌∷◌, if_ind, ◌==◌,
  map,
}
use module_agents_part.Prelude.Dict.{get, put}
use module_agents_part.Prelude.Json.{Fields, end, field, str}
use module_agents_part.Executor.Tool.{RegisteredTool, Registry, returned_dict, returned_result}
use module_agents_part.Executor.Dispatch.{ToolCall, Indexed, respect_tool_flags, runs_of, dispatch}
use module_agents_part.Executor.Pool.{Agrees}
use module_agents_part.Executor.Sequential.{done_in_order}
use module_agents_part.Executor.Dispatching.{AreReadOnly, respect_tool_flags-Agrees}
use module_agents_part.Executor.Loop.{both_written, Subgoal, response, Session, LoopEnd, returned}
use module_agents_part.Executor.React.{Executor, react_loop}
use module_agents_part.Executor.Outcome.{EndsWell, react_loop-EndsWell}

-- the state is a list of notes
abbrev pub World : Type 0
World = List String

abbrev preview : Fields → String
preview d = "..."

abbrev read_notes : RegisteredTool World
read_notes = record {
  name = "read_notes";
  fn = λ args w. (returned_dict (field "last" (str (elim w [ [] ↦ "" | n ∷ ns ↦ n ])) end), w);
  parallel_safe = true;
  verify_args = none;
}

abbrev add_note : RegisteredTool World
add_note = record {
  name = "add_note";
  fn = λ args w. (returned_dict end, "note" ∷ w);
  parallel_safe = false;
  verify_args = none;
}

abbrev pay : RegisteredTool World
pay = record {
  name = "pay";
  fn = λ args w. (
    returned_result (record {
      success = true;
      output = field "approval_reason" (str "over the threshold") end;
      summary = "payment proposed";
      error = none;
      requires_human_approval = true;
    }),
    w,
  );
  parallel_safe = false;
  verify_args = none;
}

abbrev tools : Registry World
tools = ("read_notes", read_notes) ∷ ("add_note", add_note) ∷ ("pay", pay) ∷ []

abbrev call : String → String → ToolCall
call id name = record { id = id; name = name; arguments = end }

abbrev calls : List ToolCall
calls =
    call "1" "read_notes"
    ∷ call "2" "read_notes"
    ∷ call "3" "add_note"
    ∷ call "4" "read_notes"
    ∷ call "5" "lost"
    ∷ []

-- the second coroutine first
abbrev schedule : List Indexed → World → List ℕ
schedule run w = 1 ∷ []

-- [read, read, write, read, unknown]: two reads together, the others alone
grouped :
    map (map (λ (x : Indexed). x.0)) (runs_of preview tools respect_tool_flags calls)
    ≡ (0 ∷ 1 ∷ []) ∷ (2 ∷ []) ∷ (3 ∷ []) ∷ (4 ∷ []) ∷ []
unfolding runs_of get
grouped = refl

final_notes : (dispatch preview tools schedule respect_tool_flags calls []).world ≡ "note" ∷ []
unfolding dispatch get
final_notes = refl

abbrev unwrap : RegisteredTool World → Option (RegisteredTool World) → RegisteredTool World
unwrap d none = d
unwrap d (some t) = t

abbrev Keeps : Option (RegisteredTool World) → Type 0
Keeps o =
    (tool : RegisteredTool World)
    → o ≡ some tool
    → tool.parallel_safe ≡ true
    → (args : Fields) (w : World) → (tool.fn args w).1 ≡ w

read_only : AreReadOnly preview tools
unfolding get
read_only name =
    if_ind Keeps ("read_notes" == name)
      (λ _ tool e safe args w.
        subst (λ (t : RegisteredTool World). (t.fn args w).1 ≡ w) (ap (unwrap read_notes) e) refl)
      (λ _.
        if_ind Keeps ("add_note" == name) (λ _ tool e safe args w. cc)
          (λ _.
            if_ind Keeps ("pay" == name) (λ _ tool e safe args w. cc) (λ _ tool e safe args w. cc)))

respect_tool_flags-Agrees_example :
    Agrees
      (dispatch preview tools schedule respect_tool_flags calls [])
      (done_in_order preview tools calls [])
respect_tool_flags-Agrees_example =
    respect_tool_flags-Agrees preview tools read_only schedule calls []

-- two turns: a write and a read, then a payment
abbrev pub executor : Executor World
executor = record {
  system_prompt = "You run one subgoal.";
  tools = tools;
  policy = respect_tool_flags;
  preview = preview;
  dumps = λ o. "{}";
  str_nat = λ n. "n";
  schedule = schedule;
  writing = λ q. both_written;
  chat = λ messages. elim messages [
    | (m ∷ n ∷ []) ↦ response none (call "1" "add_note" ∷ call "2" "read_notes" ∷ [])
    | _ ↦ response none (call "call_1234567" "pay" ∷ call "4" "read_notes" ∷ [])
  ];
}

abbrev pub subgoal : Subgoal
subgoal = record {
  id = "sg_1";
  description = "pay";
  success_criterion = "paid";
  assigned_half = "loop";
}

abbrev pub session : Session World
session = record { world = []; trace = []; awaiting = [] }

react_loop-EndsWell_example :
    EndsWell executor 8 session
      (react_loop executor subgoal session 8).0
      (react_loop executor subgoal session 8).1
react_loop-EndsWell_example = react_loop-EndsWell executor subgoal session 8

abbrev ids : LoopEnd → Option String
ids (returned r) = r.awaiting_approval
ids _ = none

pauses : ids (react_loop executor subgoal session 8).0 ≡ some "appr_xec_sg_1__1234567"
unfolding react_loop get put
pauses = refl
